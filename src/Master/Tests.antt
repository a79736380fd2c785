-- ===== src/Master/Tests.antt =====
-- Runs of the master, and the instances of its theorems.
use gproc.Common.{◌+◌, true, false, [], ◌∷◌, ◌++◌, some, ◌≡◌, refl, codes, split_2, length}
use gproc.Protocol.{StartReq, VitalData}
use gproc.Registry.{new_slaves, info_of, get}
use gproc.Registry.Consistent.{IsConsistent, IsConsistent-new_slaves, IsNew}
use gproc.Registry.Tests.{in_place, first, first-IsNew, vital}
use gproc.Dispatch.{returned}
use gproc.Dispatch.Tests.{request, flaky, reads}
use gproc.Master.{Master, start_master, vital_data, greet, serve, register}
use gproc.Master.Serve.{answers, serve-answers}
use gproc.Master.Register.{register_found}
use gproc.Master.Reach.{Told, served, Reach, Reach-Told}
use gproc.Master.Reach as Serial
use gproc.Master.Interleaved
use gproc.Master.Interleaved.{
  System, act, tests, sets_ready, sets_error, sends, receives, accepted, acted, registered, start,
  next,
}
use gproc.Master.Told.{IsTold}
use gproc.Master.Schedules.{Reach-IsTold}

serve-answers_example :
    ((serve 4 flaky in_place (some (request (codes "1,."))) start_master).0 ≡ returned tt)
    × (length (serve 4 flaky in_place (some (request (codes "1,."))) start_master).1.node.replies
        ≡ 0 + answers 4 (request (codes "1,.")) (greet start_master).host_ready b'e')
serve-answers_example =
    serve-answers 4 flaky in_place (request (codes "1,.")) b'e' [] start_master refl reads

-- A request with no command.
abbrev nameless : StartReq
nameless = let r = request [] in record r { command = [] }

-- A slave that listens on the unspecified host.
abbrev unspecified : VitalData
unspecified = vital (codes "1") (codes "0.0.0.0:7000")

host : (split_2 b':' (codes "10.0.0.9:5")).0 ++ codes ":7000" ≡ codes "10.0.0.9:7000"
unfolding split_2
host = refl

unspecified-IsNew :
    IsNew
      (record unspecified { server_addr = (split_2 b':' (codes "10.0.0.9:5")).0 ++ codes ":7000" })
      new_slaves
unspecified-IsNew = rw host first-IsNew

register_found_example :
    ((register (some unspecified) 0 (codes "10.0.0.9:5") start_master).0
      ≡ returned (some (codes "1")))
    × (get
          (register (some unspecified) 0 (codes "10.0.0.9:5") start_master).1.node.slaves
          (codes "1")
        ≡ some (
            info_of
              (record unspecified {
                server_addr = (split_2 b':' (codes "10.0.0.9:5")).0 ++ codes ":7000";
              })
              0))
    × (get
          (register (some unspecified) 0 (codes "10.0.0.9:5") start_master).1.node.slaves
          ((split_2 b':' (codes "10.0.0.9:5")).0 ++ codes ":7000")
        ≡ some (
            info_of
              (record unspecified {
                server_addr = (split_2 b':' (codes "10.0.0.9:5")).0 ++ codes ":7000";
              })
              0))
    × IsConsistent (register (some unspecified) 0 (codes "10.0.0.9:5") start_master).1.node.slaves
register_found_example =
    register_found unspecified 0 (codes "10.0.0.9:5") (codes ":7000") start_master refl
      unspecified-IsNew IsConsistent-new_slaves

-- A slave reports, and then a program asks.
abbrev after_report : Master
after_report = (register (some first) 0 (codes "10.0.0.9:5") start_master).1

abbrev after_request : Master
after_request = (serve 4 flaky in_place (some (request (codes "."))) after_report).1

two_steps : Reach in_place after_request
two_steps =
    Serial.next
      (Serial.next Serial.start (Serial.registered (some first) 0 (codes "10.0.0.9:5") refl))
      (served 4 flaky (some (request (codes "."))) refl)

Reach-Told_example : Told after_request
Reach-Told_example = Reach-Told in_place two_steps

-- Two connections come, and the first finds no address. A slave reports, and the second connection finds the
-- address and sets that the hosts are ready. Then the first one sends.
abbrev reported : Master
reported = (register (some first) 0 (codes "10.0.0.9:5") start_master).1

abbrev half_set : Master
half_set = record reported { host_ready = true }

abbrev raced : System
raced = record {
  master = record half_set { vitals = half_set.vitals ++ vital_data half_set ∷ [] };
  points = receives ∷ sets_error ∷ [];
}

raced-Reach : Interleaved.Reach in_place raced
unfolding act register split_2
raced-Reach =
    next
      (next
        (next
          (next
            (next (next (next start (accepted refl)) (accepted refl))
              (acted [] (tests ∷ []) tests refl refl))
            (registered (some first) 0 (codes "10.0.0.9:5") refl))
          (acted (sends false ∷ []) [] tests refl refl))
        (acted (sends false ∷ []) [] sets_ready refl refl))
      (acted [] (sets_error ∷ []) (sends false) refl refl)

-- A program is told that the hosts are ready, with no address.
raced_vital :
    (raced.master.vitals ≡ vital_data half_set ∷ [])
    × ((vital_data half_set).host_ready ≡ true)
    × ((vital_data half_set).host_addr ≡ [])
unfolding register
raced_vital = (refl, refl, refl)

Reach-IsTold_example : IsTold raced.master raced.points
Reach-IsTold_example = Reach-IsTold in_place raced-Reach
