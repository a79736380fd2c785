-- ===== src/Slave/Tests.antt =====
-- Runs of a slave's process, and the instances of its theorems.
use gproc.Common.{
  ◌+◌, true, false, [], ◌∷◌, ◌++◌, some, ◌≡◌, refl, arith, Str, codes, split, split_2, length, map,
}
use gproc.NodeList.{NodeExecList, parsed, parse_node_list, parse_part, expand}
use gproc.Dispatch.{returned, panicked}
use gproc.Dispatch.Reached.{reached, delegation}
use gproc.Dispatch.Failed.{missed}
use gproc.Dispatch.Tests.{request, a_node, flaky, targets}
use gproc.Slave.{
  Around, Child, Process, waits, flags_ok, listen_address, slave_proc, mount_and_run, run_local,
}
use gproc.Slave.Sent.{passed_on, slave_proc_lem}
use gproc.Slave.Local.{run_local_lem}

abbrev own : NodeExecList
own = record { nodes = codes "." ∷ []; subnodes = codes "2" }

abbrev below : NodeExecList
below = record { nodes = targets; subnodes = [] }

abbrev around : Str → Around
around nodes = record {
  request = some (request nodes);
  reaches_proxy = true;
  answer = λ ne. some below;
  proxy = some (codes "tcp", codes "10.0.0.9:8000");
}

reads : parse_node_list 4 (codes "./2") ≡ parsed (own ∷ [])
unfolding parse_node_list parse_part expand split split_2
reads = refl

flags_run :
    (flags_ok true 0 (codes "master") (codes "kn1") (codes "1") ≡ true)
    × (flags_ok true 5 (codes "master") (codes "kn1") (codes "1") ≡ false)
    × (listen_address (codes "10.0.0.9:33000") ≡ codes "10.0.0.9:0")
unfolding flags_ok listen_address split
flags_run = (refl, refl, refl)

mount_fails :
    (mount_and_run true false 4 flaky (codes "/tmp") (around (codes "./2")) a_node).0 ≡ panicked
unfolding mount_and_run
mount_fails = refl

slave_proc_lem_example :
    (c : Child) × (slave_proc 4 flaky (codes "/tmp") (around (codes "./2")) a_node
      ≡ (returned (waits (length (reached flaky 0 targets) + length (missed flaky 0 targets))), c))
    × (c.started ≡ some (request (codes "./2")))
    × (c.asked ≡ own ∷ [])
    × (c.node.sent
        ≡ []
          ++ map
              (delegation
                (passed_on
                  (request (codes "./2"))
                  (codes "tcp")
                  (codes "10.0.0.9:8000")
                  (codes "2"))
                (codes "/tmp"))
              (reached flaky 0 targets))
slave_proc_lem_example =
    slave_proc_lem 4 flaky (codes "/tmp") (around (codes "./2")) a_node (request (codes "./2")) own
      below [] (codes "tcp") (codes "10.0.0.9:8000") refl refl reads refl
      (λ e. absurd (ground arith)) refl

run_local_lem_example :
    (p : Process) × (dirs : Str) × (run_local (codes "/tmp") (request []) ≡ some p)
    × (p.exec_path ≡ codes "/tmp/bin/date")
    × (p.env ≡ [] ++ (codes "LD_LIBRARY_PATH=" ++ dirs) ∷ [])
    × (split b':' dirs ≡ codes "/tmp/lib" ∷ [] ∷ [])
run_local_lem_example =
    run_local_lem (codes "/tmp") (codes "/bin/date") [] (request []) refl (ground arith)
