-- ===== src/Master/Register.antt =====
-- src/gproc/common.go, src/gproc/master.go: slaves that report, and what the programs that ask are told
-- of them.
use gproc.Common.{ℕ, ◌++◌, Option, none, some, ◌≡◌, refl, sym, arith, Str, split_2}
use mathlib.Core.Path.{subst}
use gproc.Protocol.{VitalData}
use gproc.Registry.{add, get, info_of}
use gproc.Registry.Consistent.{IsConsistent, IsNew, add-IsConsistent, get-add}
use gproc.Dispatch.{Node, Ended, returned}
use gproc.Master.{Master, any_address, cut_7, fix_server, learn_netaddr, add_slave, register}

learn-node : (vd : VitalData) (m : Master) → (learn_netaddr vd m).node ≡ m.node
unfolding learn_netaddr
learn-node vd m = ground arith

netaddr-add_slave :
    (vd : VitalData) (r : ℕ) (m : Master) (o : Option Str)
    → (add_slave vd r m o).1.netaddr ≡ m.netaddr
netaddr-add_slave vd r m none = refl
netaddr-add_slave vd r m (some server) = refl

fix_any :
    (server remote rest : Str)
    → server ≡ any_address ++ rest
    → fix_server server remote (cut_7 server) ≡ some ((split_2 b':' remote).0 ++ rest)
fix_any server remote rest e = rw e

-- What a registration must achieve.
abbrev Found : VitalData → ℕ → Str → Ended (Option Str) × Master → Type 0
Found vd r server res =
    (res.0 ≡ returned (some vd.id))
    × (get res.1.node.slaves vd.id ≡ some (info_of (record vd { server_addr = server }) r))
    × (get res.1.node.slaves server ≡ some (info_of (record vd { server_addr = server }) r))
    × IsConsistent res.1.node.slaves

add_slave-Found :
    (vd : VitalData) (r : ℕ) (server : Str) (m : Master)
    → IsNew (record vd { server_addr = server }) m.node.slaves
    → IsConsistent m.node.slaves
    → Found vd r server (add_slave vd r m (some server))
add_slave-Found vd r server m new h =
    let vd' = record vd { server_addr = server } in
    let found = get-add vd' r m.node.slaves new in
    (unfold add in refl, found.0, found.1, (add-IsConsistent vd' r m.node.slaves new h).0)

-- A slave that reports the unspecified host is registered under the host that it came from, if its id
-- and this address are new to a consistent registry: it is found by both, and told its id.
pub register_found :
    (vd : VitalData) (r : ℕ) (remote rest : Str) (m : Master)
    → vd.server_addr ≡ any_address ++ rest
    → IsNew (record vd { server_addr = (split_2 b':' remote).0 ++ rest }) m.node.slaves
    → IsConsistent m.node.slaves
    → ((register (some vd) r remote m).0 ≡ returned (some vd.id))
      × (get (register (some vd) r remote m).1.node.slaves vd.id
          ≡ some (info_of (record vd { server_addr = (split_2 b':' remote).0 ++ rest }) r))
      × (get (register (some vd) r remote m).1.node.slaves ((split_2 b':' remote).0 ++ rest)
          ≡ some (info_of (record vd { server_addr = (split_2 b':' remote).0 ++ rest }) r))
      × IsConsistent (register (some vd) r remote m).1.node.slaves
unfolding register
register_found vd r remote rest m e new h =
    let server = (split_2 b':' remote).0 ++ rest in
    let same = sym (learn-node vd m) in
    rw (fix_any vd.server_addr remote rest e) (
      add_slave-Found vd r server (learn_netaddr vd m)
        (subst (λ (n : Node). IsNew (record vd { server_addr = server }) n.slaves) same new)
        (subst (λ (n : Node). IsConsistent n.slaves) same h))
