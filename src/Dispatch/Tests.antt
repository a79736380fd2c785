-- ===== src/Dispatch/Tests.antt =====
-- Runs of the dispatch, and the instances of its theorems.
use gproc.Common.{
  zero, suc, ℕ, ◌+◌, true, false, List, [], ◌∷◌, ◌++◌, none, ◌≡◌, ◌≢◌, refl, arith, Str, codes,
  split, split_2, length, map, All,
}
use gproc.Common.Dict.{lookup, insert, delete}
use gproc.Protocol.{CmdToExec, StartReq}
use gproc.NodeList.{running, parse_part, parse_node_list}
use gproc.Registry.{new_slaves, add, remove, get}
use gproc.Registry.Consistent.{IsConsistent}
use gproc.Registry.Tests.{in_place, one_slave, one_slave-IsConsistent}
use gproc.Dispatch.{
  Net, Node, relay_files, send_one, send_each, send_to_set, send_commands, returned,
}
use gproc.Dispatch.Reached.{reached, delegation, send_to_set_lem, send_commands_lem}
use gproc.Dispatch.Failed.{missed, send_to_set-missed}

abbrev command : ℕ → Str → CmdToExec
command ftype name = record {
  current_name = name;
  dest_name = name;
  symlink_target = [];
  local_file = 0;
  uid = 0;
  gid = 0;
  ftype = ftype;
  perm = 493;
}

abbrev pub request : Str → StartReq
request nodes = record {
  command = codes "e";
  nodes = nodes;
  peers = [];
  this_node = false;
  local_bin = false;
  args = codes "/bin/date" ∷ [];
  env = [];
  lib_list = codes "/lib" ∷ [];
  path = [];
  lfam = codes "tcp";
  lserver = codes "10.0.0.1:9";
  bytes_to_transfer = 4;
  uid = 0;
  gid = 0;
  cmds = command 0 (codes "/bin/date") ∷ command 3 (codes "/dev/null") ∷ [];
  peer_group_size = 0;
  cwd = codes "/";
  files = [];
}

abbrev pub a_node : Node
a_node = record { slaves = one_slave; dials = 0; sent = []; replies = [] }

-- Every second dial fails.
abbrev pub flaky : Net
flaky k s = elim k [ zero ↦ true | suc j ↦ false ]

abbrev pub targets : List Str
targets = codes "10.0.0.9:7000" ∷ codes "10.0.0.9:7000" ∷ []

-- The special file is not sent along, the count is that of the first dial, and the slave is gone.
send_runs :
    ((send_to_set flaky (request []) [] (codes "/tmp/xproc") targets a_node).0 ≡ 1)
    × (length (relay_files (codes "/tmp/xproc") (request []).cmds) ≡ 1)
    × ((send_to_set flaky (request []) [] (codes "/tmp/xproc") targets a_node).1.slaves.slaves ≡ [])
unfolding send_to_set send_each send_one relay_files add remove get new_slaves insert lookup delete
send_runs = (refl, refl, refl)

send_to_set_lem_example :
    ((send_to_set flaky (request []) (codes ".") [] targets a_node).0
      ≡ length (reached flaky 0 targets))
    × ((send_to_set flaky (request []) (codes ".") [] targets a_node).1.sent
        ≡ [] ++ map (delegation (request (codes ".")) []) (reached flaky 0 targets))
    × ((send_to_set flaky (request []) (codes ".") [] targets a_node).1.dials ≡ 0 + length targets)
    × ((send_to_set flaky (request []) (codes ".") [] targets a_node).1.replies ≡ [])
send_to_set_lem_example = send_to_set_lem flaky (request []) [] (codes ".") targets a_node

pub reads : parse_node_list 4 (codes "1,.") ≢ running
unfolding parse_node_list parse_part split split_2
reads e = ground arith

send_commands_lem_example :
    (c : ℕ) × ((send_commands 4 flaky in_place (request (codes "1,.")) [] a_node).0 ≡ returned c)
    × (length (send_commands 4 flaky in_place (request (codes "1,.")) [] a_node).1.sent ≡ 0 + c)
send_commands_lem_example =
    send_commands_lem 4 flaky in_place (request (codes "1,.")) [] a_node reads

send_to_set-missed_example :
    All
      (λ a. get (send_to_set flaky (request []) [] [] targets a_node).1.slaves a ≡ none)
      (missed flaky 0 targets)
    × IsConsistent (send_to_set flaky (request []) [] [] targets a_node).1.slaves
send_to_set-missed_example =
    send_to_set-missed flaky (request []) [] [] targets a_node one_slave-IsConsistent
