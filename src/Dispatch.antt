-- ===== src/Dispatch.antt =====
-- src/gproc/common.go, src/gproc/master.go: how a node hands a request on to the nodes below it.
-- A node's state is its registry, how often it has dialled, the requests that are on their way, and what
-- it has answered to the program that asked. Whether a dial succeeds is a parameter.
pub mod Reached
pub mod Failed
pub mod Tests
use gproc.Common.{
  ℕ, zero, suc, ◌+◌, Bool, true, false, List, [], ◌∷◌, ◌++◌, Option, none, some, Str, codes, leb,
  if◌then◌else◌,
}
use gproc.Protocol.{File, CmdToExec, StartReq, Resp, new_start_req}
use gproc.NodeList.{NodeExecList, Parsed, parsed, bad_range, running, parse_node_list}
use gproc.Registry.{SlaveInfo, Slaves, MapOrder, get, remove, serv_intersect}

-- The answers of `Dial`: to the call number `k` (from 0), for an address.
abbrev pub Net : Type 0
Net = ℕ → Str → Bool

-- A request that is sent to an address.
pub record Delegation : Type 0 where
  pub to : Str
  pub req : StartReq

pub record Node : Type 0 where
  pub slaves : Slaves
  pub dials : ℕ
  pub sent : List Delegation
  pub replies : List Resp

-- The files that go with the request: directories, regular files and symbolic links, found under `root`.
unfoldable pub relay_files : Str → List CmdToExec → List File
relay_files root [] = []
relay_files root (c ∷ cmds) =
    let rest = relay_files root cmds in
    if leb c.ftype 2
    then record {
      current_name = root ++ c.dest_name;
      dest_name = c.dest_name;
      symlink_target = c.symlink_target;
      uid = c.uid;
      gid = c.gid;
      ftype = c.ftype;
      perm = c.perm;
    }
      ∷ rest
    else rest

-- `larg`: the copy of the request that is sent.
abbrev pub larg : StartReq → Str → StartReq
larg arg root =
    let copy = new_start_req arg in record copy { files = copy.files ++ relay_files root copy.cmds }

-- `cacheRelayFilesAndDelegateExec`: true where it returns nil.
unfoldable pub relay_and_delegate : Net → StartReq → Str → Str → Node → Bool × Node
relay_and_delegate net arg root clientnode n =
    if net n.dials clientnode
    then (
      true,
      record n {
        dials = n.dials + 1;
        sent = n.sent ++ record { to = clientnode; req = larg arg root } ∷ [];
      },
    )
    else (false, record n { dials = n.dials + 1 })

-- The end of the loop's body where the dial failed.
abbrev pub drop_slave : Option SlaveInfo → Slaves → Slaves
drop_slave none sv = sv
drop_slave (some si) sv = remove si sv

-- The body of the loop of `sendCommandsToANodeSet`: what is added to `numnodes`, and the new state.
unfoldable pub send_one : Net → StartReq → Str → Str → Node → ℕ × Node
unfolding relay_and_delegate
send_one net req root s n =
    let (done, n') = relay_and_delegate net req root s n in
    if done then (1, n') else (0, record n' { slaves = drop_slave (get n'.slaves s) n'.slaves })

unfoldable pub send_each : Net → StartReq → Str → List Str → Node → ℕ × Node
send_each net req root [] n = (0, n)
send_each net req root (s ∷ node_set) n =
    let one = send_one net req root s n in
    let rest = send_each net req root node_set one.1 in (one.0 + rest.0, rest.1)

-- `sendCommandsToANodeSet`
unfoldable pub send_to_set : Net → StartReq → Str → Str → List Str → Node → ℕ × Node
send_to_set net req sub_nodes root node_set n =
    send_each net (record req { nodes = sub_nodes }) root node_set n

-- How a function ends: with its result, by a panic that ends the program, or not at all.
pub data Ended (A : Type 0) : Type 0 where
  returned : A → Ended A
  panicked : Ended A
  endless : Ended A

abbrev pub add_count : ℕ → Ended ℕ × Node → Ended ℕ × Node
add_count k (returned c, n) = (returned (k + c), n)
add_count k (panicked, n) = (panicked, n)
add_count k (endless, n) = (endless, n)

-- The loop of `sendCommandsToNodes` over the entries.
unfoldable pub send_entries :
    Net → MapOrder → StartReq → Str → List NodeExecList → Node → Ended ℕ × Node
send_entries net go req root [] n = (returned 0, n)
send_entries net go req root (a_node ∷ slave_nodes) n =
    elim (serv_intersect go n.slaves a_node.nodes) [
      | none ↦ (panicked, n)
      | some node_set ↦ add_count (send_to_set net req a_node.subnodes root node_set n).0 (
          send_entries net go req root slave_nodes
            (send_to_set net req a_node.subnodes root node_set n).1)
    ]

abbrev pub bad_list : Resp
bad_list = record {
  num_nodes = 0;
  msg = codes "startExecution: bad slaveNodeList: bad range format";
}

abbrev pub reply : Resp → Node → Node
reply r n = record n { replies = n.replies ++ r ∷ [] }

-- `sendCommandsToNodes`; the fuel is that of `parseNodeList`.
unfoldable pub send_commands : ℕ → Net → MapOrder → StartReq → Str → Node → Ended ℕ × Node
unfolding send_entries
send_commands fuel net go req root n = elim (parse_node_list fuel req.nodes) [
  | parsed slave_nodes ↦ send_entries net go req root slave_nodes n
  | bad_range rl ↦ (returned 0, reply bad_list n)
  | running ↦ (endless, n)
]
