-- ===== src/Slave.antt =====
-- src/gproc/slave.go: what a slave reports, how it answers the process that it starts for a request, and
-- that process: `slaveProc`, which runs the program and sends the request on, and `runLocal`.
-- What the process learns from outside is a parameter, `Around`.
pub mod Sent
pub mod Local
pub mod Main
pub mod Deaf
pub mod Answered
pub mod Tests
pub mod StartTests
use gproc.Common.{
  ℕ, suc, ◌+◌, Bool, true, false, ◌&&◌, not, List, [], ◌∷◌, ◌++◌, Option, none, some, Str, codes,
  str_eq, split, ◌==◌, if◌then◌else◌,
}
use gproc.Protocol.{StartReq, VitalData}
use gproc.NodeList.{NodeExecList, Parsed, parsed, bad_range, running, parse_node_list}
use gproc.Registry.{Slaves, MapOrder, serv_intersect}
use gproc.Dispatch.{Net, Node, Ended, returned, panicked, endless, send_to_set}

-- The checks of `runSlave` on its flags: false is a panic.
unfoldable pub flags_ok : Bool → ℕ → Str → Str → Str → Bool
flags_ok do_private_mount uid parent my_address my_id =
    not (do_private_mount && not (uid == 0))
    && (not (str_eq parent []) && (not (str_eq my_address []) && not (str_eq my_id [])))

-- The address that `startSlave` listens on: the host of its side of the connection, and any port.
abbrev pub head_or_empty : List Str → Str
head_or_empty [] = []
head_or_empty (s ∷ parts) = s

unfoldable pub listen_address : Str → Str
listen_address local_addr = head_or_empty (split b':' local_addr) ++ codes ":0"

-- The vital data of a slave: its id, and the addresses of its listener and of the two sides of its
-- connection.
unfoldable pub slave_vital_data : Str → Str → Str → Str → VitalData
slave_vital_data my_id server_addr local_addr remote_addr = record {
  host_ready = true;
  error_text = [];
  host_addr = local_addr;
  parent_addr = remote_addr;
  server_addr = server_addr;
  id = my_id;
  nodes = [];
  exceptlist = [];
}

-- `initSlave`: the id from the response; it panics where there is none.
unfoldable pub init_slave : Option Str → Ended Str
init_slave none = panicked
init_slave (some resp_id) = returned resp_id

-- The slave's answer to the nodes that its process asks for: their addresses.
unfoldable pub answer_child : MapOrder → Slaves → NodeExecList → Option NodeExecList
answer_child go slaves ne = elim (serv_intersect go slaves ne.nodes) [
  | none ↦ none
  | some servers ↦ some (record ne { nodes = servers })
]

-- What `slaveProc` learns: the request, if `Recv` gives one; whether it reaches the proxy above; what
-- the slave answers, if `Recv` gives that; the network and the address of its own proxy, if it listens.
pub record Around : Type 0 where
  pub request : Option StartReq
  pub reaches_proxy : Bool
  pub answer : NodeExecList → Option NodeExecList
  pub proxy : Option (Str × Str)

-- What the process has done: the request that it started the program of, the nodes that it asked for, and
-- the requests that it sent on.
pub record Child : Type 0 where
  pub node : Node
  pub started : Option StartReq
  pub asked : List NodeExecList

-- How `slaveProc` goes on: it has returned, or it waits for so many workers and its own program.
pub data Next : Type 0 where
  gave_up : Next
  waits : ℕ → Next

-- `for _, _ = range availableSlaves.Nodes { numWorkers += 1 }`
unfoldable pub count_workers : List Str → ℕ → ℕ
count_workers [] num_workers = num_workers
count_workers (s ∷ nodes) num_workers = count_workers nodes (num_workers + 1)

-- The request that is sent on, and the number of workers; `none` is the panic where the proxy cannot
-- listen. Without nodes there is no proxy.
unfoldable pub set_proxy : Option (Str × Str) → List Str → StartReq → Option (ℕ × StartReq)
unfolding count_workers
set_proxy proxy [] req = some (0, req)
set_proxy none (s ∷ nodes) req = none
set_proxy (some (network, address)) (s ∷ nodes) req =
    some (count_workers (s ∷ nodes) 0, record req { lfam = network; lserver = address })

-- From the proxy to the wait for the workers.
abbrev pub send_down :
    Net → Str → NodeExecList → NodeExecList → Child → Option (ℕ × StartReq) → Ended Next × Child
send_down net bin_root ne available c none = (panicked, c)
send_down net bin_root ne available c (some (num_workers, req)) = (
  returned (waits num_workers),
  record c { node = (send_to_set net req ne.subnodes bin_root available.nodes c.node).1 },
)

-- From the answer on.
abbrev pub with_answer :
    Net → Str → Around → NodeExecList → StartReq → Child → Option NodeExecList → Ended Next × Child
with_answer net bin_root e ne req c none = (returned gave_up, c)
with_answer net bin_root e ne req c (some available) =
    send_down net bin_root ne available c (set_proxy e.proxy available.nodes req)

-- From the parsed node list on; only its first entry is looked at.
abbrev pub with_nodes : Net → Str → Around → StartReq → Child → Parsed → Ended Next × Child
with_nodes net bin_root e req c (parsed []) = (panicked, c)
with_nodes net bin_root e req c (parsed (ne ∷ more)) =
    with_answer net bin_root e ne req (record c { asked = c.asked ++ ne ∷ [] }) (e.answer ne)
with_nodes net bin_root e req c (bad_range rl) = (returned gave_up, c)
with_nodes net bin_root e req c running = (endless, c)

-- `slaveProc` behind the mount; the fuel is that of `parseNodeList`.
unfoldable pub slave_proc : ℕ → Net → Str → Around → Node → Ended Next × Child
unfolding set_proxy
slave_proc fuel net bin_root e n =
    let idle : Child = record { node = n; started = none; asked = [] } in
    elim e.request [
      | none ↦ (panicked, idle)
      | some req ↦
          if e.reaches_proxy
          then with_nodes net bin_root e req (record idle { started = some req })
              (parse_node_list fuel req.nodes)
          else (returned gave_up, idle)
    ]

-- `slaveProc`: a private mount that is asked for and fails panics.
unfoldable pub mount_and_run : Bool → Bool → ℕ → Net → Str → Around → Node → Ended Next × Child
unfolding slave_proc
mount_and_run do_private_mount mounts fuel net bin_root e n =
    if do_private_mount && not mounts
    then (panicked, record { node = n; started = none; asked = [] })
    else slave_proc fuel net bin_root e n

-- A process that is started.
pub record Process : Type 0 where
  pub exec_path : Str
  pub args : List Str
  pub env : List Str
  pub dir : Str

-- The loop that builds `LD_LIBRARY_PATH`.
unfoldable pub add_libs : Str → Str → List Str → Str → Str
add_libs bin_root path [] ld_lib_path = ld_lib_path
add_libs bin_root path (s ∷ libs) ld_lib_path =
    add_libs bin_root path libs (ld_lib_path ++ bin_root ++ path ++ s ++ codes ":")

-- What `runLocal` starts; `none` is the panic on a request without arguments.
unfoldable pub run_local : Str → StartReq → Option Process
unfolding add_libs
run_local bin_root req = elim req.args [
  | [] ↦ none
  | arg ∷ args ↦ some (record {
    exec_path = if req.local_bin then arg else bin_root ++ req.path ++ arg;
    args = arg ∷ args;
    env = req.env ++ add_libs bin_root req.path req.lib_list (codes "LD_LIBRARY_PATH=") ∷ [];
    dir = bin_root ++ codes "/" ++ req.cwd;
  })
]
