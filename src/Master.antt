-- ===== src/Master.antt =====
-- src/gproc/master.go, src/gproc/common.go: the two loops of the master, one connection at a time:
-- `receiveCmds`, which serves the programs that the user starts, and `registerSlaves`, to which slaves
-- report. The globals that the loops share are one record.
pub mod Serve
pub mod Register
pub mod Reach
pub mod Interleaved
pub mod Told
pub mod Schedules
pub mod Tests
use gproc.Common.{
  ℕ, zero, suc, ◌+◌, Bool, true, false, not, List, [], ◌∷◌, ◌++◌, Option, none, some, Str, codes,
  str_eq, split_2, length, map, ◌==◌, if◌then◌else◌,
}
use gproc.Common.Dict.{Dict, insert}
use gproc.Protocol.{StartReq, Resp, VitalData}
use gproc.Registry.{Slaves, MapOrder, add, new_slaves}
use gproc.Dispatch.{Net, Node, Ended, returned, panicked, endless, send_commands, reply}

-- The globals of the process, and the parts of the `vitalData` of `receiveCmds` that change. Its map
-- of excepted files is the global one. What is sent on the connection is in `node.replies`, behind the
-- vital data that was sent first, in `vitals`.
pub record Master : Type 0 where
  pub node : Node
  pub netaddr : Str
  pub except_files : Dict Bool
  pub except_list : List Str
  pub host_ready : Bool
  pub error_text : Str
  pub host_addr : Str
  pub vitals : List VitalData

-- The vital data as it is sent now.
abbrev pub vital_data : Master → VitalData
vital_data m = record {
  host_ready = m.host_ready;
  error_text = m.error_text;
  host_addr = m.host_addr;
  parent_addr = [];
  server_addr = [];
  id = [];
  nodes = [];
  exceptlist = m.except_files;
}

-- The state at the start of `receiveCmds`.
abbrev pub start_master : Master
start_master = record {
  node = record { slaves = new_slaves; dials = 0; sent = []; replies = [] };
  netaddr = [];
  except_files = [];
  except_list = [];
  host_ready = false;
  error_text = codes "No hosts ready";
  host_addr = [];
  vitals = [];
}

-- The start of the connection's function: the vital data is brought up to date and sent.
unfoldable pub greet : Master → Master
greet m =
    let m' =
      if str_eq m.netaddr []
      then m
      else record m { host_ready = true; error_text = []; host_addr = m.netaddr } in
    record m' { vitals = m'.vitals ++ vital_data m' ∷ [] }

abbrev pub respond : Resp → Master → Master
respond r m = record m { node = reply r m.node }

-- The loop over the names of the files to except.
unfoldable pub except_all : List Str → Dict Bool → Dict Bool
except_all [] files = files
except_all (s ∷ args) files = except_all args (insert s true files)

-- The answer to `x`.
unfoldable pub do_except : MapOrder → StartReq → Master → Master
unfolding except_all
do_except go a m =
    let files = except_all a.args m.except_files in
    respond (record { num_nodes = 0; msg = codes "Files accepted" })
      (record m { except_files = files; except_list = map (λ e. e.0) (go.order files) })

-- One line for each address: the address, a space, the id.
unfoldable pub info_lines : List (Str × Str) → Str
info_lines [] = []
info_lines ((i, s) ∷ entries) = (i ++ codes " " ++ s ++ codes "\n") ++ info_lines entries

-- The answer to `i`.
unfoldable pub do_info : MapOrder → Master → Master
unfolding info_lines
do_info go m =
    let addrs = m.node.slaves.addr2id in
    respond (record { num_nodes = length addrs; msg = info_lines (go.order addrs) }) m

-- The end of the answer to `e`.
abbrev pub finish_exec : Master → Ended ℕ × Node → Ended (Unit {0}) × Master
finish_exec m (returned numnodes, n) = (
  returned tt,
  record m {
    node = reply (record { num_nodes = numnodes; msg = codes "sendCommandsToNodes finished" }) n;
  },
)
finish_exec m (panicked, n) = (panicked, record m { node = n })
finish_exec m (endless, n) = (endless, record m { node = n })

-- The answer to `e`.
unfoldable pub do_exec : ℕ → Net → MapOrder → StartReq → Master → Ended (Unit {0}) × Master
do_exec fuel net go a m =
    if not m.host_ready
    then (returned tt, m)
    else finish_exec m (send_commands fuel net go a [] m.node)

-- The `switch` on the first byte of the command; there is none in an empty command.
unfoldable pub switch_command :
    ℕ → Net → MapOrder → StartReq → Str → Master → Ended (Unit {0}) × Master
switch_command fuel net go a [] m = (panicked, m)
switch_command fuel net go a (c ∷ command) m =
    if c == b'x'
    then (returned tt, do_except go a m)
    else if c == b'i'
    then (returned tt, do_info go m)
    else if c == b'e'
    then do_exec fuel net go a m
    else (returned tt, respond (record { num_nodes = 0; msg = codes "unknown command" }) m)

-- The function that serves one connection; `none` is an error of `Recv`.
unfoldable pub serve : ℕ → Net → MapOrder → Option StartReq → Master → Ended (Unit {0}) × Master
serve fuel net go none m = (returned tt, greet m)
serve fuel net go (some a) m = switch_command fuel net go a a.command (greet m)

-- The bytes of "0.0.0.0".
abbrev pub any_address : Str
any_address = codes "0.0.0.0"

-- `s[0:7]` and `s[7:]`; `none` is the panic on a shorter string.
abbrev pub cut_7 : Str → Option (Str × Str)
cut_7 (a ∷ b ∷ c ∷ d ∷ e ∷ f ∷ g ∷ rest) = some (a ∷ b ∷ c ∷ d ∷ e ∷ f ∷ g ∷ [], rest)
cut_7 _ = none

-- The address under which the slave is registered: an unspecified host is replaced by the one that the
-- connection came from.
abbrev pub fix_server : Str → Str → Option (Str × Str) → Option Str
fix_server server remote none = none
fix_server server remote (some (head, rest)) =
    some (if str_eq head any_address then (split_2 b':' remote).0 ++ rest else server)

-- The node's own address, taken from the first slave that reports.
unfoldable pub learn_netaddr : VitalData → Master → Master
learn_netaddr vd m =
    if str_eq m.netaddr [] then record m { netaddr = (split_2 b':' vd.parent_addr).0 } else m

abbrev pub add_slave : VitalData → ℕ → Master → Option Str → Ended (Option Str) × Master
add_slave vd r m none = (panicked, m)
add_slave vd r m (some server) =
    let (slaves', resp_id) = add (record vd { server_addr = server }) r m.node.slaves in
    (returned (some resp_id), record m { node = record m.node { slaves = slaves' } })

-- One round of `registerSlaves`, for the connection `r` from `remote`: the id that is sent back, or
-- nothing where `Recv` failed.
unfoldable pub register : Option VitalData → ℕ → Str → Master → Ended (Option Str) × Master
unfolding learn_netaddr
register none r remote m = (returned none, m)
register (some vd) r remote m =
    add_slave vd r (learn_netaddr vd m) (fix_server vd.server_addr remote (cut_7 vd.server_addr))
