-- ===== src/Log.antt =====
-- src/gproc/common.go: the log with its prefix, and how the messages are printed in it.
pub mod Short
pub mod Printed
pub mod Tests
use gproc.Common.{
  ℕ, zero, suc, ◌+◌, ◌-◌, Bool, List, [], ◌∷◌, ◌++◌, Option, none, some, Str, codes, join, length,
  map, ◌==◌, if◌then◌else◌,
}
use gproc.Decimal.{itoa_nat}
use gproc.Protocol.{CmdToExec, StartReq}
use gproc.Registry.{SlaveInfo}

-- The state of package `log` with the global `log_prefix`, and the lines that were written.
pub record Logger : Type 0 where
  pub prefix : Str
  pub log_prefix : Str
  pub lines : List Str

-- `file[i]`, which the code reads in range only.
abbrev pub byte_at : ℕ → Str → ℕ
byte_at i [] = 0
byte_at zero (c ∷ s) = c
byte_at (suc i) (c ∷ s) = byte_at i s

-- `file[i:]`
abbrev pub from : ℕ → Str → Str
from zero s = s
from (suc i) [] = []
from (suc i) (c ∷ s) = from i s

-- The loop from `i` down to 1.
unfoldable pub short_from : ℕ → Str → Str
short_from zero file = file
short_from (suc i) file =
    let rest = short_from i file in
    if byte_at (suc i) file == b'/' then from (suc i + 1) file else rest

unfoldable pub short_name : Str → Str
unfolding short_from
short_name file = short_from (length file - 1) file

-- `log_prologue`, called from a line of a file.
unfoldable pub log_prologue : Str → ℕ → Logger → Logger
unfolding short_name
log_prologue file line l = record l {
  log_prefix = l.prefix;
  prefix = l.prefix ++ codes ":" ++ short_name file ++ codes ":" ++ itoa_nat line ++ codes ": ";
}

unfoldable pub log_epilogue : Logger → Logger
log_epilogue l = record l { prefix = l.log_prefix }

-- `log.Println` of a text.
abbrev pub println : Str → Logger → Logger
println text l = record l { lines = l.lines ++ (l.prefix ++ text) ∷ [] }

-- `log_info`
unfoldable pub log_info : Bool → Str → ℕ → Str → Logger → Logger
unfolding log_prologue log_epilogue
log_info extra_debug file line text l =
    if extra_debug then log_epilogue (println text (log_prologue file line l)) else l

-- `log_error`: the state in which it panics.
unfoldable pub log_error : Str → ℕ → Str → Logger → Logger
unfolding log_prologue
log_error file line text l = println text (log_prologue file line l)

-- The `String` methods of the messages.
unfoldable pub slave_resp_string : Str → Str
slave_resp_string id = codes "id: " ++ id

unfoldable pub slave_info_string : Option SlaveInfo → Str
slave_info_string none = codes "<nil>"
slave_info_string (some s) = s.id ++ codes "@" ++ s.addr

-- A slice as `fmt` prints it.
abbrev pub slice_string : List Str → Str
slice_string parts = codes "[" ++ join b' ' parts ++ codes "]"

unfoldable pub cmd_string : CmdToExec → Str
cmd_string a = a.current_name

unfoldable pub start_req_string : StartReq → Str
unfolding cmd_string join
start_req_string s =
    s.nodes
    ++ codes " "
    ++ slice_string s.peers
    ++ codes " "
    ++ slice_string s.args
    ++ codes " "
    ++ slice_string (map cmd_string s.cmds)
