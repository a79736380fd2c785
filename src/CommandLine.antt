-- ===== src/CommandLine.antt =====
-- src/gproc/main.go: the evaluation of the three flags that name a node, and the choice of the mode.
pub mod Modes
pub mod Flags
pub mod Argv
pub mod Tests
use gproc.Common.{
  ℕ, Bool, true, false, not, ◌||◌, List, [], ◌∷◌, Option, none, some, Str, codes, str_eq, leb,
  length, if◌then◌else◌,
}
use gproc.Common.Dict.{Dict}
use gproc.Forth.Machine.{Stack}
use gproc.Forth.{Op, Returned, value, failed, crashed, no_result, eval}
use gproc.Protocol.{StartReq, Resp, VitalData}
use gproc.Dispatch.{Ended, returned, panicked, endless}

-- `-myId`, `-myAddress` and `-myParent`.
pub record NodeFlags : Type 0 where
  pub my_id : Str
  pub my_address : Str
  pub parent : Str

-- A flag is evaluated on the stack that the flags before it have left; an error is a panic.
abbrev pub next_flag :
    Returned × Stack → (Str → Stack → Ended NodeFlags × Stack) → Ended NodeFlags × Stack
next_flag (value v, stack) go_on = go_on v stack
next_flag (failed e, stack) go_on = (panicked, stack)
next_flag (crashed e, stack) go_on = (panicked, stack)
next_flag (no_result, stack) go_on = (endless, stack)

-- The three evaluations of `main`, on one new stack; the fuel is that of `Eval`.
unfoldable pub eval_flags : ℕ → Dict Op → NodeFlags → Ended NodeFlags × Stack
eval_flags fuel ops flags = next_flag (eval fuel ops flags.my_id []) (λ my_id s.
    next_flag (eval fuel ops flags.my_address s) (λ my_address s'.
      next_flag (eval fuel ops flags.parent s') (λ parent s''.
        (returned (record { my_id = my_id; my_address = my_address; parent = parent }), s''))))

-- What `main` goes on with.
pub data Mode : Type 0 where
  start_master : Mode
  run_slave : Mode
  start_execution : Str → List Str → Mode
  get_info : Str → Mode
  slave_proc : Mode
  usage : Mode

abbrev pub one_of : Str → List Str → Bool
one_of s [] = false
one_of s (t ∷ ts) = str_eq s t || one_of s ts

abbrev pub exec_mode : List Str → Mode
exec_mode (slave_nodes ∷ arg ∷ cmd) = start_execution slave_nodes (arg ∷ cmd)
exec_mode _ = usage

abbrev pub alone : List Str → Mode → Mode
alone [] mode = mode
alone (arg ∷ args) mode = usage

-- The `switch` on the first argument; `usage` ends the program.
unfoldable pub mode_of : List Str → Mode
mode_of [] = usage
mode_of (mode ∷ args) =
    if one_of mode (codes "MASTER" ∷ codes "master" ∷ codes "m" ∷ [])
    then alone args start_master
    else if one_of mode (codes "WORKER" ∷ codes "worker" ∷ codes "s" ∷ [])
    then alone args run_slave
    else if one_of mode (codes "EXEC" ∷ codes "exec" ∷ codes "e" ∷ [])
    then exec_mode args
    else if one_of mode (codes "INFO" ∷ codes "info" ∷ codes "i" ∷ [])
    then alone args (get_info [])
    else if str_eq mode (codes "R")
    then slave_proc
    else usage
