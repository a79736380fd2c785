-- ===== src/CommandLine/Modes.antt =====
-- src/gproc/main.go: the flags do not disturb each other, and the modes.
use gproc.Common.{
  ℕ, Bool, true, false, List, [], ◌∷◌, ◌++◌, ◌≡◌, ◌≢◌, refl, ap, arith, Str, codes, if◌then◌else◌,
}
use gproc.Common.Dict.{Dict, AllValues}
use gproc.Forth.Machine.{Stack}
use gproc.Forth.{Op, value, eval}
use gproc.Forth.Frame.{FramedOp, eval-append}
use gproc.Dispatch.{returned}
use gproc.CommandLine.{
  NodeFlags, eval_flags, Mode, start_execution, usage, one_of, exec_mode, alone, mode_of,
  start_master, run_slave, get_info, slave_proc,
}

-- Flags that each have a value on the empty stack have the same values when they are evaluated one
-- after the other on one stack, whatever they leave on it, with operators that do not look below
-- what they use.
pub eval_flags_lem :
    (fuel : ℕ) (ops : Dict Op) (flags : NodeFlags) (id address parent : Str) (s1 s2 s3 : Stack)
    → AllValues FramedOp ops
    → eval fuel ops flags.my_id [] ≡ (value id, s1)
    → eval fuel ops flags.my_address [] ≡ (value address, s2)
    → eval fuel ops flags.parent [] ≡ (value parent, s3)
    → eval_flags fuel ops flags
      ≡ (returned (record { my_id = id; my_address = address; parent = parent }), s3 ++ (s2 ++ s1))
unfolding eval_flags
eval_flags_lem fuel ops flags id address parent s1 s2 s3 framed e1 e2 e3 = rw e1 (
    rw (eval-append ops framed fuel flags.my_address [] s1 address s2 e2)
      (rw (eval-append ops framed fuel flags.parent [] (s2 ++ s1) parent s3 e3) refl))

module _ (slave_nodes : Str) (cmd : List Str) where
  -- The branches of the `switch`.
  alone-not_exec :
      (args : List Str) (m : Mode)
      → m ≢ start_execution slave_nodes cmd
      → alone args m ≢ start_execution slave_nodes cmd
  alone-not_exec [] m h e = h e
  alone-not_exec (a ∷ args) m h e = ground arith

  exec_mode_lem :
      (args : List Str)
      → exec_mode args ≡ start_execution slave_nodes cmd
      → (args ≡ slave_nodes ∷ cmd) × (cmd ≢ [])
  exec_mode_lem [] e = absurd (ground arith)
  exec_mode_lem (a ∷ []) e = absurd (ground arith)
  exec_mode_lem (a ∷ b ∷ args) e = ground arith

  switch_lem :
      (b1 b2 b3 b4 b5 : Bool) (args : List Str)
      → (if b1
          then alone args start_master
          else if b2
          then alone args run_slave
          else if b3
          then exec_mode args
          else if b4
          then alone args (get_info [])
          else if b5
          then slave_proc
          else usage)
        ≡ start_execution slave_nodes cmd
      → (b3 ≡ true) × (args ≡ slave_nodes ∷ cmd) × (cmd ≢ [])
  switch_lem true b2 b3 b4 b5 args e =
      absurd (alone-not_exec args start_master (λ k. ground arith) e)
  switch_lem false true b3 b4 b5 args e =
      absurd (alone-not_exec args run_slave (λ k. ground arith) e)
  switch_lem false false true b4 b5 args e =
      let (same, named) = exec_mode_lem args e in (refl, same, named)
  switch_lem false false false true b5 args e =
      absurd (alone-not_exec args (get_info []) (λ k. ground arith) e)
  switch_lem false false false false true args e = absurd (ground arith)
  switch_lem false false false false false args e = absurd (ground arith)

-- Only `e` with a node list and a command starts an execution, and then the command has a name.
pub mode_of_exec :
    (args : List Str) (slave_nodes : Str) (cmd : List Str)
    → mode_of args ≡ start_execution slave_nodes cmd
    → (mode : Str) × (args ≡ mode ∷ slave_nodes ∷ cmd)
      × (one_of mode (codes "EXEC" ∷ codes "exec" ∷ codes "e" ∷ []) ≡ true)
      × (cmd ≢ [])
unfolding mode_of
mode_of_exec [] slave_nodes cmd e = absurd (ground arith)
mode_of_exec (mode ∷ args) slave_nodes cmd e =
    let (is_exec, same, named) = switch_lem slave_nodes cmd _ _ _ _ _ args e in
    (mode, ap (λ r. mode ∷ r) same, is_exec, named)
