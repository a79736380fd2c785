-- ===== src/Forth.antt =====
-- src/forth/forth.go: the stack, the operators, the operator map and the evaluator.
-- The stack is a list with its top first. A run returns what happened and the stack that it left,
-- also where it panicked: the program goes on with that stack.
pub mod Machine
pub mod Ops
pub mod Frame
pub mod Compose
pub mod Numbers
pub mod Fuel
pub mod Tests
use gproc.Common.{
  ℕ, zero, suc, Bool, ◌||◌, true, false, List, [], ◌∷◌, Option, none, some, ◌≡◌, refl, Str, codes,
  str_eq, split, if◌then◌else◌,
}
use gproc.Common.Dict.{Dict, lookup, insert}
use Machine.{
  Stack, GoError, RuntimeError, Outcome, ok, panic, running, error_value, runtime_error,
  string_value, divide_by_zero, type_assertion, Exec, pure, raise, out_of_fuel, push, pop, ◌>>=◌,
  ◌>>◌,
}
use Ops.{plus, sub, times, div, mod_op, swap, ifelse, hostname, hostbase, strcat, roundup, dup}

-- A `forthop`: a Go function, a closure that `NewWord` made, or nil.
pub data Op : Type 0 where
  go_func : Exec (Unit {0}) → Op
  word : Str → Op
  nil_func : Op

-- The initial `opmap`, for what `os.Hostname` returns (`none` stands for its error).
abbrev pub opmap : Option Str → Dict Op
opmap os_hostname =
    (codes "+", go_func plus)
    ∷ (codes "-", go_func sub)
    ∷ (codes "*", go_func times)
    ∷ (codes "/", go_func div)
    ∷ (codes "%", go_func mod_op)
    ∷ (codes "swap", go_func swap)
    ∷ (codes "ifelse", go_func ifelse)
    ∷ (codes "hostname", go_func (hostname os_hostname))
    ∷ (codes "hostbase", go_func hostbase)
    ∷ (codes "strcat", go_func strcat)
    ∷ (codes "roundup", go_func roundup)
    ∷ (codes "dup", go_func dup)
    ∷ []

-- `Newop`, which sets the map that all stacks share.
unfoldable pub newop : Str → Op → Dict Op → Dict Op
newop n op ops = insert n op ops

-- `NewWord`.
unfoldable pub new_word : Str → Str → Dict Op → Dict Op
new_word name command ops = insert name (word command) ops

-- What `iEval` does with one element: `eval_word` runs the command of a word.
call : (Str → Exec (Unit {0})) → Str → Option Op → Exec (Unit {0})
call eval_word val none = push val
call eval_word val (some nil_func) = push val
call eval_word val (some (go_func fun)) = fun
call eval_word val (some (word command)) = eval_word command

-- The loop of `iEval` over the elements.
run_vals : (Str → Exec (Unit {0})) → Dict Op → List Str → Exec (Unit {0})
run_vals eval_word ops [] = pure tt
run_vals eval_word ops (val ∷ vals) =
    let rest = run_vals eval_word ops vals in
    let now = call eval_word val (lookup val ops) in
    if str_eq val [] || str_eq val (codes " ") then rest else now >> rest

-- `iEval`; the fuel bounds how deep words are nested.
unfoldable pub i_eval : ℕ → Dict Op → Str → Exec (Unit {0})
unfolding run_vals call
i_eval zero ops s = out_of_fuel
i_eval (suc fuel) ops s = run_vals (i_eval fuel ops) ops (split b' ' s)

-- What a caller of `Eval` sees: the two results, or the end of the program.
pub data Returned : Type 0 where
  value : Str → Returned
  failed : GoError → Returned
  crashed : RuntimeError → Returned
  no_result : Returned

-- `errRecover`: an `error` becomes the result, a runtime error panics again, and the type assertion
-- on any other value is itself a runtime error.
abbrev pub err_recover : Outcome Str → Returned
err_recover (ok ret) = value ret
err_recover (panic (error_value e)) = failed e
err_recover (panic (runtime_error e)) = crashed e
err_recover (panic (string_value s)) = crashed type_assertion
err_recover running = no_result

-- `Eval`, with the stack that it leaves.
unfoldable pub eval : ℕ → Dict Op → Str → Stack → Returned × Stack
unfolding i_eval
eval fuel ops s stack =
    let (r, stack') = (i_eval fuel ops s >> pop) stack in (err_recover r, stack')
