-- ===== src/Forth/Compose.antt =====
-- src/forth/forth.go: commands put one behind the other, and words in place of their commands.
use gproc.Common.{
  ℕ, suc, false, ◌||◌, List, [], ◌∷◌, ◌++◌, ◌≡◌, ◌≢◌, refl, sym, ap, ◌∙◌, inl, inr, arith, Str,
  codes, str_eq, str_eq_self, split, Lacks, Bool-cases,
}
use mathlib.Core.Path.{fun_ext}
use gproc.Common.Split.{split-append, split-Lacks}
use gproc.Common.Dict.{Dict, lookup, lookup-insert}
use gproc.Forth.Machine.{Stack, Outcome, ok, panic, running, Exec, pure, continue, ◌>>◌}
use gproc.Forth.{Op, call, run_vals, i_eval, new_word}

continue_assoc :
    (r : Outcome (Unit {0})) (s : Stack) (n k : Exec (Unit {0}))
    → continue (continue r (λ _. n) s).0 (λ _. k) (continue r (λ _. n) s).1
      ≡ continue r (λ _. n >> k) s
continue_assoc (ok a) s n k = refl
continue_assoc (panic p) s n k = refl
continue_assoc running s n k = refl

seq_assoc : (m n k : Exec (Unit {0})) → ((m >> n) >> k) ≡ (m >> (n >> k))
seq_assoc m n k = fun_ext λ s. continue_assoc (m s).0 (m s).1 n k

run_vals-append :
    (ev : Str → Exec (Unit {0})) (ops : Dict Op) (us vs : List Str)
    → run_vals ev ops (us ++ vs) ≡ (run_vals ev ops us >> run_vals ev ops vs)
unfolding run_vals
run_vals-append ev ops [] vs = refl
run_vals-append ev ops (u ∷ us) vs = elim (Bool-cases (str_eq u [] || str_eq u (codes " "))) [
  | inl skip ↦ rw skip (run_vals-append ev ops us vs)
  | inr used ↦ rw used (
      ap (λ k. call ev u (lookup u ops) >> k) (run_vals-append ev ops us vs)
      ∙ sym (seq_assoc (call ev u (lookup u ops)) (run_vals ev ops us) (run_vals ev ops vs)))
]

-- Two commands with a space between them are evaluated one after the other, and the second is not
-- started if the first panics.
pub i_eval-append :
    (fuel : ℕ) (ops : Dict Op) (s t : Str)
    → i_eval (suc fuel) ops (s ++ b' ' ∷ t) ≡ (i_eval (suc fuel) ops s >> i_eval (suc fuel) ops t)
unfolding i_eval
i_eval-append fuel ops s t = rw (split-append b' ' s t) (run_vals-append _ ops (split b' ' s) _)

seq-pure : (m : Exec (Unit {0})) → (m >> pure tt) ≡ m
seq-pure m = fun_ext λ s. go (m s).0 (m s).1
  where
    go : (r : Outcome (Unit {0})) (s : Stack) → continue r (λ _. pure tt) s ≡ (r, s)
    go (ok a) s = refl
    go (panic p) s = refl
    go running s = refl

-- A name without a space that is not empty is one element of a command.
run_one :
    (ev : Str → Exec (Unit {0})) (ops : Dict Op) (name : Str)
    → name ≢ []
    → Lacks b' ' name
    → run_vals ev ops (name ∷ []) ≡ call ev name (lookup name ops)
unfolding run_vals
run_one ev ops [] h lacks = absurd (h refl)
run_one ev ops (c ∷ s) h lacks =
    let used : (str_eq (c ∷ s) [] || str_eq (c ∷ s) (codes " ")) ≡ false = ground arith in
    rw used (seq-pure (call ev (c ∷ s) (lookup (c ∷ s) ops)))

-- After `NewWord`, the name evaluates as its command does with one level of nesting less.
pub new_word_lem :
    (fuel : ℕ) (ops : Dict Op) (name command : Str)
    → name ≢ []
    → Lacks b' ' name
    → i_eval (suc fuel) (new_word name command ops) name
      ≡ i_eval fuel (new_word name command ops) command
unfolding i_eval new_word
new_word_lem fuel ops name command h lacks =
    rw (split-Lacks b' ' name lacks, run_one _ _ name h lacks, lookup-insert, str_eq_self)
      (unfold call in refl)
