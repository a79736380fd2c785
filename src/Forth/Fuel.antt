-- ===== src/Forth/Fuel.antt =====
-- src/forth/forth.go: which words end, and how much nesting they need.
use gproc.Common.{
  ℕ, zero, suc, ◌<◌, ◌≤◌, Bool, true, false, List, [], ◌∷◌, ◌++◌, Option, none, some, ◌≡◌, ◌≢◌,
  refl, arith, Str, split, All, Lacks, if◌then◌else◌,
}
use native.Mathlib.Nat.{le_trans}
use gproc.Common.Int.{ℤ}
use gproc.Common.Dict.{Dict, lookup, AllValues, AllValues-lookup}
use gproc.Decimal.{NumErr}
use gproc.Forth.Machine.{
  Stack, Outcome, ok, panic, running, Exec, Panic, error_value, runtime_error, string_value, pure,
  raise, continue, push, pop, ◌>>=◌,
}
use gproc.Forth.Ops.{
  to_int, int_or_panic, divisor, plus, sub, times, div, mod_op, swap, ifelse, hostname, hostbase,
  strcat, roundup, dup,
}
use gproc.Forth.{
  Op, go_func, word, nil_func, opmap, call, run_vals, i_eval, eval, new_word, no_result,
  err_recover,
}
use gproc.Forth.Compose.{i_eval-append, new_word_lem}

-- `m` returns or panics on every stack.
pub record Ends {A : Type 0} (m : Exec A) : Type 0 where
  pub at : (s : Stack) → (m s).0 ≢ running

module _ {A B : Type 0} where
  continue-ends :
      (r : Outcome A) (s : Stack) (f : A → Exec B)
      → r ≢ running
      → ((a : A) → (f a s).0 ≢ running)
      → (continue r f s).0 ≢ running
  continue-ends (ok a) s f h k = k a
  continue-ends (panic p) s f h k = ground arith
  continue-ends running s f h k = absurd (h refl)

  Ends-bind : (m : Exec A) (f : A → Exec B) → Ends m → ((a : A) → Ends (f a)) → Ends (m >>= f)
  Ends-bind m f hm hf = record {
    at = λ s. continue-ends (m s).0 (m s).1 f (hm.at s) (λ a. (hf a).at (m s).1);
  }

module _ {A : Type 0} where
  Ends-pure : (a : A) → Ends (pure a)
  Ends-pure a = record { at = λ s. ground arith }

  Ends-raise : (p : Panic) → Ends (raise {A = A} p)
  Ends-raise p = record { at = λ s. ground arith }

  Ends-if : (c : Bool) (m n : Exec A) → Ends m → Ends n → Ends (if c then m else n)
  Ends-if true m n hm hn = hm
  Ends-if false m n hm hn = hn

Ends-push : (x : Str) → Ends (push x)
unfolding push
Ends-push x = record { at = λ s. ground arith }

Ends-pop : Ends pop
unfolding pop
Ends-pop = record { at = at }
  where
    at : (s : Stack) → (pop s).0 ≢ running
    at [] = ground arith
    at (x ∷ s) = ground arith

ruleset end_rules = (Ends-bind, Ends-pure, Ends-raise, Ends-if, Ends-push, Ends-pop)

Ends-int_or_panic : (s : Str) (i : ℤ) (e : Option NumErr) → Ends (int_or_panic s i e)
unfolding int_or_panic
Ends-int_or_panic s i none = Ends-pure i
Ends-int_or_panic s i (some e) = Ends-raise _

Ends-to_int : Ends to_int
unfolding to_int
Ends-to_int = search (end_rules, Ends-int_or_panic)

Ends-divisor : (x z : ℤ) → Ends (divisor x z)
unfolding divisor
Ends-divisor x z = search end_rules

-- The Go functions of the map end. What a word does is the evaluator's matter.
abbrev pub EndsOp : Op → Type 0
EndsOp (go_func fun) = Ends fun
EndsOp (word command) = Unit
EndsOp nil_func = Unit

EndsOp-arithmetic :
    Ends plus × Ends sub × Ends times × Ends div × Ends mod_op × Ends roundup × Ends ifelse
unfolding plus sub times div mod_op roundup ifelse
EndsOp-arithmetic = (
  search (end_rules, Ends-to_int),
  search (end_rules, Ends-to_int),
  search (end_rules, Ends-to_int),
  search (end_rules, Ends-to_int, Ends-divisor),
  search (end_rules, Ends-to_int, Ends-divisor),
  search (end_rules, Ends-to_int, Ends-divisor),
  search (end_rules, Ends-to_int),
)

EndsOp-stack : Ends swap × Ends strcat × Ends dup × Ends hostbase
unfolding swap strcat dup hostbase
EndsOp-stack = (search end_rules, search end_rules, search end_rules, search end_rules)

Ends-hostname : (h : Option Str) → Ends (hostname h)
unfolding hostname
Ends-hostname none = Ends-raise _
Ends-hostname (some h) = Ends-push h

pub opmap-EndsOp : (h : Option Str) → AllValues EndsOp (opmap h)
opmap-EndsOp h =
    let a = EndsOp-arithmetic in
    let s = EndsOp-stack in
    let n = Ends-hostname h in
    (a.0, (a.1, (a.2, (a.3, (a.4, (s.0, (a.6, (n, (s.3, (s.1, (a.5, (s.2, tt))))))))))))

-- Where `val` is a word, its rank is below `n`.
abbrev pub Below : Dict Op → (Str → ℕ) → ℕ → Str → Type 0
Below ops rank n val = (c : Str) → lookup val ops ≡ some (word c) → rank val < n

-- The command of every word uses only words of a smaller rank: no word leads back to itself.
abbrev pub Ranked : Dict Op → (Str → ℕ) → Type 0
Ranked ops rank =
    (name c : Str)
    → lookup name ops ≡ some (word c)
    → All (Below ops rank (rank name)) (split b' ' c)

Below-weaken :
    (ops : Dict Op) (rank : Str → ℕ) (n m : ℕ) (vals : List Str)
    → n ≤ m
    → All (Below ops rank n) vals
    → All (Below ops rank m) vals
Below-weaken ops rank n m [] le h = tt
Below-weaken ops rank n m (v ∷ vs) le (h, hs) =
    (λ c e. le_trans (h c e) le, Below-weaken ops rank n m vs le hs)

Ends-call :
    (ev : Str → Exec (Unit {0})) (val : Str) (o : Option Op)
    → ((op : Op) → o ≡ some op → EndsOp op)
    → ((c : Str) → o ≡ some (word c) → Ends (ev c))
    → Ends (call ev val o)
unfolding call
Ends-call ev val none h hw = Ends-push val
Ends-call ev val (some nil_func) h hw = Ends-push val
Ends-call ev val (some (go_func fun)) h hw = h (go_func fun) refl
Ends-call ev val (some (word command)) h hw = hw command refl

module _ (ops : Dict Op) (ends : AllValues EndsOp ops) where
  Ends-run_vals :
      (ev : Str → Exec (Unit {0})) (vals : List Str)
      → All (λ val. (c : Str) → lookup val ops ≡ some (word c) → Ends (ev c)) vals
      → Ends (run_vals ev ops vals)
  unfolding run_vals
  Ends-run_vals ev [] h = Ends-pure tt
  Ends-run_vals ev (val ∷ vals) (h, hs) = Ends-if _ _ _ (Ends-run_vals ev vals hs) (
      Ends-bind _ _
        (Ends-call ev val (lookup val ops) (λ op. AllValues-lookup EndsOp val op ops ends) h)
        (λ _. Ends-run_vals ev vals hs))

  module _ (rank : Str → ℕ) (ranked : Ranked ops rank) where
    words-end :
        (n : ℕ) (vals : List Str)
        → All (Below ops rank n) vals
        → ((k : ℕ) (c : Str)
            → k < n
            → All (Below ops rank k) (split b' ' c)
            → Ends (i_eval n ops c))
        → All (λ val. (c : Str) → lookup val ops ≡ some (word c) → Ends (i_eval n ops c)) vals
    words-end n [] b ih = tt
    words-end n (v ∷ vs) (b, bs) ih =
        (λ c e. ih (rank v) c (b c e) (ranked v c e), words-end n vs bs ih)

    Ends-i_eval :
        (n : ℕ) (s : Str) → All (Below ops rank n) (split b' ' s) → Ends (i_eval (suc n) ops s)
    unfolding i_eval
    Ends-i_eval zero s b =
        Ends-run_vals (i_eval zero ops) (split b' ' s)
          (words-end zero (split b' ' s) b (λ k c lt h. absurd (omega arith)))
    Ends-i_eval (suc n) s b = Ends-run_vals (i_eval (suc n) ops) (split b' ' s) (
        words-end (suc n) (split b' ' s) b
          (λ k c lt h. Ends-i_eval n c (Below-weaken ops rank k n (split b' ' c) (omega arith) h)))

    recover-ends : (r : Outcome Str) → r ≢ running → err_recover r ≢ no_result
    recover-ends (ok v) h = ground arith
    recover-ends (panic (error_value e)) h = ground arith
    recover-ends (panic (runtime_error e)) h = ground arith
    recover-ends (panic (string_value e)) h = ground arith
    recover-ends running h = absurd (h refl)

    -- Where the words of the map can be ranked so that each command uses only words of a smaller rank,
    -- and the elements of `s` that are words have ranks below `n`, `Eval` of `s` ends: nesting of depth
    -- `n` is enough.
    pub eval_ends :
        (n : ℕ) (s : Str) (stack : Stack)
        → All (Below ops rank n) (split b' ' s)
        → (eval (suc n) ops s stack).0 ≢ no_result
    unfolding eval
    eval_ends n s stack b =
        recover-ends _ (
          (Ends-bind (i_eval (suc n) ops s) (λ _. pop) (Ends-i_eval n s b) (λ _. Ends-pop)).at
            stack)

-- A word whose command begins with the word itself never ends, whatever the stack and the fuel.
pub new_word_loops :
    (fuel : ℕ) (ops : Dict Op) (name rest : Str) (stack : Stack)
    → name ≢ []
    → Lacks b' ' name
    → i_eval fuel (new_word name (name ++ b' ' ∷ rest) ops) name stack ≡ (running, stack)
new_word_loops zero ops name rest stack h lacks = unfold i_eval in refl
new_word_loops (suc zero) ops name rest stack h lacks =
    rw (new_word_lem zero ops name (name ++ b' ' ∷ rest) h lacks) (unfold i_eval in refl)
new_word_loops (suc (suc fuel)) ops name rest stack h lacks =
    let ops' = new_word name (name ++ b' ' ∷ rest) ops in
    rw (
      new_word_lem (suc fuel) ops name (name ++ b' ' ∷ rest) h lacks,
      i_eval-append fuel ops' name rest,
      new_word_loops (suc fuel) ops name rest stack h lacks,
    )
