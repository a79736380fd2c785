-- ===== src/Forth/Frame.antt =====
-- src/forth/forth.go: a run that returns does not look at the stack below what it uses.
use gproc.Common.{
  ℕ, zero, suc, Bool, true, false, List, [], ◌∷◌, ◌++◌, Option, none, some, ◌≡◌, refl, arith, Str,
  split, if◌then◌else◌,
}
use gproc.Common.Int.{ℤ}
use gproc.Common.Dict.{Dict, lookup, AllValues, AllValues-lookup}
use gproc.Decimal.{NumErr}
use gproc.Forth.Machine.{
  Stack, Outcome, ok, panic, running, Exec, pure, raise, Panic, error_value, runtime_error,
  string_value, continue, push, pop, ◌>>=◌, ◌>>◌,
}
use gproc.Forth.Ops.{
  to_int, int_or_panic, divisor, plus, sub, times, div, mod_op, swap, ifelse, hostname, hostbase,
  strcat, roundup, dup,
}
use gproc.Forth.{
  Op, go_func, word, nil_func, opmap, call, run_vals, i_eval, eval, value, err_recover,
}

-- Where `m` returns on a stack, it returns the same on a longer one and leaves what is below alone.
pub record Framed {A : Type 0} (m : Exec A) : Type 0 where
  pub at :
      (s base : Stack) (a : A) (s' : Stack) → m s ≡ (ok a, s') → m (s ++ base) ≡ (ok a, s' ++ base)

module _ {A B : Type 0} where
  continue-eq-ok :
      (r : Outcome A) (s : Stack) (f : A → Exec B) (b : B) (s' : Stack)
      → continue r f s ≡ (ok b, s')
      → (a : A) × (r ≡ ok a) × (f a s ≡ (ok b, s'))
  continue-eq-ok (ok a) s f b s' h = (a, refl, h)
  continue-eq-ok (panic p) s f b s' h = absurd (ground arith)
  continue-eq-ok running s f b s' h = absurd (ground arith)

  Framed-bind :
      (m : Exec A) (f : A → Exec B) → Framed m → ((a : A) → Framed (f a)) → Framed (m >>= f)
  Framed-bind m f hm hf = record {
    at = λ s base b s' h.
        let (a, e, k) = continue-eq-ok (m s).0 (m s).1 f b s' h in
        let step : m (s ++ base) ≡ (ok a, (m s).1 ++ base) =
          hm.at s base a (m s).1 (λ i. (e i, (m s).1)) in
        rw step ((hf a).at (m s).1 base b s' k);
  }

module _ {A : Type 0} where
  Framed-pure : (a : A) → Framed (pure a)
  Framed-pure a = record { at = λ s base b s' h. ground arith }

  Framed-raise : (p : Panic) → Framed (raise {A = A} p)
  Framed-raise p = record { at = λ s base b s' h. absurd (ground arith) }

  Framed-if : (c : Bool) (m n : Exec A) → Framed m → Framed n → Framed (if c then m else n)
  Framed-if true m n hm hn = hm
  Framed-if false m n hm hn = hn

Framed-push : (x : Str) → Framed (push x)
unfolding push
Framed-push x = record { at = λ s base b s' h. ground arith }

Framed-pop : Framed pop
unfolding pop
Framed-pop = record { at = at }
  where
    at :
        (s base : Stack) (a : Str) (s' : Stack)
        → pop s ≡ (ok a, s')
        → pop (s ++ base) ≡ (ok a, s' ++ base)
    at [] base a s' h = absurd (ground arith)
    at (x ∷ s) base a s' h = ground arith

ruleset frame_rules = (Framed-bind, Framed-pure, Framed-raise, Framed-if, Framed-push, Framed-pop)

Framed-int_or_panic : (s : Str) (i : ℤ) (e : Option NumErr) → Framed (int_or_panic s i e)
unfolding int_or_panic
Framed-int_or_panic s i none = Framed-pure i
Framed-int_or_panic s i (some e) = Framed-raise _

Framed-to_int : Framed to_int
unfolding to_int
Framed-to_int = search (frame_rules, Framed-int_or_panic)

Framed-divisor : (x z : ℤ) → Framed (divisor x z)
unfolding divisor
Framed-divisor x z = search frame_rules

ruleset op_rules = (frame_rules, Framed-to_int, Framed-divisor)

Framed-plus : Framed plus
unfolding plus
Framed-plus = search op_rules

Framed-times : Framed times
unfolding times
Framed-times = search op_rules

Framed-sub : Framed sub
unfolding sub
Framed-sub = search op_rules

Framed-div : Framed div
unfolding div
Framed-div = search op_rules

Framed-mod_op : Framed mod_op
unfolding mod_op
Framed-mod_op = search op_rules

Framed-roundup : Framed roundup
unfolding roundup
Framed-roundup = search op_rules

Framed-swap : Framed swap
unfolding swap
Framed-swap = search op_rules

Framed-strcat : Framed strcat
unfolding strcat
Framed-strcat = search op_rules

Framed-dup : Framed dup
unfolding dup
Framed-dup = search op_rules

Framed-ifelse : Framed ifelse
unfolding ifelse
Framed-ifelse = search op_rules

Framed-hostname : (h : Option Str) → Framed (hostname h)
unfolding hostname
Framed-hostname none = Framed-raise _
Framed-hostname (some h) = Framed-push h

Framed-hostbase : Framed hostbase
unfolding hostbase
Framed-hostbase = search op_rules

-- The Go functions of the map are framed. A word runs a command, and is framed with its operators.
abbrev pub FramedOp : Op → Type 0
FramedOp (go_func fun) = Framed fun
FramedOp (word command) = Unit
FramedOp nil_func = Unit

pub opmap-FramedOp : (h : Option Str) → AllValues FramedOp (opmap h)
opmap-FramedOp h = (
  Framed-plus,
  (
    Framed-sub,
    (
      Framed-times,
      (
        Framed-div,
        (
          Framed-mod_op,
          (
            Framed-swap,
            (
              Framed-ifelse,
              (
                Framed-hostname h,
                (Framed-hostbase, (Framed-strcat, (Framed-roundup, (Framed-dup, tt)))),
              ),
            ),
          ),
        ),
      ),
    ),
  ),
)

module _ (ops : Dict Op) (framed : AllValues FramedOp ops) where
  Framed-call :
      (ev : Str → Exec (Unit {0})) (val : Str) (o : Option Op)
      → ((c : Str) → Framed (ev c))
      → ((op : Op) → o ≡ some op → FramedOp op)
      → Framed (call ev val o)
  unfolding call
  Framed-call ev val none hev h = Framed-push val
  Framed-call ev val (some nil_func) hev h = Framed-push val
  Framed-call ev val (some (go_func fun)) hev h = h (go_func fun) refl
  Framed-call ev val (some (word command)) hev h = hev command

  Framed-run_vals :
      (ev : Str → Exec (Unit {0})) (vals : List Str)
      → ((c : Str) → Framed (ev c))
      → Framed (run_vals ev ops vals)
  unfolding run_vals
  Framed-run_vals ev [] hev = Framed-pure tt
  Framed-run_vals ev (val ∷ vals) hev = Framed-if _ _ _ (Framed-run_vals ev vals hev) (
      Framed-bind _ _
        (Framed-call ev val (lookup val ops) hev
          (λ op e. AllValues-lookup FramedOp val op ops framed e))
        (λ _. Framed-run_vals ev vals hev))

  Framed-i_eval : (fuel : ℕ) (s : Str) → Framed (i_eval fuel ops s)
  unfolding i_eval
  Framed-i_eval zero s = record { at = λ s base b s' h. absurd (ground arith) }
  Framed-i_eval (suc fuel) s = Framed-run_vals (i_eval fuel ops) (split b' ' s) (Framed-i_eval fuel)

  value-ok : (r : Outcome Str) (v : Str) → err_recover r ≡ value v → r ≡ ok v
  value-ok (ok ret) v h = ground arith
  value-ok (panic (error_value e)) v h = absurd (ground arith)
  value-ok (panic (runtime_error e)) v h = absurd (ground arith)
  value-ok (panic (string_value e)) v h = absurd (ground arith)
  value-ok running v h = absurd (ground arith)

  -- If `Eval` returns a value on a stack, it returns the same value on any longer stack, and what lies
  -- below stays as it was, below what the run left.
  pub eval-append :
      (fuel : ℕ) (s : Str) (stack base : Stack) (v : Str) (rest : Stack)
      → eval fuel ops s stack ≡ (value v, rest)
      → eval fuel ops s (stack ++ base) ≡ (value v, rest ++ base)
  unfolding eval
  eval-append fuel s stack base v rest h =
      let m = i_eval fuel ops s >> pop in
      let done : m stack ≡ (ok v, rest) = λ i. (value-ok (m stack).0 v (λ j. (h j).0) i, (h i).1) in
      rw (
        (Framed-bind (i_eval fuel ops s) (λ _. pop) (Framed-i_eval fuel s) (λ _. Framed-pop)).at
          stack base v rest done)
