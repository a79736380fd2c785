-- ===== src/Forth/Numbers.antt =====
-- src/forth/forth.go: the operators on decimal numbers, and the command that its header explains.
use gproc.Common.{
  ℕ, zero, suc, ◌+◌, ◌-◌, ◌*◌, ◌/◌, ◌%◌, ◌^◌, ◌<◌, ◌≤◌, true, [], ◌∷◌, ◌++◌, some, ◌≡◌, refl, ap,
  ◌∙◌, arith, Str, codes, All, Option, split, if◌then◌else◌, ◌==◌,
}
use native.Mathlib.Nat.{div-add-mod, mul_comm, lt-div-mul-add}
use gproc.Common.Int.{ℤ, pos, InInt, wrap, wrap_fits, add-pos, quot, rem, ◌+ℤ◌, ◌-ℤ◌, ◌*ℤ◌}
use gproc.Common.Dict.{Dict, lookup}
use gproc.Decimal.{itoa, itoa_nat}
use gproc.Decimal.RoundTrip.{atoi-itoa, StartsDigit, itoa_nat-StartsDigit}
use gproc.Forth.Machine.{Stack, ok, divide_by_zero, Exec, pure, push, pop, ◌>>◌}
use gproc.Forth.Ops.{
  to_int, divisor, plus, sub, times, div, mod_op, swap, ifelse, hostname, hostbase, roundup,
  round_to, dup, trim_left, in_cutset,
}
use gproc.Forth.{Op, opmap, i_eval, eval, value, crashed}

-- A printed `int` on the top is taken as that number.
to_int-itoa : (z : ℤ) (s : Stack) → InInt z → to_int (itoa z ∷ s) ≡ (ok z, s)
unfolding to_int
to_int-itoa z s h = rw (atoi-itoa z h)

to_int-itoa_nat : (n : ℕ) (s : Stack) → n < 2 ^ 63 → to_int (itoa_nat n ∷ s) ≡ (ok (pos n), s)
unfolding itoa
to_int-itoa_nat n s h = to_int-itoa (pos n) s h

-- The three operators that take two numbers off the stack and cannot fail on them: the number under
-- the top stands on the left, and the result is stored in an `int`.
pub arithmetic_lem :
    (x y : ℤ) (s : Stack)
    → InInt x
    → InInt y
    → (plus (itoa x ∷ itoa y ∷ s) ≡ (ok tt, itoa (wrap (x +ℤ y)) ∷ s))
      × (sub (itoa x ∷ itoa y ∷ s) ≡ (ok tt, itoa (wrap (y -ℤ x)) ∷ s))
      × (times (itoa x ∷ itoa y ∷ s) ≡ (ok tt, itoa (wrap (x *ℤ y)) ∷ s))
unfolding plus sub times
arithmetic_lem x y s hx hy = (
  rw (atoi-itoa x hx, atoi-itoa y hy),
  rw (atoi-itoa x hx, atoi-itoa y hy),
  rw (atoi-itoa x hx, atoi-itoa y hy),
)

div_le : (y x : ℕ) → y / x ≤ y
div_le y zero = omega arith
div_le y (suc x) = omega arith

quot-pos : (y x : ℕ) → y < 2 ^ 63 → quot (pos y) (pos x) ≡ pos (y / x)
unfolding quot
quot-pos y x h = wrap_fits (pos (y / x)) (omega (arith, div_le y x))

-- A divisor that is not zero passes the runtime's check.
divisor-pos : (x : ℕ) (z : ℤ) (s : Stack) → 0 < x → divisor (pos x) z s ≡ (ok z, s)
unfolding divisor
divisor-pos x z s h = ground arith

div-print :
    (x y : ℕ) (s : Stack)
    → 0 < x
    → x < 2 ^ 63
    → y < 2 ^ 63
    → div (itoa_nat x ∷ itoa_nat y ∷ s) ≡ (ok tt, itoa_nat (y / x) ∷ s)
unfolding div itoa
div-print x y s px hx hy =
    rw (to_int-itoa_nat x _ hx, to_int-itoa_nat y _ hy, quot-pos y x hy, divisor-pos x _ s px)

mod-print :
    (x y : ℕ) (s : Stack)
    → 0 < x
    → x < 2 ^ 63
    → y < 2 ^ 63
    → mod_op (itoa_nat x ∷ itoa_nat y ∷ s) ≡ (ok tt, itoa_nat (y % x) ∷ s)
unfolding mod_op rem itoa
mod-print x y s px hx hy = rw (to_int-itoa_nat x _ hx, to_int-itoa_nat y _ hy, divisor-pos x _ s px)

sub-one-pos : (a : ℕ) → 0 < a → pos a -ℤ pos 1 ≡ pos (a - 1)
unfolding ◌-ℤ◌
sub-one-pos a h = ground arith

mul-pos : (a b : ℕ) → pos a *ℤ pos b ≡ pos (a * b)
unfolding ◌*ℤ◌
mul-pos a b = ground arith

div_mul_le : (a b : ℕ) → a / b * b ≤ a
div_mul_le a b = omega (arith, div-add-mod a b, mul_comm b (a / b))

round_to-pos :
    (v rnd : ℕ)
    → 0 < rnd
    → v + rnd ≤ 2 ^ 63 - 1
    → round_to (pos v) (pos rnd) ≡ pos ((v + rnd - 1) / rnd * rnd)
unfolding round_to
round_to-pos v rnd p h =
    rw
      (
        add-pos,
        wrap_fits (pos (v + rnd)) (omega arith),
        sub-one-pos (v + rnd) (omega arith),
        wrap_fits (pos (v + rnd - 1)) (omega arith),
        quot-pos (v + rnd - 1) rnd (omega arith),
        mul-pos,
      )
      (wrap_fits (pos ((v + rnd - 1) / rnd * rnd)) (omega (arith, div_mul_le (v + rnd - 1) rnd)))

-- `roundup` on two numbers that are not negative, the upper one positive, whose sum fits an `int`:
-- it leaves the least multiple of the upper one that is not below the other.
pub roundup_lem :
    (rnd v : ℕ) (s : Stack)
    → 0 < rnd
    → v + rnd ≤ 2 ^ 63 - 1
    → (k : ℕ) × (roundup (itoa_nat rnd ∷ itoa_nat v ∷ s) ≡ (ok tt, itoa_nat (k * rnd) ∷ s))
      × (v ≤ k * rnd)
      × (k * rnd < v + rnd)
unfolding roundup itoa
roundup_lem rnd v s p h = (
  (v + rnd - 1) / rnd,
  rw (
    to_int-itoa_nat rnd _ (omega arith),
    to_int-itoa_nat v _ (omega arith),
    round_to-pos v rnd p h,
    divisor-pos rnd _ s p,
  ),
  omega (arith, lt-div-mul-add {a = v + rnd - 1} p),
  omega (arith, div_mul_le (v + rnd - 1) rnd),
)

trim_left-append :
    (letters s : Str)
    → All (λ c. in_cutset c ≡ true) letters
    → trim_left (letters ++ s) ≡ trim_left s
unfolding trim_left
trim_left-append [] s h = refl
trim_left-append (c ∷ letters) s (h, hs) = ground (arith, trim_left-append letters s hs)

trim_left-digit : (s : Str) → StartsDigit s → trim_left s ≡ s
unfolding trim_left
trim_left-digit [] h = refl
trim_left-digit (c ∷ s) h = ground arith

-- `hostbase` takes the letters off a host name that ends in a number.
pub hostbase_lem :
    (letters : Str) (n : ℕ) (s : Stack)
    → All (λ c. in_cutset c ≡ true) letters
    → hostbase ((letters ++ itoa_nat n) ∷ s) ≡ (ok tt, itoa_nat n ∷ s)
unfolding hostbase
hostbase_lem letters n s h =
    rw (trim_left-append letters (itoa_nat n) h, trim_left-digit _ (itoa_nat-StartsDigit n))

pub ifelse-print :
    (n : ℕ) (y z : Str) (s : Stack)
    → n < 2 ^ 63
    → ifelse (itoa_nat n ∷ y ∷ z ∷ s) ≡ (ok tt, (if n == 0 then z else y) ∷ s)
unfolding ifelse
ifelse-print n y z s h = rw (to_int-itoa_nat n _ h) (ground arith)

swap_lem : (x y : Str) (s : Stack) → swap (x ∷ y ∷ s) ≡ (ok tt, y ∷ x ∷ s)
unfolding swap
swap_lem x y s = refl

dup_lem : (x : Str) (s : Stack) → dup (x ∷ s) ≡ (ok tt, x ∷ x ∷ s)
unfolding dup
dup_lem x s = refl

pub twenty : codes "20" ≡ itoa_nat 20
unfolding itoa
twenty = refl

-- One step of a command that returns.
pub seq-ok :
    {B : Type 0} (m : Exec (Unit {0})) (k : Exec B) (s s' : Stack)
    → m s ≡ (ok tt, s')
    → (m >> k) s ≡ k s'
seq-ok m k s s' e = rw e

pub hostname_lem : (h : Str) (s : Stack) → hostname (some h) s ≡ (ok tt, h ∷ s)
unfolding hostname
hostname_lem h s = refl

pub push_lem : (x : Str) (s : Stack) → push x s ≡ (ok tt, x ∷ s)
unfolding push
push_lem x s = refl

abbrev id_command : Str
id_command = codes "hostname hostbase dup 20 / swap 20 % dup ifelse"

abbrev id_tail : Exec (Unit {0})
id_tail = swap >> (push (codes "20") >> (mod_op >> (dup >> (ifelse >> pure tt))))

-- The command, as the calls that the evaluator makes.
id_calls :
    (h : Str) (fuel : ℕ)
    → i_eval (suc fuel) (opmap (some h)) id_command
      ≡ (hostname (some h) >> (hostbase >> (dup >> (push (codes "20") >> (div >> id_tail)))))
unfolding i_eval lookup split
id_calls h fuel = refl

div_twenty :
    (n : ℕ) (s : Stack)
    → n < 2 ^ 63
    → div (codes "20" ∷ itoa_nat n ∷ s) ≡ (ok tt, itoa_nat (n / 20) ∷ s)
div_twenty n s fits = rw twenty (div-print 20 n s (omega arith) (omega arith) fits)

pub mod_twenty :
    (n : ℕ) (s : Stack)
    → n < 2 ^ 63
    → mod_op (codes "20" ∷ itoa_nat n ∷ s) ≡ (ok tt, itoa_nat (n % 20) ∷ s)
mod_twenty n s fits = rw twenty (mod-print 20 n s (omega arith) (omega arith) fits)

pub eval-ok :
    (fuel : ℕ) (ops : Dict Op) (s : Str) (stack rest : Stack) (v : Str)
    → i_eval fuel ops s stack ≡ (ok tt, v ∷ rest)
    → eval fuel ops s stack ≡ (value v, rest)
unfolding eval pop
eval-ok fuel ops s stack rest v e = rw e

module _ (n : ℕ) (fits : n < 2 ^ 63) (s : Stack) where
  id_tail_lem :
      id_tail (itoa_nat (n / 20) ∷ itoa_nat n ∷ s)
      ≡ (ok tt, (if n % 20 == 0 then itoa_nat (n / 20) else itoa_nat (n % 20)) ∷ s)
  id_tail_lem =
      seq-ok swap _ _ _ (swap_lem _ _ s)
      ∙ seq-ok (push (codes "20")) _ _ _ (push_lem _ _)
      ∙ seq-ok mod_op _ _ _ (mod_twenty n _ fits)
      ∙ seq-ok dup _ _ _ (dup_lem _ _)
      ∙ seq-ok ifelse _ _ _ (ifelse-print (n % 20) _ _ s (omega arith))

  id_run :
      (letters : Str) (fuel : ℕ)
      → All (λ c. in_cutset c ≡ true) letters
      → i_eval (suc fuel) (opmap (some (letters ++ itoa_nat n))) id_command s
        ≡ (ok tt, (if n % 20 == 0 then itoa_nat (n / 20) else itoa_nat (n % 20)) ∷ s)
  id_run letters fuel h =
      ap (λ (m : Exec (Unit {0})). m s) (id_calls (letters ++ itoa_nat n) fuel)
      ∙ seq-ok (hostname (some (letters ++ itoa_nat n))) _ s _ (hostname_lem _ s)
      ∙ seq-ok hostbase _ _ _ (hostbase_lem letters n s h)
      ∙ seq-ok dup _ _ _ (dup_lem _ s)
      ∙ seq-ok (push (codes "20")) _ _ _ (push_lem _ _)
      ∙ seq-ok div _ _ _ (div_twenty n _ fits)
      ∙ id_tail_lem

-- The command that the header of src/forth/forth.go explains, on a host whose name is letters before
-- the number `n`: the number modulo 20, or the number divided by 20 where the modulus is 0. The stack
-- is left as it was.
pub node_id :
    (letters : Str) (n fuel : ℕ) (s : Stack)
    → All (λ c. in_cutset c ≡ true) letters
    → n < 2 ^ 63
    → eval
        (suc fuel)
        (opmap (some (letters ++ itoa_nat n)))
        (codes "hostname hostbase dup 20 / swap 20 % dup ifelse")
        s
      ≡ (value (if n % 20 == 0 then itoa_nat (n / 20) else itoa_nat (n % 20)), s)
node_id letters n fuel s h fits = eval-ok (suc fuel) _ _ s s _ (id_run n fits s letters fuel h)

-- `Eval` of an operator that divides, on a zero above a number: the runtime error comes through the recovery of
-- `Eval`, and the program crashes with it instead of getting an error.
pub divide_by_zero_lem :
    (fuel : ℕ) (host : Option Str) (y : ℤ) (s : Stack)
    → InInt y
    → ((eval (suc fuel) (opmap host) (codes "/") (itoa (pos 0) ∷ itoa y ∷ s)).0
        ≡ crashed divide_by_zero)
      × ((eval (suc fuel) (opmap host) (codes "%") (itoa (pos 0) ∷ itoa y ∷ s)).0
          ≡ crashed divide_by_zero)
      × ((eval (suc fuel) (opmap host) (codes "roundup") (itoa (pos 0) ∷ itoa y ∷ s)).0
          ≡ crashed divide_by_zero)
unfolding eval i_eval split lookup div mod_op roundup divisor
divide_by_zero_lem fuel host y s h = (
  rw (atoi-itoa (pos 0) (omega arith), atoi-itoa y h),
  rw (atoi-itoa (pos 0) (omega arith), atoi-itoa y h),
  rw (atoi-itoa (pos 0) (omega arith), atoi-itoa y h),
)
