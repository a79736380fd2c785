-- ===== src/Decimal.antt =====
-- Decimal numbers: `strconv.Atoi` and `strconv.Itoa` of Go's standard library, as the operators of
-- src/forth/forth.go and `parseNodeList` of src/gproc/common.go call them.
pub mod RoundTrip
use gproc.Common.{
  ℕ, zero, suc, ◌+◌, ◌-◌, ◌*◌, ◌/◌, ◌%◌, ◌^◌, Bool, true, false, ◌||◌, List, [], ◌∷◌, Option, none,
  some, ◌≡◌, refl, ltb, ◌==◌, if◌then◌else◌, Str, codes,
}
use gproc.Common.Int.{ℤ, pos, negsuc, sub_ℕ}

-- `strconv.ErrSyntax` and `strconv.ErrRange`.
pub data NumErr : Type 0 where
  err_syntax err_range : NumErr

abbrev pub max_u64 : ℕ
max_u64 = 2 ^ 64 - 1

-- The loop of `ParseUint`: it stops at the first byte that is no digit, and at the first overflow.
scan : Str → ℕ → ℕ × Option NumErr
scan [] n = (n, none)
scan (c ∷ s) n =
    let m = n * 10 + (c - b'0') in
    if ltb c b'0' || ltb b'9' c
    then (0, some err_syntax)
    else if ltb max_u64 m
    then (max_u64, some err_range)
    else scan s m

-- `ParseInt` behind the sign: a value out of range is cut off to the nearest one.
to_int : Bool → ℕ × Option NumErr → ℤ × Option NumErr
to_int neg (n, some err_syntax) = (pos 0, some err_syntax)
to_int true (n, e) =
    if ltb (2 ^ 63) n then (sub_ℕ 0 (2 ^ 63), some err_range) else (sub_ℕ 0 n, none)
to_int false (n, e) = if ltb n (2 ^ 63) then (pos n, none) else (pos (2 ^ 63 - 1), some err_range)

unsigned : Bool → Str → ℤ × Option NumErr
unfolding scan to_int
unsigned neg [] = (pos 0, some err_syntax)
unsigned neg (c ∷ s) = to_int neg (scan (c ∷ s) 0)

-- `strconv.Atoi(s)`: the value and the error.
unfoldable pub atoi : Str → ℤ × Option NumErr
unfolding unsigned
atoi [] = (pos 0, some err_syntax)
atoi (c ∷ s) =
    if c == b'-'
    then unsigned true s
    else if c == b'+'
    then unsigned false s
    else unsigned false (c ∷ s)

-- The digits of `n` before `out`; `suc n` rounds are enough.
digits : ℕ → ℕ → Str → Str
digits zero n out = out
digits (suc f) n out =
    let out' = (b'0' + n % 10) ∷ out in
    let rest = digits f (n / 10) out' in if ltb n 10 then out' else rest

-- `strconv.Itoa(n)` for a number that is not negative.
unfoldable pub itoa_nat : ℕ → Str
unfolding digits
itoa_nat n = digits (suc n) n []

-- `strconv.Itoa(z)`.
unfoldable pub itoa : ℤ → Str
unfolding itoa_nat
itoa (pos n) = itoa_nat n
itoa (negsuc n) = b'-' ∷ itoa_nat (suc n)

atoi_runs :
    (atoi (codes "-12") ≡ (negsuc 11, none))
    × (atoi (codes "9223372036854775808") ≡ (pos 9223372036854775807, some err_range))
    × (atoi (codes "99999999999999999999x") ≡ (pos 9223372036854775807, some err_range))
    × (atoi (codes "-9223372036854775808") ≡ (negsuc 9223372036854775807, none))
    × (atoi (codes "4x") ≡ (pos 0, some err_syntax))
    × (itoa (negsuc 1233) ≡ codes "-1234")
unfolding atoi itoa
atoi_runs = (refl, refl, refl, refl, refl, refl)
