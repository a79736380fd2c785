-- ===== src/Decimal/RoundTrip.antt =====
-- What `Itoa` prints is read back by `Atoi`.
use gproc.Common.{
  Bool, All, Lacks, ℕ, zero, suc, ◌+◌, ◌/◌, ◌%◌, ◌^◌, ◌≤◌, ◌<◌, [], ◌∷◌, none, ◌≡◌, ◌≢◌, refl,
  arith, ltb, true, false, Str, Bool-cases, inl, inr,
}
use gproc.Common.Int.{ℤ, pos, negsuc, InInt}
use gproc.Decimal.{max_u64, scan, to_int, unsigned, atoi, digits, itoa_nat, itoa}

scan_last : (n : ℕ) (out : Str) → n ≤ max_u64 → scan ((b'0' + n % 10) ∷ out) (n / 10) ≡ scan out n
unfolding scan
scan_last n out h = ground arith

scan-digits : (f n : ℕ) (out : Str) → n < f → n ≤ max_u64 → scan (digits f n out) 0 ≡ scan out n
unfolding digits
scan-digits zero n out h fits = elim h [ ]
scan-digits (suc f) n out h fits = elim (Bool-cases (ltb n 10)) [
  | inl small ↦ rw small (let e : n / 10 ≡ 0 = ground arith in rw e at (scan_last n out fits))
  | inr large ↦
      rw large (grind (arith, scan-digits f (n / 10) ((b'0' + n % 10) ∷ out), scan_last n out fits))
]

-- The first byte of a print is a digit.
abbrev pub StartsDigit : Str → Type 0
StartsDigit [] = ⊥
StartsDigit (c ∷ s) = (b'0' ≤ c) × (c ≤ b'9')

digits-StartsDigit :
    (f n : ℕ) (c : ℕ) (out : Str) → b'0' ≤ c → c ≤ b'9' → StartsDigit (digits f n (c ∷ out))
unfolding digits
digits-StartsDigit zero n c out h k = (h, k)
digits-StartsDigit (suc f) n c out h k = elim (Bool-cases (ltb n 10)) [
  | inl small ↦ rw small (omega arith)
  | inr large ↦
      rw large (digits-StartsDigit f (n / 10) (b'0' + n % 10) (c ∷ out) (omega arith) (omega arith))
]

pub itoa_nat-StartsDigit : (n : ℕ) → StartsDigit (itoa_nat n)
unfolding itoa_nat digits
itoa_nat-StartsDigit n = elim (Bool-cases (ltb n 10)) [
  | inl small ↦ rw small (omega arith)
  | inr large ↦
      rw large (digits-StartsDigit n (n / 10) (b'0' + n % 10) [] (omega arith) (omega arith))
]

scan-itoa_nat : (n : ℕ) → n ≤ max_u64 → scan (itoa_nat n) 0 ≡ (n, none)
unfolding itoa_nat
scan-itoa_nat n h = rw (scan-digits (suc n) n [] (omega arith) h) (unfold scan in refl)

unsigned-digit : (neg : Bool) (s : Str) → StartsDigit s → unsigned neg s ≡ to_int neg (scan s 0)
unfolding unsigned
unsigned-digit neg [] h = elim h [ ]
unsigned-digit neg (c ∷ s) h = refl

atoi-digit : (s : Str) → StartsDigit s → atoi s ≡ to_int false (scan s 0)
unfolding atoi
atoi-digit [] h = elim h [ ]
atoi-digit (c ∷ s) h = ground arith

pub atoi-itoa_nat : (n : ℕ) → n < 2 ^ 63 → atoi (itoa_nat n) ≡ (pos n, none)
unfolding to_int
atoi-itoa_nat n h =
    rw (atoi-digit _ (itoa_nat-StartsDigit n), scan-itoa_nat n (omega arith)) (ground arith)

-- Every `int` is read back from its decimal print.
pub atoi-itoa : (z : ℤ) → InInt z → atoi (itoa z) ≡ (z, none)
unfolding itoa
atoi-itoa (pos n) h = atoi-itoa_nat n h
atoi-itoa (negsuc n) h =
    unfold atoi in
    rw (unsigned-digit true _ (itoa_nat-StartsDigit (suc n)), scan-itoa_nat (suc n) (omega arith))
      (unfold to_int in ground arith)

abbrev pub IsDigit : ℕ → Type 0
IsDigit c = (b'0' ≤ c) × (c ≤ b'9')

digits-IsDigit : (f n : ℕ) (out : Str) → All IsDigit out → All IsDigit (digits f n out)
unfolding digits
digits-IsDigit zero n out h = h
digits-IsDigit (suc f) n out h =
    let d : IsDigit (b'0' + n % 10) = omega arith in
    elim (Bool-cases (ltb n 10)) [
      | inl small ↦ rw small (d, h)
      | inr large ↦ rw large (digits-IsDigit f (n / 10) ((b'0' + n % 10) ∷ out) (d, h))
    ]

All-mono : (P Q : ℕ → Type 0) (s : Str) → ((c : ℕ) → P c → Q c) → All P s → All Q s
All-mono P Q [] f h = tt
All-mono P Q (c ∷ s) f (h, hs) = (f c h, All-mono P Q s f hs)

-- A print holds digits only.
pub itoa_nat-IsDigit : (n : ℕ) → All IsDigit (itoa_nat n)
unfolding itoa_nat
itoa_nat-IsDigit n = digits-IsDigit (suc n) n [] tt

pub itoa_nat-Lacks : (b n : ℕ) → b < b'0' → Lacks b (itoa_nat n)
itoa_nat-Lacks b n h =
    All-mono IsDigit (λ c. c ≢ b) (itoa_nat n) (λ c d. omega arith) (itoa_nat-IsDigit n)
