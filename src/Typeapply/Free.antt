-- ===== src/Typeapply/Free.antt =====
-- How many names of a list a test leaves out: the measure of the recursions over the types.
use gproc.Common.{
  ℕ, suc, ◌≤◌, ◌<◌, Bool, true, false, List, [], ◌∷◌, ◌≡◌, inl, inr, arith, Str, length,
}
use mathlib.Core.List.{Memᴰ}
use mathlib.Core.List.Memᴰ
use mathlib.Core.Path.{subst}

abbrev count_if : Bool → ℕ → ℕ
count_if false n = suc n
count_if true n = n

pub free : (Str → Bool) → List Str → ℕ
free test [] = 0
free test (x ∷ names) = count_if (test x) (free test names)

pub free_mono :
    (test test' : Str → Bool) (names : List Str)
    → ((x : Str) → test' x ≡ false → test x ≡ false)
    → free test' names ≤ free test names
unfolding free
free_mono test test' [] g = omega arith
free_mono test test' (x ∷ names) g = ground (arith, g x, free_mono test test' names g)

-- One more name that the test holds of.
pub free_less :
    (test test' : Str → Bool) (names : List Str) (x : Str)
    → ((y : Str) → test' y ≡ false → test y ≡ false)
    → Memᴰ x names
    → test x ≡ false
    → test' x ≡ true
    → free test' names < free test names
unfolding free
free_less test test' [] x g mem was now = absurd (Memᴰ.not-nil mem)
free_less test test' (y ∷ names) x g mem was now = elim (Memᴰ.cases_cons mem) [
  | inl first ↦
      let was' = subst (λ z. test z ≡ false) first was in
      let now' = subst (λ z. test' z ≡ true) first now in
      ground (arith, was', now', free_mono test test' names g)
  | inr later ↦ ground (arith, g y, free_less test test' names x g later was now)
]

pub free-le-length : (test : Str → Bool) (names : List Str) → free test names ≤ length names
unfolding free
free-le-length test [] = omega arith
free-le-length test (x ∷ names) = ground (arith, free-le-length test names)
