-- ===== src/Common/Split.antt =====
-- Laws of `split`, `split_2` and `join`.
use gproc.Common.Tests.{◌==◌, Bool-cases}
use gproc.Common.Lists.{All}
use gproc.Common.Text.{Str, Lacks, split, split_2, join, cons_head}
use Prim.Native.Nat.{ℕ}
use mathlib.Core.Path.{◌≡◌, refl}
use mathlib.Core.Logic.{◌≢◌, inl, inr}
use mathlib.Core.Option.{none, some}
use mathlib.Core.List.{List, [], ◌∷◌, ◌++◌}
use native.Mathlib.Omega.{arith}

module _ (sep : ℕ) where
  pub split_at_sep : (s : Str) → split sep (sep ∷ s) ≡ [] ∷ split sep s
  unfolding split
  split_at_sep s = ground arith

  split-ne-nil : (s : Str) → split sep s ≢ []
  unfolding split
  split-ne-nil [] = ground arith
  split-ne-nil (c ∷ s) = ground (arith, split-ne-nil s)

  cons_head-append :
      (c : ℕ) (ps qs : List Str) → ps ≢ [] → cons_head c (ps ++ qs) ≡ cons_head c ps ++ qs
  cons_head-append c [] qs h = absurd (h refl)
  cons_head-append c (p ∷ ps) qs h = refl

  -- A split at a separator splits the two sides.
  pub split-append : (s t : Str) → split sep (s ++ sep ∷ t) ≡ split sep s ++ split sep t
  unfolding split
  split-append [] t = ground arith
  split-append (c ∷ s) t = elim (Bool-cases (c == sep)) [
    | inl e ↦ rw e (rw (split-append s t))
    | inr e ↦ rw e (rw (split-append s t) (cons_head-append c (split sep s) _ (split-ne-nil s)))
  ]

  -- What holds no separator is one part.
  pub split-Lacks : (s : Str) → Lacks sep s → split sep s ≡ s ∷ []
  unfolding split
  split-Lacks [] h = refl
  split-Lacks (c ∷ s) h = ground (arith, split-Lacks s h.1)

  -- Splitting what was joined gives the parts back, if there is one and none holds the separator.
  pub split-join : (ps : List Str) → ps ≢ [] → All (Lacks sep) ps → split sep (join sep ps) ≡ ps
  unfolding join
  split-join [] h _ = absurd (h refl)
  split-join (p ∷ []) h (l, _) = split-Lacks p l
  split-join (p ∷ q ∷ ps) h (l, ls) =
      rw (split-append, split-Lacks p l, split-join (q ∷ ps) (λ e. absurd (ground arith)) ls)

  -- No part of a split holds the separator.
  pub split-parts : (s : Str) → All (Lacks sep) (split sep s)
  unfolding split
  split-parts [] = (tt, tt)
  split-parts (c ∷ s) = ground (arith, split-parts s)

  pub split_2-Lacks : (s : Str) → Lacks sep s → split_2 sep s ≡ (s, none)
  unfolding split_2
  split_2-Lacks [] h = refl
  split_2-Lacks (c ∷ s) h = ground (arith, split_2-Lacks s h.1)

  pub split_2-append : (s t : Str) → Lacks sep s → split_2 sep (s ++ sep ∷ t) ≡ (s, some t)
  unfolding split_2
  split_2-append [] t h = ground arith
  split_2-append (c ∷ s) t h = ground (arith, split_2-append s t h.1)
