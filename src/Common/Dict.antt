-- ===== src/Common/Dict.antt =====
-- Go maps with string keys, as association lists.
use gproc.Common.Tests.{if◌then◌else◌, Bool-cases}
use gproc.Common.Text.{Str, str_eq, str_eq_iff}
use mathlib.Core.Path.{◌≡◌, refl, subst}
use mathlib.Core.Logic.{inl, inr}
use mathlib.Core.Option.{Option, none, some, some-injective}
use mathlib.Core.List.{List, [], ◌∷◌}
use native.Mathlib.Omega.{arith}

abbrev pub Dict {ℓ} : Type ℓ → Type ℓ
Dict V = List (Str × V)

module _ {ℓ} {V : Type ℓ} where
  -- `v, ok := m[k]`
  unfoldable pub lookup : Str → Dict V → Option V
  lookup k [] = none
  lookup k ((j, v) ∷ m) = if str_eq j k then some v else lookup k m

  -- `m[k] = v`
  unfoldable pub insert : Str → V → Dict V → Dict V
  insert k v [] = (k, v) ∷ []
  insert k v ((j, w) ∷ m) = if str_eq j k then (k, v) ∷ m else (j, w) ∷ insert k v m

  -- `delete(m, k)`
  unfoldable pub delete : Str → Dict V → Dict V
  delete k [] = []
  delete k ((j, v) ∷ m) = let rest = delete k m in if str_eq j k then rest else (j, v) ∷ rest

  pub lookup-insert :
      (k j : Str) (v : V) (m : Dict V)
      → lookup j (insert k v m) ≡ (if str_eq k j then some v else lookup j m)
  unfolding lookup insert
  lookup-insert k j v [] = refl
  lookup-insert k j v ((i, w) ∷ m) =
      ground (arith, str_eq_iff k j, str_eq_iff i k, str_eq_iff i j, lookup-insert k j v m)

  pub lookup-delete :
      (k j : Str) (m : Dict V) → lookup j (delete k m) ≡ (if str_eq k j then none else lookup j m)
  unfolding lookup delete
  lookup-delete k j [] = ground arith
  lookup-delete k j ((i, w) ∷ m) =
      ground (arith, str_eq_iff k j, str_eq_iff i k, str_eq_iff i j, lookup-delete k j m)

module _ {ℓ κ} {V : Type ℓ} (P : V → Type κ) where
  -- Every value of the map.
  abbrev pub AllValues : Dict V → Type κ
  AllValues [] = Unit
  AllValues ((k, v) ∷ m) = P v × AllValues m

  pub AllValues-insert :
      (k : Str) (v : V) (m : Dict V) → P v → AllValues m → AllValues (insert k v m)
  unfolding insert
  AllValues-insert k v [] p h = (p, tt)
  AllValues-insert k v ((j, w) ∷ m) p (q, h) = elim (Bool-cases (str_eq j k)) [
    | inl same ↦ rw same (p, h)
    | inr other ↦ rw other (q, AllValues-insert k v m p h)
  ]

  pub AllValues-lookup : (k : Str) (v : V) (m : Dict V) → AllValues m → lookup k m ≡ some v → P v
  unfolding lookup
  AllValues-lookup k v [] h e = absurd (ground arith)
  AllValues-lookup k v ((j, w) ∷ m) (q, h) e = elim (Bool-cases (str_eq j k)) [
    | inl same ↦ subst P (some-injective w v (rw same at e)) q
    | inr other ↦ AllValues-lookup k v m h (rw other at e)
  ]
