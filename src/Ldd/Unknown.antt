-- ===== src/Ldd/Unknown.antt =====
-- src/ldd/ldd.go: how many names are not known yet.
use gproc.Common.{
  ℕ, suc, ◌≤◌, ◌<◌, true, List, [], ◌∷◌, none, some, ◌≡◌, ap, ◌∙◌, inl, inr, arith, Str, str_eq,
  str_eq_iff, length, Bool-cases, if◌then◌else◌,
}
use gproc.Common.Dict.{Dict, lookup, insert, lookup-insert}
use gproc.Master.Serve.{contains}
use gproc.Ldd.Pending.{is_some}

-- How many of the names are not known.
abbrev pub unknown : List Str → Dict Str → ℕ
unknown [] known = 0
unknown (n ∷ names) known =
    let rest = unknown names known in if is_some (lookup n known) then rest else suc rest

pub unknown-insert :
    (names : List Str) (k v : Str) (known : Dict Str)
    → unknown names (insert k v known) ≤ unknown names known
unknown-insert [] k v known = omega arith
unknown-insert (n ∷ names) k v known =
    ground (arith, lookup-insert k n v known, unknown-insert names k v known)

pub unknown-take :
    (names : List Str) (k v : Str) (known : Dict Str)
    → contains k names ≡ true
    → lookup k known ≡ none
    → unknown names (insert k v known) < unknown names known
unfolding contains
unknown-take [] k v known h e = absurd (ground arith)
unknown-take (n ∷ names) k v known h e = elim (Bool-cases (str_eq n k)) [
  | inl same ↦
      let eq : n ≡ k = (str_eq_iff n k).0 same in
      let before : lookup n known ≡ none = ap (λ i. lookup i known) eq ∙ e in
      let after : lookup n (insert k v known) ≡ some v =
        lookup-insert k n v known ∙ ground (arith, eq, str_eq_iff k n) in
      let le = unknown-insert names k v known in rw (before, after) (omega (arith, le))
  | inr other ↦
      let less = unknown-take names k v known (rw other at h) e in
      let look : lookup n (insert k v known) ≡ lookup n known =
        lookup-insert k n v known ∙ ground (arith, other, str_eq_iff k n, str_eq_iff n k) in
      rw look (ground (arith, less))
]

pub unknown_le : (names : List Str) (known : Dict Str) → unknown names known ≤ length names
unknown_le [] known = omega arith
unknown_le (n ∷ names) known = ground (arith, unknown_le names known)
