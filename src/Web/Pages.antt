-- ===== src/Web/Pages.antt =====
-- src/gproc/web.go, src/gproc/common.go: the page of slaves against the table of slaves.
use gproc.Common.{
  ℕ, List, [], ◌∷◌, Option, none, some, ◌≡◌, ◌↔◌, refl, sym, ap, ◌∙◌, inl, inr, arith, Str, str_eq,
  str_eq_iff, str_eq_self, map, Bool-cases,
}
use mathlib.Core.Path.{subst}
use mathlib.Core.Option.{some-injective}
use mathlib.Core.Logic.{∥∥₁_elim}
use mathlib.Core.List.{Mem, Memᴰ}
use mathlib.Core.List.Memᴰ
use mathlib.Core.List.Perm
use gproc.Common.Dict.{Dict, lookup, insert, delete, lookup-insert, lookup-delete}
use gproc.Protocol.{VitalData}
use gproc.Registry.{SlaveInfo, Slaves, MapOrder, new_slaves, info_of, add, remove}
use gproc.Web.{Page, slaves_page, extended_slave_information}

module _ {V : Type 0} where
  -- No key stands twice.
  abbrev pub Distinct : Dict V → Type 0
  Distinct [] = Unit
  Distinct ((k, v) ∷ m) = (lookup k m ≡ none) × Distinct m

  Distinct-insert : (k : Str) (v : V) (m : Dict V) → Distinct m → Distinct (insert k v m)
  unfolding insert lookup
  Distinct-insert k v [] d = (refl, tt)
  Distinct-insert k v ((j, w) ∷ m) (e, d) = elim (Bool-cases (str_eq j k)) [
    | inl same ↦ rw same (subst (λ i. lookup i m ≡ none) ((str_eq_iff j k).0 same) e, d)
    | inr other ↦ rw other (
      ground (arith, lookup-insert k j v m, str_eq_iff j k, str_eq_iff k j, e),
      Distinct-insert k v m d,
    )
  ]

  Distinct-delete : (k : Str) (m : Dict V) → Distinct m → Distinct (delete k m)
  unfolding delete lookup
  Distinct-delete k [] d = tt
  Distinct-delete k ((j, w) ∷ m) (e, d) = elim (Bool-cases (str_eq j k)) [
    | inl same ↦ rw same (Distinct-delete k m d)
    | inr other ↦ rw other (ground (arith, lookup-delete k j m, e), Distinct-delete k m d)
  ]

SlaveInfo-IsSet : IsSet SlaveInfo
SlaveInfo-IsSet = hlevel

Option-IsSet : IsSet (Option SlaveInfo)
Option-IsSet = hlevel

-- Every slave stands once, and under its own id.
abbrev IsKept : Dict SlaveInfo → Type 0
IsKept m = Distinct m × ((k : Str) (s : SlaveInfo) → lookup k m ≡ some s → s.id ≡ k)

IsKept-tail : (j : Str) (v : SlaveInfo) (m : Dict SlaveInfo) → IsKept ((j, v) ∷ m) → IsKept m
unfolding lookup
IsKept-tail j v m ((e, d), keys) = (
  d,
  λ k s f. keys k s (elim (Bool-cases (str_eq j k)) [
    | inl same ↦ absurd (ground (arith, str_eq_iff j k, same, e, f))
    | inr other ↦ rw (other, f)
  ]),
)

found_listed :
    (k : Str) (s : SlaveInfo) (m : Dict SlaveInfo) → lookup k m ≡ some s → Memᴰ s (map (λ e. e.1) m)
unfolding lookup
found_listed k s [] f = absurd (ground arith)
found_listed k s ((j, v) ∷ m) f = elim (Bool-cases (str_eq j k)) [
  | inl same ↦ Memᴰ.head (sym (some-injective v s (rw same at f)))
  | inr other ↦ Memᴰ.tail (found_listed k s m (rw other at f))
]

listed_found :
    (s : SlaveInfo) (m : Dict SlaveInfo)
    → IsKept m
    → Memᴰ s (map (λ e. e.1) m)
    → lookup s.id m ≡ some s
unfolding lookup
listed_found s [] h d = absurd (Memᴰ.not-nil d)
listed_found s ((j, v) ∷ m) h (Memᴰ.head e) =
    let hit : lookup j ((j, v) ∷ m) ≡ some v = rw (str_eq_self j) in
    ap (λ t. lookup t.id ((j, v) ∷ m)) e
    ∙ ap (λ k. lookup k ((j, v) ∷ m)) (h.1 j v hit)
    ∙ hit
    ∙ ap some (sym e)
listed_found s ((j, v) ∷ m) h (Memᴰ.tail d) =
    let rest : lookup s.id m ≡ some s = listed_found s m (IsKept-tail j v m h) d in
    elim (Bool-cases (str_eq j s.id)) [
      | inl same ↦ absurd (ground (arith, str_eq_iff j s.id, same, h.0.0, rest))
      | inr other ↦ rw (other, rest)
    ]

-- What happens to the table of slaves: a slave reports, or one is removed.
pub data Change : Type 0 where
  reports : VitalData → ℕ → Change
  drops : SlaveInfo → Change

abbrev change : Change → Slaves → Slaves
change (reports vd r) sv = (add vd r sv).0
change (drops s) sv = remove s sv

-- The table after changes.
abbrev pub after : List Change → Slaves → Slaves
after [] sv = sv
after (c ∷ cs) sv = after cs (change c sv)

change-IsKept : (c : Change) (sv : Slaves) → IsKept sv.slaves → IsKept (change c sv).slaves
unfolding add remove
change-IsKept (reports vd r) sv (d, keys) = (
  Distinct-insert vd.id (info_of vd r) sv.slaves d,
  λ k s.
      ground (arith, lookup-insert vd.id k (info_of vd r) sv.slaves, str_eq_iff vd.id k, keys k s),
)
change-IsKept (drops t) sv (d, keys) = (
  Distinct-delete t.id sv.slaves d,
  λ k s. ground (arith, lookup-delete t.id k sv.slaves, keys k s),
)

after-IsKept : (cs : List Change) (sv : Slaves) → IsKept sv.slaves → IsKept (after cs sv).slaves
after-IsKept [] sv h = h
after-IsKept (c ∷ cs) sv h = after-IsKept cs (change c sv) (change-IsKept c sv h)

IsKept-new_slaves : IsKept new_slaves.slaves
unfolding new_slaves lookup
IsKept-new_slaves = (tt, λ k s e. absurd (ground arith))

-- The slaves on a page.
abbrev pub slaves_out : Page → List SlaveInfo
slaves_out (slaves_page title slaves) = slaves
slaves_out page = []

-- Whatever slaves were added and removed, in an order of any kind: a slave is on the page of slaves
-- exactly if the table has it under its id.
pub page_lists :
    (go : MapOrder) (cs : List Change) (s : SlaveInfo)
    → Mem s (slaves_out (extended_slave_information go (after cs new_slaves)))
      ↔ (lookup s.id (after cs new_slaves).slaves ≡ some s)
unfolding extended_slave_information
page_lists go cs s =
    let sv = after cs new_slaves in
    let same : Mem s (map (λ e. e.1) (go.order sv.slaves)) ↔ Mem s (map (λ e. e.1) sv.slaves) =
      Perm.mem_iff (Perm.map (λ e. e.1) (go.order-perm sv.slaves)) in
    (
      λ m.
          ∥∥₁_elim (same.0 m) (Option-IsSet _ _)
            (listed_found s sv.slaves (after-IsKept cs new_slaves IsKept-new_slaves)),
      λ e. same.1 ∣ found_listed s.id s sv.slaves e ∣₁,
    )
