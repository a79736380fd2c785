-- ===== src/Typeapply/Chain.antt =====
-- src/typeapply/typeapply.go: `Do` on a linked list, a type that is made of itself.
use gproc.Common.{
  ℕ, zero, suc, ◌+◌, ◌*◌, ◌≤◌, true, false, List, [], ◌∷◌, ◌++◌, map, append_assoc, append-nil, ◌≡◌,
  refl, sym, ap, ◌∙◌, arith, Str, codes, str_eq, length, if◌then◌else◌,
}
use gproc.Common.Dict.{lookup, insert}
use gproc.Dispatch.{returned, panicked}
use gproc.Typeapply.{
  Types, ptr, struct, basic, Traverser, ptr_trav, fields_trav, call_func, TypeInfo, definite_yes,
  Infos, Getter, can_reach, get_traverser_func, info_at, make_trav, trav_of_kind, reach_kind,
  visit_fields, field_funcs,
}
use gproc.Typeapply.Values.{
  Value, nil_value, pointer, struct_value, no_values, value_and, basic_value, Visits, do_target,
  run_trav, run_fields, run_found, finish,
}

-- type Node struct { Val T; Next *Node }
abbrev pub list_types : Types
list_types xt =
    if str_eq xt (codes "Node")
    then struct (
        record { exported = true; type_name = codes "T" }
        ∷ record { exported = true; type_name = codes "*Node" }
        ∷ [])
    else if str_eq xt (codes "*Node")
    then ptr (codes "Node")
    else basic

abbrev pub node : Str → Value → Value
node s next = struct_value (value_and true (basic_value s) (value_and true next no_values))

-- The pointer to a list.
abbrev pub chain : List Str → Value
chain [] = nil_value
chain (s ∷ ss) = pointer (node s (chain ss))

abbrev pub four_more : ℕ → ℕ
four_more n = suc (suc (suc (suc n)))

abbrev node_trav : Traverser
node_trav = fields_trav ((0, codes "T") ∷ (1, codes "*Node") ∷ [])

abbrev with_trav : Traverser → TypeInfo
with_trav f = record { reach = definite_yes; visiting = false; trav = f }

-- The map once `Do` has looked at a pointer to a node.
abbrev pub list_infos : Infos
list_infos =
    (codes "*Node", with_trav (ptr_trav node_trav))
    ∷ (codes "Node", with_trav node_trav)
    ∷ (codes "T", with_trav call_func)
    ∷ []

get_list :
    (n : ℕ)
    → get_traverser_func (four_more n) (four_more n) list_types (codes "T") [] (codes "*Node")
      ≡ returned (ptr_trav node_trav, list_infos)
unfolding get_traverser_func can_reach info_at make_trav trav_of_kind reach_kind visit_fields
    field_funcs lookup insert
get_list n = refl

run_chain :
    (fuel : ℕ) (getter : Getter) (ss : List Str) (called : List Value)
    → 2 * length ss + 1 ≤ fuel
    → run_trav fuel getter
        (ptr_trav node_trav)
        false
        (chain ss)
        (record { infos = list_infos; called = called })
      ≡ (returned tt, record { infos = list_infos; called = called ++ map basic_value ss })
unfolding run_trav run_fields info_at lookup
run_chain (suc fuel) getter [] called h =
    ap (λ c. (returned tt, record { infos = list_infos; called = c })) (sym (append-nil called))
run_chain (suc (suc (suc fuel))) getter (s ∷ ss) called h =
    rw (
      run_chain (suc fuel) getter ss (called ++ basic_value s ∷ []) (omega (arith, h)),
      append_assoc,
    )
run_chain (suc (suc zero)) getter (s ∷ ss) called h = absurd (omega (arith, h))
run_chain (suc zero) getter (s ∷ ss) called h = absurd (omega (arith, h))
run_chain zero getter ss called h = absurd (omega (arith, h))

do_pointer :
    (ss : List Str) (fuel : ℕ)
    → 2 * length ss + 1 ≤ four_more fuel
    → do_target (four_more fuel) list_types (codes "T") (codes "*Node") (chain ss) []
      ≡ (returned tt, map basic_value ss, (codes "T", list_infos) ∷ [])
unfolding do_target lookup insert
do_pointer ss fuel h =
    let getter = get_traverser_func (four_more fuel) (four_more fuel) list_types (codes "T") in
    let s : Visits = record { infos = []; called = [] } in
    ap (finish (codes "T") []) (
      ap (run_found (run_trav (four_more fuel) getter) false (chain ss) s) (get_list fuel)
      ∙ run_chain (four_more fuel) getter ss [] h)

-- For a function on a type that `Do` has not been called for, so that nothing is in its map: `Do` on the
-- pointer to a list calls the function on each element, in order; but `Do` on the first node itself, with
-- another behind it, panics after the call on the first element, since the function of the pointer type holds
-- the dummy that the node's type had while it was made. The fuel is more than twice the length.
pub do_chain :
    (s u : Str) (ss : List Str) (fuel : ℕ)
    → 2 * length (s ∷ u ∷ ss) + 1 ≤ four_more fuel
    → (do_target (four_more fuel) list_types (codes "T") (codes "*Node") (chain (s ∷ u ∷ ss)) []
        ≡ (returned tt, map basic_value (s ∷ u ∷ ss), (codes "T", list_infos) ∷ []))
      × ((do_target
            (four_more fuel)
            list_types
            (codes "T")
            (codes "Node")
            (node s (chain (u ∷ ss)))
            []).0
          ≡ panicked)
      × ((do_target
            (four_more fuel)
            list_types
            (codes "T")
            (codes "Node")
            (node s (chain (u ∷ ss)))
            []).1
          ≡ basic_value s ∷ [])
unfolding do_target run_trav run_fields get_traverser_func can_reach info_at make_trav trav_of_kind
    reach_kind visit_fields field_funcs lookup insert
do_chain s u ss fuel h = (do_pointer (s ∷ u ∷ ss) fuel h, refl, refl)
