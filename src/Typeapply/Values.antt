-- ===== src/Typeapply/Values.antt =====
-- src/typeapply/typeapply.go: the functions that `getTraverserFunc` makes, run on a value, and `Do`.
use gproc.Common.{
  ℕ, zero, suc, Bool, true, false, not, ◌||◌, List, [], ◌∷◌, ◌++◌, Option, none, some, Str,
}
use gproc.Common.Dict.{Dict, lookup, insert}
use gproc.Dispatch.{Ended, returned, panicked, endless}
use gproc.Typeapply.{
  Types, Traverser, nil_func, call_func, ptr_trav, fields_trav, map_trav, elements_trav,
  interface_trav, Infos, info_at, Getter, get_traverser_func,
}

-- A value as `reflect` sees it. A field of a struct comes with the flag that it is exported; the entries
-- of a map stand in the order in which `MapKeys` gives them.
mutual
  pub data Value : Type 0 where
    nil_value : Value
    pointer : Value → Value
    struct_value : Values → Value
    map_value : Entries → Value
    list_value : Values → Value
    interface_value : Str → Value → Value
    basic_value : Str → Value

  pub data Values : Type 0 where
    no_values : Values
    value_and : Bool → Value → Values → Values

  pub data Entries : Type 0 where
    no_entries : Entries
    entry_and : Value → Value → Entries → Entries

-- The map of the target type, and the values that the function was called on.
pub record Visits : Type 0 where
  pub infos : Infos
  pub called : List Value

abbrev pub Visit : Type 0
Visit = Visits → Ended (Unit {0}) × Visits

abbrev pub next : Ended (Unit {0}) × Visits → Visit → Ended (Unit {0}) × Visits
next (returned u, s) more = more s
next (panicked, s) more = (panicked, s)
next (endless, s) more = (endless, s)

abbrev pub skip : Visit
skip s = (returned tt, s)

abbrev pub stop : Visit
stop s = (panicked, s)

-- `y.Field(i)`
abbrev pub field_at : ℕ → Values → Option (Bool × Value)
field_at i no_values = none
field_at zero (value_and exported v vs) = some (exported, v)
field_at (suc i) (value_and exported v vs) = field_at i vs

-- A function with the flag that the value came through a field that is not exported.
abbrev pub Runner : Type 0
Runner = Traverser → Bool → Value → Visit

-- The loop over the fields that were selected.
unfoldable pub run_fields : Runner → List (ℕ × Str) → Bool → Values → Visit
unfolding info_at
run_fields runner [] hidden vs s = skip s
run_fields runner ((i, ft) ∷ fields) hidden vs s = elim (field_at i vs) [
  | none ↦ stop s
  | some (exported, v) ↦
      next (runner (info_at ft s.infos).trav (hidden || not exported) v s)
        (run_fields runner fields hidden vs)
]

-- A function is called only if it is not nil.
abbrev pub run_some : Runner → Runner
run_some runner nil_func hidden v s = skip s
run_some runner f hidden v s = runner f hidden v s

-- The loop over the keys of a map.
unfoldable pub run_entries : Runner → Traverser → Traverser → Bool → Entries → Visit
run_entries runner on_key on_elem hidden no_entries s = skip s
run_entries runner on_key on_elem hidden (entry_and key elem es) s =
    next (next (run_some runner on_key hidden key s) (run_some runner on_elem hidden elem))
      (run_entries runner on_key on_elem hidden es)

-- The loop over the elements of an array or a slice.
unfoldable pub run_elements : Runner → Traverser → Bool → Values → Visit
run_elements runner f hidden no_values s = skip s
run_elements runner f hidden (value_and exported v vs) s =
    next (runner f hidden v s) (run_elements runner f hidden vs)

-- The function for the type that an interface holds, and the run of it.
abbrev pub run_found :
    Runner → Bool → Value → Visits → Ended (Traverser × Infos) → Ended (Unit {0}) × Visits
run_found runner hidden v s (returned (f, m)) = run_some runner f hidden v (record s { infos = m })
run_found runner hidden v s panicked = (panicked, s)
run_found runner hidden v s endless = (endless, s)

-- A `traverserFunc` on a value. `reflect` panics on a value of another kind, and where the function is
-- called on a value that came through a field that is not exported.
unfoldable pub run_trav : ℕ → Getter → Runner
unfolding run_fields run_entries run_elements
run_trav zero getter f hidden v s = (endless, s)
run_trav (suc fuel) getter call_func true v s = stop s
run_trav (suc fuel) getter call_func false v s =
    (returned tt, record s { called = s.called ++ v ∷ [] })
run_trav (suc fuel) getter (ptr_trav f) hidden nil_value s = skip s
run_trav (suc fuel) getter (ptr_trav f) hidden (pointer v) s = run_trav fuel getter f hidden v s
run_trav (suc fuel) getter (fields_trav fields) hidden (struct_value vs) s =
    run_fields (run_trav fuel getter) fields hidden vs s
run_trav (suc fuel) getter (map_trav f g) hidden (map_value es) s =
    run_entries (run_trav fuel getter) f g hidden es s
run_trav (suc fuel) getter (elements_trav f) hidden (list_value vs) s =
    run_elements (run_trav fuel getter) f hidden vs s
run_trav (suc fuel) getter interface_trav hidden nil_value s = skip s
run_trav (suc fuel) getter interface_trav hidden (interface_value xt v) s =
    run_found (run_trav fuel getter) hidden v s (getter s.infos xt)
run_trav (suc fuel) getter _ hidden v s = stop s

-- The type of a function: its arguments, and how many values it returns.
pub record Func : Type 0 where
  pub ins : List Str
  pub outs : ℕ

-- `tmap`
abbrev pub Tmap : Type 0
Tmap = Dict Infos

abbrev pub or_no_infos : Option Infos → Infos
or_no_infos none = []
or_no_infos (some m) = m

-- What is left of a run: how it ended, the values that the function was called on, and `tmap`.
abbrev pub finish : Str → Tmap → Ended (Unit {0}) × Visits → Ended (Unit {0}) × List Value × Tmap
finish t tmap (r, s) = (r, s.called, insert t s.infos tmap)

-- `Do` for a target type.
unfoldable pub do_target :
    ℕ → Types → Str → Str → Value → Tmap → Ended (Unit {0}) × List Value × Tmap
unfolding run_trav get_traverser_func
do_target fuel types t xt v tmap =
    let getter = get_traverser_func fuel fuel types t in
    let s : Visits = record { infos = or_no_infos (lookup t tmap); called = [] } in
    finish t tmap (run_found (run_trav fuel getter) false v s (getter s.infos xt))

-- `Do`, with the checks of the function's type.
unfoldable pub do_apply :
    ℕ → Types → Func → Str → Value → Tmap → Ended (Unit {0}) × List Value × Tmap
unfolding do_target
do_apply fuel types f xt v tmap = elim f.ins [
  | [] ↦ (panicked, [], tmap)
  | t ∷ ins ↦ elim ins [
    | u ∷ more ↦ (panicked, [], tmap)
    | [] ↦ elim f.outs [ zero ↦ do_target fuel types t xt v tmap | suc n ↦ (panicked, [], tmap) ]
  ]
]
