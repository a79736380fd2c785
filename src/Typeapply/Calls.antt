-- ===== src/Typeapply/Calls.antt =====
-- src/typeapply/typeapply.go and src/filemarshal/filemarshal.go: one call of `Do` on a message, for the function
-- on files that `Encode` and `Decode` give it.
use gproc.Common.{
  ℕ, suc, false, List, [], ◌∷◌, ◌++◌, map, append_assoc, append-nil, ◌≡◌, refl, sym, ap, ◌∙◌, Str,
  codes,
}
use mathlib.Core.Path.{subst}
use gproc.Common.Dict.{lookup, insert, lookup-insert}
use gproc.Dispatch.{Ended, returned}
use gproc.Protocol.{StartReq}
use gproc.Typeapply.{
  Traverser, nil_func, ptr_trav, fields_trav, elements_trav, call_func, Infos, Getter, can_reach,
  get_traverser_func, info_at, make_trav, trav_of_kind, reach_kind, visit_fields, field_funcs,
}
use gproc.Typeapply.Values.{
  Value, pointer, list_value, Visits, Tmap, or_no_infos, finish, do_target, run_trav, run_fields,
  run_elements, run_found, next, skip,
}
use gproc.Typeapply.Request.{files, request_types, request_value, file_value, all_public}

abbrev pub ten_more : ℕ → ℕ
ten_more n = suc (suc (suc (suc (suc (suc (suc (suc (suc (suc n)))))))))

abbrev pub request_trav : Traverser
request_trav = ptr_trav (fields_trav ((17, files) ∷ []))

abbrev pub getter : ℕ → Getter
getter n = get_traverser_func (ten_more n) (ten_more n) request_types (codes "*File")

-- From these entries on the function for a pointer to a request calls the function on its files, and once it
-- is made the entries stay.
pub record Ready (n : ℕ) (m : Infos) : Type 0 where
  pub made : Infos
  pub found : getter n m (codes "*StartReq") ≡ returned (request_trav, made)
  pub on_files : (info_at files made).trav ≡ elements_trav call_func
  pub stays : getter n made (codes "*StartReq") ≡ returned (request_trav, made)

pub Ready-start : (n : ℕ) → Ready n []
unfolding get_traverser_func can_reach info_at make_trav trav_of_kind reach_kind visit_fields
    field_funcs lookup insert
Ready-start n = record { made = _; found = refl; on_files = refl; stays = refl }

pub get_nested :
    (n : ℕ)
    → (m : Infos) × (getter n [] (codes "**StartReq") ≡ returned (ptr_trav request_trav, m))
      × ((info_at files m).trav ≡ elements_trav call_func)
      × Ready n m
unfolding get_traverser_func can_reach info_at make_trav trav_of_kind reach_kind visit_fields
    field_funcs lookup insert
get_nested n = (_, refl, refl, record { made = _; found = refl; on_files = refl; stays = refl })

-- The function is called on each element of a list.
pub run_calls :
    (n : ℕ) (getter : Getter) (vs : List Value) (m : Infos) (called : List Value)
    → run_elements
        (run_trav (suc n) getter)
        call_func
        false
        (all_public vs)
        (record { infos = m; called = called })
      ≡ (returned tt, record { infos = m; called = called ++ vs })
unfolding run_elements run_trav
run_calls n getter [] m called =
    ap (λ c. (returned tt, record { infos = m; called = c })) (sym (append-nil called))
run_calls n getter (v ∷ vs) m called = rw (run_calls n getter vs m (called ++ v ∷ []), append_assoc)

pub run_request :
    (n : ℕ) (g : Getter) (r : StartReq) (m : Infos)
    → (info_at files m).trav ≡ elements_trav call_func
    → run_trav
        (suc (suc (suc (suc (suc n)))))
        g
        request_trav
        false
        (request_value r)
        (record { infos = m; called = [] })
      ≡ (returned tt, record { infos = m; called = map file_value r.files })
unfolding run_trav run_fields
run_request n g r m e =
    let s : Visits = record { infos = m; called = [] } in
    let vs = map file_value r.files in
    ap (λ f. next (run_trav (suc (suc (suc n))) g f false (list_value (all_public vs)) s) skip) e
    ∙ ap (λ o. next o skip) (run_calls (suc n) g vs m [])

-- `Do` with a function on files, on a value of a type.
abbrev pub do_files : ℕ → Str → Value → Tmap → Ended (Unit {0}) × List Value × Tmap
do_files n xt v tmap = do_target (ten_more n) request_types (codes "*File") xt v tmap

abbrev pub entries : Tmap → Infos
entries tmap = or_no_infos (lookup (codes "*File") tmap)

pub entries-insert : (m : Infos) (tmap : Tmap) → entries (insert (codes "*File") m tmap) ≡ m
entries-insert m tmap = rw (lookup-insert (codes "*File") (codes "*File") m tmap) refl

pub run_ready :
    (n : ℕ) (r : StartReq) (tmap : Tmap) (ready : Ready n (entries tmap))
    → do_files n (codes "*StartReq") (request_value r) tmap
      ≡ (returned tt, map file_value r.files, insert (codes "*File") ready.made tmap)
unfolding do_target
run_ready n r tmap ready =
    let s : Visits = record { infos = entries tmap; called = [] } in
    ap (finish (codes "*File") tmap) (
      ap (run_found (run_trav (ten_more n) (getter n)) false (request_value r) s) ready.found
      ∙ run_request (suc (suc (suc (suc (suc n))))) (getter n) r ready.made ready.on_files)

-- A type that holds no file: nothing is called, whatever the value.
pub run_quiet :
    (n : ℕ) (xt : Str) (v : Value) (m : Infos) (tmap : Tmap)
    → getter n (entries tmap) xt ≡ returned (nil_func, m)
    → do_files n xt v tmap ≡ (returned tt, [], insert (codes "*File") m tmap)
unfolding do_target
run_quiet n xt v m tmap got =
    let s : Visits = record { infos = entries tmap; called = [] } in
    ap (finish (codes "*File") tmap)
      (ap (run_found (run_trav (ten_more n) (getter n)) false v s) got)

pub run_nested :
    (n : ℕ) (r : StartReq)
    → do_files n (codes "**StartReq") (pointer (request_value r)) []
      ≡ (returned tt, map file_value r.files, insert (codes "*File") (get_nested n).0 [])
unfolding do_target lookup run_trav
run_nested n r =
    let s : Visits = record { infos = []; called = [] } in
    let (m, got, e, ready) = get_nested n in
    ap (finish (codes "*File") []) (
      ap (run_found (run_trav (ten_more n) (getter n)) false (pointer (request_value r)) s) got
      ∙ run_request (suc (suc (suc (suc n)))) (getter n) r m e)

pub Ready-at :
    (n : ℕ) (m : Infos) (tmap old : Tmap)
    → tmap ≡ insert (codes "*File") m old
    → Ready n m
    → Ready n (entries tmap)
Ready-at n m tmap old e h = subst (Ready n) (sym (ap entries e ∙ entries-insert m old)) h
