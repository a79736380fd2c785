-- ===== src/Ldd/Listed.antt =====
-- src/ldd/ldd.go: what is known stands in the list that is returned.
use gproc.Common.{
  ℕ, zero, suc, true, ◌||◌, List, [], ◌∷◌, ◌++◌, some, ◌≡◌, sym, ap, ◌∙◌, inl, inr, arith, Str,
  str_eq, str_eq_iff, str_eq_self, split, Bool-cases, Option-cases,
}
use gproc.Common.Dict.{lookup, insert, lookup-insert}
use mathlib.Core.Option.{some-injective}
use mathlib.Core.Path.{subst}
use gproc.Master.Serve.{contains}
use gproc.Ldd.{ElfFiles, LddState, path_join_all, opens, find, follow, libraries, ldd_loop, lddroot}
use gproc.Ldd.Pending.{is_some, LinksAgree, contains-append}
use gproc.Ldd.Closed.{
  List-cases, state_of, error-ne, fits_and_ends, start_state, lddroot-Ends, known-when-done,
  start-Pending,
}

-- The library's path is in the list, or its own name is.
abbrev pub InList : Str → Str → List Str → Type 0
InList k b ret = (contains b ret || contains k ret) ≡ true

abbrev pub Listed : LddState → Type 0
Listed st = (k b : Str) → lookup k st.known ≡ some b → InList k b st.ret

InList-append : (k b x : Str) (ret : List Str) → InList k b ret → InList k b (ret ++ x ∷ [])
InList-append k b x ret h =
    rw (contains-append b ret (x ∷ []), contains-append k ret (x ∷ [])) (ground (arith, h))

Listed-insert :
    (l v x : Str) (strings : List Str) (st : LddState)
    → InList l v (st.ret ++ x ∷ [])
    → Listed st
    → Listed (record { known = insert l v st.known; strings = strings; ret = st.ret ++ x ∷ [] })
Listed-insert l v x strings st here h k b e =
    let look = sym e ∙ lookup-insert l k v st.known in
    elim (Bool-cases (str_eq l k)) [
      | inl same ↦
          let value : v ≡ b = some-injective v b (sym (rw same at look)) in
          subst (λ c. InList k c (st.ret ++ x ∷ [])) value
            (subst (λ c. InList c v (st.ret ++ x ∷ [])) ((str_eq_iff l k).0 same) here)
      | inr other ↦ InList-append k b x st.ret (h k b (sym (rw other at look)))
    ]

own_path : (k b : Str) (ret : List Str) → InList k b (ret ++ b ∷ [])
unfolding contains
own_path k b ret = rw (contains-append b ret (b ∷ [])) (ground (arith, str_eq_self b))

own_name : (k b : Str) (ret : List Str) → InList k b (ret ++ k ∷ [])
unfolding contains
own_name k b ret = rw (contains-append k ret (k ∷ [])) (ground (arith, str_eq_self k))

module _ (files : ElfFiles) (root : Str) where
  follow-Listed :
      (fuel : ℕ) (libdir b : Str) (st st' : LddState)
      → Listed st
      → follow fuel files root libdir b st ≡ some st'
      → Listed st'
  unfolding follow
  follow-Listed zero libdir b st st' h e = absurd (ground arith)
  follow-Listed (suc fuel) libdir b st st' h e = elim (Option-cases (files.readlink b)) [
    | inl end_of_links ↦ subst Listed (some-injective st st' (rw (follow, end_of_links) at e)) h
    | inr (l, links) ↦
        let b' = path_join_all (root ∷ libdir ∷ l ∷ []) in
        follow-Listed fuel libdir b' _ st'
          (Listed-insert l b' l st.strings st (own_name l b' st.ret) h) (rw (follow, links) at e)
  ]

  loop-Listed :
      (fuel : ℕ) (libpath : List Str) (st st' : LddState)
      → Listed st
      → ldd_loop fuel files root libpath st ≡ libraries st'
      → Listed st'
  unfolding ldd_loop
  loop-Listed zero libpath st st' h e = absurd (ground arith)
  loop-Listed (suc fuel) libpath st st' h e = elim (List-cases st.strings) [
    | inl empty ↦ subst Listed (ap (state_of st) (rw (ldd_loop, empty) at e)) h
    | inr (lib, rest, waiting) ↦
        let e1 = rw (ldd_loop, waiting) at e in
        elim (Option-cases (lookup lib st.known)) [
          | inr (b, known) ↦
              loop-Listed fuel libpath (record st { strings = rest }) st' h (rw known at e1)
          | inl fresh ↦
              let e2 = rw fresh at e1 in
              elim (Option-cases (find files root libpath lib)) [
                | inl missing ↦ absurd (error-ne st' (rw missing at e2))
                | inr ((libdir, b), place) ↦
                    let e3 = rw place at e2 in
                    elim (Option-cases (files.elf b)) [
                      | inl closed ↦ absurd (error-ne st' (rw closed at e3))
                      | inr (imports, opened) ↦ elim (Option-cases imports) [
                        | inl unread ↦ absurd (error-ne st' (rw (opened ∙ ap some unread) at e3))
                        | inr (dynlibs, read) ↦
                            let e4 = rw (opened ∙ ap some read) at e3 in
                            let (st2, followed, e5) =
                              fits_and_ends files root fuel libpath libdir b rest dynlibs lib st st'
                                e4 in
                            let taken =
                              Listed-insert lib b b (rest ++ dynlibs) st (own_path lib b st.ret)
                                h in
                            loop-Listed fuel libpath st2 st'
                              (follow-Listed fuel libdir b _ st2 taken followed) e5
                      ]
                    ]
              ]
        ]
  ]

lddroot-Listed :
    (fuel : ℕ) (files : ElfFiles) (cmd root liblist : Str) (st : LddState)
    → lddroot fuel files cmd root liblist ≡ libraries st
    → Listed st
unfolding lddroot lookup
lddroot-Listed fuel files cmd root liblist st e =
    elim (Bool-cases (opens (files.elf (path_join_all (root ∷ cmd ∷ []))))) [
      | inl opened ↦
          loop-Listed files root fuel (split b':' liblist) (start_state cmd) st
            (λ k b known. absurd (ground (arith, known))) (rw opened at e)
      | inr closed ↦ absurd (error-ne st (rw closed at e))
    ]

-- The library was found, and its path or its own name is in the list that is returned.
abbrev pub Returned : Str → LddState → Type 0
Returned m st = (b : Str) × (lookup m st.known ≡ some b) × InList m b st.ret

known-Returned :
    (m : Str) (st : LddState) → Listed st → is_some (lookup m st.known) ≡ true → Returned m st
known-Returned m st h e = elim (Option-cases (lookup m st.known)) [
  | inl none_known ↦ absurd (ground (arith, rw none_known at e))
  | inr (b, known) ↦ (b, known, h m b known)
]

-- If `Lddroot` returns a list, and each link needs the same libraries as the file that the code takes for
-- its target, the program is found and in the list that is returned, and so is every library that a found file
-- needs: by its path, or by its own name where it is the text of a link.
pub lddroot_lem :
    (fuel : ℕ) (files : ElfFiles) (cmd root liblist : Str) (st : LddState) (k b : Str)
    (libs : List Str) (m : Str)
    → LinksAgree files root
    → lddroot fuel files cmd root liblist ≡ libraries st
    → lookup k st.known ≡ some b
    → files.elf b ≡ some (some libs)
    → contains m libs ≡ true
    → Returned cmd st × Returned m st
lddroot_lem fuel files cmd root liblist st k b libs m agree e here needs has =
    let (inv, done, keeps) = lddroot-Ends fuel files cmd root liblist st agree e in
    let listed = lddroot-Listed fuel files cmd root liblist st e in
    (
      known-Returned cmd st listed (known-when-done cmd st done (keeps cmd (start-Pending cmd))),
      known-Returned m st listed (known-when-done m st done (inv k b here libs m needs has)),
    )
