-- ===== src/Ldd/Ends.antt =====
-- src/ldd/ldd.go: the loop over the channel ends.
use gproc.Common.{
  ℕ, zero, suc, ◌+◌, ◌*◌, ◌≤◌, ◌<◌, true, List, [], ◌∷◌, ◌++◌, none, some, ◌≡◌, ◌≢◌, refl, sym, ap,
  ◌∙◌, inl, inr, arith, Str, str_eq_iff, str_eq_self, length, length-append, leb, split, Bool-cases,
  Option-cases,
}
use gproc.Common.Dict.{lookup, insert}
use mathlib.Core.Path.{subst}
use gproc.Master.Serve.{contains}
use gproc.Ldd.{
  ElfFiles, LddState, path_join_all, opens, find, follow, ldd_error, deadlock, unfinished,
  take_library, ldd_loop, lddroot,
}
use gproc.Ldd.Pending.{contains-append}
use gproc.Ldd.Unknown.{unknown, unknown-insert, unknown-take, unknown_le}
use gproc.Ldd.Closed.{List-cases, unfinished-ne}

error_ends : ldd_error ≢ unfinished
error_ends e = ground arith

deadlock_ends : deadlock ≢ unfinished
deadlock_ends e = ground arith

module _ (files : ElfFiles) (root : Str) where
  -- The links from a path come to a file within a number of steps.
  abbrev pub Stops : ℕ → Str → Str → Type 0
  Stops zero libdir b = files.readlink b ≡ none
  Stops (suc n) libdir b =
      (linkname : Str)
      → files.readlink b ≡ some linkname
      → Stops n libdir (path_join_all (root ∷ libdir ∷ linkname ∷ []))

  -- With more fuel than there are links the loop over them ends. It leaves the channel, and forgets nothing.
  follow_ends :
      (n fuel : ℕ) (libdir b : Str) (st : LddState) (names : List Str)
      → Stops n libdir b
      → n < fuel
      → (st' : LddState) × (follow fuel files root libdir b st ≡ some st')
        × (st'.strings ≡ st.strings)
        × (unknown names st'.known ≤ unknown names st.known)
  unfolding follow
  follow_ends n zero libdir b st names stops less = absurd (omega arith)
  follow_ends zero (suc fuel) libdir b st names stops less =
      (st, rw (follow, stops), refl, omega arith)
  follow_ends (suc n) (suc fuel) libdir b st names stops less =
      elim (Option-cases (files.readlink b)) [
        | inl end_of_links ↦ (st, rw (follow, end_of_links), refl, omega arith)
        | inr (l, links) ↦
            let b' = path_join_all (root ∷ libdir ∷ l ∷ []) in
            let st1 : LddState = record st {
              ret = st.ret ++ l ∷ [];
              known = insert l b' st.known;
            } in
            let (st', done, same, le) =
              follow_ends n fuel libdir b' st1 names (stops l links) (omega arith) in
            let le1 = unknown-insert names l b' st.known in
            (st', rw (follow, links) done, same, omega (arith, le, le1))
      ]

  -- What can be on the channel is among these names.
  abbrev pub Within : List Str → List Str → Type 0
  Within names strings = (m : Str) → contains m strings ≡ true → contains m names ≡ true

  Within-append :
      (names xs ys : List Str) → Within names xs → Within names ys → Within names (xs ++ ys)
  Within-append names xs ys h k m here = elim (Bool-cases (contains m xs)) [
    | inl yes_here ↦ h m yes_here
    | inr other ↦ k m (ground (arith, here, other, contains-append m xs ys))
  ]

  Within-rest :
      (names rest : List Str) (lib : Str) (st : LddState)
      → st.strings ≡ lib ∷ rest
      → Within names st.strings
      → Within names rest
  unfolding contains
  Within-rest names rest lib st waiting within m h = within m (rw waiting (ground (arith, h)))

  module _ (libpath names : List Str) (links : ℕ)
      (stops : (lib libdir b : Str)
        → find files root libpath lib ≡ some (libdir, b)
        → Stops links libdir b)
      (imports : (b : Str) (dynlibs : List Str)
        → files.elf b ≡ some (some dynlibs)
        → Within names dynlibs) where
    -- The elements of the channel that are still to come, at most, and the fuel for the links.
    abbrev measure : LddState → ℕ
    measure st = unknown names st.known * 257 + length st.strings + links

    abbrev Bounded : ℕ → LddState → Type 0
    Bounded fuel st = Within names st.strings × (measure st < fuel)

    take_ends :
        (fuel : ℕ) (lib libdir b : Str) (rest dynlibs : List Str) (st : LddState)
        → Bounded (suc fuel) st
        → st.strings ≡ lib ∷ rest
        → lookup lib st.known ≡ none
        → find files root libpath lib ≡ some (libdir, b)
        → files.elf b ≡ some (some dynlibs)
        → length rest + length dynlibs ≤ 256
        → (st' : LddState) × (follow fuel files root libdir b
              (take_library lib b dynlibs (record st { strings = rest }))
            ≡ some st')
          × Bounded fuel st'
    unfolding contains
    take_ends fuel lib libdir b rest dynlibs st (within, less) waiting fresh place opened fits =
        let st1 = take_library lib b dynlibs (record st { strings = rest }) in
        let mine : contains lib names ≡ true =
          within lib (rw waiting (ground (arith, str_eq_self lib))) in
        let fewer : unknown names (insert lib b st.known) < unknown names st.known =
          unknown-take names lib b st.known mine fresh in
        let long : length (rest ++ dynlibs) ≡ length rest + length dynlibs =
          length-append rest dynlibs in
        let (st', done, same, le) =
          follow_ends links fuel libdir b st1 names (stops lib libdir b place)
            (omega (arith, less, fewer)) in
        let same_length : length st'.strings ≡ length (rest ++ dynlibs) = ap length same in
        let stays : Within names st'.strings = subst (Within names) (sym same) (
          Within-append names rest dynlibs (Within-rest names rest lib st waiting within)
            (imports b dynlibs opened)) in
        (st', done, (stays, omega (arith, less, fewer, long, le, same_length, fits)))

    loop_ends :
        (fuel : ℕ) (st : LddState)
        → Bounded fuel st
        → ldd_loop fuel files root libpath st ≢ unfinished
    unfolding ldd_loop
    loop_ends zero st (within, less) e = absurd (omega (arith, less))
    loop_ends (suc fuel) st (within, less) e = elim (List-cases st.strings) [
      | inl empty ↦ absurd (unfinished-ne st (sym (rw (ldd_loop, empty) at e)))
      | inr (lib, rest, waiting) ↦
          let e1 = rw (ldd_loop, waiting) at e in
          elim (Option-cases (lookup lib st.known)) [
            | inr (b, known) ↦
                let shorter : length st.strings ≡ suc (length rest) = ap length waiting in
                loop_ends fuel (record st { strings = rest })
                  (Within-rest names rest lib st waiting within, omega (arith, less, shorter))
                  (rw known at e1)
            | inl fresh ↦
                let e2 = rw fresh at e1 in
                elim (Option-cases (find files root libpath lib)) [
                  | inl missing ↦ absurd (error_ends (rw missing at e2))
                  | inr ((libdir, b), place) ↦
                      let e3 = rw place at e2 in
                      elim (Option-cases (files.elf b)) [
                        | inl closed ↦ absurd (error_ends (rw closed at e3))
                        | inr (imported, opened) ↦ elim (Option-cases imported) [
                          | inl unread ↦ absurd (error_ends (rw (opened ∙ ap some unread) at e3))
                          | inr (dynlibs, read) ↦
                              let e4 = rw (opened ∙ ap some read) at e3 in
                              elim (Bool-cases (leb (length rest + length dynlibs) 256)) [
                                | inr full ↦ absurd (deadlock_ends (rw full at e4))
                                | inl fits ↦
                                    let (st', done, bounded) =
                                      take_ends fuel lib libdir b rest dynlibs st (within, less)
                                        waiting fresh place (opened ∙ ap some read)
                                        (ground (arith, fits)) in
                                    loop_ends fuel st' bounded (rw (fits, done) at e4)
                              ]
                        ]
                      ]
                ]
          ]
    ]

    -- `Lddroot` ends, with a list or an error or for ever waiting on the channel, if all names on the
    -- channel are among some names, which hold what every file needs, and the links from each library come to
    -- a file within some number of steps. The fuel that is enough is 257 for each name, one for the program
    -- and the number of links.
    pub lddroot_ends :
        (fuel : ℕ) (cmd liblist : Str)
        → split b':' liblist ≡ libpath
        → contains cmd names ≡ true
        → length names * 257 + 1 + links < fuel
        → lddroot fuel files cmd root liblist ≢ unfinished
    unfolding lddroot contains
    lddroot_ends fuel cmd liblist dirs mine less e =
        elim (Bool-cases (opens (files.elf (path_join_all (root ∷ cmd ∷ []))))) [
          | inr closed ↦ error_ends (rw closed at e)
          | inl opened ↦
              let start : LddState = record { known = []; strings = cmd ∷ []; ret = [] } in
              let only : Within names (cmd ∷ []) = λ m h.
                subst (λ c. contains c names ≡ true) ((str_eq_iff cmd m).0 (ground (arith, h)))
                  mine in
              let most = unknown_le names [] in
              loop_ends fuel start (only, omega (arith, less, most)) (rw (opened, dirs) at e)
        ]
