-- ===== src/Ldd/Closed.antt =====
-- src/ldd/ldd.go: what a library that was found needs is found too.
use gproc.Common.{
  ℕ, zero, suc, ◌+◌, true, List, [], ◌∷◌, none, some, ◌≡◌, ◌≢◌, ◌⊎◌, refl, sym, ap, ◌∙◌, inl, inr,
  arith, Str, str_eq_self, split, length, leb, Bool-cases, Option-cases, if◌then◌else◌,
}
use gproc.Common.Dict.{lookup}
use mathlib.Core.Option.{some-injective}
use mathlib.Core.Path.{subst}
use gproc.Master.Serve.{contains}
use gproc.Ldd.{
  ElfFiles, LddState, path_join_all, opens, find, follow, LddEnd, libraries, ldd_error, deadlock,
  unfinished, take_library, ldd_loop, lddroot,
}
use gproc.Ldd.Pending.{
  is_some, Pending, Covered, Inv, LinksAgree, contains-append, Pending-skip, Pending-take,
  Inv-insert, follow-Inv,
}
use gproc.Ldd.Pending.Chain.{found}

pub List-cases : (xs : List Str) → (xs ≡ []) ⊎ ((x : Str) × (ys : List Str) × (xs ≡ x ∷ ys))
List-cases [] = inl refl
List-cases (x ∷ ys) = inr (x, ys, refl)

abbrev pub state_of : LddState → LddEnd → LddState
state_of st (libraries s) = s
state_of st _ = st

pub error-ne : (st : LddState) → ldd_error ≢ libraries st
error-ne st e = ground arith

deadlock-ne : (st : LddState) → deadlock ≢ libraries st
deadlock-ne st e = ground arith

pub unfinished-ne : (st : LddState) → unfinished ≢ libraries st
unfinished-ne st e = ground arith

module _ (files : ElfFiles) (root : Str) where
  skip-Keeps :
      (lib b : Str) (rest : List Str) (st : LddState)
      → st.strings ≡ lib ∷ rest
      → lookup lib st.known ≡ some b
      → (m : Str) → Pending m st
      → Pending m (record st { strings = rest })
  skip-Keeps lib b rest st waiting known m h = Pending-skip lib b m rest st known (rw waiting at h)

  take-Keeps :
      (lib b : Str) (rest dynlibs : List Str) (st : LddState)
      → st.strings ≡ lib ∷ rest
      → (m : Str) → Pending m st
      → Pending m (take_library lib b dynlibs (record st { strings = rest }))
  take-Keeps lib b rest dynlibs st waiting m h =
      Pending-take lib b m rest dynlibs st (rw waiting at h)

  -- The imports of the library that is taken wait on the channel.
  take-Covered :
      (lib b : Str) (rest dynlibs : List Str) (st : LddState)
      → files.elf b ≡ some (some dynlibs)
      → Covered files b (take_library lib b dynlibs (record st { strings = rest }))
  take-Covered lib b rest dynlibs st imports libs m needs has =
      let same : dynlibs ≡ libs =
        some-injective dynlibs libs
          (some-injective (some dynlibs) (some libs) (sym imports ∙ needs)) in
      rw (contains-append m rest dynlibs, same, has) (ground arith)

  -- What holds between a state of the loop and the one that it ends with.
  abbrev pub Ends : LddState → LddState → Type 0
  Ends st st' = Inv files st' × (st'.strings ≡ []) × ((m : Str) → Pending m st → Pending m st')

  take-Ends :
      (fuel : ℕ) (libpath : List Str) (libdir lib b : Str) (rest dynlibs : List Str)
      (st st2 st' : LddState)
      → LinksAgree files root
      → Inv files st
      → st.strings ≡ lib ∷ rest
      → find files root libpath lib ≡ some (libdir, b)
      → files.elf b ≡ some (some dynlibs)
      → follow fuel files root libdir b (take_library lib b dynlibs (record st { strings = rest }))
        ≡ some st2
      → (Inv files st2 → Ends st2 st')
      → Ends st st'
  take-Ends fuel libpath libdir lib b rest dynlibs st st2 st' agree inv waiting place imports
        followed go_on =
      let st1 = take_library lib b dynlibs (record st { strings = rest }) in
      let keeps1 = take-Keeps lib b rest dynlibs st waiting in
      let cov1 = take-Covered lib b rest dynlibs st imports in
      let (inv2, keeps2) =
        follow-Inv files root fuel libdir b st1 st2 agree (found libpath lib b place)
          (Inv-insert files root lib b st st1 refl keeps1 cov1 inv) cov1 followed in
      let (inv', done, keeps') = go_on inv2 in (inv', done, λ m h. keeps' m (keeps2 m (keeps1 m h)))

  -- Behind a library that is found, the loop goes on only if the channel has room and the links end.
  pub fits_and_ends :
      (fuel : ℕ) (libpath : List Str) (libdir b : Str) (rest dynlibs : List Str) (lib : Str)
      (st st' : LddState)
      → (if leb (length rest + length dynlibs) 256
          then (elim (follow fuel files root libdir b
              (take_library lib b dynlibs (record st { strings = rest }))) [
                | none ↦ unfinished
                | some st'' ↦ ldd_loop fuel files root libpath st''
              ])
          else deadlock)
        ≡ libraries st'
      → (st2 : LddState) × (follow fuel files root libdir b
            (take_library lib b dynlibs (record st { strings = rest }))
          ≡ some st2)
        × (ldd_loop fuel files root libpath st2 ≡ libraries st')
  fits_and_ends fuel libpath libdir b rest dynlibs lib st st' e =
      elim (Bool-cases (leb (length rest + length dynlibs) 256)) [
        | inr full ↦ absurd (deadlock-ne st' (rw full at e))
        | inl fits ↦
            let e1 = rw fits at e in
            elim (Option-cases (
              follow fuel files root libdir b
                (take_library lib b dynlibs (record st { strings = rest })))) [
                  | inl long ↦ absurd (unfinished-ne st' (rw long at e1))
                  | inr (st2, followed) ↦ (st2, followed, rw followed at e1)
                ]
      ]

  -- When the loop ends with a list, the invariant holds, the channel is empty, and what was known or
  -- waiting is known.
  loop-Inv :
      (fuel : ℕ) (libpath : List Str) (st st' : LddState)
      → LinksAgree files root
      → Inv files st
      → ldd_loop fuel files root libpath st ≡ libraries st'
      → Inv files st' × (st'.strings ≡ []) × ((m : Str) → Pending m st → Pending m st')
  unfolding ldd_loop
  loop-Inv zero libpath st st' agree inv e = absurd (ground arith)
  loop-Inv (suc fuel) libpath st st' agree inv e = elim (List-cases st.strings) [
    | inl empty ↦
        let same : st ≡ st' = ap (state_of st) (rw (ldd_loop, empty) at e) in
        subst (λ s. Inv files s × (s.strings ≡ []) × ((m : Str) → Pending m st → Pending m s)) same
          (inv, empty, λ m h. h)
    | inr (lib, rest, waiting) ↦
        let e1 = rw (ldd_loop, waiting) at e in
        elim (Option-cases (lookup lib st.known)) [
          | inr (b, known) ↦
              let st1 : LddState = record st { strings = rest } in
              let keeps = skip-Keeps lib b rest st waiting known in
              let (inv', done, keeps') =
                loop-Inv fuel libpath st1 st' agree
                  (λ k v h libs m needs has. keeps m (inv k v h libs m needs has))
                  (rw known at e1) in
              (inv', done, λ m h. keeps' m (keeps m h))
          | inl fresh ↦
              let e2 = rw fresh at e1 in
              elim (Option-cases (find files root libpath lib)) [
                | inl missing ↦ absurd (error-ne st' (rw missing at e2))
                | inr ((libdir, b), place) ↦
                    let e3 = rw place at e2 in
                    elim (Option-cases (files.elf b)) [
                      | inl closed ↦ absurd (error-ne st' (rw closed at e3))
                      | inr (imports, opened) ↦ elim (Option-cases imports) [
                        | inl unread ↦ absurd (error-ne st' (rw (opened ∙ ap some unread) at e3))
                        | inr (dynlibs, read) ↦
                            let e4 = rw (opened ∙ ap some read) at e3 in
                            let (st2, followed, e5) =
                              fits_and_ends fuel libpath libdir b rest dynlibs lib st st' e4 in
                            take-Ends fuel libpath libdir lib b rest dynlibs st st2 st' agree inv
                              waiting place (opened ∙ ap some read) followed
                              (λ inv2. loop-Inv fuel libpath st2 st' agree inv2 e5)
                      ]
                    ]
              ]
        ]
  ]

pub known-when-done :
    (m : Str) (st : LddState) → st.strings ≡ [] → Pending m st → is_some (lookup m st.known) ≡ true
unfolding contains
known-when-done m st done h = let h' = rw done at h in ground (arith, h')

abbrev pub start_state : Str → LddState
start_state cmd = record { known = []; strings = cmd ∷ []; ret = [] }

pub start-Pending : (cmd : Str) → Pending cmd (start_state cmd)
unfolding contains
start-Pending cmd = ground (arith, str_eq_self cmd)

start-Inv : (files : ElfFiles) (cmd : Str) → Inv files (start_state cmd)
unfolding lookup
start-Inv files cmd k b e = absurd (ground (arith, e))

pub lddroot-Ends :
    (fuel : ℕ) (files : ElfFiles) (cmd root liblist : Str) (st : LddState)
    → LinksAgree files root
    → lddroot fuel files cmd root liblist ≡ libraries st
    → Ends files root (start_state cmd) st
unfolding lddroot
lddroot-Ends fuel files cmd root liblist st agree e =
    elim (Bool-cases (opens (files.elf (path_join_all (root ∷ cmd ∷ []))))) [
      | inl opened ↦
          loop-Inv files root fuel (split b':' liblist) (start_state cmd) st agree
            (start-Inv files cmd) (rw opened at e)
      | inr closed ↦ absurd (error-ne st (rw closed at e))
    ]
