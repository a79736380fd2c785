-- ===== src/Ldd/Pending.antt =====
-- src/ldd/ldd.go: the libraries that are known or wait on the channel, and the loop over the links.
use gproc.Common.{
  ℕ, zero, suc, Bool, true, false, ◌||◌, List, [], ◌∷◌, ◌++◌, Option, none, some, ◌≡◌, refl, sym,
  ap, ◌∙◌, inl, inr, arith, Str, str_eq, str_eq_iff, Bool-cases, Option-cases,
}
use gproc.Common.Dict.{lookup, insert, lookup-insert}
use mathlib.Core.Option.{some-injective}
use mathlib.Core.Path.{subst}
use gproc.Master.Serve.{contains}
use gproc.Ldd.{ElfFiles, LddState, path_join_all, find, follow, take_library}

abbrev pub is_some : Option Str → Bool
is_some none = false
is_some (some s) = true

-- The library is known or waits on the channel.
abbrev pub Pending : Str → LddState → Type 0
Pending m st = (is_some (lookup m st.known) || contains m st.strings) ≡ true

-- What the file at `b` needs is known or waits.
abbrev pub Covered : ElfFiles → Str → LddState → Type 0
Covered files b st =
    (libs : List Str) (m : Str)
    → files.elf b ≡ some (some libs)
    → contains m libs ≡ true
    → Pending m st

abbrev pub Inv : ElfFiles → LddState → Type 0
Inv files st = (k b : Str) → lookup k st.known ≡ some b → Covered files b st

pub contains-append :
    (m : Str) (xs ys : List Str) → contains m (xs ++ ys) ≡ (contains m xs || contains m ys)
unfolding contains
contains-append m [] ys = refl
contains-append m (x ∷ xs) ys = ground (arith, contains-append m xs ys)

-- An element that is known already leaves the channel.
pub Pending-skip :
    (lib b m : Str) (rest : List Str) (st : LddState)
    → lookup lib st.known ≡ some b
    → (is_some (lookup m st.known) || contains m (lib ∷ rest)) ≡ true
    → Pending m (record st { strings = rest })
unfolding contains
Pending-skip lib b m rest st e h = ground (arith, e, h, str_eq_iff lib m)

-- An element becomes known, and others come onto the channel.
pub Pending-take :
    (lib b m : Str) (rest dynlibs : List Str) (st : LddState)
    → (is_some (lookup m st.known) || contains m (lib ∷ rest)) ≡ true
    → Pending m (take_library lib b dynlibs (record st { strings = rest }))
unfolding contains
Pending-take lib b m rest dynlibs st h =
    rw (lookup-insert lib m b st.known, contains-append m rest dynlibs) (ground (arith, h))

pub Pending-link :
    (l b m : Str) (ret : List Str) (st : LddState)
    → Pending m st
    → Pending m (record st { ret = ret; known = insert l b st.known })
Pending-link l b m ret st h = rw (lookup-insert l m b st.known) (ground (arith, h))

module _ (files : ElfFiles) (root : Str) where
  -- The paths that the links of a library lead through, for the directory where it was found.
  pub data Chain (libdir : Str) : Str → Type 0 where
    found :
        (libpath : List Str) (lib b : Str)
        → find files root libpath lib ≡ some (libdir, b)
        → Chain libdir b
    linked :
        (b linkname : Str)
        → Chain libdir b
        → files.readlink b ≡ some linkname
        → Chain libdir (path_join_all (root ∷ libdir ∷ linkname ∷ []))

  -- A link and the file that the code takes for its target need the same libraries.
  pub record LinksAgree : Type 0 where
    pub agree :
        (libdir b linkname : Str)
        → Chain libdir b
        → files.readlink b ≡ some linkname
        → files.elf (path_join_all (root ∷ libdir ∷ linkname ∷ [])) ≡ files.elf b

  -- A new entry whose file is covered keeps the invariant.
  pub Inv-insert :
      (l b : Str) (st st' : LddState)
      → st'.known ≡ insert l b st.known
      → ((m : Str) → Pending m st → Pending m st')
      → Covered files b st'
      → Inv files st
      → Inv files st'
  Inv-insert l b st st' e keeps cov inv k v h libs m needs has =
      let look = sym h ∙ ap (lookup k) e ∙ lookup-insert l k b st.known in
      elim (Bool-cases (str_eq l k)) [
        | inl same ↦
            let here : b ≡ v = some-injective b v (sym (rw same at look)) in
            cov libs m (ap files.elf here ∙ needs) has
        | inr other ↦ keeps m (inv k v (sym (rw other at look)) libs m needs has)
      ]

  -- The links keep the invariant and the channel, if the file that they start from is covered.
  pub follow-Inv :
      (fuel : ℕ) (libdir b : Str) (st st' : LddState)
      → LinksAgree
      → Chain libdir b
      → Inv files st
      → Covered files b st
      → follow fuel files root libdir b st ≡ some st'
      → Inv files st' × ((m : Str) → Pending m st → Pending m st')
  unfolding follow
  follow-Inv zero libdir b st st' agree chain inv cov e = absurd (ground arith)
  follow-Inv (suc fuel) libdir b st st' agree chain inv cov e =
      elim (Option-cases (files.readlink b)) [
        | inl end_of_links ↦
            let same : st ≡ st' = some-injective st st' (rw (follow, end_of_links) at e) in
            subst (λ s. Inv files s × ((m : Str) → Pending m st → Pending m s)) same (inv, λ m h. h)
        | inr (l, links) ↦
            let b' = path_join_all (root ∷ libdir ∷ l ∷ []) in
            let st1 : LddState = record st {
              ret = st.ret ++ l ∷ [];
              known = insert l b' st.known;
            } in
            let keeps : (m : Str) → Pending m st → Pending m st1 =
              λ m h. Pending-link l b' m st1.ret st h in
            let cov1 : Covered files b' st1 = λ libs m needs has.
              keeps m (cov libs m (sym (agree.agree libdir b l chain links) ∙ needs) has) in
            let (inv', keeps') =
              follow-Inv fuel libdir b' st1 st' agree (linked b l chain links)
                (Inv-insert l b' st st1 refl keeps cov1 inv) cov1 (rw (follow, links) at e) in
            (inv', λ m h. keeps' m (keeps m h))
      ]
