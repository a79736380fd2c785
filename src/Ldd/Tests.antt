-- ===== src/Ldd/Tests.antt =====
-- A run of `Lddroot`, and the instance of its theorem.
use gproc.Common.{
  List, Str, Bool-cases, inl, inr, ◌≢◌, true, [], ◌∷◌, none, some, ◌≡◌, refl, arith, codes, str_eq,
  split, join, if◌then◌else◌,
}
use gproc.Common.Dict.{lookup, insert}
use gproc.Master.Serve.{contains}
use gproc.Pack.Path.{clean}
use gproc.Ldd.{ElfFiles, LddState, path_join_all, libraries, unfinished, ldd_loop, lddroot}
use gproc.Ldd.Pending.{LinksAgree}
use gproc.Ldd.Ends.{lddroot_ends}
use mathlib.Core.Option.{some-injective}
use mathlib.Core.Path.{subst}
use gproc.Ldd.Listed.{Returned, lddroot_lem}

abbrev pub files : ElfFiles
files = record {
  elf = λ p.
      if str_eq p (codes "/bin/date")
      then some (some (codes "c.so" ∷ []))
      else if str_eq p (codes "/usr/lib/c.so")
      then some (some [])
      else none;
  readlink = λ p. none;
}

abbrev after : LddState
after = record {
  known = (codes "/bin/date", codes "/bin/date") ∷ (codes "c.so", codes "/usr/lib/c.so") ∷ [];
  strings = [];
  ret = codes "/bin/date" ∷ codes "/usr/lib/c.so" ∷ [];
}

run : lddroot 4 files (codes "/bin/date") [] (codes "/lib:/usr/lib") ≡ libraries after
unfolding lddroot ldd_loop path_join_all clean split join lookup insert
run = refl

here : lookup (codes "/bin/date") after.known ≡ some (codes "/bin/date")
unfolding lookup
here = refl

needed : contains (codes "c.so") (codes "c.so" ∷ []) ≡ true
unfolding contains
needed = refl

agree : LinksAgree files []
agree = record { agree = λ libdir b linkname chain e. absurd (ground (arith, e)) }

lddroot_lem_example : Returned (codes "/bin/date") after × Returned (codes "c.so") after
lddroot_lem_example =
    lddroot_lem 4 files (codes "/bin/date") [] (codes "/lib:/usr/lib") after (codes "/bin/date")
      (codes "/bin/date") (codes "c.so" ∷ []) (codes "c.so") agree run here refl needed

abbrev names : List Str
names = codes "/bin/date" ∷ codes "c.so" ∷ []

c_is_named :
    (b : Str) (dynlibs : List Str)
    → files.elf b ≡ some (some dynlibs)
    → (m : Str) → contains m dynlibs ≡ true
    → contains m names ≡ true
unfolding contains
c_is_named b dynlibs e m h = elim (Bool-cases (str_eq b (codes "/bin/date"))) [
  | inl date ↦
      let same : codes "c.so" ∷ [] ≡ dynlibs =
        some-injective (codes "c.so" ∷ []) dynlibs
          (some-injective (some (codes "c.so" ∷ [])) (some dynlibs) (rw date at e)) in
      subst (λ l. contains m l ≡ true → contains m names ≡ true) same (λ k. ground (arith, k)) h
  | inr other ↦ elim (Bool-cases (str_eq b (codes "/usr/lib/c.so"))) [
    | inl c ↦
        let same : [] ≡ dynlibs =
          some-injective [] dynlibs
            (some-injective (some []) (some dynlibs) (rw (other, c) at e)) in
        subst (λ l. contains m l ≡ true → contains m names ≡ true) same
          (λ k. absurd (ground (arith, k))) h
    | inr neither ↦ absurd (ground (arith, rw (other, neither) at e))
  ]
]

date_named : contains (codes "/bin/date") names ≡ true
unfolding contains
date_named = refl

libpath_split : split b':' (codes "/lib:/usr/lib") ≡ codes "/lib" ∷ codes "/usr/lib" ∷ []
unfolding split
libpath_split = refl

lddroot_ends_example : lddroot 516 files (codes "/bin/date") [] (codes "/lib:/usr/lib") ≢ unfinished
lddroot_ends_example =
    lddroot_ends files [] (codes "/lib" ∷ codes "/usr/lib" ∷ []) names 0 (λ lib libdir b e. refl)
      c_is_named 516 (codes "/bin/date") (codes "/lib:/usr/lib") libpath_split date_named
      (omega arith)
