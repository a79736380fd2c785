-- ===== src/Marshal/Keys.antt =====
-- src/filemarshal/filemarshal.go: the names that `Encode` sends, and the files that `Decode` finds under
-- them.
use gproc.Common.{
  List, [], ◌∷◌, ◌++◌, Option, none, some, ◌≡◌, ◌≢◌, refl, sym, inl, inr, arith, Str, str_eq,
  str_eq_iff, Bool-cases, Option-cases, append-nil, append_assoc,
}
use gproc.Common.Dict.{Dict, lookup, insert, lookup-insert}
use gproc.Protocol.{File}
use gproc.Marshal.{add_file, collect, first_named, set_named}

module _ {V : Type 0} where
  -- No key stands twice in the map.
  abbrev pub Unique : Dict V → Type 0
  Unique [] = Unit
  Unique ((k, v) ∷ m) = (lookup k m ≡ none) × Unique m

  Unique-insert : (k : Str) (v : V) (m : Dict V) → Unique m → Unique (insert k v m)
  unfolding insert lookup
  Unique-insert k v [] h = (refl, tt)
  Unique-insert k v ((j, w) ∷ m) (fresh, h) = elim (Bool-cases (str_eq j k)) [
    | inl same ↦ rw same (ground (arith, str_eq_iff j k), h)
    | inr other ↦ rw other (
      ground (arith, lookup-insert k j v m, str_eq_iff j k, str_eq_iff k j),
      Unique-insert k v m h,
    )
  ]

-- The first of two answers that is there.
abbrev pub earlier : Option File → Option File → Option File
earlier none o = o
earlier (some f) o = some f

-- A map that holds, under each name, the first file with this name.
pub record Holds (fs : List File) (files : Dict File) : Type 0 where
  pub unique : Unique files
  pub first : (n : Str) → lookup n files ≡ first_named n fs

first_named-append :
    (n : Str) (fs : List File) (f : File)
    → first_named n (fs ++ f ∷ []) ≡ earlier (first_named n fs) (first_named n (f ∷ []))
unfolding first_named
first_named-append n [] f = refl
first_named-append n (g ∷ fs) f = ground (arith, first_named-append n fs f)

add_file-Holds :
    (f : File) (fs : List File) (files : Dict File)
    → Holds fs files
    → Holds (fs ++ f ∷ []) (add_file f files)
unfolding add_file first_named
add_file-Holds f fs files h = elim (Bool-cases (str_eq f.current_name [])) [
  | inl empty ↦ rw empty (record {
    unique = h.unique;
    first = λ n. ground (arith, empty, h.first n, first_named-append n fs f);
  })
  | inr named ↦ elim (Option-cases (lookup f.current_name files)) [
    | inl fresh ↦
        rw (named, fresh)
          (record {
            unique = Unique-insert f.current_name f files h.unique;
            first = λ n.
                rw (lookup-insert f.current_name n f files, first_named-append n fs f)
                  (ground (
                    arith,
                    named,
                    fresh,
                    h.first n,
                    h.first f.current_name,
                    str_eq_iff f.current_name n,
                  ));
          })
    | inr (g, known) ↦
        rw (named, known)
          (record {
            unique = h.unique;
            first = λ n. rw (first_named-append n fs f) (
                ground (
                  arith,
                  named,
                  known,
                  h.first n,
                  h.first f.current_name,
                  str_eq_iff f.current_name n,
                ));
          })
  ]
]

collect_from :
    (fs done : List File) (files : Dict File)
    → Holds done files
    → Holds (done ++ fs) (collect fs files)
unfolding collect
collect_from [] done files h = rw (append-nil done) h
collect_from (f ∷ fs) done files h =
    rw (sym (append_assoc done (f ∷ []) fs))
      (collect_from fs (done ++ f ∷ []) (add_file f files) (add_file-Holds f done files h))

-- What `Encode` collects.
pub collect-Holds : (fs : List File) → Holds fs (collect fs [])
unfolding lookup first_named
collect-Holds fs = collect_from fs [] [] (record { unique = tt; first = λ n. refl })

-- A file that is put in place of those with its own name leaves the others.
pub first_named-set_named :
    (m n : Str) (f' : File) (fs : List File)
    → f'.current_name ≡ m
    → m ≢ n
    → first_named n (set_named m f' fs) ≡ first_named n fs
unfolding first_named set_named
first_named-set_named m n f' [] e h = refl
first_named-set_named m n f' (f ∷ fs) e h = ground (
  arith,
  first_named-set_named m n f' fs e h,
  str_eq_iff f.current_name m,
  str_eq_iff f.current_name n,
  str_eq_iff f'.current_name n,
)

-- A file that is found has the name.
pub first_named-name :
    (n : Str) (f : File) (fs : List File) → first_named n fs ≡ some f → f.current_name ≡ n
unfolding first_named
first_named-name n f [] e = absurd (ground arith)
first_named-name n f (g ∷ fs) e =
    ground (arith, first_named-name n f fs, str_eq_iff g.current_name n)
