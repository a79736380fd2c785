-- ===== src/Ldd.antt =====
-- src/ldd/ldd.go: `Lddroot`, which finds the libraries that a program needs, with those that they need in
-- turn. What `elf.Open`, `ImportedLibraries` and `Readlink` find is a parameter, `ElfFiles`.
pub mod Pending
pub mod Closed
pub mod Listed
pub mod Unknown
pub mod Ends
pub mod Tests
use gproc.Common.{
  ℕ, zero, suc, ◌+◌, Bool, true, false, List, [], ◌∷◌, ◌++◌, Option, none, some, Str, codes, str_eq,
  split, join, length, leb, ◌==◌, if◌then◌else◌,
}
use gproc.Common.Dict.{Dict, lookup, insert}
use gproc.Pack.Path.{clean, is_rooted}

-- `elf` is `none` where a file does not open, and holds `none` where its imports cannot be read.
pub record ElfFiles : Type 0 where
  pub elf : Str → Option (Option (List Str))
  pub readlink : Str → Option Str

-- `strings` is the channel, the next element first.
pub record LddState : Type 0 where
  pub known : Dict Str
  pub strings : List Str
  pub ret : List Str

abbrev pub non_empty : List Str → List Str
non_empty [] = []
non_empty ([] ∷ elements) = non_empty elements
non_empty ((c ∷ s) ∷ elements) = (c ∷ s) ∷ non_empty elements

abbrev pub join_clean : List Str → Str
join_clean [] = []
join_clean (e ∷ elements) = clean (join b'/' (e ∷ elements))

-- `path.Join`
unfoldable pub path_join_all : List Str → Str
path_join_all elements = join_clean (non_empty elements)

abbrev pub opens : Option (Option (List Str)) → Bool
opens none = false
opens (some imports) = true

-- The loop over the library directories: the first one with the library, and the path there.
unfoldable pub search : ElfFiles → Str → Str → List Str → Option (Str × Str)
unfolding path_join_all
search files root lib [] = none
search files root lib (libdir ∷ libpath) =
    let rest = search files root lib libpath in
    let binpath = path_join_all (root ∷ libdir ∷ lib ∷ []) in
    if opens (files.elf binpath) then some (libdir, binpath) else rest

-- The directory and the path of a name.
unfoldable pub find : ElfFiles → Str → List Str → Str → Option (Str × Str)
unfolding search
find files root libpath lib =
    let binpath = path_join_all ((root ++ lib) ∷ []) in
    if is_rooted lib
    then (if opens (files.elf binpath) then some ([], binpath) else none)
    else search files root lib libpath

-- The loop over the symbolic links; `none` where the fuel runs out.
unfoldable pub follow : ℕ → ElfFiles → Str → Str → Str → LddState → Option LddState
unfolding path_join_all
follow zero files root libdir binpath st = none
follow (suc fuel) files root libdir binpath st = elim (files.readlink binpath) [
  | none ↦ some st
  | some linkname ↦
      let binpath' = path_join_all (root ∷ libdir ∷ linkname ∷ []) in
      follow fuel files root libdir binpath'
        (record st { ret = st.ret ++ linkname ∷ []; known = insert linkname binpath' st.known })
]

-- How `Lddroot` ends: with the list, with an error, with a full channel that nothing is taken from, or
-- not within the fuel.
pub data LddEnd : Type 0 where
  libraries : LddState → LddEnd
  ldd_error : LddEnd
  deadlock : LddEnd
  unfinished : LddEnd

-- The state once a library is found and its imports are on the channel.
abbrev pub take_library : Str → Str → List Str → LddState → LddState
take_library lib binpath dynlibs st = record st {
  known = insert lib binpath st.known;
  strings = st.strings ++ dynlibs;
  ret = st.ret ++ binpath ∷ [];
}

-- The loop over the channel. The one of the links gets the same fuel.
unfoldable pub ldd_loop : ℕ → ElfFiles → Str → List Str → LddState → LddEnd
unfolding find follow
ldd_loop zero files root libpath st = unfinished
ldd_loop (suc fuel) files root libpath st = elim st.strings [
  | [] ↦ libraries st
  | lib ∷ rest ↦ elim (lookup lib st.known) [
    | some binpath ↦ ldd_loop fuel files root libpath (record st { strings = rest })
    | none ↦ elim (find files root libpath lib) [
      | none ↦ ldd_error
      | some (libdir, binpath) ↦ elim (files.elf binpath) [
        | none ↦ ldd_error
        | some none ↦ ldd_error
        | some (some dynlibs) ↦
            let st' = take_library lib binpath dynlibs (record st { strings = rest }) in
            let next = follow fuel files root libdir binpath st' in
            if leb (length rest + length dynlibs) 256
            then (elim next [
              | none ↦ unfinished
              | some st'' ↦ ldd_loop fuel files root libpath st''
            ])
            else deadlock
      ]
    ]
  ]
]

-- `Lddroot`
unfoldable pub lddroot : ℕ → ElfFiles → Str → Str → Str → LddEnd
unfolding ldd_loop
lddroot fuel files cmd root liblist =
    if opens (files.elf (path_join_all (root ∷ cmd ∷ [])))
    then ldd_loop fuel files root (split b':' liblist)
        (record { known = []; strings = cmd ∷ []; ret = [] })
    else ldd_error
