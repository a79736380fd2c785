-- ===== src/Marshal.antt =====
-- src/filemarshal/filemarshal.go: a value is sent together with the files that it names.
-- The stream is the list of the values that the underlying encoder is given, in order; it takes every
-- value, and gives them back unchanged. The value is a `StartReq`, whose only files are in `files`, so
-- that `typeapply.Do` runs over that list. The calls that the decoder makes to the operating system are
-- recorded; whether a call succeeds is a parameter.
pub mod Keys
pub mod Blocks
pub mod Delivery
pub mod Returned
pub mod Whole
pub mod Tests
use gproc.Common.{
  ℕ, zero, suc, ◌+◌, ◌%◌, Bool, true, false, ◌&&◌, not, List, [], ◌∷◌, ◌++◌, Option, none, some,
  Str, codes, str_eq, length, map, ◌==◌, if◌then◌else◌,
}
use gproc.Common.Dict.{Dict, lookup, insert}
use gproc.Protocol.{File, StartReq}

-- What is given to the underlying encoder: the value, the names of its files, a part of a file.
pub data Packet : Type 0 where
  request : StartReq → Packet
  names : List Str → Packet
  bytes : Str → Packet

-- What `os.Open` and `ReadAt` find: the bytes of a file that can be opened.
abbrev pub Source : Type 0
Source = Str → Option Str

-- The function that `Encode` applies to a file. The keys of the map, in order, are `names`.
unfoldable pub add_file : File → Dict File → Dict File
add_file f files = if str_eq f.current_name [] then files else elim (lookup f.current_name files) [
  | none ↦ insert f.current_name f files
  | some g ↦ files
]

unfoldable pub collect : List File → Dict File → Dict File
unfolding add_file
collect [] files = files
collect (f ∷ fs) files = collect fs (add_file f files)

unfoldable pub drop : ℕ → Str → Str
drop zero s = s
drop (suc n) [] = []
drop (suc n) (c ∷ s) = drop n s

unfoldable pub take : ℕ → Str → Str
take zero s = []
take (suc n) [] = []
take (suc n) (c ∷ s) = c ∷ take n s

-- `len(buf)`
abbrev pub block_size : ℕ
block_size = 8192

-- The loop over the blocks of a file that begin at `off`. Every round but the last reads a byte, so
-- that one round more than there are bytes is enough.
unfoldable pub send_blocks : ℕ → ℕ → Str → ℕ → List Packet
unfolding take drop
send_blocks zero size content off = []
send_blocks (suc fuel) size content off =
    let block = take size (drop off content) in
    let rest = send_blocks fuel size content (off + length block) in
    elim block [ [] ↦ [] | c ∷ cs ↦ bytes (c ∷ cs) ∷ rest ]

-- One regular file: its blocks and an empty one.
unfoldable pub send_content : Str → List Packet
unfolding send_blocks
send_content content = send_blocks (suc (length content)) block_size content 0 ++ bytes [] ∷ []

-- The loop over the names: true where it ends without an error, and what is encoded.
unfoldable pub send_files : Source → Dict File → Bool × List Packet
send_files source [] = (true, [])
send_files source ((name, f) ∷ files) =
    let (done, packets) = send_files source files in
    if f.ftype == 0
    then elim (source f.current_name) [
      | none ↦ (false, [])
      | some content ↦ (done, send_content content ++ packets)
    ]
    else (done, packets)

-- `Encode`
unfoldable pub encode : Source → StartReq → Bool × List Packet
unfolding send_files collect
encode source x =
    let files = collect x.files [] in
    let (done, packets) = send_files source files in
    (done, request x ∷ names (map (λ e. e.0) files) ∷ packets)

-- The calls of the decoder.
pub data Call : Type 0 where
  mkdir_all : Str → ℕ → Call
  chown : Str → ℕ → ℕ → Call
  lstat : Str → Call
  symlink : Str → Str → Call
  open_file : Str → Call
  write : Str → Str → Call
  close : Str → Call

-- Whether a call succeeds after the calls before it.
abbrev pub Os : Type 0
Os = List Call → Call → Bool

pub record Decoder : Type 0 where
  pub stream : List Packet
  pub calls : List Call

pub data Result {ℓ} (A : Type ℓ) : Type ℓ where
  done : A → Result A
  failed : Result A
  panicked : Result A

-- A call, and whether it succeeded.
abbrev pub ask : Os → Call → Decoder → Bool × Decoder
ask os c d = (os d.calls c, record d { calls = d.calls ++ c ∷ [] })

-- A call whose error is not looked at.
abbrev pub ignore : Os → Call → Decoder → Decoder
ignore os c d = (ask os c d).1

-- `dir, _ := path.Split(name)`: what is before the last slash, and the slash.
unfoldable pub dir_of : Str → Str
dir_of [] = []
dir_of (c ∷ s) =
    let rest = dir_of s in elim rest [ [] ↦ if c == b'/' then c ∷ [] else [] | d ∷ ds ↦ c ∷ d ∷ ds ]

-- The directory of a file is made where `Lstat` does not find it.
unfoldable pub make_dir : Os → Str → Decoder → Decoder
unfolding dir_of
make_dir os destname d =
    let (found, d') = ask os (lstat (dir_of destname)) d in
    if found then d' else ignore os (mkdir_all (dir_of destname) 511) d'

-- The loop that receives the blocks of a file; the calls are those before it.
unfoldable pub receive : Os → Str → List Packet → List Call → Result (Unit {0}) × Decoder
receive os destname [] calls = (failed, record { stream = []; calls = calls })
receive os destname (bytes [] ∷ stream) calls = (done tt, record { stream = stream; calls = calls })
receive os destname (bytes (c ∷ cs) ∷ stream) calls =
    let calls' = calls ++ write destname (c ∷ cs) ∷ [] in
    let rest = receive os destname stream calls' in
    if os calls (write destname (c ∷ cs))
    then rest
    else (failed, record { stream = stream; calls = calls' })
receive os destname (request x ∷ stream) calls = (failed, record { stream = stream; calls = calls })
receive os destname (names ns ∷ stream) calls = (failed, record { stream = stream; calls = calls })

-- `f.file.Close()` behind the loop.
abbrev pub finish_file : Os → Str → File → Result (Unit {0}) × Decoder → Result File × Decoder
finish_file os destname f (done _, d) =
    let (closed, d') = ask os (close destname) d in (if closed then done f else failed, d')
finish_file os destname f (failed, d) = (failed, d)
finish_file os destname f (panicked, d) = (panicked, d)

-- A regular file.
unfoldable pub place_regular : Os → Str → File → Decoder → Result File × Decoder
unfolding receive make_dir
place_regular os destname f d =
    let (opened, d') = ask os (open_file destname) (make_dir os destname d) in
    let owned = ignore os (chown destname f.uid f.gid) d' in
    if opened
    then finish_file os destname f (receive os destname owned.stream owned.calls)
    else (failed, d')

-- A symbolic link; `none` is the panic on an empty target.
abbrev pub rooted_target : Str → Str → Option Str
rooted_target root [] = none
rooted_target root (c ∷ s) = some (if c == b'/' then root ++ c ∷ s else c ∷ s)

abbrev pub link_file : Os → Str → File → Option Str → Decoder → Result File × Decoder
link_file os destname f none d = (panicked, d)
link_file os destname f (some target) d =
    (done (record f { symlink_target = target }), ignore os (symlink target destname) d)

unfoldable pub place_symlink : Os → Str → Str → File → Decoder → Result File × Decoder
unfolding make_dir
place_symlink os root destname f d =
    link_file os destname f (rooted_target root f.symlink_target) (make_dir os destname d)

-- A directory. Its owner is set where it could not be made.
unfoldable pub place_directory : Os → Str → File → Decoder → Result File × Decoder
place_directory os destname f d =
    let (made, d') = ask os (mkdir_all destname (f.perm % 512)) d in
    (done f, if made then d' else ignore os (chown destname f.uid f.gid) d')

-- The `switch` on the kind of the file.
unfoldable pub place : Os → Str → File → Decoder → Result File × Decoder
unfolding place_directory place_symlink place_regular
place os root f d =
    let destname = root ++ f.dest_name in
    if f.ftype == 1
    then place_directory os destname f d
    else if f.ftype == 2
    then place_symlink os root destname f d
    else if f.ftype == 0
    then place_regular os destname f d
    else (done f, d)

-- The files of the map `files` under a name are those with this name, in order; there are none under
-- the empty name.
abbrev pub is_named : Str → File → Bool
is_named name f = str_eq f.current_name name && not (str_eq f.current_name [])

unfoldable pub first_named : Str → List File → Option File
first_named name [] = none
first_named name (f ∷ fs) = if is_named name f then some f else first_named name fs

-- `*g = *f` for all files with this name.
unfoldable pub set_named : Str → File → List File → List File
set_named name f' fs = map (λ g. if is_named name g then f' else g) fs

-- The loop over the names.
unfoldable pub place_all : Os → Str → List Str → List File → Decoder → Result (List File) × Decoder
unfolding place first_named set_named
place_all os root [] fs d = (done fs, d)
place_all os root (name ∷ ns) fs d = elim (first_named name fs) [
  | none ↦ place_all os root ns fs d
  | some f ↦
      let (placed, d') = place os root f d in
      elim placed [
        | done f' ↦ place_all os root ns (set_named name f' fs) d'
        | failed ↦ (failed, d')
        | panicked ↦ (panicked, d')
      ]
]

abbrev pub with_files : StartReq → Result (List File) × Decoder → Result StartReq × Decoder
with_files x (done fs, d) = (done (record x { files = fs }), d)
with_files x (failed, d) = (failed, d)
with_files x (panicked, d) = (panicked, d)

abbrev pub drop_one : List Packet → List Packet
drop_one [] = []
drop_one (p ∷ stream) = stream

-- `Decode`, for a stream and the calls before it.
unfoldable pub decode : Os → Str → List Packet → List Call → Result StartReq × Decoder
unfolding place_all
decode os root (request x ∷ names ns ∷ stream) calls =
    with_files x (place_all os root ns x.files (record { stream = stream; calls = calls }))
decode os root (request x ∷ stream) calls =
    (failed, record { stream = drop_one stream; calls = calls })
decode os root stream calls = (failed, record { stream = drop_one stream; calls = calls })
