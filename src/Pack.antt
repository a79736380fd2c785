-- ===== src/Pack.antt =====
-- src/gproc/mexec.go: `packVisitor`, which collects the files that go with a request. What `Lstat`,
-- `Readlink` and the listing of a directory find is a parameter, `FileSystem`. A file that is linked to is
-- walked from within the visit of the link, so that a walk runs on fuel, which bounds how deep walks are
-- nested.
pub mod Path
pub mod Grows
pub mod Loops
pub mod Ends
pub mod Tests
use gproc.Common.{
  ℕ, zero, suc, ◌+◌, ◌%◌, ◌^◌, Bool, true, false, not, ◌||◌, ◌&&◌, List, [], ◌∷◌, ◌++◌, Option,
  none, some, Str, codes, str_eq, leb, map, ◌==◌, if◌then◌else◌,
}
use gproc.Common.Dict.{Dict, lookup, insert}
use gproc.Protocol.{CmdToExec}
use gproc.Dispatch.{Ended, returned, panicked, endless}
use Path.{trim_path, path_join, split_path, has_suffix}

-- The kinds of file that the mode tells apart.
pub data Kind : Type 0 where
  regular directory symlink other : Kind

-- What the visitor reads from an `os.FileInfo`.
pub record FileInfo : Type 0 where
  pub kind : Kind
  pub size : ℕ
  pub uid : ℕ
  pub gid : ℕ
  pub perm : ℕ

pub record FileSystem : Type 0 where
  pub lstat : Str → Option FileInfo
  pub readlink : Str → Option Str
  pub names : Str → List Str

pub record PackVisitor : Type 0 where
  pub cmds : List CmdToExec
  pub already_visited : Dict Bool
  -- The bits of an `int64`.
  pub bytes_to_transfer : ℕ

-- `newPackVisitor`
unfoldable pub new_pack_visitor : PackVisitor
new_pack_visitor = record { cmds = []; already_visited = []; bytes_to_transfer = 0 }

-- `p.alreadyVisited[filePath]`
abbrev pub or_false : Option Bool → Bool
or_false none = false
or_false (some b) = b

unfoldable pub is_visited : Str → PackVisitor → Bool
is_visited file_path p = or_false (lookup file_path p.already_visited)

unfoldable pub mark : Str → PackVisitor → PackVisitor
mark file_path p = record p { already_visited = insert file_path true p.already_visited }

-- The `switch` on the mode.
unfoldable pub ftype_of : Kind → ℕ
ftype_of regular = 0
ftype_of directory = 1
ftype_of symlink = 2
ftype_of other = 3

-- The command that a visit makes, with the target of a link.
unfoldable pub command_of : Str → Str → FileInfo → CmdToExec
unfolding ftype_of
command_of file_path target f = record {
  current_name = file_path;
  dest_name = file_path;
  symlink_target = target;
  local_file = 0;
  uid = f.uid;
  gid = f.gid;
  ftype = ftype_of f.kind;
  perm = f.perm;
}

unfoldable pub append_cmd : CmdToExec → PackVisitor → PackVisitor
append_cmd c p = record p { cmds = p.cmds ++ c ∷ [] }

-- `VisitDir`, for a path that is trimmed already: whether to go on below the directory.
unfoldable pub visit_dir : Str → FileInfo → PackVisitor → Bool × PackVisitor
unfolding is_visited append_cmd mark command_of
visit_dir file_path f p = if is_visited file_path p then (false, p) else (
  not (has_suffix (codes "/.") file_path),
  mark file_path (append_cmd (command_of file_path [] f) p),
)

-- `resolveLink`: the text of the link, and the path to go on from. `none` is the panic of `log_error`.
abbrev pub link_dir : Str → Str → Str
link_dir file_path [] = (split_path file_path).0
link_dir file_path (c ∷ dir) =
    if c == b'/' then c ∷ dir else path_join (split_path file_path).0 (c ∷ dir)

abbrev pub full_path : Str → Str → Str
full_path file_path link_path =
    path_join (link_dir file_path (split_path link_path).0) (split_path link_path).1

unfoldable pub resolve_link : FileSystem → Str → Option (Str × Str)
resolve_link fs file_path = elim (fs.readlink file_path) [
  | none ↦ none
  | some link_path ↦ some (link_path, full_path file_path link_path)
]

abbrev pub mark_after : Str → Ended (Unit {0}) × PackVisitor → Ended (Unit {0}) × PackVisitor
mark_after file_path (returned _, p) = (returned tt, mark file_path p)
mark_after file_path (panicked, p) = (panicked, p)
mark_after file_path (endless, p) = (endless, p)

-- The end of `VisitFile` for a symbolic link; `walk` is `filepath.Walk` with this visitor.
abbrev pub visit_link :
    (Str → PackVisitor → Ended (Unit {0}) × PackVisitor)
    → Str
    → FileInfo
    → PackVisitor
    → Option (Str × Str)
    → Ended (Unit {0}) × PackVisitor
visit_link walk file_path f p none = (panicked, append_cmd (command_of file_path [] f) p)
visit_link walk file_path f p (some (target, walk_path)) =
    mark_after file_path (walk walk_path (append_cmd (command_of file_path target f) p))

abbrev pub visit_kind :
    Kind
    → (Str → PackVisitor → Ended (Unit {0}) × PackVisitor)
    → FileSystem
    → Str
    → FileInfo
    → PackVisitor
    → Ended (Unit {0}) × PackVisitor
visit_kind regular walk fs file_path f p =
    let p' = append_cmd (command_of file_path [] f) p in
    let bytes = (p'.bytes_to_transfer + f.size) % 2 ^ 64 in
    (returned tt, mark file_path (record p' { bytes_to_transfer = bytes }))
visit_kind symlink walk fs file_path f p = visit_link walk file_path f p (resolve_link fs file_path)
visit_kind directory walk fs file_path f p =
    (returned tt, mark file_path (append_cmd (command_of file_path [] f) p))
visit_kind other walk fs file_path f p =
    (returned tt, mark file_path (append_cmd (command_of file_path [] f) p))

-- `VisitFile`, for a path that is trimmed already.
unfoldable pub visit_file :
    (Str → PackVisitor → Ended (Unit {0}) × PackVisitor)
    → FileSystem
    → Str
    → FileInfo
    → PackVisitor
    → Ended (Unit {0}) × PackVisitor
unfolding is_visited append_cmd mark command_of resolve_link
visit_file walk fs file_path f p =
    if is_visited file_path p then (returned tt, p) else visit_kind f.kind walk fs file_path f p

-- The loop of `filepath.Walk` over the names in a directory.
unfoldable pub walk_all :
    (Str → PackVisitor → Ended (Unit {0}) × PackVisitor)
    → List Str
    → PackVisitor
    → Ended (Unit {0}) × PackVisitor
walk_all walk [] p = (returned tt, p)
walk_all walk (path ∷ paths) p =
    let (ended, p') = walk path p in
    elim ended [
      | returned _ ↦ walk_all walk paths p'
      | panicked ↦ (panicked, p')
      | endless ↦ (endless, p')
    ]

abbrev pub is_directory : Kind → Bool
is_directory directory = true
is_directory _ = false

-- The function of `walkFunc`, and what `filepath.Walk` does with its result.
unfoldable pub visit :
    (Str → PackVisitor → Ended (Unit {0}) × PackVisitor)
    → FileSystem
    → Str
    → FileInfo
    → PackVisitor
    → Ended (Unit {0}) × PackVisitor
unfolding visit_dir visit_file walk_all
visit walk fs path f p =
    if is_directory f.kind
    then (let (down, p') = visit_dir (trim_path path) f p in
        let below = walk_all walk (map (λ n. path_join path n) (fs.names path)) p' in
        if down then below else (returned tt, p'))
    else visit_file walk fs (trim_path path) f p

-- `filepath.Walk(path, walkFunc(p, nil))`: an error of `Lstat` is dropped.
unfoldable pub walk : ℕ → FileSystem → Str → PackVisitor → Ended (Unit {0}) × PackVisitor
unfolding visit
walk zero fs path p = (endless, p)
walk (suc fuel) fs path p = elim (fs.lstat path) [
  | none ↦ (returned tt, p)
  | some f ↦ visit (walk fuel fs) fs path f p
]
