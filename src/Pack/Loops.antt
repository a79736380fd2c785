-- ===== src/Pack/Loops.antt =====
-- src/gproc/mexec.go: `VisitFile` marks a link only after the walk of what it points to.
use gproc.Common.{ℕ, zero, suc, false, some, ◌≡◌, refl, Str}
use gproc.Dispatch.{Ended, returned, panicked, endless}
use gproc.Pack.{
  symlink, FileInfo, FileSystem, PackVisitor, is_visited, command_of, append_cmd, resolve_link,
  mark_after, visit_file, visit, walk,
}
use gproc.Pack.Path.{trim_path}

mark_after_endless :
    (file_path : Str) (r : Ended (Unit {0}) × PackVisitor)
    → r.0 ≡ endless
    → (mark_after file_path r).0 ≡ endless
mark_after_endless file_path (returned u, p) e = e
mark_after_endless file_path (panicked, p) e = e
mark_after_endless file_path (endless, p) e = e

append_cmd-visited :
    (file_path target : Str) (f : FileInfo) (p : PackVisitor)
    → is_visited file_path p ≡ false
    → is_visited file_path (append_cmd (command_of file_path target f) p) ≡ false
unfolding is_visited append_cmd
append_cmd-visited file_path target f p h = h

-- The walk of a symbolic link that leads to itself, and whose path has no space at its ends, never ends, however deep walks may be nested.
pub walk_loops :
    (fuel : ℕ) (fs : FileSystem) (path target : Str) (f : FileInfo) (p : PackVisitor)
    → fs.lstat path ≡ some f
    → f.kind ≡ symlink
    → trim_path path ≡ path
    → resolve_link fs path ≡ some (target, path)
    → is_visited path p ≡ false
    → (walk fuel fs path p).0 ≡ endless
unfolding walk
walk_loops zero fs path target f p there link trimmed leads unseen = refl
walk_loops (suc fuel) fs path target f p there link trimmed leads unseen =
    rw (walk, there)
      (rw (visit, link)
        (rw (trimmed, visit_file, unseen)
          (rw leads (
            let f' : FileInfo = record f { kind = symlink } in
            mark_after_endless path _ (
              walk_loops fuel fs path target f (append_cmd (command_of path target f') p) there link
                trimmed leads (append_cmd-visited path target f' p unseen))))))
