-- ===== src/Slave/Local.antt =====
-- src/gproc/slave.go: the process that `runLocal` starts.
use gproc.Common.{
  List, [], ◌∷◌, ◌++◌, some, ◌≡◌, refl, sym, Str, codes, split, Lacks, All, map, append_assoc,
  append-nil, if◌then◌else◌,
}
use gproc.Common.Split.{split-append, split-Lacks}
use gproc.Protocol.{StartReq}
use gproc.Slave.{Process, add_libs, run_local}

-- The library directories below `bin_root`, each with a colon behind it.
unfoldable pub lib_dirs : Str → List Str → Str
lib_dirs prefix [] = []
lib_dirs prefix (s ∷ libs) = (prefix ++ s) ++ b':' ∷ lib_dirs prefix libs

add_libs_lem :
    (bin_root path : Str) (libs : List Str) (start : Str)
    → add_libs bin_root path libs start ≡ start ++ lib_dirs (bin_root ++ path) libs
unfolding add_libs lib_dirs
add_libs_lem bin_root path [] start = sym (append-nil start)
add_libs_lem bin_root path (s ∷ libs) start =
    rw (add_libs_lem bin_root path libs) (simp append_assoc refl)

split-lib_dirs :
    (prefix : Str) (libs : List Str)
    → All (λ s. Lacks b':' (prefix ++ s)) libs
    → split b':' (lib_dirs prefix libs) ≡ map (λ s. prefix ++ s) libs ++ [] ∷ []
unfolding lib_dirs
split-lib_dirs prefix [] h = split-Lacks b':' [] tt
split-lib_dirs prefix (s ∷ libs) (l, h) =
    rw
      (
        split-append b':' (prefix ++ s) (lib_dirs prefix libs),
        split-Lacks b':' (prefix ++ s) l,
        split-lib_dirs prefix libs h,
      )
      refl

-- A request with arguments is run as its first one, below `bin_root` and its path unless it
-- is local to the node, and finds its libraries in the directories of the request below both: the last
-- variable of its environment lists them, and an empty one at the end, if none has a colon in it.
pub run_local_lem :
    (bin_root arg : Str) (args : List Str) (req : StartReq)
    → req.args ≡ arg ∷ args
    → All (λ s. Lacks b':' ((bin_root ++ req.path) ++ s)) req.lib_list
    → (p : Process) × (dirs : Str) × (run_local bin_root req ≡ some p)
      × (p.exec_path ≡ (if req.local_bin then arg else bin_root ++ req.path ++ arg))
      × (p.env ≡ req.env ++ (codes "LD_LIBRARY_PATH=" ++ dirs) ∷ [])
      × (split b':' dirs ≡ map (λ s. (bin_root ++ req.path) ++ s) req.lib_list ++ [] ∷ [])
unfolding run_local
run_local_lem bin_root arg args req e h = (
  record {
    exec_path = if req.local_bin then arg else bin_root ++ req.path ++ arg;
    args = arg ∷ args;
    env =
        req.env ++ (codes "LD_LIBRARY_PATH=" ++ lib_dirs (bin_root ++ req.path) req.lib_list) ∷ [];
    dir = bin_root ++ codes "/" ++ req.cwd;
  },
  lib_dirs (bin_root ++ req.path) req.lib_list,
  rw e (rw (add_libs_lem bin_root req.path req.lib_list (codes "LD_LIBRARY_PATH=")) refl),
  refl,
  refl,
  split-lib_dirs (bin_root ++ req.path) req.lib_list h,
)
