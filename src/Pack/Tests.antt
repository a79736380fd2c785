-- ===== src/Pack/Tests.antt =====
-- Runs of the visitor, and the instances of its theorems.
use gproc.Master.Serve.{contains}
use gproc.Pack.Ends.{Ranked, walk_ends}
use gproc.Common.{
  arith, Bool-cases, inl, inr, str_eq_sound, sym, ◌<◌, ◌≢◌, ℕ, Str, true, false, [], ◌∷◌, none,
  some, ◌≡◌, ◌⊎◌, refl, codes, str_eq, split, join, map, if◌then◌else◌,
}
use gproc.Common.Dict.{lookup, insert}
use gproc.Dispatch.{returned, endless}
use gproc.Pack.{
  Kind, regular, directory, symlink, FileInfo, FileSystem, new_pack_visitor, is_visited,
  resolve_link, walk,
}
use gproc.Pack.Path.{trim_path, path_join, split_path, has_suffix}
use gproc.Pack.Grows.{Grows, walk_lem}
use gproc.Pack.Loops.{walk_loops}

abbrev pub info : Kind → FileInfo
info kind = record { kind = kind; size = 5; uid = 0; gid = 0; perm = 420 }

-- A directory with a file and a link to it.
abbrev pub disk : FileSystem
disk = record {
  lstat = λ p.
      if str_eq p (codes "/d")
      then some (info directory)
      else if str_eq p (codes "/d/a")
      then some (info symlink)
      else if str_eq p (codes "/d/b")
      then some (info regular)
      else none;
  readlink = λ p. if str_eq p (codes "/d/a") then some (codes "b") else none;
  names = λ p. if str_eq p (codes "/d") then codes "a" ∷ codes "b" ∷ [] else [];
}

-- A link to itself.
abbrev circle : FileSystem
circle = record {
  lstat = λ p. some (info symlink);
  readlink = λ p. some (codes "a");
  names = λ p. [];
}

-- The file is packed once, behind the link that leads to it.
walk_runs :
    map (λ c. c.current_name) (walk 4 disk (codes "/d") new_pack_visitor).1.cmds
    ≡ codes "/d" ∷ codes "/d/a" ∷ codes "/d/b" ∷ []
unfolding walk new_pack_visitor trim_path path_join split_path has_suffix split join lookup insert
walk_runs = refl

ends : (walk 4 disk (codes "/d") new_pack_visitor).0 ≡ returned tt
unfolding walk new_pack_visitor trim_path path_join split_path has_suffix split join lookup insert
ends = refl

walk_lem_example :
    Grows new_pack_visitor (walk 4 disk (codes "/d") new_pack_visitor).1
    × ((disk.lstat (codes "/d") ≡ none)
        ⊎ (is_visited (trim_path (codes "/d")) (walk 4 disk (codes "/d") new_pack_visitor).1
            ≡ true))
walk_lem_example = walk_lem 4 disk (codes "/d") new_pack_visitor ends

trimmed : trim_path (codes "/d/a") ≡ codes "/d/a"
unfolding trim_path
trimmed = refl

leads : resolve_link circle (codes "/d/a") ≡ some (codes "a", codes "/d/a")
unfolding resolve_link path_join split_path split join
leads = refl

unseen : is_visited (codes "/d/a") new_pack_visitor ≡ false
unfolding is_visited new_pack_visitor lookup
unseen = refl

walk_loops_example : (walk 9 circle (codes "/d/a") new_pack_visitor).0 ≡ endless
walk_loops_example =
    walk_loops 9 circle (codes "/d/a") (codes "a") (info symlink) new_pack_visitor refl refl trimmed
      leads unseen

-- A directory with one file.
abbrev plain : FileSystem
plain = record {
  lstat = λ p.
      if str_eq p (codes "/d")
      then some (info directory)
      else if str_eq p (codes "/d/b")
      then some (info regular)
      else none;
  readlink = λ p. none;
  names = λ p. if str_eq p (codes "/d") then codes "b" ∷ [] else [];
}

abbrev depth : Str → ℕ
depth p = if str_eq p (codes "/d") then 1 else 0

in_d : path_join (codes "/d") (codes "b") ≡ codes "/d/b"
unfolding path_join split join
in_d = refl

plain-below :
    (path n : Str) → contains n (plain.names path) ≡ true → depth (path_join path n) < depth path
unfolding contains
plain-below path n e = elim (Bool-cases (str_eq path (codes "/d"))) [
  | inl at_d ↦
      let path_eq : path ≡ codes "/d" = str_eq_sound path (codes "/d") at_d in
      let e' = rw at_d at e in
      let n_eq : codes "b" ≡ n = str_eq_sound (codes "b") n (ground (arith, e')) in
      rw (path_eq, sym n_eq, in_d) (omega arith)
  | inr outside ↦ absurd (ground (arith, rw outside at e))
]

plain-Ranked : Ranked plain depth
unfolding resolve_link
plain-Ranked = record {
  below = plain-below;
  linked = λ path target to e. absurd (ground (arith, e));
}

walk_ends_example : (walk 2 plain (codes "/d") new_pack_visitor).0 ≢ endless
walk_ends_example = walk_ends 2 plain depth (codes "/d") new_pack_visitor plain-Ranked (omega arith)
