-- ===== src/Pack/Grows.antt =====
-- src/gproc/mexec.go: a walk that returns adds commands behind those that are there, and marks each of
-- their paths.
use gproc.Common.{
  ℕ, zero, suc, true, List, [], ◌∷◌, ◌++◌, Option, none, some, ◌≡◌, ◌≢◌, ◌⊎◌, refl, sym, ◌∙◌, inl,
  inr, arith, Str, codes, str_eq_self, map, All, All-append, append_assoc, append-nil, Bool-cases,
  Option-cases,
}
use gproc.Common.Dict.{lookup-insert}
use gproc.Protocol.{CmdToExec}
use gproc.Dispatch.{Ended, returned, panicked, endless}
use gproc.Pack.{
  Kind, regular, directory, symlink, other, FileInfo, FileSystem, PackVisitor, is_visited, mark,
  command_of, append_cmd, visit_dir, resolve_link, mark_after, visit_link, visit_kind, visit_file,
  walk_all, is_directory, visit, walk,
}
use gproc.Pack.Path.{trim_path, path_join, has_suffix}

-- What lies between two states of the visitor.
pub record Grows (p p' : PackVisitor) : Type 0 where
  pub new : List CmdToExec
  pub cmds_eq : p'.cmds ≡ p.cmds ++ new
  pub marked : All (λ c. is_visited c.current_name p' ≡ true) new
  pub keeps : (k : Str) → is_visited k p ≡ true → is_visited k p' ≡ true

module _ (file_path : Str) where
  mark-keeps :
      (k : Str) (p : PackVisitor) → is_visited k p ≡ true → is_visited k (mark file_path p) ≡ true
  unfolding is_visited mark
  mark-keeps k p h = rw (lookup-insert file_path k true p.already_visited) (ground (arith, h))

  mark_self : (p : PackVisitor) → is_visited file_path (mark file_path p) ≡ true
  unfolding is_visited mark
  mark_self p =
      rw (lookup-insert file_path file_path true p.already_visited, str_eq_self file_path) refl

  mark-marked :
      (cs : List CmdToExec) (p : PackVisitor)
      → All (λ c. is_visited c.current_name p ≡ true) cs
      → All (λ c. is_visited c.current_name (mark file_path p) ≡ true) cs
  mark-marked [] p h = tt
  mark-marked (c ∷ cs) p (m, h) = (mark-keeps c.current_name p m, mark-marked cs p h)

keeps-marked :
    (cs : List CmdToExec) (p p' : PackVisitor)
    → ((k : Str) → is_visited k p ≡ true → is_visited k p' ≡ true)
    → All (λ c. is_visited c.current_name p ≡ true) cs
    → All (λ c. is_visited c.current_name p' ≡ true) cs
keeps-marked [] p p' keeps h = tt
keeps-marked (c ∷ cs) p p' keeps (m, h) = (keeps c.current_name m, keeps-marked cs p p' keeps h)

pub Grows-refl : (p : PackVisitor) → Grows p p
Grows-refl p = record { new = []; cmds_eq = sym (append-nil p.cmds); marked = tt; keeps = λ k h. h }

pub Grows-trans : (p q r : PackVisitor) → Grows p q → Grows q r → Grows p r
Grows-trans p q r a b = record {
  new = a.new ++ b.new;
  cmds_eq = rw (b.cmds_eq, a.cmds_eq) (append_assoc p.cmds a.new b.new);
  marked = All-append _ a.new b.new (keeps-marked a.new q r b.keeps a.marked) b.marked;
  keeps = λ k h. b.keeps k (a.keeps k h);
}

Grows-bytes : (p : PackVisitor) (n : ℕ) → Grows p (record p { bytes_to_transfer = n })
unfolding is_visited
Grows-bytes p n = record {
  new = [];
  cmds_eq = sym (append-nil p.cmds);
  marked = tt;
  keeps = λ k h. h;
}

pub Ended-cases : (r : Ended (Unit {0})) → (r ≡ returned tt) ⊎ ((r ≡ panicked) ⊎ (r ≡ endless))
Ended-cases (returned u) = inl refl
Ended-cases panicked = inr (inl refl)
Ended-cases endless = inr (inr refl)

-- A command is appended, and what follows is a growth; at the end its path is marked.
Grows-visit :
    (file_path target : Str) (f : FileInfo) (p q : PackVisitor)
    → Grows (append_cmd (command_of file_path target f) p) q
    → Grows p (mark file_path q)
unfolding append_cmd command_of mark is_visited
Grows-visit file_path target f p q g = record {
  new = command_of file_path target f ∷ g.new;
  cmds_eq = g.cmds_eq ∙ append_assoc p.cmds (command_of file_path target f ∷ []) g.new;
  marked = (mark_self file_path q, mark-marked file_path g.new q g.marked);
  keeps = λ k h. mark-keeps file_path k q (g.keeps k h);
}

-- If the run returns, the state has grown from `p`.
abbrev pub Fine : PackVisitor → Ended (Unit {0}) × PackVisitor → Type 0
Fine p r = r.0 ≡ returned tt → Grows p r.1

mark_after-Fine :
    (file_path target : Str) (f : FileInfo) (p : PackVisitor) (r : Ended (Unit {0}) × PackVisitor)
    → Fine (append_cmd (command_of file_path target f) p) r
    → Fine p (mark_after file_path r)
mark_after-Fine file_path target f p (returned u, q) h e =
    Grows-visit file_path target f p q (h refl)
mark_after-Fine file_path target f p (panicked, q) h e = absurd (ground arith)
mark_after-Fine file_path target f p (endless, q) h e = absurd (ground arith)

module _ (go : Str → PackVisitor → Ended (Unit {0}) × PackVisitor)
    (fine : (path : Str) (p : PackVisitor) → Fine p (go path p)) (fs : FileSystem) where
  visit_link-Fine :
      (file_path : Str) (f : FileInfo) (p : PackVisitor) (o : Option (Str × Str))
      → Fine p (visit_link go file_path f p o)
  visit_link-Fine file_path f p none e = absurd (ground arith)
  visit_link-Fine file_path f p (some (target, walk_path)) e =
      mark_after-Fine file_path target f p _
        (fine walk_path (append_cmd (command_of file_path target f) p)) e

  visit_kind-Fine :
      (k : Kind) (file_path : Str) (f : FileInfo) (p : PackVisitor)
      → Fine p (visit_kind k go fs file_path f p)
  visit_kind-Fine regular file_path f p e =
      Grows-visit file_path [] f p _ (Grows-bytes (append_cmd (command_of file_path [] f) p) _)
  visit_kind-Fine symlink file_path f p e =
      visit_link-Fine file_path f p (resolve_link fs file_path) e
  visit_kind-Fine directory file_path f p e = Grows-visit file_path [] f p _ (Grows-refl _)
  visit_kind-Fine other file_path f p e = Grows-visit file_path [] f p _ (Grows-refl _)

  visit_file-Fine :
      (file_path : Str) (f : FileInfo) (p : PackVisitor) → Fine p (visit_file go fs file_path f p)
  unfolding visit_file
  visit_file-Fine file_path f p = elim (Bool-cases (is_visited file_path p)) [
    | inl seen ↦ rw seen (λ e. Grows-refl p)
    | inr unseen ↦ rw unseen (visit_kind-Fine f.kind file_path f p)
  ]

  walk_all-Fine : (paths : List Str) (p : PackVisitor) → Fine p (walk_all go paths p)
  unfolding walk_all
  walk_all-Fine [] p e = Grows-refl p
  walk_all-Fine (path ∷ paths) p e = elim (Ended-cases (go path p).0) [
    | inl ret ↦
        Grows-trans p (go path p).1 _ (fine path p ret)
          (rw (walk_all, ret) (walk_all-Fine paths (go path p).1 (rw (walk_all, ret) at e)))
    | inr (inl pan) ↦ absurd (ground (arith, rw (walk_all, pan) at e))
    | inr (inr run) ↦ absurd (ground (arith, rw (walk_all, run) at e))
  ]

  visit-Fine : (path : Str) (f : FileInfo) (p : PackVisitor) → Fine p (visit go fs path f p)
  unfolding visit visit_dir
  visit-Fine path f p = elim (Bool-cases (is_directory f.kind)) [
    | inl dir ↦ elim (Bool-cases (is_visited (trim_path path) p)) [
      | inl seen ↦ rw (dir, seen) (λ e. Grows-refl p)
      | inr unseen ↦
          let p1 = mark (trim_path path) (append_cmd (command_of (trim_path path) [] f) p) in
          let first : Grows p p1 = Grows-visit (trim_path path) [] f p _ (Grows-refl _) in
          elim (Bool-cases (has_suffix (codes "/.") (trim_path path))) [
            | inl only ↦ rw (dir, unseen, only) (λ e. first)
            | inr below ↦
                rw (dir, unseen, below)
                  (λ e.
                    Grows-trans p p1 _ first
                      (walk_all-Fine (map (λ n. path_join path n) (fs.names path)) p1 e))
          ]
    ]
    | inr file ↦ rw file (visit_file-Fine (trim_path path) f p)
  ]

pub walk-Fine :
    (fuel : ℕ) (fs : FileSystem) (path : Str) (p : PackVisitor) → Fine p (walk fuel fs path p)
unfolding walk
walk-Fine zero fs path p = λ e. absurd (ground (arith, e))
walk-Fine (suc fuel) fs path p = elim (Option-cases (fs.lstat path)) [
  | inl gone ↦ rw (walk, gone) (λ e. Grows-refl p)
  | inr (f, there) ↦ rw (walk, there) (visit-Fine (walk fuel fs) (walk-Fine fuel fs) fs path f p)
]

-- If the run returns, the path is marked.
abbrev pub Marks : Str → Ended (Unit {0}) × PackVisitor → Type 0
Marks file_path r = r.0 ≡ returned tt → is_visited file_path r.1 ≡ true

mark_after-Marks :
    (file_path : Str) (r : Ended (Unit {0}) × PackVisitor)
    → Marks file_path (mark_after file_path r)
mark_after-Marks file_path (returned u, q) e = mark_self file_path q
mark_after-Marks file_path (panicked, q) e = absurd (ground arith)
mark_after-Marks file_path (endless, q) e = absurd (ground arith)

module _ (go : Str → PackVisitor → Ended (Unit {0}) × PackVisitor)
    (fine : (path : Str) (p : PackVisitor) → Fine p (go path p)) (fs : FileSystem) where
  visit_link-Marks :
      (file_path : Str) (f : FileInfo) (p : PackVisitor) (o : Option (Str × Str))
      → Marks file_path (visit_link go file_path f p o)
  visit_link-Marks file_path f p none e = absurd (ground arith)
  visit_link-Marks file_path f p (some (target, walk_path)) e = mark_after-Marks file_path _ e

  visit_kind-Marks :
      (k : Kind) (file_path : Str) (f : FileInfo) (p : PackVisitor)
      → Marks file_path (visit_kind k go fs file_path f p)
  visit_kind-Marks regular file_path f p e = mark_self file_path _
  visit_kind-Marks symlink file_path f p e =
      visit_link-Marks file_path f p (resolve_link fs file_path) e
  visit_kind-Marks directory file_path f p e = mark_self file_path _
  visit_kind-Marks other file_path f p e = mark_self file_path _

  visit-Marks :
      (path : Str) (f : FileInfo) (p : PackVisitor) → Marks (trim_path path) (visit go fs path f p)
  unfolding visit visit_dir visit_file
  visit-Marks path f p = elim (Bool-cases (is_directory f.kind)) [
    | inl dir ↦ elim (Bool-cases (is_visited (trim_path path) p)) [
      | inl seen ↦ rw (dir, seen) (λ e. seen)
      | inr unseen ↦
          let p0 = append_cmd (command_of (trim_path path) [] f) p in
          let p1 = mark (trim_path path) p0 in
          elim (Bool-cases (has_suffix (codes "/.") (trim_path path))) [
            | inl only ↦ rw (dir, unseen, only) (λ e. mark_self (trim_path path) p0)
            | inr below ↦
                rw (dir, unseen, below)
                  (λ e.
                    (walk_all-Fine go fine fs (map (λ n. path_join path n) (fs.names path)) p1
                        e).keeps
                      (trim_path path) (mark_self (trim_path path) p0))
          ]
    ]
    | inr file ↦ elim (Bool-cases (is_visited (trim_path path) p)) [
      | inl seen ↦ rw (file, seen) (λ e. seen)
      | inr unseen ↦ rw (file, unseen) (visit_kind-Marks f.kind (trim_path path) f p)
    ]
  ]

endless-ne : (r : Ended (Unit {0})) → r ≡ endless → r ≢ returned tt
endless-ne r h e = ground arith

-- A walk that returns has left the commands that were there in place, has marked the path of every command that
-- it added, and keeps every mark; and if there is something at its own path, that path is marked.
pub walk_lem :
    (fuel : ℕ) (fs : FileSystem) (path : Str) (p : PackVisitor)
    → (walk fuel fs path p).0 ≡ returned tt
    → Grows p (walk fuel fs path p).1
      × ((fs.lstat path ≡ none) ⊎ (is_visited (trim_path path) (walk fuel fs path p).1 ≡ true))
unfolding walk
walk_lem zero fs path p e = absurd (endless-ne (walk 0 fs path p).0 refl e)
walk_lem (suc fuel) fs path p e = (
  walk-Fine (suc fuel) fs path p e,
  elim (Option-cases (fs.lstat path)) [
    | inl gone ↦ inl gone
    | inr (f, there) ↦ inr (
        rw (walk, there)
          (visit-Marks (walk fuel fs) (walk-Fine fuel fs) fs path f p (rw (walk, there) at e)))
  ],
)
