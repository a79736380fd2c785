-- ===== src/Pack/Ends.antt =====
-- src/gproc/mexec.go: the walks that end, and how deep they are nested.
use gproc.Common.{
  ℕ, zero, suc, ◌<◌, true, List, [], ◌∷◌, Option, none, some, ◌≡◌, ◌≢◌, refl, inl, inr, arith, Str,
  str_eq_self, map, All, Bool-cases, Option-cases,
}
use gproc.Master.Serve.{contains}
use gproc.Dispatch.{Ended, returned, panicked, endless}
use gproc.Pack.{
  Kind, regular, directory, symlink, other, FileInfo, FileSystem, PackVisitor, is_visited,
  visit_dir, resolve_link, mark_after, visit_link, visit_kind, visit_file, walk_all, is_directory,
  visit, walk,
}
use gproc.Pack.Path.{trim_path, path_join}
use gproc.Pack.Grows.{Ended-cases}

-- Every name in a directory, and what a link leads to, has a smaller rank.
pub record Ranked (fs : FileSystem) (rank : Str → ℕ) : Type 0 where
  pub below :
      (path n : Str) → contains n (fs.names path) ≡ true → rank (path_join path n) < rank path
  pub linked :
      (path target to : Str)
      → resolve_link fs (trim_path path) ≡ some (target, to)
      → rank to < rank path

abbrev pub Go : Type 0
Go = Str → PackVisitor → Ended (Unit {0}) × PackVisitor

-- The walk of the path comes to an end.
abbrev pub EndsAt : Go → Str → Type 0
EndsAt go path = (p : PackVisitor) → (go path p).0 ≢ endless

mark_after-ends :
    (file_path : Str) (r : Ended (Unit {0}) × PackVisitor)
    → r.0 ≢ endless
    → (mark_after file_path r).0 ≢ endless
mark_after-ends file_path (returned u, p) h = h
mark_after-ends file_path (panicked, p) h = h
mark_after-ends file_path (endless, p) h = h

module _ (go : Go) where
  walk_all-ends :
      (paths : List Str) (p : PackVisitor)
      → All (EndsAt go) paths
      → (walk_all go paths p).0 ≢ endless
  unfolding walk_all
  walk_all-ends [] p h = λ e. ground arith
  walk_all-ends (path ∷ paths) p (h, hs) = elim (Ended-cases (go path p).0) [
    | inl ret ↦ rw (walk_all, ret) (walk_all-ends paths (go path p).1 hs)
    | inr (inl pan) ↦ rw (walk_all, pan) (λ e. ground arith)
    | inr (inr run) ↦ absurd (h p run)
  ]

  names-All :
      (path : Str) (ns : List Str)
      → ((n : Str) → contains n ns ≡ true → EndsAt go (path_join path n))
      → All (EndsAt go) (map (λ n. path_join path n) ns)
  unfolding contains
  names-All path [] h = tt
  names-All path (n ∷ ns) h =
      (h n (ground (arith, str_eq_self n)), names-All path ns (λ m e. h m (ground (arith, e))))

  module _ (fs : FileSystem) where
    visit_link-ends :
        (file_path : Str) (f : FileInfo) (p : PackVisitor) (o : Option (Str × Str))
        → ((target to : Str) → o ≡ some (target, to) → EndsAt go to)
        → (visit_link go file_path f p o).0 ≢ endless
    visit_link-ends file_path f p none h = λ e. ground arith
    visit_link-ends file_path f p (some (target, to)) h =
        mark_after-ends file_path _ (h target to refl _)

    visit_kind-ends :
        (k : Kind) (file_path : Str) (f : FileInfo) (p : PackVisitor)
        → ((target to : Str) → resolve_link fs file_path ≡ some (target, to) → EndsAt go to)
        → (visit_kind k go fs file_path f p).0 ≢ endless
    visit_kind-ends regular file_path f p h = λ e. ground arith
    visit_kind-ends symlink file_path f p h =
        visit_link-ends file_path f p (resolve_link fs file_path) h
    visit_kind-ends directory file_path f p h = λ e. ground arith
    visit_kind-ends other file_path f p h = λ e. ground arith

    visit-ends :
        (path : Str) (f : FileInfo) (p : PackVisitor)
        → ((n : Str) → contains n (fs.names path) ≡ true → EndsAt go (path_join path n))
        → ((target to : Str) → resolve_link fs (trim_path path) ≡ some (target, to) → EndsAt go to)
        → (visit go fs path f p).0 ≢ endless
    unfolding visit visit_dir visit_file
    visit-ends path f p below linked = elim (Bool-cases (is_directory f.kind)) [
      | inl dir ↦ elim (Bool-cases (visit_dir (trim_path path) f p).0) [
        | inl down ↦ rw (dir, down) (walk_all-ends _ _ (names-All path (fs.names path) below))
        | inr stay ↦ rw (dir, stay) (λ e. ground arith)
      ]
      | inr file ↦ elim (Bool-cases (is_visited (trim_path path) p)) [
        | inl seen ↦ rw (file, seen) (λ e. ground arith)
        | inr unseen ↦ rw (file, unseen) (visit_kind-ends f.kind (trim_path path) f p linked)
      ]
    ]

-- Where paths can be ranked so that a walk only goes to smaller ranks, it returns or panics on fuel above the
-- rank of its path.
pub walk_ends :
    (fuel : ℕ) (fs : FileSystem) (rank : Str → ℕ) (path : Str) (p : PackVisitor)
    → Ranked fs rank
    → rank path < fuel
    → (walk fuel fs path p).0 ≢ endless
unfolding walk
walk_ends zero fs rank path p r h = absurd (omega (arith, h))
walk_ends (suc fuel) fs rank path p r h = elim (Option-cases (fs.lstat path)) [
  | inl gone ↦ rw (walk, gone) (λ e. ground arith)
  | inr (f, there) ↦
      rw (walk, there)
        (visit-ends (walk fuel fs) fs path f p
          (λ n e q.
            walk_ends fuel fs rank (path_join path n) q r (omega (arith, h, r.below path n e)))
          (λ target to e q.
            walk_ends fuel fs rank to q r (omega (arith, h, r.linked path target to e))))
]
