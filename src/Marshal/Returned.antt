-- ===== src/Marshal/Returned.antt =====
-- src/filemarshal/filemarshal.go: the files of the value that `Decode` returns.
use gproc.Common.{
  false, List, [], ◌∷◌, Option, none, some, ◌≡◌, refl, ap, ◌∙◌, inl, inr, arith, Str, str_eq,
  str_eq_iff, str_eq_self, map, Bool-cases, ◌==◌, if◌then◌else◌,
}
use gproc.Common.Dict.{Dict, lookup}
use gproc.Protocol.{File}
use gproc.Marshal.{is_named, set_named, rooted_target}
use gproc.Marshal.Keys.{Unique}
use gproc.Marshal.Delivery.{with_target, placed, all_placed}

-- A file of the value, when the files of `es` were sent: the one that was sent under its name, or itself.
abbrev pub received : Str → Dict File → File → File
received root [] g = g
received root ((n, f) ∷ es) g =
    let rest = received root es g in if is_named n g then placed root f else rest

with_target-name : (f : File) (o : Option Str) → (with_target f o).current_name ≡ f.current_name
with_target-name f none = refl
with_target-name f (some target) = refl

placed-name : (root : Str) (f : File) → (placed root f).current_name ≡ f.current_name
placed-name root f = elim (Bool-cases (f.ftype == 2)) [
  | inl link ↦ rw link (with_target-name f (rooted_target root f.symlink_target))
  | inr other ↦ rw other refl
]

-- Each file of the map stands under its own name.
abbrev pub Named : Dict File → Type 0
Named es = (n : Str) (f : File) → lookup n es ≡ some f → f.current_name ≡ n

received-other :
    (root n : Str) (es : Dict File) (g : File)
    → g.current_name ≡ n
    → lookup n es ≡ none
    → received root es g ≡ g
unfolding lookup
received-other root n [] g e h = refl
received-other root n ((m, f) ∷ es) g e h = elim (Bool-cases (str_eq m n)) [
  | inl same ↦ absurd (ground (arith, rw same at h))
  | inr other ↦
      let rest = received-other root n es g e (rw other at h) in
      let not_named : is_named m g ≡ false =
        ground (arith, e, other, str_eq_iff m n, str_eq_iff g.current_name m) in
      rw not_named rest
]

received-step :
    (root n : Str) (f : File) (es : Dict File) (g : File)
    → f.current_name ≡ n
    → lookup n es ≡ none
    → received root es (if is_named n g then placed root f else g) ≡ received root ((n, f) ∷ es) g
received-step root n f es g e fresh = elim (Bool-cases (is_named n g)) [
  | inl same ↦ rw same (received-other root n es (placed root f) (placed-name root f ∙ e) fresh)
  | inr other ↦ rw other refl
]

received-map :
    (root n : Str) (f : File) (es : Dict File) (fs : List File)
    → f.current_name ≡ n
    → lookup n es ≡ none
    → map (received root es) (set_named n (placed root f) fs) ≡ map (received root ((n, f) ∷ es)) fs
unfolding set_named
received-map root n f es [] e fresh = refl
received-map root n f es (g ∷ fs) e fresh =
    rw (received-step root n f es g e fresh)
      (ap (λ r. received root ((n, f) ∷ es) g ∷ r) (received-map root n f es fs e fresh))

pub all_placed-received :
    (root : Str) (es : Dict File) (fs : List File)
    → Unique es
    → Named es
    → all_placed root es fs ≡ map (received root es) fs
unfolding lookup
all_placed-received root [] [] u named = refl
all_placed-received root [] (f ∷ fs) u named =
    ap (λ r. f ∷ r) (all_placed-received root [] fs u named)
all_placed-received root ((n, f) ∷ es) fs (fresh, u) named =
    let mine : f.current_name ≡ n = named n f (rw (str_eq_self n) refl) in
    all_placed-received root es (set_named n (placed root f) fs) u (λ m g e.
      named m g (elim (Bool-cases (str_eq n m)) [
        | inl same ↦ absurd (ground (arith, str_eq_iff n m, same, fresh, e))
        | inr other ↦ rw other e
      ]))
    ∙ received-map root n f es fs mine fresh
