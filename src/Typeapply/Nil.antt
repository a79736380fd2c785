-- ===== src/Typeapply/Nil.antt =====
-- src/typeapply/typeapply.go: `getTraverserFunc` returns, and returns nil for the right types.
use gproc.Common.{
  ℕ, zero, suc, ◌<◌, true, false, List, [], ◌≡◌, ◌↔◌, ◌⊎◌, refl, ap, inl, inr, arith, Str,
  Bool-cases, length,
}
use mathlib.Core.List.{Memᴰ}
use gproc.Common.Dict.{lookup}
use gproc.Dispatch.{returned}
use gproc.Typeapply.{
  Knowledge, definite_yes, Types, Traverser, nil_func, dummy_traverser, Infos, info_at, set_trav,
  make_trav, get_traverser_func, can_reach,
}
use gproc.Typeapply.Post.{Post, returns, ◌⟫◌, value_of}
use gproc.Typeapply.Reaches.{Reaches, widen}
use gproc.Typeapply.Sound.{new-Right, info-insert_self, vis, insert-all}
use gproc.Typeapply.Kinds.{MapsPlain}
use gproc.Typeapply.Free.{free, free_less, free_mono, free-le-length}
use gproc.Typeapply.Answers.{can_reach-Post}
use gproc.Typeapply.Later.{
  AllClosed, part-member, is_func, func-ne-nil, or_make-func, or_make-nil, Consistent, has_func,
  Got, keeps-blank, Answer-Later,
}
use gproc.Typeapply.Made.{make_trav-Post}

module _ (types : Types) (t : Str) (plain : MapsPlain types t) (names : List Str)
    (closed : AllClosed types names) (depth : ℕ) (deep : length names < depth) where
  get-Post :
      (fuel : ℕ) (m : Infos) (xt : Str)
      → Consistent types t m
      → Memᴰ xt names
      → free (has_func m) names < fuel
      → Post (Got types t m xt) (get_traverser_func fuel depth types t m xt)
  unfolding get_traverser_func
  get-Post zero m xt c mem f = absurd (omega arith)
  get-Post (suc fuel) m xt c mem f =
      can_reach-Post types t plain names
        (λ x y in_names part. closed x y in_names (part-member (types x) y part)) depth m xt c.sound
        mem (omega (arith, deep, free-le-length (vis m) names))
      ⟫ λ (need, m1) a.
          let l = Answer-Later types t xt (need, m1) c a in
          elim (Bool-cases (has_func m1 xt)) [
            | inl has ↦
                rw
                  (or_make-func (info_at xt m1).trav m1
                    (make_trav (get_traverser_func fuel depth types t) types t xt need m1) has)
                  (returns (record {
                    later = l;
                    nil_right = λ e. absurd (func-ne-nil _ has e);
                    func_right = λ e.
                        (l.consistent.sound xt).yes_right
                          ((l.consistent.sound xt).trav_right (func-ne-nil _ has));
                  }))
            | inr blank ↦
                rw
                  (or_make-nil (info_at xt m1).trav m1
                    (make_trav (get_traverser_func fuel depth types t) types t xt need m1) blank)
                  (make_trav-Post types t (get_traverser_func fuel depth types t) xt need m m1 c a
                    blank
                    (λ m' y part l'.
                      let m2 = set_trav xt dummy_traverser m1 in
                      get-Post fuel m' y l'.consistent (closed xt y mem part) (
                        omega (
                          arith,
                          f,
                          free_mono (has_func m) (has_func m1) names (keeps-blank m m1 l.keeps),
                          free_mono (has_func m2) (has_func m') names (keeps-blank m2 m' l'.keeps),
                          free_less (has_func m1) (has_func m2) names xt
                              (keeps-blank m1 m2 (
                                insert-all
                                  (λ x info. has_func m1 x ≡ true → is_func info.trav ≡ true) xt
                                  (record (info_at xt m1) { trav = dummy_traverser }) m1 (λ h. refl)
                                  (λ x o h. h)))
                              mem blank (ap (λ i. is_func i.trav) (info-insert_self xt _ m1)),
                        ))))
          ]

nil-cases : (f : Traverser) → (f ≡ nil_func) ⊎ (is_func f ≡ true)
nil-cases f = ground arith

-- `canReach` on a map that is consistent returns, and leaves one that is. Its answer is yes exactly if a
-- value of the type can hold one of the target type or an interface in its accessible members. The fuel is
-- more than the number of types, and a map type whose elements can hold a target has keys that can.
pub can_reach_lem :
    (types : Types) (t : Str) (names : List Str) (fuel : ℕ) (m : Infos) (xt : Str)
    → MapsPlain types t
    → AllClosed types names
    → length names < fuel
    → Consistent types t m
    → Memᴰ xt names
    → (k : Knowledge) × (m' : Infos) × (can_reach fuel types t m xt ≡ returned (k, m'))
      × Consistent types t m'
      × ((k ≡ definite_yes) ↔ Reaches types t xt)
can_reach_lem types t names fuel m xt plain closed deep c mem =
    let ((k, m'), e, a) = value_of (
      can_reach-Post types t plain names
        (λ x y in_names part. closed x y in_names (part-member (types x) y part)) fuel m xt c.sound
        mem (omega (arith, deep, free-le-length (vis m) names))) in
    (
      k,
      m',
      e,
      (Answer-Later types t xt (k, m') c a).consistent,
      (a.yes_right, λ w. a.finds (widen types t (λ y q. c.still y) w)),
    )

-- `getTraverserFunc` on a map that is consistent returns, and leaves one that is. It returns nil exactly if
-- no value of the type can hold one of the target type or an interface in its accessible members. The fuel
-- is more than the number of types, and a map type whose elements can hold a target has keys that can.
pub get_traverser_func_lem :
    (types : Types) (t : Str) (names : List Str) (fuel depth : ℕ) (m : Infos) (xt : Str)
    → MapsPlain types t
    → AllClosed types names
    → length names < fuel
    → length names < depth
    → Consistent types t m
    → Memᴰ xt names
    → (f : Traverser) × (m' : Infos) × (get_traverser_func fuel depth types t m xt
        ≡ returned (f, m'))
      × Consistent types t m'
      × ((f ≡ nil_func) ↔ (¬ Reaches types t xt))
get_traverser_func_lem types t names fuel depth m xt plain closed enough deep c mem =
    let ((f, m'), e, got) = value_of (
      get-Post types t plain names closed depth deep fuel m xt c mem
        (omega (arith, enough, free-le-length (has_func m) names))) in
    (
      f,
      m',
      e,
      got.later.consistent,
      (
        got.nil_right,
        λ none. elim (nil-cases f) [ inl nil ↦ nil | inr is ↦ absurd (none (got.func_right is)) ],
      ),
    )

-- The map that the first call finds.
pub empty-Consistent : (types : Types) (t : Str) → Consistent types t []
unfolding info_at lookup
empty-Consistent types t = record { sound = λ x. new-Right types t x false; still = λ x. refl }
