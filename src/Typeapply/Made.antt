-- ===== src/Typeapply/Made.antt =====
-- src/typeapply/typeapply.go: `getTraverserFunc` behind the answer of `canReach`.
use gproc.Common.{
  ℕ, ◌+◌, true, false, List, [], ◌∷◌, ◌≡◌, refl, sym, ap, ◌∙◌, inl, inr, arith, Str, str_eq,
  str_eq_iff, Bool-cases,
}
use mathlib.Core.List.{Memᴰ}
use mathlib.Core.List.Memᴰ
use mathlib.Core.Path.{subst}
use gproc.Dispatch.{returned}
use gproc.Typeapply.{
  Knowledge, dont_know, definite_no, definite_yes, Field, TypeKind, ptr, struct, map_kind, array,
  slice, interface, basic, Types, Traverser, call_func, dummy_traverser, TypeInfo, Infos, info_at,
  set_trav, Getter, field_funcs, trav_of_kind, make_trav, ◌>>=◌,
}
use gproc.Typeapply.Post.{Post, returns, ◌⟫◌}
use gproc.Typeapply.Reaches.{parts, Reaches, widen}
use gproc.Typeapply.Sound.{info-insert_self, insert-all, Right, Answer}
use gproc.Typeapply.Kinds.{into_part}
use gproc.Typeapply.Later.{
  field_types, members, is_func, func-ne-nil, ne-nil-func, Consistent, has_func, Later, Got,
  Later-trans, Later-self, Later-set, Answer-Later,
}

module _ (types : Types) (t : Str) where
  -- What the switch gives: a function, and a later map.
  abbrev pub Made : Infos → Traverser × Infos → Type 0
  Made m r = (is_func r.0 ≡ true) × Later types t m r.1

  module _ (getter : Getter) (m0 : Infos) where
    abbrev Good : Str → Type 0
    Good y = (m : Infos) → Later types t m0 m → Post (Got types t m y) (getter m y)

    field_funcs-Post :
        (i : ℕ) (fs : List Field) (m : Infos)
        → ((y : Str) → Memᴰ y (field_types fs) → Good y)
        → Later types t m0 m
        → Post (λ r. Later types t m0 r.1) (field_funcs getter i fs m)
    unfolding field_funcs
    field_funcs-Post i [] m good l = returns l
    field_funcs-Post i (f ∷ fs) m good l = good f.type_name (Memᴰ.head refl) m l ⟫ λ (func, m1) g.
        field_funcs-Post (i + 1) fs m1 (λ y mem. good y (Memᴰ.tail mem))
          (Later-trans types t l g.later)
        ⟫ λ (more, m2) l2. returns l2

    one-Post :
        (y : Str) (f : Traverser → Traverser)
        → Consistent types t m0
        → ((g : Traverser) → is_func (f g) ≡ true)
        → Good y
        → Post (Made m0) (getter m0 y >>= λ (g, m1). returned (f g, m1))
    one-Post y f c is good =
        good m0 (Later-self types t c) ⟫ λ (g, m1) got. returns (is g, got.later)

    trav_of_kind-Post :
        (xt : Str) (k : TypeKind)
        → types xt ≡ k
        → str_eq t xt ≡ false
        → Reaches types t xt
        → Consistent types t m0
        → ((y : Str) → Memᴰ y (members k) → Good y)
        → Post (Made m0) (trav_of_kind getter k m0)
    unfolding trav_of_kind
    trav_of_kind-Post xt (ptr e) at ne w c good =
        one-Post e Traverser.ptr_trav c (λ g. refl) (good e (Memᴰ.head refl))
    trav_of_kind-Post xt (array e) at ne w c good =
        one-Post e Traverser.elements_trav c (λ g. refl) (good e (Memᴰ.head refl))
    trav_of_kind-Post xt (slice e) at ne w c good =
        one-Post e Traverser.elements_trav c (λ g. refl) (good e (Memᴰ.head refl))
    trav_of_kind-Post xt (struct fs) at ne w c good =
        field_funcs-Post 0 fs m0 good (Later-self types t c) ⟫ λ r l. returns (refl, l)
    trav_of_kind-Post xt (map_kind key e) at ne w c good =
        good key (Memᴰ.head refl) m0 (Later-self types t c) ⟫ λ (f, m1) got.
        good e (Memᴰ.tail (Memᴰ.head refl)) m1 got.later ⟫ λ (g, m2) got'.
        returns (refl, Later-trans types t got.later got'.later)
    trav_of_kind-Post xt interface at ne w c good = returns (refl, Later-self types t c)
    trav_of_kind-Post xt basic at ne w c good =
        let (y, mem, w') = into_part types t ne (λ e'. absurd (ground (arith, sym at ∙ e'))) w in
        absurd (Memᴰ.not-nil (subst (λ k. Memᴰ y (parts k)) at mem))

  -- Behind the answer of `canReach`, for a type that has no function yet.
  pub make_trav-Post :
      (getter : Getter) (xt : Str) (need : Knowledge) (m m1 : Infos)
      → Consistent types t m
      → Answer types t m xt (need, m1)
      → is_func (info_at xt m1).trav ≡ false
      → ((m' : Infos) (y : Str)
          → Memᴰ y (members (types xt))
          → Later types t (set_trav xt dummy_traverser m1) m'
          → Post (Got types t m' y) (getter m' y))
      → Post (Got types t m xt) (make_trav getter types t xt need m1)
  unfolding make_trav
  make_trav-Post getter xt definite_no m m1 c a blank good = returns (record {
    later = Answer-Later types t xt (definite_no, m1) c a;
    nil_right = λ e. a.no_right refl;
    func_right = λ e. absurd (ground (arith, e));
  })
  make_trav-Post getter xt dont_know m m1 c a blank good =
      let l = Answer-Later types t xt (dont_know, m1) c a in
      let none : ¬ Reaches types t xt =
        λ w. absurd (ground (arith, a.finds (widen types t (λ y e. c.still y) w))) in
      let v : TypeInfo = record (info_at xt m1) { reach = definite_no } in
      returns (record {
        later = Later-trans types t l (record {
          consistent = record {
            sound =
                insert-all (Right types t) xt v m1
                  (record {
                    yes_right = λ e. absurd (ground (arith, e));
                    no_right = λ e. none;
                    trav_right = λ e. absurd (ground (arith, ne-nil-func _ e, blank));
                  })
                  (λ x o. l.consistent.sound x);
            still =
                insert-all (λ x info. info.visiting ≡ false) xt v m1 (l.consistent.still xt)
                  (λ x o. l.consistent.still x);
          };
          keeps =
              insert-all (λ x info. has_func m1 x ≡ true → is_func info.trav ≡ true) xt v m1
                (λ h. h) (λ x o h. h);
        });
        nil_right = λ e. none;
        func_right = λ e. absurd (ground (arith, e));
      })
  make_trav-Post getter xt definite_yes m m1 c a blank good =
      let l = Answer-Later types t xt (definite_yes, m1) c a in
      let says = a.noted (c.still xt) in
      let reaches = a.yes_right refl in
      elim (Bool-cases (str_eq xt t)) [
        | inl same ↦
            rw (make_trav, same)
              (returns (record {
                later =
                    Later-trans types t l (Later-set types t xt call_func l.consistent says refl);
                nil_right = λ e. absurd (ground (arith, e));
                func_right = λ e. reaches;
              }))
        | inr other ↦
            let m2 = set_trav xt dummy_traverser m1 in
            let l2 = Later-set types t xt dummy_traverser l.consistent says refl in
            let ne : str_eq t xt ≡ false =
              ground (arith, other, str_eq_iff t xt, str_eq_iff xt t) in
            rw (make_trav, other)
              (trav_of_kind-Post getter m2 xt (types xt) refl ne reaches l2.consistent
                  (λ y mem m' l'. good m' y mem l')
                ⟫ λ (f, m3) (is, l3).
                    let has : has_func m3 xt ≡ true =
                      l3.keeps xt (ap (λ i. is_func i.trav) (info-insert_self xt _ m1)) in
                    let yes = (l3.consistent.sound xt).trav_right (func-ne-nil _ has) in
                    returns (record {
                      later = Later-trans types t l (
                          Later-trans types t l2
                            (Later-trans types t l3 (Later-set types t xt f l3.consistent yes is)));
                      nil_right = λ e. absurd (func-ne-nil f is e);
                      func_right = λ e. reaches;
                    }))
      ]
