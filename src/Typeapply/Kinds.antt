-- ===== src/Typeapply/Kinds.antt =====
-- src/typeapply/typeapply.go: the switch of `canReach` over the kind of a type that is being visited.
use gproc.Common.{
  false, List, [], ◌∷◌, ◌≡◌, ◌≢◌, refl, sym, ap, ◌∙◌, ◌⊎◌, inl, inr, arith, Str, str_eq,
  str_eq_self, Bool-cases,
}
use mathlib.Core.List.{Memᴰ}
use mathlib.Core.List.Memᴰ
use mathlib.Core.Path.{subst}
use gproc.Typeapply.{
  Knowledge, definite_no, definite_yes, or, Field, TypeKind, ptr, struct, map_kind, array, slice,
  interface, basic, Types, Infos, info_at, set_reach, Reacher, or_reach, take_reach, visit_fields,
  reach_kind, ◌>>=◌,
}
use gproc.Typeapply.Post.{Post, returns, weaken, ◌⟫◌}
use gproc.Typeapply.Reaches.{
  exported_types, parts, Way, here, at_interface, through, Reaches, widen, and_also,
}
use gproc.Typeapply.Sound.{info-insert_self, reach_of, vis, Inside, Answer, Inside-call, Inside-set}

or-yes : (a b : Knowledge) → or a b ≡ definite_yes → (a ≡ definite_yes) ⊎ (b ≡ definite_yes)
or-yes a b e = ground (arith, e)

or-no : (a b : Knowledge) → or a b ≡ definite_no → b ≡ definite_no
or-no a b e = ground (arith, e)

or-yes_left : (a b : Knowledge) → a ≡ definite_yes → or a b ≡ definite_yes
or-yes_left a b e = ground (arith, e)

or-yes_right : (a b : Knowledge) → b ≡ definite_yes → or a b ≡ definite_yes
or-yes_right a b e = ground (arith, e)

-- A map type whose elements can hold a target has keys that can.
abbrev pub MapsPlain : Types → Str → Type 0
MapsPlain types t =
    (x key elem : Str) → types x ≡ map_kind key elem → Reaches types t elem → Reaches types t key

module _ (types : Types) (t : Str) where
  -- From a type that is not the target and no interface a way leads on into one of its parts.
  pub into_part :
      {x : Str}
      → str_eq t x ≡ false
      → types x ≢ interface
      → Reaches types t x
      → (y : Str) × Memᴰ y (parts (types x)) × Reaches types t y
  into_part ne ni (here h) = absurd (ground (arith, ne, str_eq_self t))
  into_part ne ni (at_interface h e) = absurd (ni e)
  into_part ne ni (through {z = y} h m w) = (y, m, w)

  only_part :
      {x elem : Str}
      → str_eq t x ≡ false
      → types x ≢ interface
      → parts (types x) ≡ elem ∷ []
      → Reaches types t x
      → Reaches types t elem
  only_part ne ni e w =
      let (y, m, w') = into_part ne ni w in
      subst (Reaches types t) (Memᴰ.eq_of_singleton (subst (Memᴰ y) e m)) w'

module _ (types : Types) (t : Str) (plain : MapsPlain types t) (reacher : Reacher) (m0 : Infos)
    (xt : Str) (ne : str_eq t xt ≡ false)
    (good : (m : Infos) (y : Str)
      → Memᴰ y (parts (types xt))
      → Inside types t m0 xt m
      → Post (Answer types t m y) (reacher m y)) where
  abbrev Onward : Str → Type 0
  Onward = Way types t (and_also types t xt (vis m0))

  abbrev SaysYes : Infos → Type 0
  SaysYes m = (info_at xt m).reach ≡ definite_yes

  -- A part that leads on makes the answer yes, and a yes stays.
  record Took (y : Str) (m m' : Infos) : Type 0 where
    inside : Inside types t m0 xt m'
    stays : SaysYes m → SaysYes m'
    leads : Onward y → SaysYes m'

  set_says : (k : Knowledge) (m : Infos) → k ≡ definite_yes → SaysYes (set_reach xt k m)
  set_says k m e = ap reach_of (info-insert_self xt _ m) ∙ e

  or_reach-Post :
      (y : Str) (m : Infos)
      → Memᴰ y (parts (types xt))
      → Inside types t m0 xt m
      → Post (Took y m) (or_reach reacher xt y m)
  or_reach-Post y m mem i = good m y mem i ⟫ λ (k, m1) a.
      let (i1, same) = Inside-call types t i a.frame a.sound in
      let r = (info_at xt m1).reach in
      returns (record {
        inside =
            Inside-set types t (or k r) i1
              (λ e. elim (or-yes k r e) [
                | inl new ↦ through refl mem (a.yes_right new)
                | inr old ↦ (i1.sound xt).yes_right old
              ])
              (λ e. (i1.sound xt).no_right (or-no k r e));
        stays = λ e. set_says (or k r) m1 (or-yes_right k r (ap reach_of same ∙ e));
        leads = λ w. set_says (or k r) m1 (or-yes_left k r (a.finds (widen types t i.quiet w)));
      })

  take_reach-Post :
      (y : Str) (m : Infos)
      → Memᴰ y (parts (types xt))
      → (Reaches types t xt → Reaches types t y)
      → Inside types t m0 xt m
      → Post (λ m'. Inside types t m0 xt m' × (Onward y → SaysYes m')) (take_reach reacher xt y m)
  take_reach-Post y m mem only i = good m y mem i ⟫ λ (k, m1) a.
      let (i1, same) = Inside-call types t i a.frame a.sound in
      returns (
        Inside-set types t k i1 (λ e. through refl mem (a.yes_right e))
            (λ e w. a.no_right e (only w)),
        λ w. set_says k m1 (a.finds (widen types t i.quiet w)),
      )

  visit_fields-Post :
      (fs : List Field) (m : Infos)
      → ((y : Str) → Memᴰ y (exported_types fs) → Memᴰ y (parts (types xt)))
      → Inside types t m0 xt m
      → Post
          (λ m'.
            Inside types t m0 xt m'
            × (SaysYes m → SaysYes m')
            × ((y : Str) → Memᴰ y (exported_types fs) → Onward y → SaysYes m'))
          (visit_fields reacher xt fs m)
  unfolding visit_fields
  visit_fields-Post [] m sub i = returns (i, λ e. e, λ y mem. absurd (Memᴰ.not-nil mem))
  visit_fields-Post (f ∷ fs) m sub i = elim (Bool-cases f.exported) [
    | inr hidden ↦ rw (visit_fields, hidden) (visit_fields-Post fs m (rw hidden at sub) i)
    | inl shown ↦
        rw (visit_fields, shown)
          (or_reach-Post f.type_name m (sub f.type_name (rw shown (Memᴰ.head refl))) i ⟫ λ m1 a.
            weaken
              (λ m2 (i2, st, ld). (
                i2,
                λ e. st (a.stays e),
                λ y mem w. elim (Memᴰ.cases_cons mem) [
                  | inl first ↦ st (a.leads (subst Onward first w))
                  | inr later ↦ ld y later w
                ],
              ))
              (visit_fields-Post fs m1 (λ y mem. sub y (rw shown (Memᴰ.tail mem))) a.inside))
  ]

  abbrev Kept : Infos → Type 0
  Kept m' =
      Inside types t m0 xt m'
      × ((y : Str) → Memᴰ y (parts (types xt)) → Onward y → SaysYes m')
      × (types xt ≡ interface → SaysYes m')

  one_part-Post :
      (elem : Str) (m : Infos)
      → parts (types xt) ≡ elem ∷ []
      → types xt ≢ interface
      → Inside types t m0 xt m
      → Post Kept (take_reach reacher xt elem m)
  one_part-Post elem m e ni i =
      weaken
        (λ m' (i', leads). (
          i',
          λ y mem w. leads (subst Onward (Memᴰ.eq_of_singleton (subst (Memᴰ y) e mem)) w),
          λ e'. absurd (ni e'),
        ))
        (take_reach-Post elem m (subst (Memᴰ elem) (sym e) (Memᴰ.head refl))
          (only_part types t ne ni e) i)

  map-Post :
      (key elem : Str) (m : Infos)
      → types xt ≡ map_kind key elem
      → Inside types t m0 xt m
      → Post Kept (take_reach reacher xt key m >>= or_reach reacher xt elem)
  map-Post key elem m e i =
      let ni : types xt ≢ interface = λ e'. absurd (ground (arith, sym e ∙ e')) in
      let in_parts : (y : Str) → Memᴰ y (key ∷ elem ∷ []) → Memᴰ y (parts (types xt)) =
        λ y mem. subst (λ k. Memᴰ y (parts k)) (sym e) mem in
      let only : Reaches types t xt → Reaches types t key = λ w.
        let (y, mem, w') = into_part types t ne ni w in
        elim (Memᴰ.cases_cons (subst (λ k. Memᴰ y (parts k)) e mem)) [
          | inl first ↦ subst (Reaches types t) first w'
          | inr later ↦
              plain xt key elem e (subst (Reaches types t) (Memᴰ.eq_of_singleton later) w')
        ] in
      take_reach-Post key m (in_parts key (Memᴰ.head refl)) only i ⟫ λ m1 (i1, leads).
      weaken
        (λ m2 a. (
          a.inside,
          λ y mem w. elim (Memᴰ.cases_cons (subst (λ k. Memᴰ y (parts k)) e mem)) [
            | inl first ↦ a.stays (leads (subst Onward first w))
            | inr later ↦ a.leads (subst Onward (Memᴰ.eq_of_singleton later) w)
          ],
          λ e'. absurd (ni e'),
        ))
        (or_reach-Post elem m1 (in_parts elem (Memᴰ.tail (Memᴰ.head refl))) i1)

  -- The switch: every part that leads on makes the answer yes, and so does an interface.
  pub reach_kind-Post :
      (k : TypeKind) (m : Infos)
      → types xt ≡ k
      → Inside types t m0 xt m
      → Post Kept (reach_kind reacher xt k m)
  unfolding reach_kind
  reach_kind-Post (ptr elem) m e i =
      one_part-Post elem m (ap parts e) (λ e'. absurd (ground (arith, sym e ∙ e'))) i
  reach_kind-Post (array elem) m e i =
      one_part-Post elem m (ap parts e) (λ e'. absurd (ground (arith, sym e ∙ e'))) i
  reach_kind-Post (slice elem) m e i =
      one_part-Post elem m (ap parts e) (λ e'. absurd (ground (arith, sym e ∙ e'))) i
  reach_kind-Post (map_kind key elem) m e i = map-Post key elem m e i
  reach_kind-Post (struct fs) m e i =
      weaken
        (λ m' (i', stays, leads). (
          i',
          λ y mem w. leads y (subst (λ k. Memᴰ y (parts k)) e mem) w,
          λ e'. absurd (ground (arith, sym e ∙ e')),
        ))
        (visit_fields-Post fs m (λ y mem. subst (λ k. Memᴰ y (parts k)) (sym e) mem) i)
  reach_kind-Post interface m e i = returns (
    Inside-set types t definite_yes i (λ h. at_interface refl e) (λ h. absurd (ground (arith, h))),
    λ y mem w. set_says definite_yes m refl,
    λ e'. set_says definite_yes m refl,
  )
  reach_kind-Post basic m e i = returns (
    i,
    λ y mem w. absurd (Memᴰ.not-nil (subst (λ k. Memᴰ y (parts k)) e mem)),
    λ e'. absurd (ground (arith, sym e ∙ e')),
  )
