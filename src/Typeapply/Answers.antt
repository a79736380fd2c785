-- ===== src/Typeapply/Answers.antt =====
-- src/typeapply/typeapply.go: `canReach` answers, and is right.
use gproc.Common.{
  ℕ, zero, suc, ◌<◌, Bool, true, false, List, ◌≡◌, ◌≢◌, refl, sym, ap, ◌∙◌, inl, inr, none, some,
  arith, Str, str_eq, str_eq_iff, Bool-cases, Option-cases,
}
use gproc.Common.Dict.{lookup, insert}
use mathlib.Core.List.{Memᴰ}
use mathlib.Core.Path.{subst}
use gproc.Typeapply.{
  Knowledge, dont_know, definite_no, definite_yes, interface, Types, TypeInfo, Infos, new_info,
  info_at, given, settled, leave, entered, can_reach,
}
use gproc.Typeapply.Post.{Post, returns, ◌⟫◌}
use gproc.Typeapply.Reaches.{
  parts, Way, here, Reaches, start_free, Way-Reaches, and_also, is_target, is_interface, goes_on,
  exit,
}
use gproc.Typeapply.Sound.{
  info-insert_self, info-insert_other, visiting_of, reach_of, vis, known, settled-known, insert-all,
  Right, Sound, Frame, Answer, Inside, Inside-start,
}
use gproc.Typeapply.Kinds.{MapsPlain, reach_kind-Post}
use gproc.Typeapply.Free.{free, free_less}

given-reach : (v : Bool) (r k : Knowledge) → given v r ≡ some k → r ≡ k
given-reach v r k e = ground (arith, e)

given-quiet : (v : Bool) (r k : Knowledge) → given v r ≡ some k → v ≡ false → k ≢ dont_know
given-quiet v r k e q = ground (arith, e, q)

given-none : (v : Bool) (r : Knowledge) → given v r ≡ none → v ≡ false
given-none v r e = ground (arith, e)

given-visiting : (v : Bool) (r : Knowledge) → v ≡ true → given v r ≡ some r
given-visiting v r e = ground (arith, e)

no-others : (k : Knowledge) → k ≢ dont_know → k ≢ definite_no → k ≡ definite_yes
no-others k a b = ground (arith, a, b)

-- What was being visited stays so, where entries with an answer are kept.
vis_kept :
    (m m' : Infos) (x : Str)
    → (known m x ≡ some (info_at x m).reach → info_at x m' ≡ info_at x m)
    → vis m' x ≡ false
    → vis m x ≡ false
vis_kept m m' x keep e = elim (Bool-cases (vis m x)) [
  | inr quiet ↦ quiet
  | inl was ↦
      let now : vis m' x ≡ true = ap visiting_of (keep (given-visiting _ _ was)) ∙ was in
      absurd (ground (arith, sym now ∙ e))
]

module _ (types : Types) (t : Str) where
  Frame-self : (m : Infos) → Frame m m
  Frame-self m = record { kept = λ x k e. refl; quiet = λ x e. e }

  -- The entry of a type that has no answer is set.
  Frame-insert :
      (m : Infos) (xt : Str) (v : TypeInfo)
      → known m xt ≡ none
      → v.visiting ≡ false
      → Frame m (insert xt v m)
  Frame-insert m xt v new q = record {
    kept = λ x k e. elim (Bool-cases (str_eq xt x)) [
      | inl same ↦
          let clash = sym (ap (known m) ((str_eq_iff xt x).0 same)) ∙ new in
          absurd (ground (arith, sym e ∙ clash))
      | inr other ↦ info-insert_other xt x v m other
    ];
    quiet =
        insert-all (λ x info. vis m x ≡ false → info.visiting ≡ false) xt v m (λ e. q) (λ x o e. e);
  }

  settled-Answer :
      (m : Infos) (xt : Str) (k : Knowledge)
      → Sound types t m
      → known m xt ≡ some k
      → Answer types t m xt (k, m)
  settled-Answer m xt k h e =
      let r = given-reach _ _ k e in
      record {
        sound = h;
        frame = Frame-self m;
        yes_right = λ y. (h xt).yes_right (r ∙ y);
        no_right = λ n. (h xt).no_right (r ∙ n);
        finds = λ w.
            no-others k (given-quiet _ _ k e (start_free types t w))
              (λ n. (h xt).no_right (r ∙ n) (Way-Reaches types t w));
        noted = λ q. r;
      }

  target-Answer :
      (m : Infos) (xt : Str)
      → Sound types t m
      → known m xt ≡ none
      → t ≡ xt
      → Answer types t m xt (definite_yes, insert xt (record new_info { reach = definite_yes }) m)
  target-Answer m xt h new same =
      let v : TypeInfo = record new_info { reach = definite_yes } in
      let reaches : Reaches types t xt = subst (Reaches types t) same (here refl) in
      record {
        sound =
            insert-all (Right types t) xt v m
              (record {
                yes_right = λ e. reaches;
                no_right = λ e. absurd (ground (arith, e));
                trav_right = λ e. refl;
              })
              (λ x o. h x);
        frame = Frame-insert m xt v new refl;
        yes_right = λ e. reaches;
        no_right = λ e. absurd (ground (arith, e));
        finds = λ w. refl;
        noted = λ q. ap reach_of (info-insert_self xt v m);
      }

  leave-Answer :
      (m0 m1 : Infos) (xt : Str)
      → known m0 xt ≡ none
      → str_eq t xt ≡ false
      → Inside types t m0 xt m1
      → ((y : Str)
          → Memᴰ y (parts (types xt))
          → Way types t (and_also types t xt (vis m0)) y
          → (info_at xt m1).reach ≡ definite_yes)
      → (types xt ≡ interface → (info_at xt m1).reach ≡ definite_yes)
      → Answer types t m0 xt (leave xt m1)
  leave-Answer m0 m1 xt new ne i leads at =
      let info = info_at xt m1 in
      let v : TypeInfo = record info { visiting = false } in
      let right = i.sound xt in
      record {
        sound =
            insert-all (Right types t) xt v m1
              (record {
                yes_right = right.yes_right;
                no_right = right.no_right;
                trav_right = right.trav_right;
              })
              (λ x o. i.sound x);
        frame = record {
          kept = λ x k e. elim (Bool-cases (str_eq xt x)) [
            | inl same ↦
                let clash = sym (ap (known m0) ((str_eq_iff xt x).0 same)) ∙ new in
                absurd (ground (arith, sym e ∙ clash))
            | inr other ↦ info-insert_other xt x v m1 other ∙ i.others x k other e
          ];
          quiet =
              insert-all (λ x info. vis m0 x ≡ false → info.visiting ≡ false) xt v m1 (λ e. refl)
                (λ x o e. i.quiet x (ground (arith, o, e)));
        };
        yes_right = right.yes_right;
        no_right = right.no_right;
        finds = λ w. elim (exit types t w) [
          | is_target e ↦ absurd (ground (arith, ne, str_eq_iff t xt, e))
          | is_interface e ↦ at e
          | goes_on y mem w' ↦ leads y mem w'
        ];
        noted = λ q. ap reach_of (info-insert_self xt v m1);
      }

-- A list of names with all types that theirs are made of.
abbrev pub Closed : Types → List Str → Type 0
Closed types names = (x y : Str) → Memᴰ x names → Memᴰ y (parts (types x)) → Memᴰ y names

module _ (types : Types) (t : Str) (plain : MapsPlain types t) (names : List Str)
    (closed : Closed types names) where
  Inside-free :
      (m0 m : Infos) (xt : Str)
      → Memᴰ xt names
      → known m0 xt ≡ none
      → Inside types t m0 xt m
      → free (vis m) names < free (vis m0) names
  Inside-free m0 m xt mem new i =
      free_less (vis m0) (vis m) names xt
        (λ x e. elim (Bool-cases (str_eq xt x)) [
          | inl same ↦
              let now : vis m x ≡ true =
                subst (λ z. vis m z ≡ true) ((str_eq_iff xt x).0 same) i.open_here in
              absurd (ground (arith, sym now ∙ e))
          | inr other ↦ vis_kept m0 m x (i.others x _ other) e
        ])
        mem (given-none _ _ new) i.open_here

  pub can_reach-Post :
      (fuel : ℕ) (m : Infos) (xt : Str)
      → Sound types t m
      → Memᴰ xt names
      → free (vis m) names < fuel
      → Post (Answer types t m xt) (can_reach fuel types t m xt)
  unfolding can_reach
  can_reach-Post zero m xt h mem f = absurd (omega arith)
  can_reach-Post (suc fuel) m xt h mem f = elim (Option-cases (settled (lookup xt m))) [
    | inr (k, e) ↦
        rw (can_reach, e) (returns (settled-Answer types t m xt k h (sym (settled-known xt m) ∙ e)))
    | inl e ↦
        let new = sym (settled-known xt m) ∙ e in
        elim (Bool-cases (str_eq t xt)) [
          | inl same ↦
              rw (can_reach, e, same)
                (returns (target-Answer types t m xt h new ((str_eq_iff t xt).0 same)))
          | inr ne ↦
              rw (can_reach, e, ne)
                (reach_kind-Post types t plain (can_reach fuel types t) m xt ne
                    (λ m' y part i.
                      can_reach-Post fuel m' y i.sound (closed xt y mem part)
                        (omega (arith, f, Inside-free m m' xt mem new i)))
                    (types xt) (entered m xt) refl (Inside-start types t m xt h)
                  ⟫ λ m1 (i, leads, at). returns (leave-Answer types t m m1 xt new ne i leads at))
        ]
  ]
