-- ===== src/Typeapply/Sound.antt =====
-- src/typeapply/typeapply.go: what the entries of a map say, and what a call of `canReach` keeps of them.
use gproc.Common.{
  Bool, true, false, ◌≡◌, ◌≢◌, refl, ap, ◌∙◌, inl, inr, arith, Str, str_eq, str_eq_iff, str_eq_self,
  Bool-cases, Option-cases, Option, some, if◌then◌else◌,
}
use gproc.Common.Dict.{lookup, insert, lookup-insert}
use mathlib.Core.Path.{subst}
use gproc.Typeapply.{
  Knowledge, definite_no, definite_yes, Types, Traverser, TypeInfo, Infos, nil_func, new_info,
  info_at, set_reach, given, settled, entered,
}
use gproc.Typeapply.Reaches.{Way, Reaches, and_also}

pub info-insert :
    (k j : Str) (v : TypeInfo) (m : Infos)
    → info_at j (insert k v m) ≡ (if str_eq k j then v else info_at j m)
unfolding info_at
info-insert k j v m = elim (Bool-cases (str_eq k j)) [
  | inl same ↦ rw (lookup-insert k j v m, same)
  | inr other ↦ rw (lookup-insert k j v m, other)
]

pub info-insert_self : (k : Str) (v : TypeInfo) (m : Infos) → info_at k (insert k v m) ≡ v
info-insert_self k v m = rw (info-insert k k v m, str_eq_self k)

pub info-insert_other :
    (k j : Str) (v : TypeInfo) (m : Infos)
    → str_eq k j ≡ false
    → info_at j (insert k v m) ≡ info_at j m
info-insert_other k j v m h = rw (info-insert k j v m, h)

abbrev pub visiting_of : TypeInfo → Bool
visiting_of info = info.visiting

abbrev pub trav_of : TypeInfo → Traverser
trav_of info = info.trav

abbrev pub reach_of : TypeInfo → Knowledge
reach_of info = info.reach

-- What `canReach` takes at once from an entry.
abbrev pub known_of : TypeInfo → Option Knowledge
known_of info = given info.visiting info.reach

abbrev pub vis : Infos → Str → Bool
vis m x = (info_at x m).visiting

abbrev pub known : Infos → Str → Option Knowledge
known m x = known_of (info_at x m)

pub settled-known : (x : Str) (m : Infos) → settled (lookup x m) ≡ known m x
unfolding info_at
settled-known x m = elim (Option-cases (lookup x m)) [ inl new ↦ rw new | inr (info, old) ↦ rw old ]

-- A property of entries holds of all of them if it holds of the one that is set and of those before.
pub insert-all :
    (P : Str → TypeInfo → Type 0) (k : Str) (v : TypeInfo) (m : Infos)
    → P k v
    → ((x : Str) → str_eq k x ≡ false → P x (info_at x m))
    → (x : Str) → P x (info_at x (insert k v m))
insert-all P k v m here there x = elim (Bool-cases (str_eq k x)) [
  | inl same ↦
      subst (λ z. P z (info_at z (insert k v m))) ((str_eq_iff k x).0 same)
        (rw (info-insert_self k v m) here)
  | inr other ↦ rw (info-insert_other k x v m other) (there x other)
]

-- What an entry says is right: a definite answer, and a function only for a type that reaches.
pub record Right (types : Types) (t x : Str) (info : TypeInfo) : Type 0 where
  pub yes_right : info.reach ≡ definite_yes → Reaches types t x
  pub no_right : info.reach ≡ definite_no → ¬ Reaches types t x
  pub trav_right : info.trav ≢ nil_func → info.reach ≡ definite_yes

abbrev pub Sound : Types → Str → Infos → Type 0
Sound types t m = (x : Str) → Right types t x (info_at x m)

-- What a call keeps: an entry with an answer as it is, and no type as visited that was not.
pub record Frame (m m' : Infos) : Type 0 where
  pub kept : (x : Str) (k : Knowledge) → known m x ≡ some k → info_at x m' ≡ info_at x m
  pub quiet : (x : Str) → vis m x ≡ false → vis m' x ≡ false

-- What a call of `canReach` gives.
pub record Answer (types : Types) (t : Str) (m : Infos) (x : Str) (r : Knowledge × Infos)
    : Type 0 where
  pub sound : Sound types t r.1
  pub frame : Frame m r.1
  pub yes_right : r.0 ≡ definite_yes → Reaches types t x
  pub no_right : r.0 ≡ definite_no → ¬ Reaches types t x
  pub finds : Way types t (vis m) x → r.0 ≡ definite_yes
  pub noted : vis m x ≡ false → (info_at x r.1).reach ≡ r.0

-- A state within the visit of `xt`, which began in `m0`.
pub record Inside (types : Types) (t : Str) (m0 : Infos) (xt : Str) (m : Infos) : Type 0 where
  pub sound : Sound types t m
  pub others :
      (x : Str) (k : Knowledge)
      → str_eq xt x ≡ false
      → known m0 x ≡ some k
      → info_at x m ≡ info_at x m0
  pub quiet : (x : Str) → and_also types t xt (vis m0) x ≡ false → vis m x ≡ false
  pub open_here : vis m xt ≡ true
  pub no_trav : (info_at xt m).trav ≡ nil_func

module _ (types : Types) (t : Str) where
  pub new-Right : (x : Str) → (v : Bool) → Right types t x (record new_info { visiting = v })
  new-Right x v = record {
    yes_right = λ e. absurd (ground (arith, e));
    no_right = λ e. absurd (ground (arith, e));
    trav_right = λ e. absurd (e refl);
  }

  pub Inside-start :
      (m0 : Infos) (xt : Str) → Sound types t m0 → Inside types t m0 xt (entered m0 xt)
  Inside-start m0 xt h =
      let v : TypeInfo = record new_info { visiting = true } in
      record {
        sound = insert-all (Right types t) xt v m0 (new-Right xt true) (λ x e. h x);
        others = λ x k e g. info-insert_other xt x v m0 e;
        quiet = λ x e.
            let (other, was) : (str_eq xt x ≡ false) × (vis m0 x ≡ false) = ground (arith, e) in
            ap visiting_of (info-insert_other xt x v m0 other) ∙ was;
        open_here = ap visiting_of (info-insert_self xt v m0);
        no_trav = ap trav_of (info-insert_self xt v m0);
      }

  -- A call within the visit.
  pub Inside-call :
      {m0 : Infos} {xt : Str} {m m1 : Infos}
      → Inside types t m0 xt m
      → Frame m m1
      → Sound types t m1
      → Inside types t m0 xt m1 × (info_at xt m1 ≡ info_at xt m)
  Inside-call {m0} {xt} {m} {m1} i f s =
      let same : info_at xt m1 ≡ info_at xt m =
        f.kept xt (info_at xt m).reach (ap (λ v. given v (info_at xt m).reach) i.open_here) in
      let o : (x : Str) (k : Knowledge)
          → str_eq xt x ≡ false
          → known m0 x ≡ some k
          → info_at x m1 ≡ info_at x m0 =
        λ x k e g. let e1 = i.others x k e g in f.kept x k (ap known_of e1 ∙ g) ∙ e1 in
      (
        record {
          sound = s;
          others = o;
          quiet = λ x e. f.quiet x (i.quiet x e);
          open_here = ap visiting_of same ∙ i.open_here;
          no_trav = ap trav_of same ∙ i.no_trav;
        },
        same,
      )

  -- The answer of `xt` is set.
  pub Inside-set :
      {m0 : Infos} {xt : Str} {m : Infos} (k : Knowledge)
      → Inside types t m0 xt m
      → (k ≡ definite_yes → Reaches types t xt)
      → (k ≡ definite_no → ¬ Reaches types t xt)
      → Inside types t m0 xt (set_reach xt k m)
  Inside-set {m0} {xt} {m} k i y n =
      let v : TypeInfo = record (info_at xt m) { reach = k } in
      record {
        sound =
            insert-all (Right types t) xt v m
              (record { yes_right = y; no_right = n; trav_right = λ e. absurd (e i.no_trav) })
              (λ x e. i.sound x);
        others = λ x k' e g. info-insert_other xt x v m e ∙ i.others x k' e g;
        quiet = λ x e.
            let other : str_eq xt x ≡ false = ground (arith, e) in
            ap visiting_of (info-insert_other xt x v m other) ∙ i.quiet x e;
        open_here = ap visiting_of (info-insert_self xt v m) ∙ i.open_here;
        no_trav = ap trav_of (info-insert_self xt v m) ∙ i.no_trav;
      }
