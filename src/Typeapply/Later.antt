-- ===== src/Typeapply/Later.antt =====
-- src/typeapply/typeapply.go: the map between the calls of `getTraverserFunc`, and what a call adds to it.
use gproc.Common.{
  Bool, true, false, List, [], ◌∷◌, ◌≡◌, ◌≢◌, refl, ap, ◌∙◌, inl, inr, some, arith, Str, Bool-cases,
}
use mathlib.Core.List.{Memᴰ}
use mathlib.Core.List.Memᴰ
use gproc.Dispatch.{Ended, returned}
use gproc.Typeapply.{
  Knowledge, definite_yes, Field, TypeKind, ptr, struct, map_kind, array, slice, interface, basic,
  Types, Traverser, nil_func, TypeInfo, Infos, info_at, set_trav, or_make,
}
use gproc.Typeapply.Reaches.{exported_types, parts, Reaches}
use gproc.Typeapply.Sound.{trav_of, vis, known, insert-all, Right, Sound, Answer}

abbrev pub field_types : List Field → List Str
field_types [] = []
field_types (f ∷ fs) = f.type_name ∷ field_types fs

-- The types that a type is made of, in all its members.
abbrev pub members : TypeKind → List Str
members (struct fs) = field_types fs
members k = parts k

abbrev pub AllClosed : Types → List Str → Type 0
AllClosed types names = (x y : Str) → Memᴰ x names → Memᴰ y (members (types x)) → Memᴰ y names

exported-field : (fs : List Field) (y : Str) → Memᴰ y (exported_types fs) → Memᴰ y (field_types fs)
exported-field [] y mem = mem
exported-field (f ∷ fs) y mem = elim (Bool-cases f.exported) [
  | inr hidden ↦ Memᴰ.tail (exported-field fs y (rw hidden at mem))
  | inl shown ↦ elim (Memᴰ.cases_cons (rw shown at mem)) [
    | inl first ↦ Memᴰ.head first
    | inr later ↦ Memᴰ.tail (exported-field fs y later)
  ]
]

pub part-member : (k : TypeKind) (y : Str) → Memᴰ y (parts k) → Memᴰ y (members k)
part-member (struct fs) y mem = exported-field fs y mem
part-member (ptr e) y mem = mem
part-member (map_kind key e) y mem = mem
part-member (array e) y mem = mem
part-member (slice e) y mem = mem
part-member interface y mem = mem
part-member basic y mem = mem

abbrev pub is_func : Traverser → Bool
is_func nil_func = false
is_func f = true

pub func-ne-nil : (f : Traverser) → is_func f ≡ true → f ≢ nil_func
func-ne-nil f h = ground (arith, h)

pub ne-nil-func : (f : Traverser) → f ≢ nil_func → is_func f ≡ true
ne-nil-func f h = ground (arith, h)

pub or_make-func :
    (f : Traverser) (m : Infos) (made : Ended (Traverser × Infos))
    → is_func f ≡ true
    → or_make f m made ≡ returned (f, m)
or_make-func f m made h = ground (arith, h)

pub or_make-nil :
    (f : Traverser) (m : Infos) (made : Ended (Traverser × Infos))
    → is_func f ≡ false
    → or_make f m made ≡ made
or_make-nil f m made h = ground (arith, h)

-- A map between two calls: what its entries say is right, and no type is being visited.
pub record Consistent (types : Types) (t : Str) (m : Infos) : Type 0 where
  pub sound : Sound types t m
  pub still : (x : Str) → vis m x ≡ false

abbrev pub has_func : Infos → Str → Bool
has_func m x = is_func (info_at x m).trav

-- A later state, which has the functions of the earlier one.
pub record Later (types : Types) (t : Str) (m m' : Infos) : Type 0 where
  pub consistent : Consistent types t m'
  pub keeps : (x : Str) → has_func m x ≡ true → has_func m' x ≡ true

pub record Got (types : Types) (t : Str) (m : Infos) (x : Str) (r : Traverser × Infos)
    : Type 0 where
  pub later : Later types t m r.1
  pub nil_right : r.0 ≡ nil_func → ¬ Reaches types t x
  pub func_right : is_func r.0 ≡ true → Reaches types t x

pub keeps-blank :
    (m m' : Infos)
    → ((x : Str) → has_func m x ≡ true → has_func m' x ≡ true)
    → (x : Str) → has_func m' x ≡ false
    → has_func m x ≡ false
keeps-blank m m' keeps x e = ground (arith, keeps x, e, Bool-cases (has_func m x))

module _ (types : Types) (t : Str) where
  pub Later-trans : {a b c : Infos} → Later types t a b → Later types t b c → Later types t a c
  Later-trans l k = record { consistent = k.consistent; keeps = λ x e. k.keeps x (l.keeps x e) }

  pub Later-self : {m : Infos} → Consistent types t m → Later types t m m
  Later-self c = record { consistent = c; keeps = λ x e. e }

  -- The entry of a type that is reached gets a function.
  pub Later-set :
      {m : Infos} (xt : Str) (f : Traverser)
      → Consistent types t m
      → (info_at xt m).reach ≡ definite_yes
      → is_func f ≡ true
      → Later types t m (set_trav xt f m)
  Later-set {m} xt f c e is =
      let v : TypeInfo = record (info_at xt m) { trav = f } in
      record {
        consistent = record {
          sound =
              insert-all (Right types t) xt v m
                (record {
                  yes_right = (c.sound xt).yes_right;
                  no_right = (c.sound xt).no_right;
                  trav_right = λ g. e;
                })
                (λ x o. c.sound x);
          still =
              insert-all (λ x info. info.visiting ≡ false) xt v m (c.still xt) (λ x o. c.still x);
        };
        keeps =
            insert-all (λ x info. has_func m x ≡ true → is_func info.trav ≡ true) xt v m (λ h. is)
              (λ x o h. h);
      }

  -- `canReach` keeps the functions.
  pub Answer-Later :
      {m : Infos} (xt : Str) (r : Knowledge × Infos)
      → Consistent types t m
      → Answer types t m xt r
      → Later types t m r.1
  Answer-Later {m} xt r c a = record {
    consistent = record { sound = a.sound; still = λ x. a.frame.quiet x (c.still x) };
    keeps = λ x e.
        let yes = (c.sound x).trav_right (func-ne-nil _ e) in
        let has : known m x ≡ some definite_yes = rw (c.still x, yes) refl in
        ap (λ i. is_func (trav_of i)) (a.frame.kept x definite_yes has) ∙ e;
  }
