-- ===== src/Typeapply/Reaches.antt =====
-- src/typeapply/typeapply.go: the types that can hold a target type.
use gproc.Common.{
  Bool, true, false, ◌||◌, List, [], ◌∷◌, ◌≡◌, refl, sym, ap, ◌∙◌, ◌⊎◌, inl, inr, arith, Str,
  str_eq, str_eq_iff, Bool-cases,
}
use mathlib.Core.List.{Memᴰ}
use mathlib.Core.Path.{subst}
use gproc.Typeapply.{Field, TypeKind, ptr, struct, map_kind, array, slice, interface, basic, Types}

abbrev pub exported_types : List Field → List Str
exported_types [] = []
exported_types (f ∷ fs) = elim f.exported [
  | true ↦ f.type_name ∷ exported_types fs
  | false ↦ exported_types fs
]

-- The types that a type is made of, in its accessible members.
abbrev pub parts : TypeKind → List Str
parts (ptr elem) = elem ∷ []
parts (struct fs) = exported_types fs
parts (map_kind key elem) = key ∷ elem ∷ []
parts (array elem) = elem ∷ []
parts (slice elem) = elem ∷ []
parts interface = []
parts basic = []

module _ (types : Types) (t : Str) where
  -- A way to the target, or to an interface, that avoids the types in `avoid`.
  pub data Way (avoid : Str → Bool) : Str → Type 0 where
    here : avoid t ≡ false → Way avoid t
    at_interface : {y : Str} → avoid y ≡ false → types y ≡ interface → Way avoid y
    through : {y z : Str} → avoid y ≡ false → Memᴰ z (parts (types y)) → Way avoid z → Way avoid y

  -- A value of the type can hold one of the target type.
  abbrev pub Reaches : Str → Type 0
  Reaches = Way (λ x. false)

  pub start_free : {avoid : Str → Bool} {x : Str} → Way avoid x → avoid x ≡ false
  start_free (here h) = h
  start_free (at_interface h e) = h
  start_free (through h m w) = h

  pub widen :
      {avoid avoid' : Str → Bool} {x : Str}
      → ((y : Str) → avoid y ≡ false → avoid' y ≡ false)
      → Way avoid x
      → Way avoid' x
  widen g (here h) = here (g _ h)
  widen g (at_interface h e) = at_interface (g _ h) e
  widen g (through h m w) = through (g _ h) m (widen g w)

  pub Way-Reaches : {avoid : Str → Bool} {x : Str} → Way avoid x → Reaches x
  Way-Reaches = widen (λ y h. refl)

  abbrev pub and_also : Str → (Str → Bool) → Str → Bool
  and_also x avoid y = str_eq x y || avoid y

  -- How a way goes on behind its last visit of a type.
  pub data Exit (avoid : Str → Bool) (x : Str) : Type 0 where
    is_target : t ≡ x → Exit avoid x
    is_interface : types x ≡ interface → Exit avoid x
    goes_on : (y : Str) → Memᴰ y (parts (types x)) → Way (and_also x avoid) y → Exit avoid x

  pub avoid_or_leave :
      {avoid : Str → Bool} (x : Str) {y : Str}
      → Way avoid y
      → Way (and_also x avoid) y ⊎ Exit avoid x
  avoid_or_leave {avoid} x (here h) = elim (Bool-cases (str_eq x t)) [
    | inl same ↦ inr (is_target (sym ((str_eq_iff x t).0 same)))
    | inr other ↦ inl (here (ground (arith, other, h)))
  ]
  avoid_or_leave {avoid} x (at_interface {y} h e) = elim (Bool-cases (str_eq x y)) [
    | inl same ↦ inr (is_interface (ap types ((str_eq_iff x y).0 same) ∙ e))
    | inr other ↦ inl (at_interface (ground (arith, other, h)) e)
  ]
  avoid_or_leave {avoid} x (through {y} {z} h m w) = elim (avoid_or_leave x w) [
    | inr out ↦ inr out
    | inl w' ↦ elim (Bool-cases (str_eq x y)) [
      | inl same ↦
          inr
            (goes_on z (subst (λ s. Memᴰ z (parts (types s))) (sym ((str_eq_iff x y).0 same)) m) w')
      | inr other ↦ inl (through (ground (arith, other, h)) m w')
    ]
  ]

  pub exit : {avoid : Str → Bool} {x : Str} → Way avoid x → Exit avoid x
  exit {avoid} {x} w = elim (avoid_or_leave x w) [
    | inr out ↦ out
    | inl w' ↦
        let clash : true ≡ false = ground (arith, start_free w', str_eq_iff x x) in
        absurd (ground (arith, clash))
  ]
