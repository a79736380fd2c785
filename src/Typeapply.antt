-- ===== src/Typeapply.antt =====
-- src/typeapply/typeapply.go: `canReach`, which finds out whether a type can hold a target type, and
-- `getTraverserFunc`, which makes the function that `Do` runs. What `reflect` says of the types is a
-- parameter, `Types`. A pointer to a `typeInfo` is the key of its entry: an entry is replaced only
-- while its answer is `dont_know` and it is not being visited, and no pointer to such an entry is kept.
pub mod Values
pub mod Post
pub mod Reaches
pub mod Sound
pub mod Kinds
pub mod Free
pub mod Answers
pub mod Later
pub mod Made
pub mod Nil
pub mod Chain
pub mod Request
pub mod Calls
pub mod Firsts
pub mod Serving
pub mod Files
pub mod Tests
use gproc.Common.{
  ℕ, zero, suc, ◌+◌, Bool, true, false, List, [], ◌∷◌, ◌++◌, Option, none, some, Str, str_eq,
}
use gproc.Common.Dict.{Dict, lookup, insert}
use gproc.Dispatch.{Ended, returned, panicked, endless}

pub data Knowledge : Type 0 where
  dont_know : Knowledge
  definite_no : Knowledge
  definite_yes : Knowledge

-- `or`
abbrev pub or : Knowledge → Knowledge → Knowledge
or definite_yes b = definite_yes
or a definite_yes = definite_yes
or dont_know b = dont_know
or a dont_know = dont_know
or definite_no definite_no = definite_no

-- What `reflect` says of a field: whether its name is exported, and its type.
pub record Field : Type 0 where
  pub exported : Bool
  pub type_name : Str

-- The kind of a type, with the types that it is made of; `basic` is every kind that the code does not name.
pub data TypeKind : Type 0 where
  ptr : Str → TypeKind
  struct : List Field → TypeKind
  map_kind : Str → Str → TypeKind
  array : Str → TypeKind
  slice : Str → TypeKind
  interface : TypeKind
  basic : TypeKind

abbrev pub Types : Type 0
Types = Str → TypeKind

-- A `traverserFunc`: the closure that was made, with what it captured. `fields_trav` has the index and the
-- type of each field, and finds the function in the entry of the type when it runs.
pub data Traverser : Type 0 where
  nil_func : Traverser
  call_func : Traverser
  dummy_traverser : Traverser
  ptr_trav : Traverser → Traverser
  fields_trav : List (ℕ × Str) → Traverser
  map_trav : Traverser → Traverser → Traverser
  elements_trav : Traverser → Traverser
  interface_trav : Traverser

pub record TypeInfo : Type 0 where
  pub reach : Knowledge
  pub visiting : Bool
  pub trav : Traverser

-- The map of one target type.
abbrev pub Infos : Type 0
Infos = Dict TypeInfo

infixl 5 ◌>>=◌
abbrev pub ◌>>=◌ : {A B : Type 0} → Ended A → (A → Ended B) → Ended B
returned a >>= f = f a
panicked >>= f = panicked
endless >>= f = endless

abbrev pub new_info : TypeInfo
new_info = record { reach = dont_know; visiting = false; trav = nil_func }

-- `m[xt]`; it is there wherever the code reads it.
abbrev pub or_new : Option TypeInfo → TypeInfo
or_new none = new_info
or_new (some info) = info

unfoldable pub info_at : Str → Infos → TypeInfo
info_at xt m = or_new (lookup xt m)

abbrev pub set_reach : Str → Knowledge → Infos → Infos
set_reach xt k m = insert xt (record (info_at xt m) { reach = k }) m

abbrev pub set_trav : Str → Traverser → Infos → Infos
set_trav xt f m = insert xt (record (info_at xt m) { trav = f }) m

abbrev pub Reacher : Type 0
Reacher = Infos → Str → Ended (Knowledge × Infos)

-- `info.canReach = or(canReach(m, t, ft), info.canReach)`
abbrev pub or_reach : Reacher → Str → Str → Infos → Ended Infos
or_reach reacher xt ft m = do
  (k, m1) ← reacher m ft
  returned (set_reach xt (or k (info_at xt m1).reach) m1)

-- `info.canReach = canReach(m, t, elem)`
abbrev pub take_reach : Reacher → Str → Str → Infos → Ended Infos
take_reach reacher xt elem m = do (k, m1) ← reacher m elem; returned (set_reach xt k m1)

-- The loop over the fields of a struct.
unfoldable pub visit_fields : Reacher → Str → List Field → Infos → Ended Infos
visit_fields reacher xt [] m = returned m
visit_fields reacher xt (f ∷ fs) m = elim f.exported [
  | true ↦ or_reach reacher xt f.type_name m >>= visit_fields reacher xt fs
  | false ↦ visit_fields reacher xt fs m
]

-- The switch of `canReach`.
unfoldable pub reach_kind : Reacher → Str → TypeKind → Infos → Ended Infos
unfolding visit_fields
reach_kind reacher xt (ptr elem) m = take_reach reacher xt elem m
reach_kind reacher xt (struct fs) m = visit_fields reacher xt fs m
reach_kind reacher xt (map_kind key elem) m =
    take_reach reacher xt key m >>= or_reach reacher xt elem
reach_kind reacher xt (array elem) m = take_reach reacher xt elem m
reach_kind reacher xt (slice elem) m = take_reach reacher xt elem m
reach_kind reacher xt interface m = returned (set_reach xt definite_yes m)
reach_kind reacher xt basic m = returned m

-- The answer that an entry gives at once: the one so far of a type that is being visited, or a definite one.
abbrev pub given : Bool → Knowledge → Option Knowledge
given true k = some k
given false dont_know = none
given false k = some k

abbrev pub settled : Option TypeInfo → Option Knowledge
settled none = none
settled (some info) = given info.visiting info.reach

abbrev pub leave : Str → Infos → Knowledge × Infos
leave xt m = ((info_at xt m).reach, insert xt (record (info_at xt m) { visiting = false }) m)

abbrev pub entered : Infos → Str → Infos
entered m xt = insert xt (record new_info { visiting = true }) m

-- `canReach`
unfoldable pub can_reach : ℕ → Types → Str → Reacher
unfolding reach_kind info_at
can_reach zero types t m xt = endless
can_reach (suc fuel) types t m xt = elim (settled (lookup xt m)) [
  | some k ↦ returned (k, m)
  | none ↦ elim (str_eq t xt) [
    | true ↦ returned (definite_yes, insert xt (record new_info { reach = definite_yes }) m)
    | false ↦ reach_kind (can_reach fuel types t) xt (types xt) (entered m xt) >>= λ m1.
        returned (leave xt m1)
  ]
]

abbrev pub Getter : Type 0
Getter = Infos → Str → Ended (Traverser × Infos)

-- A field is selected if its type has a function.
abbrev pub add_field : Traverser → ℕ × Str → List (ℕ × Str) → List (ℕ × Str)
add_field nil_func field fields = fields
add_field f field fields = field ∷ fields

-- The loop over the fields in `getTraverserFunc`, with the index of the first one.
unfoldable pub field_funcs : Getter → ℕ → List Field → Infos → Ended (List (ℕ × Str) × Infos)
field_funcs getter i [] m = returned ([], m)
field_funcs getter i (f ∷ fs) m = getter m f.type_name >>= λ (func, m1).
    field_funcs getter (i + 1) fs m1 >>= λ (more, m2).
    returned (add_field func (i, f.type_name) more, m2)

-- The switch of `getTraverserFunc`: the function of a type of that kind.
unfoldable pub trav_of_kind : Getter → TypeKind → Infos → Ended (Traverser × Infos)
unfolding field_funcs
trav_of_kind getter (ptr elem) m = do (f, m1) ← getter m elem; returned (ptr_trav f, m1)
trav_of_kind getter (struct fs) m = do
  (fields, m1) ← field_funcs getter 0 fs m
  returned (fields_trav fields, m1)
trav_of_kind getter (map_kind key elem) m = do
  (f, m1) ← getter m key
  (g, m2) ← getter m1 elem
  returned (map_trav f g, m2)
trav_of_kind getter (array elem) m = do (f, m1) ← getter m elem; returned (elements_trav f, m1)
trav_of_kind getter (slice elem) m = do (f, m1) ← getter m elem; returned (elements_trav f, m1)
trav_of_kind getter interface m = returned (interface_trav, m)
trav_of_kind getter basic m = panicked

-- `getTraverserFunc` behind the answer of `canReach`, for a type that has no function yet.
unfoldable pub make_trav :
    Getter → Types → Str → Str → Knowledge → Infos → Ended (Traverser × Infos)
unfolding trav_of_kind info_at
make_trav getter types t xt definite_no m = returned (nil_func, m)
make_trav getter types t xt dont_know m = returned (nil_func, set_reach xt definite_no m)
make_trav getter types t xt definite_yes m = elim (str_eq xt t) [
  | true ↦ returned (call_func, set_trav xt call_func m)
  | false ↦ trav_of_kind getter (types xt) (set_trav xt dummy_traverser m) >>= λ (f, m1).
      returned (f, set_trav xt f m1)
]

-- A function that is there is returned at once.
abbrev pub or_make : Traverser → Infos → Ended (Traverser × Infos) → Ended (Traverser × Infos)
or_make nil_func m made = made
or_make f m made = returned (f, m)

-- `getTraverserFunc`; `depth` is the fuel of `canReach`.
unfoldable pub get_traverser_func : ℕ → ℕ → Types → Str → Getter
unfolding make_trav can_reach info_at
get_traverser_func zero depth types t m xt = endless
get_traverser_func (suc fuel) depth types t m xt = can_reach depth types t m xt >>= λ (need, m1).
    or_make (info_at xt m1).trav m1
      (make_trav (get_traverser_func fuel depth types t) types t xt need m1)
