-- ===== src/Forth/Machine.antt =====
-- src/forth/forth.go: the stack, panics, and the sequencing of operations on the stack.
use gproc.Common.{ℕ, Bool, true, false, List, [], ◌∷◌, Str, length, reverse}
use gproc.Decimal.{NumErr}

-- The `stack` of a `forthstack`, its top first.
abbrev pub Stack : Type 0
Stack = List Str

-- The values of type `error` that the package panics with.
pub data GoError : Type 0 where
  empty_stack : GoError
  num_error : NumErr → Str → GoError

-- The errors that the Go runtime raises here.
pub data RuntimeError : Type 0 where
  divide_by_zero type_assertion : RuntimeError

-- The argument of `panic`.
pub data Panic : Type 0 where
  error_value : GoError → Panic
  runtime_error : RuntimeError → Panic
  string_value : Str → Panic

pub data Outcome {ℓ} (A : Type ℓ) : Type ℓ where
  ok : A → Outcome A
  panic : Panic → Outcome A
  running : Outcome A

abbrev pub Exec : Type 0 → Type 0
Exec A = Stack → Outcome A × Stack

abbrev pub pure : {A : Type 0} → A → Exec A
pure a s = (ok a, s)

abbrev pub raise : {A : Type 0} → Panic → Exec A
raise p s = (panic p, s)

abbrev pub out_of_fuel : {A : Type 0} → Exec A
out_of_fuel s = (running, s)

abbrev pub continue : {A B : Type 0} → Outcome A → (A → Exec B) → Exec B
continue (ok a) f s = f a s
continue (panic p) f s = (panic p, s)
continue running f s = (running, s)

infixl 5 ◌>>=◌ ◌>>◌
abbrev pub ◌>>=◌ : {A B : Type 0} → Exec A → (A → Exec B) → Exec B
◌>>=◌ m f s = let (r, s') = m s in continue r f s'

abbrev pub ◌>>◌ : {B : Type 0} → Exec (Unit {0}) → Exec B → Exec B
m >> k = m >>= λ _. k

-- `Push`
unfoldable pub push : Str → Exec (Unit {0})
push x s = (ok tt, x ∷ s)

-- `Pop`
unfoldable pub pop : Exec Str
pop [] = (panic (error_value empty_stack), [])
pop (x ∷ s) = (ok x, s)

-- `Reset`
unfoldable pub reset : Exec (Unit {0})
reset s = (ok tt, [])

-- `Length`
unfoldable pub stack_length : Stack → ℕ
stack_length s = length s

-- `Empty`
unfoldable pub is_empty : Stack → Bool
is_empty [] = true
is_empty (x ∷ s) = false

-- `Stack`: the slice, whose last element is the top.
unfoldable pub stack_slice : Stack → List Str
stack_slice s = reverse s
