-- ===== src/Typeapply/Post.antt =====
-- Results that are there: a postcondition that a result which ends with a value meets.
use gproc.Common.{◌≡◌, refl}
use gproc.Dispatch.{Ended, returned}
use gproc.Typeapply.{◌>>=◌}

pub data Post {A : Type 0} (P : A → Type 0) : Ended A → Type 0 where
  returns : {a : A} → P a → Post P (returned a)

module _ {A : Type 0} {P : A → Type 0} where
  infixl 5 ◌⟫◌
  pub ◌⟫◌ :
      {B : Type 0} {Q : B → Type 0} {r : Ended A} {f : A → Ended B}
      → Post P r
      → ((a : A) → P a → Post Q (f a))
      → Post Q (r >>= f)
  returns {a} h ⟫ k = k a h

  pub weaken : {Q : A → Type 0} {r : Ended A} → ((a : A) → P a → Q a) → Post P r → Post Q r
  weaken g (returns h) = returns (g _ h)

-- The value that such a result ends with.
pub value_of :
    {A : Type 0} {P : A → Type 0} {r : Ended A} → Post P r → (a : A) × (r ≡ returned a) × P a
value_of (returns {a} h) = (a, refl, h)
