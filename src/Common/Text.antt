-- ===== src/Common/Text.antt =====
-- Go strings as lists of bytes, with the operations of the `strings` package that the program calls.
use Prim.Native.Nat.{ℕ}
use Prim.Native.Char.{code}
use Prim.Native.String.{String}
use mathlib.Core.Path.{◌≡◌, refl}
use mathlib.Core.Logic.{◌≢◌, ◌↔◌}
use mathlib.Core.Bool.{Bool, true, false, ◌&&◌}
use mathlib.Core.Option.{Option, none, some}
use mathlib.Core.List.{List, [], ◌∷◌, ◌++◌}
use native.Mathlib.Omega.{arith}
use gproc.Common.Tests.{◌==◌, if◌then◌else◌}
use gproc.Common.Lists.{All}

abbrev pub Str : Type 0
Str = List ℕ

-- The code points of a literal; these are its bytes when the text is ASCII.
abbrev pub codes : String → Str
codes String.[] = []
codes (String.◌∷◌ c s) = code c ∷ codes s

-- `s == t` on strings.
abbrev pub str_eq : Str → Str → Bool
str_eq [] [] = true
str_eq [] (d ∷ t) = false
str_eq (c ∷ s) [] = false
str_eq (c ∷ s) (d ∷ t) = (c == d) && str_eq s t

pub str_eq_sound : (s t : Str) → str_eq s t ≡ true → s ≡ t
str_eq_sound [] [] h = refl
str_eq_sound [] (d ∷ t) h = cc
str_eq_sound (c ∷ s) [] h = cc
str_eq_sound (c ∷ s) (d ∷ t) h = ground (arith, str_eq_sound s t)

pub str_eq_self : (s : Str) → str_eq s s ≡ true
str_eq_self [] = refl
str_eq_self (c ∷ s) = ground (arith, str_eq_self s)

pub str_eq_complete : (s t : Str) → s ≡ t → str_eq s t ≡ true
str_eq_complete s t h = rw h (str_eq_self t)

pub str_eq_iff : (s t : Str) → (str_eq s t ≡ true) ↔ (s ≡ t)
str_eq_iff s t = (str_eq_sound s t, str_eq_complete s t)

-- No byte of the string is `b`.
abbrev pub Lacks : ℕ → Str → Type 0
Lacks b = All (λ c. c ≢ b)

abbrev pub cons_head : ℕ → List Str → List Str
cons_head c [] = (c ∷ []) ∷ []
cons_head c (p ∷ ps) = (c ∷ p) ∷ ps

-- `strings.Split(s, sep)`, which is also `strings.SplitN(s, sep, -1)`, for a separator of one byte.
unfoldable pub split : ℕ → Str → List Str
split sep [] = [] ∷ []
split sep (c ∷ s) = let rest = split sep s in if c == sep then [] ∷ rest else cons_head c rest

-- `strings.SplitN(s, sep, 2)`: the part before the first separator, and the rest if there is one.
unfoldable pub split_2 : ℕ → Str → Str × Option Str
split_2 sep [] = ([], none)
split_2 sep (c ∷ s) =
    let (before, rest) = split_2 sep s in if c == sep then ([], some s) else (c ∷ before, rest)

-- Strings put together with a separator between them.
unfoldable pub join : ℕ → List Str → Str
join sep [] = []
join sep (p ∷ []) = p
join sep (p ∷ q ∷ ps) = p ++ sep ∷ join sep (q ∷ ps)

pub str_ne : (s t : Str) → s ≢ t → str_eq s t ≡ false
str_ne s t h = ground (arith, str_eq_iff s t)
