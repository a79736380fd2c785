-- ===== src/Forth/Ops.antt =====
-- src/forth/forth.go: the operators.
use gproc.Common.{
  ℕ, Bool, ◌||◌, ◌&&◌, [], ◌∷◌, ◌++◌, Option, none, some, Str, codes, leb, ◌==◌, if◌then◌else◌,
}
use gproc.Common.Int.{ℤ, pos, eq_ℤ, ◌+ℤ◌, ◌-ℤ◌, ◌*ℤ◌, wrap, quot, rem}
use gproc.Decimal.{NumErr, atoi, itoa}
use gproc.Forth.Machine.{
  Exec, pure, raise, push, pop, num_error, error_value, runtime_error, string_value, divide_by_zero,
  ◌>>=◌, ◌>>◌,
}

-- The test of `toInt` on the two results of `Atoi`.
unfoldable pub int_or_panic : Str → ℤ → Option NumErr → Exec ℤ
int_or_panic s i none = pure i
int_or_panic s i (some e) = raise (error_value (num_error e s))

-- `toInt`
unfoldable pub to_int : Exec ℤ
unfolding int_or_panic pop
to_int = do s ← pop; int_or_panic s (atoi s).0 (atoi s).1

-- The runtime's check of a divisor.
unfoldable pub divisor : ℤ → ℤ → Exec ℤ
divisor x z = if eq_ℤ x (pos 0) then raise (runtime_error divide_by_zero) else pure z

unfoldable pub plus : Exec (Unit {0})
unfolding to_int push
plus = do x ← to_int; y ← to_int; push (itoa (wrap (x +ℤ y)))

unfoldable pub times : Exec (Unit {0})
unfolding to_int push
times = do x ← to_int; y ← to_int; push (itoa (wrap (x *ℤ y)))

unfoldable pub sub : Exec (Unit {0})
unfolding to_int push
sub = do x ← to_int; y ← to_int; push (itoa (wrap (y -ℤ x)))

unfoldable pub div : Exec (Unit {0})
unfolding to_int push divisor
div = do x ← to_int; y ← to_int; z ← divisor x (quot y x); push (itoa z)

-- `mod`
unfoldable pub mod_op : Exec (Unit {0})
unfolding to_int push divisor
mod_op = do x ← to_int; y ← to_int; z ← divisor x (rem y x); push (itoa z)

-- `((v + rnd - 1) / rnd) * rnd`, each step stored in an `int`.
unfoldable pub round_to : ℤ → ℤ → ℤ
round_to v rnd = wrap (quot (wrap (wrap (v +ℤ rnd) -ℤ pos 1)) rnd *ℤ rnd)

unfoldable pub roundup : Exec (Unit {0})
unfolding to_int push divisor
roundup = do rnd ← to_int; v ← to_int; v' ← divisor rnd (round_to v rnd); push (itoa v')

unfoldable pub swap : Exec (Unit {0})
unfolding push pop
swap = do x ← pop; y ← pop; push x; push y

unfoldable pub strcat : Exec (Unit {0})
unfolding push pop
strcat = do x ← pop; y ← pop; push (y ++ x)

unfoldable pub dup : Exec (Unit {0})
unfolding push pop
dup = do x ← pop; push x; push x

unfoldable pub ifelse : Exec (Unit {0})
unfolding to_int push pop
ifelse = do x ← to_int; y ← pop; z ← pop; if eq_ℤ x (pos 0) then push z else push y

-- `hostname`, for what `os.Hostname` returns.
unfoldable pub hostname : Option Str → Exec (Unit {0})
unfolding push
hostname none = raise (string_value (codes "No hostname"))
hostname (some h) = push h

-- The bytes of "abcdefghijklmnopqrstuvwxyz -".
abbrev pub in_cutset : ℕ → Bool
in_cutset c = (leb b'a' c && leb c b'z') || (c == b' ') || (c == b'-')

-- `strings.TrimLeft(host, "abcdefghijklmnopqrstuvwxyz -")`
unfoldable pub trim_left : Str → Str
trim_left [] = []
trim_left (c ∷ s) = let rest = trim_left s in if in_cutset c then rest else c ∷ s

unfoldable pub hostbase : Exec (Unit {0})
unfolding push pop trim_left
hostbase = do host ← pop; push (trim_left host)
