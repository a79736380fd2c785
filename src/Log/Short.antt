-- ===== src/Log/Short.antt =====
-- src/gproc/common.go: the name of the file in a line of the log, and the prefix behind it.
use gproc.Common.{
  ℕ, zero, suc, ◌+◌, ◌-◌, ◌≤◌, ◌<◌, true, false, [], ◌∷◌, ◌++◌, ◌≡◌, ◌≢◌, refl, ap, ◌∙◌,
  append_assoc, arith, Str, codes, length, length-append, Lacks,
}
use gproc.Decimal.{itoa_nat}
use gproc.Log.{Logger, byte_at, from, short_from, short_name, log_prologue, log_epilogue, log_info}

byte_at-append : (xs ys : Str) (k : ℕ) → byte_at (length xs + k) (xs ++ ys) ≡ byte_at k ys
byte_at-append [] ys k = let e : 0 + k ≡ k = omega arith in ap (λ n. byte_at n ys) e
byte_at-append (x ∷ xs) ys k =
    let e : length (x ∷ xs) + k ≡ suc (length xs + k) = omega arith in
    ap (λ n. byte_at n (x ∷ (xs ++ ys))) e ∙ byte_at-append xs ys k

from-append : (xs ys : Str) (k : ℕ) → from (length xs + k) (xs ++ ys) ≡ from k ys
from-append [] ys k = let e : 0 + k ≡ k = omega arith in ap (λ n. from n ys) e
from-append (x ∷ xs) ys k =
    let e : length (x ∷ xs) + k ≡ suc (length xs + k) = omega arith in
    ap (λ n. from n (x ∷ (xs ++ ys))) e ∙ from-append xs ys k

byte_at-Lacks : (b k : ℕ) (s : Str) → Lacks b s → k < length s → byte_at k s ≢ b
byte_at-Lacks b k [] h less = absurd (omega arith)
byte_at-Lacks b zero (c ∷ s) (h, hs) less = h
byte_at-Lacks b (suc k) (c ∷ s) (h, hs) less = byte_at-Lacks b k s hs (omega arith)

module _ (d : ℕ) (dir name : Str) (plain : Lacks b'/' name) where
  abbrev path : Str
  path = (d ∷ dir) ++ b'/' ∷ name

  at_path : (k i : ℕ) → i ≡ length (d ∷ dir) + k → byte_at i path ≡ byte_at k (b'/' ∷ name)
  at_path k i e = ap (λ n. byte_at n path) e ∙ byte_at-append (d ∷ dir) (b'/' ∷ name) k

  from_path : (i : ℕ) → i ≡ length (d ∷ dir) + 1 → from i path ≡ name
  from_path i e = ap (λ n. from n path) e ∙ from-append (d ∷ dir) (b'/' ∷ name) 1

  -- The loop comes down to the slash before the name.
  short_down : (k i : ℕ) → i ≡ length dir + k → k ≤ length name → short_from (suc i) path ≡ name
  unfolding short_from
  short_down zero i e h =
      let slash : byte_at (suc i) path ≡ b'/' = at_path 0 (suc i) (omega arith) in
      let rest : from (suc i + 1) path ≡ name = from_path (suc i + 1) (omega arith) in
      ground (arith, slash, rest)
  short_down (suc k) zero e h = absurd (omega arith)
  short_down (suc k) (suc j) e h =
      let here : byte_at (suc (suc j)) path ≡ byte_at k name =
        at_path (suc k) (suc (suc j)) (omega arith) in
      let other : byte_at k name ≢ b'/' = byte_at-Lacks b'/' k name plain (omega arith) in
      let rest : short_from (suc j) path ≡ name = short_down k j (omega arith) (omega arith) in
      ground (arith, here, other, rest)

  short_name-append : short_name path ≡ name
  unfolding short_name
  short_name-append =
      let e : length path ≡ length (d ∷ dir) + length (b'/' ∷ name) =
        length-append (d ∷ dir) (b'/' ∷ name) in
      let last : length path - 1 ≡ suc (length dir + length name) = omega arith in
      ap (λ n. short_from n path) last ∙ short_down (length name) _ refl (omega arith)

  -- With debugging on, one line is written, the text behind the prefix, the file's own name and
  -- the line of the call, and the prefix is then as before; with debugging off nothing changes.
  pub log_info_lem :
      (line : ℕ) (text : Str) (l : Logger)
      → ((log_info true path line text l).lines
          ≡ l.lines
            ++ (l.prefix ++ codes ":" ++ name ++ codes ":" ++ itoa_nat line ++ codes ": " ++ text)
              ∷ [])
        × ((log_info true path line text l).prefix ≡ l.prefix)
        × (log_info false path line text l ≡ l)
  unfolding log_info log_prologue log_epilogue
  log_info_lem line text l =
      let written : (l.prefix
              ++ codes ":"
              ++ short_name path
              ++ codes ":"
              ++ itoa_nat line
              ++ codes ": ")
            ++ text
          ≡ l.prefix ++ codes ":" ++ name ++ codes ":" ++ itoa_nat line ++ codes ": " ++ text =
        simp (append_assoc, short_name-append) in
      (ap (λ t. l.lines ++ t ∷ []) written, refl, refl)
