-- ===== src/Forth/Tests.antt =====
-- Runs of the evaluator, from src/forth/file_test.go, and the instances of the theorems.
use gproc.Common.{
  ℕ, ◌+◌, ◌*◌, ◌/◌, ◌%◌, ◌≤◌, ◌<◌, [], ◌∷◌, ◌++◌, none, some, ◌≡◌, ◌≢◌, refl, arith, Str, codes,
  split, All, ◌==◌, if◌then◌else◌,
}
use gproc.Common.Int.{pos, wrap, quot, rem, ◌+ℤ◌, ◌-ℤ◌, ◌*ℤ◌}
use gproc.Common.Dict.{Dict, lookup, insert, AllValues, AllValues-insert, AllValues-lookup}
use gproc.Decimal.{err_syntax, atoi, itoa, itoa_nat}
use gproc.Forth.Machine.{Stack, ok, empty_stack, num_error, divide_by_zero, type_assertion, ◌>>◌}
use gproc.Forth.Ops.{
  plus, sub, times, div, mod_op, swap, ifelse, hostname, hostbase, strcat, roundup, round_to, dup,
}
use gproc.Forth.{
  Op, go_func, word, nil_func, opmap, new_word, i_eval, eval, Returned, value, failed, crashed,
  no_result,
}
use gproc.Forth.Frame.{FramedOp, opmap-FramedOp, eval-append}
use gproc.Forth.Compose.{i_eval-append}
use gproc.Forth.Fuel.{EndsOp, opmap-EndsOp, Below, Ranked, eval_ends}
use gproc.Forth.Numbers.{roundup_lem, node_id, divide_by_zero_lem}

abbrev ops : Dict Op
ops =
    new_word (codes "d3d") (codes "dup dup + +") (new_word (codes "dd") (codes "dup") (opmap none))

-- `eval` with all that it calls open.
run : Dict Op → Str → Stack → Returned × Stack
unfolding eval new_word insert lookup split atoi itoa wrap quot rem ◌+ℤ◌ ◌-ℤ◌ ◌*ℤ◌ plus sub times
    div mod_op swap ifelse hostname hostbase strcat roundup round_to dup
run = eval 2

arithmetic_runs :
    (run ops (codes "4 2 -") [] ≡ (value (codes "2"), []))
    × (run ops (codes "5 2 %") [] ≡ (value (codes "1"), []))
    × (run ops (codes "4097 8192 roundup") [] ≡ (value (codes "8192"), []))
    × (run ops (codes "2 4 swap /") [] ≡ (value (codes "2"), []))
    × (run ops (codes "0 1 1 ifelse") [] ≡ (value (codes "1"), []))
    × (run ops (codes "0 1 0 ifelse") [] ≡ (value (codes "0"), []))
    × (run ops (codes "str cat strcat") [] ≡ (value (codes "strcat"), []))
unfolding run
arithmetic_runs = (refl, refl, refl, refl, refl, refl, refl)

word_runs :
    (run ops (codes "1 dd +") [] ≡ (value (codes "2"), []))
    × (run ops (codes "1 d3d") [] ≡ (value (codes "3"), []))
    × (run ops (codes "sb43 hostbase dup 20 / swap 20 % dup ifelse") [] ≡ (value (codes "3"), []))
    × (run ops (codes "sb40 hostbase dup 20 / swap 20 % dup ifelse") [] ≡ (value (codes "2"), []))
unfolding run
word_runs = (refl, refl, refl, refl)

-- The stack that an error leaves is not the one before.
error_runs :
    (run ops (codes "") [] ≡ (failed empty_stack, []))
    × (run ops (codes "2 x +") [] ≡ (failed (num_error err_syntax (codes "x")), codes "2" ∷ []))
    × (run ops (codes "1 0 /") [] ≡ (crashed divide_by_zero, []))
    × (run ops (codes "hostname") [] ≡ (crashed type_assertion, []))
    × (run ops (codes "1 2") [] ≡ (value (codes "2"), codes "1" ∷ []))
unfolding run
error_runs = (refl, refl, refl, refl, refl)

dd_run : eval 2 ops (codes "1 dd +") [] ≡ (value (codes "2"), [])
unfolding run
dd_run = refl

ops-FramedOp : AllValues FramedOp ops
unfolding new_word
ops-FramedOp =
    AllValues-insert FramedOp (codes "d3d") _ _ tt
      (AllValues-insert FramedOp (codes "dd") _ _ tt (opmap-FramedOp none))

eval-append_example :
    eval 2 ops (codes "1 dd +") ([] ++ codes "below" ∷ [])
    ≡ (value (codes "2"), [] ++ codes "below" ∷ [])
eval-append_example =
    eval-append ops ops-FramedOp 2 (codes "1 dd +") [] (codes "below" ∷ []) (codes "2") [] dd_run

i_eval-append_example :
    i_eval 2 ops (codes "1" ++ b' ' ∷ codes "dd +")
    ≡ (i_eval 2 ops (codes "1") >> i_eval 2 ops (codes "dd +"))
i_eval-append_example = i_eval-append 1 ops (codes "1") (codes "dd +")

-- A map with one word, which uses no word.
abbrev one_word : Dict Op
one_word = new_word (codes "dd") (codes "dup") (opmap none)

one_word-EndsOp : AllValues EndsOp one_word
unfolding new_word
one_word-EndsOp = AllValues-insert EndsOp (codes "dd") _ _ tt (opmap-EndsOp none)

-- The command of a word of the map uses no word.
abbrev NoWords : Op → Type 0
NoWords (word c) = All (Below one_word (λ _. 0) 0) (split b' ' c)
NoWords (go_func fun) = Unit
NoWords nil_func = Unit

dup-NoWords : NoWords (word (codes "dup"))
unfolding new_word insert lookup split
dup-NoWords = (λ c e. absurd (ground arith), tt)

one_word-NoWords : AllValues NoWords one_word
unfolding new_word
one_word-NoWords = AllValues-insert NoWords (codes "dd") _ (opmap none) dup-NoWords (search tt)

one_word-Ranked : Ranked one_word (λ _. 0)
one_word-Ranked name c e = AllValues-lookup NoWords name (word c) one_word one_word-NoWords e

dd-Below : All (Below one_word (λ _. 0) 1) (split b' ' (codes "1 dd"))
unfolding split
dd-Below = (λ c e. omega arith, (λ c e. omega arith, tt))

eval_ends_example : (eval 2 one_word (codes "1 dd") []).0 ≢ no_result
eval_ends_example =
    eval_ends one_word one_word-EndsOp (λ _. 0) one_word-Ranked 1 (codes "1 dd") [] dd-Below

roundup_lem_example :
    (k : ℕ) × (roundup (itoa_nat 20 ∷ itoa_nat 41 ∷ []) ≡ (ok tt, itoa_nat (k * 20) ∷ []))
    × (41 ≤ k * 20)
    × (k * 20 < 41 + 20)
roundup_lem_example = roundup_lem 20 41 [] (omega arith) (omega arith)

node_id_example :
    eval 2
      (opmap (some (codes "sb" ++ itoa_nat 43)))
      (codes "hostname hostbase dup 20 / swap 20 % dup ifelse")
      []
    ≡ (value (if 43 % 20 == 0 then itoa_nat (43 / 20) else itoa_nat (43 % 20)), [])
node_id_example = node_id (codes "sb") 43 1 [] (refl, (refl, tt)) (omega arith)

divide_by_zero_lem_example :
    ((eval 1 (opmap none) (codes "/") (itoa (pos 0) ∷ itoa (pos 7) ∷ [])).0
      ≡ crashed divide_by_zero)
    × ((eval 1 (opmap none) (codes "%") (itoa (pos 0) ∷ itoa (pos 7) ∷ [])).0
        ≡ crashed divide_by_zero)
    × ((eval 1 (opmap none) (codes "roundup") (itoa (pos 0) ∷ itoa (pos 7) ∷ [])).0
        ≡ crashed divide_by_zero)
divide_by_zero_lem_example = divide_by_zero_lem 0 none (pos 7) [] (omega arith)
