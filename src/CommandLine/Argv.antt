-- ===== src/CommandLine/Argv.antt =====
-- src/gproc/main.go: the flags end at the first argument that is none, and what stands behind it is left as
-- it is.
use gproc.Common.{
  ℕ, Bool, true, false, not, ◌&&◌, List, [], ◌∷◌, ◌++◌, map, ◌≡◌, refl, ap, ◌∙◌, Option, none, some,
  inl, inr, arith, Str, codes, str_eq, str_eq_iff, All, Lacks, Bool-cases, ◌==◌,
}
use gproc.Common.Split.{split_2-append}
use gproc.Common.Dict.{Dict, lookup, insert}
use mathlib.Core.Path.{subst}
use gproc.Forth.{Op}
use gproc.Dispatch.{Ended, returned, panicked, endless}
use gproc.Forth.Machine.{Stack}
use gproc.CommandLine.{NodeFlags, eval_flags, start_execution, mode_of}
use gproc.CommandLine.Flags.{
  FlagKind, string_flag, bool_flag, defined_flags, not_a_flag, flag_word, word_of, is_bool,
  Settings, read_flags, parse_from, parse_flags, node_flags, starts, with_node, in_mode, main, GoOn,
  take_word, take_flag,
}

-- The text of a flag with its value.
abbrev pub flag_text : Str × Str → Str
flag_text (name, value) = b'-' ∷ name ++ b'=' ∷ value

abbrev fits : Option FlagKind → Str → Bool
fits none value = false
fits (some string_flag) value = true
fits (some bool_flag) value = is_bool value

-- The flag is defined, and the value is one for it.
abbrev pub IsSetting : Str × Str → Type 0
IsSetting (name, value) = fits (lookup name defined_flags) value ≡ true

abbrev lacks : ℕ → Str → Bool
lacks b [] = true
lacks b (c ∷ s) = not (c == b) && lacks b s

lacks-Lacks : (b : ℕ) (s : Str) → lacks b s ≡ true → Lacks b s
lacks-Lacks b [] h = tt
lacks-Lacks b (c ∷ s) h = ground (arith, h, lacks-Lacks b s)

-- A name of a flag holds no equals sign and begins with no dash.
abbrev plain_name : Str → Bool
plain_name [] = false
plain_name (c ∷ s) = not (c == b'-') && (not (c == b'=') && lacks b'=' s)

abbrev all_plain : Dict FlagKind → Bool
all_plain [] = true
all_plain ((name, kind) ∷ defined) = plain_name name && all_plain defined

plain_if_defined :
    (defined : Dict FlagKind) (name : Str) (value : Str)
    → all_plain defined ≡ true
    → fits (lookup name defined) value ≡ true
    → plain_name name ≡ true
unfolding lookup
plain_if_defined [] name value h f = absurd (ground (arith, f))
plain_if_defined ((n, kind) ∷ defined) name value h f = elim (Bool-cases (str_eq n name)) [
  | inl same ↦ subst (λ s. plain_name s ≡ true) ((str_eq_iff n name).0 same) (ground (arith, h))
  | inr other ↦ plain_if_defined defined name value (ground (arith, h)) (rw other at f)
]

word_of-flag_text :
    (name value : Str)
    → plain_name name ≡ true
    → word_of (flag_text (name, value)) ≡ flag_word name (some value)
unfolding word_of
word_of-flag_text [] value h = absurd (ground (arith, h))
word_of-flag_text (c ∷ []) value h =
    let (dash, equals) : ((c == b'-') ≡ false) × ((c == b'=') ≡ false) = ground (arith, h) in
    rw (dash, equals, split_2-append b'=' [] value tt) refl
word_of-flag_text (c ∷ d ∷ s) value h =
    let (dash, equals) : ((c == b'-') ≡ false) × ((c == b'=') ≡ false) = ground (arith, h) in
    let no_equals = lacks-Lacks b'=' (d ∷ s) (ground (arith, h)) in
    rw (dash, equals, split_2-append b'=' (d ∷ s) value no_equals) refl

-- The settings, one after the other.
abbrev pub set_all : List (Str × Str) → Settings → Settings
set_all [] set = set
set_all ((name, value) ∷ words) set = set_all words (insert name value set)

parse_setting :
    (name value : Str) (args : List Str) (set : Settings)
    → IsSetting (name, value)
    → parse_flags (flag_text (name, value) ∷ args) set ≡ parse_flags args (insert name value set)
unfolding parse_from
parse_setting name value args set h =
    let word = word_of-flag_text name value (plain_if_defined defined_flags name value refl h) in
    let go_on : GoOn = λ pending set'. parse_from pending args set' in
    ap (λ w. take_word w (flag_text (name, value)) args set go_on) word
    ∙ take_fitting (lookup name defined_flags) h
  where
    take_fitting :
        (o : Option FlagKind)
        → fits o value ≡ true
        → take_flag o name (some value) set (λ pending set'. parse_from pending args set')
          ≡ parse_from none args (insert name value set)
    take_fitting none f = absurd (ground (arith, f))
    take_fitting (some string_flag) f = refl
    take_fitting (some bool_flag) f = rw f refl

-- The flags are read up to an argument that is none; it and what follows it is left as it is.
pub parse_flags_lem :
    (words : List (Str × Str)) (arg : Str) (rest : List Str) (set : Settings)
    → All IsSetting words
    → word_of arg ≡ not_a_flag
    → parse_flags (map flag_text words ++ arg ∷ rest) set
      ≡ read_flags (set_all words set) (arg ∷ rest)
unfolding parse_from
parse_flags_lem [] arg rest set h stops = rw (parse_from, stops) refl
parse_flags_lem ((name, value) ∷ words) arg rest set (h, hs) stops =
    parse_setting name value (map flag_text words ++ arg ∷ rest) set h
    ∙ parse_flags_lem words arg rest (insert name value set) hs stops

pub node_end :
    (set : Settings) (args : List Str) (r : Ended NodeFlags × Stack) (node : NodeFlags)
    → r.0 ≡ returned node
    → with_node set args r ≡ in_mode (mode_of args) node set
node_end set args (returned n, stack) node e = ap (λ o. with_node set args (o, stack)) e
node_end set args (panicked, stack) node e = absurd (ground (arith, e))
node_end set args (endless, stack) node e = absurd (ground (arith, e))

-- With settings of flags that are defined in front, the nodes and the words of a command reach
-- `startExecution` as they were given, whatever they look like, and the three flags that name a node are
-- evaluated with these settings.
pub main_exec :
    (fuel : ℕ) (ops : Dict Op) (words : List (Str × Str)) (slave_nodes arg : Str) (cmd : List Str)
    (node : NodeFlags)
    → All IsSetting words
    → (eval_flags fuel ops (node_flags (set_all words []))).0 ≡ returned node
    → main fuel ops (map flag_text words ++ codes "e" ∷ slave_nodes ∷ arg ∷ cmd)
      ≡ starts (start_execution slave_nodes (arg ∷ cmd)) node (set_all words [])
unfolding main word_of mode_of
main_exec fuel ops words slave_nodes arg cmd node h evaluated =
    rw (main, parse_flags_lem words (codes "e") (slave_nodes ∷ arg ∷ cmd) [] h refl)
      (node_end (set_all words []) (codes "e" ∷ slave_nodes ∷ arg ∷ cmd) _ node evaluated)
