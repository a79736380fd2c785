-- ===== src/CommandLine/Flags.antt =====
-- src/gproc/main.go: the flags, read by `flag.Parse`, and the start of `main`.
use gproc.Common.{
  ℕ, Bool, ◌||◌, List, [], ◌∷◌, Option, none, some, Str, codes, split_2, ◌==◌, if◌then◌else◌,
}
use gproc.Common.Dict.{Dict, lookup, insert}
use gproc.Forth.Machine.{Stack}
use gproc.Forth.{Op}
use gproc.Dispatch.{Ended, returned, panicked, endless}
use gproc.CommandLine.{NodeFlags, eval_flags, Mode, usage, mode_of, one_of}

pub data FlagKind : Type 0 where
  string_flag : FlagKind
  bool_flag : FlagKind

-- The flags that are defined.
abbrev pub defined_flags : Dict FlagKind
defined_flags =
    (codes "prefix", string_flag)
    ∷ (codes "localbin", bool_flag)
    ∷ (codes "p", bool_flag)
    ∷ (codes "debug", bool_flag)
    ∷ (codes "f", string_flag)
    ∷ (codes "r", string_flag)
    ∷ (codes "L", string_flag)
    ∷ (codes "binRoot", string_flag)
    ∷ (codes "defaultMasterUDS", string_flag)
    ∷ (codes "iopp", string_flag)
    ∷ (codes "cmdport", string_flag)
    ∷ (codes "fam", string_flag)
    ∷ (codes "gprocBin", string_flag)
    ∷ (codes "myParent", string_flag)
    ∷ (codes "myAddress", string_flag)
    ∷ (codes "myId", string_flag)
    ∷ []

-- What `flag.Parse` takes an argument for.
pub data Word : Type 0 where
  not_a_flag : Word
  end_of_flags : Word
  bad_syntax : Word
  flag_word : Str → Option Str → Word

-- The name and the value of a flag without its dashes; an equals sign cannot come first.
abbrev pub named_word : Str → Word
named_word [] = bad_syntax
named_word (c ∷ s) =
    let (before, value) = split_2 b'=' s in
    if c == b'-' || c == b'=' then bad_syntax else flag_word (c ∷ before) value

abbrev pub after_dash : Str → Word
after_dash [] = not_a_flag
after_dash (c ∷ []) = if c == b'-' then end_of_flags else named_word (c ∷ [])
after_dash (c ∷ d ∷ s) = if c == b'-' then named_word (d ∷ s) else named_word (c ∷ d ∷ s)

unfoldable pub word_of : Str → Word
word_of [] = not_a_flag
word_of (c ∷ s) = if c == b'-' then after_dash s else not_a_flag

-- `strconv.ParseBool` accepts the text.
abbrev pub is_bool : Str → Bool
is_bool value = one_of value (
    codes "1"
    ∷ codes "t"
    ∷ codes "T"
    ∷ codes "true"
    ∷ codes "TRUE"
    ∷ codes "True"
    ∷ codes "0"
    ∷ codes "f"
    ∷ codes "F"
    ∷ codes "false"
    ∷ codes "FALSE"
    ∷ codes "False"
    ∷ [])

-- The flags that were set, each with the text of its value.
abbrev pub Settings : Type 0
Settings = Dict Str

-- How `flag.Parse` ends: with the arguments that are left, or in `usage`, which exits with status 2.
pub data Parse : Type 0 where
  read_flags : Settings → List Str → Parse
  exits : Parse

-- How the loop goes on behind a flag: with a flag that waits for its value or none, and the settings.
abbrev pub GoOn : Type 0
GoOn = Option Str → Settings → Parse

abbrev pub take_bool : Str → Option Str → Settings → GoOn → Parse
take_bool name none set go_on = go_on none (insert name (codes "true") set)
take_bool name (some text) set go_on =
    if is_bool text then go_on none (insert name text set) else exits

abbrev pub take_string : Str → Option Str → Settings → GoOn → Parse
take_string name none set go_on = go_on (some name) set
take_string name (some text) set go_on = go_on none (insert name text set)

abbrev pub take_flag : Option FlagKind → Str → Option Str → Settings → GoOn → Parse
take_flag none name value set go_on = exits
take_flag (some bool_flag) name value set go_on = take_bool name value set go_on
take_flag (some string_flag) name value set go_on = take_string name value set go_on

abbrev pub take_word : Word → Str → List Str → Settings → GoOn → Parse
take_word not_a_flag s args set go_on = read_flags set (s ∷ args)
take_word end_of_flags s args set go_on = read_flags set args
take_word bad_syntax s args set go_on = exits
take_word (flag_word name value) s args set go_on =
    take_flag (lookup name defined_flags) name value set go_on

-- The loop of `flag.Parse`; a string flag without a value waits for the next argument.
unfoldable pub parse_from : Option Str → List Str → Settings → Parse
unfolding word_of lookup
parse_from none [] set = read_flags set []
parse_from (some name) [] set = exits
parse_from (some name) (s ∷ args) set = parse_from none args (insert name s set)
parse_from none (s ∷ args) set =
    take_word (word_of s) s args set (λ pending set'. parse_from pending args set')

-- `flag.Parse`
abbrev pub parse_flags : List Str → Settings → Parse
parse_flags = parse_from none

abbrev pub or_default : Option Str → Str → Str
or_default none default = default
or_default (some s) default = s

-- `-myId`, `-myAddress` and `-myParent`, with their defaults.
unfoldable pub node_flags : Settings → NodeFlags
node_flags set = record {
  my_id = or_default (lookup (codes "myId") set) (codes "0");
  my_address = or_default (lookup (codes "myAddress") set) (codes "hostname");
  parent = or_default (lookup (codes "myParent") set) (codes "hostname");
}

-- How `main` goes on: it exits in `usage`, it panics, it does not end, or it starts in a mode.
pub data MainEnd : Type 0 where
  exit_usage : MainEnd
  main_panics : MainEnd
  main_endless : MainEnd
  starts : Mode → NodeFlags → Settings → MainEnd

abbrev pub in_mode : Mode → NodeFlags → Settings → MainEnd
in_mode usage node set = exit_usage
in_mode mode node set = starts mode node set

abbrev pub with_node : Settings → List Str → Ended NodeFlags × Stack → MainEnd
with_node set args (returned node, stack) = in_mode (mode_of args) node set
with_node set args (panicked, stack) = main_panics
with_node set args (endless, stack) = main_endless

-- `main`, on the arguments behind the name of the program; the fuel is that of `Eval`.
unfoldable pub main : ℕ → Dict Op → List Str → MainEnd
unfolding parse_from node_flags eval_flags mode_of
main fuel ops argv = elim (parse_flags argv []) [
  | exits ↦ exit_usage
  | read_flags set args ↦ with_node set args (eval_flags fuel ops (node_flags set))
]
