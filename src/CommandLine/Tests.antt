-- ===== src/CommandLine/Tests.antt =====
-- Runs of the command line, and the instances of its theorems.
use gproc.Common.{List, map, All, [], ◌∷◌, ◌++◌, some, ◌≡◌, refl, Str, codes, split}
use gproc.Common.Dict.{Dict, lookup, insert}
use gproc.Forth.Machine.{push, pop}
use gproc.Forth.Ops.{dup, hostname}
use gproc.Forth.{Op, opmap, value, eval, i_eval}
use gproc.Dispatch.{returned}
use gproc.CommandLine.{NodeFlags, eval_flags, start_master, start_execution, usage, mode_of}
use gproc.CommandLine.Flags.{main, node_flags, starts}
use gproc.CommandLine.Argv.{IsSetting, flag_text, set_all, main_exec}

abbrev flags : NodeFlags
flags = record { my_id = codes "7 dup"; my_address = codes "hostname"; parent = codes "10.0.0.1" }

abbrev ops : Dict Op
ops = opmap (some (codes "kn7"))

id_run : eval 2 ops (codes "7 dup") [] ≡ (value (codes "7"), codes "7" ∷ [])
unfolding eval i_eval split push pop dup lookup
id_run = refl

address_run : eval 2 ops (codes "hostname") [] ≡ (value (codes "kn7"), [])
unfolding eval i_eval split push pop hostname lookup
address_run = refl

parent_run : eval 2 ops (codes "10.0.0.1") [] ≡ (value (codes "10.0.0.1"), [])
unfolding eval i_eval split push pop lookup
parent_run = refl

modes_run :
    (mode_of (codes "m" ∷ []) ≡ start_master)
    × (mode_of (codes "m" ∷ codes "x" ∷ []) ≡ usage)
    × (mode_of (codes "e" ∷ codes "1" ∷ []) ≡ usage)
unfolding mode_of
modes_run = (refl, refl, refl)

exec_run :
    mode_of (codes "e" ∷ codes "1-3" ∷ codes "date" ∷ [])
    ≡ start_execution (codes "1-3") (codes "date" ∷ [])
unfolding mode_of
exec_run = refl

-- gproc -localbin=true -f=/etc/hosts e 1-3 date -u
abbrev words : List (Str × Str)
words = (codes "localbin", codes "true") ∷ (codes "f", codes "/etc/hosts") ∷ []

default_flags :
    (eval_flags 2 ops (node_flags (set_all words []))).0
    ≡ returned (record { my_id = codes "0"; my_address = codes "kn7"; parent = codes "kn7" })
unfolding eval_flags eval i_eval split push pop hostname lookup insert node_flags
default_flags = refl

set_words : All IsSetting words
unfolding lookup
set_words = (refl, (refl, tt))

main_exec_example :
    main 2 ops (map flag_text words ++ codes "e" ∷ codes "1-3" ∷ codes "date" ∷ codes "-u" ∷ [])
    ≡ starts
        (start_execution (codes "1-3") (codes "date" ∷ codes "-u" ∷ []))
        (record { my_id = codes "0"; my_address = codes "kn7"; parent = codes "kn7" })
        (set_all words [])
main_exec_example =
    main_exec 2 ops words (codes "1-3") (codes "date") (codes "-u" ∷ [])
      (record { my_id = codes "0"; my_address = codes "kn7"; parent = codes "kn7" }) set_words
      default_flags
