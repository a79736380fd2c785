-- ===== src/Cluster/Started.antt =====
-- src/utils/*.go with src/gproc/main.go and src/forth/forth.go: how gproc starts on the nodes.
use gproc.Common.{
  ℕ, zero, suc, ◌+◌, ◌-◌, ◌≤◌, ◌<◌, ◌^◌, Bool, true, false, List, [], ◌∷◌, ◌++◌, some, ◌≡◌, refl,
  ap, ◌∙◌, arith, Str, codes, split, All, if◌then◌else◌,
}
use gproc.Common.Dict.{Dict, lookup, insert}
use gproc.Decimal.{itoa_nat, atoi}
use gproc.Forth.Machine.{Stack, push, pop}
use gproc.Forth.Ops.{hostname, hostbase, mod_op, to_int, in_cutset}
use gproc.Forth.{Op, opmap, i_eval, eval, value}
use gproc.Dispatch.{Ended, returned, panicked}
use gproc.CommandLine.{NodeFlags, eval_flags, run_slave, mode_of}
use gproc.CommandLine.Flags.{
  Settings, MainEnd, main_panics, starts, main, read_flags, parse_flags, with_node, word_of,
  node_flags,
}
use gproc.CommandLine.Argv.{node_end, IsSetting, set_all, parse_flags_lem}
use gproc.Forth.Numbers.{seq-ok, hostname_lem, hostbase_lem, eval-ok}
use gproc.Forth.Frame.{opmap-FramedOp}
use gproc.CommandLine.Modes.{eval_flags_lem}
use gproc.Cluster.Tree.{has, parent_lem}
use gproc.Cluster.{bool_text, parent_command, runlevel}
use gproc.Cluster.Sites.{
  node_argv, kane_argv, start_parent, start_id, start_argv, kf_argv, strongbox_parent, strongbox_id,
  strongbox_argv,
}

-- The settings that a node is started with.
abbrev pub node_set : Str → Str → Bool → ℕ → List (Str × Str)
node_set parent id private_mount debug_level =
    (codes "myParent", parent)
    ∷ (codes "myId", id)
    ∷ (codes "myAddress", codes "hostname")
    ∷ (codes "p", bool_text private_mount)
    ∷ (codes "debug", itoa_nat debug_level)
    ∷ []

bool-IsSetting : (b : Bool) → IsSetting (codes "p", bool_text b)
unfolding lookup
bool-IsSetting true = refl
bool-IsSetting false = refl

debug-IsSetting : (d : ℕ) → d ≤ 1 → IsSetting (codes "debug", itoa_nat d)
unfolding lookup itoa_nat
debug-IsSetting zero h = refl
debug-IsSetting (suc zero) h = refl
debug-IsSetting (suc (suc d)) h = absurd (omega (arith, h))

node_argv_read :
    (parent id : Str) (private_mount : Bool) (d : ℕ)
    → d ≤ 1
    → parse_flags (node_argv parent id private_mount d) []
      ≡ read_flags (set_all (node_set parent id private_mount d) []) (codes "s" ∷ [])
unfolding lookup word_of
node_argv_read parent id private_mount d h =
    parse_flags_lem (node_set parent id private_mount d) (codes "s") [] []
      (refl, (refl, (refl, (bool-IsSetting private_mount, (debug-IsSetting d h, tt))))) refl

named :
    (parent id : Str) (private_mount : Bool) (d : ℕ)
    → node_flags (set_all (node_set parent id private_mount d) [])
      ≡ record { my_id = id; my_address = codes "hostname"; parent = parent }
unfolding node_flags lookup insert
named parent id private_mount d = refl

-- How `main` goes on with the three evaluated flags.
main_node :
    (fuel : ℕ) (ops : Dict Op) (parent id : Str) (private_mount : Bool) (d : ℕ)
    → d ≤ 1
    → main fuel ops (node_argv parent id private_mount d)
      ≡ with_node (set_all (node_set parent id private_mount d) []) (codes "s" ∷ []) (
          eval_flags fuel ops
            (record { my_id = id; my_address = codes "hostname"; parent = parent }))
unfolding main
main_node fuel ops parent id private_mount d h =
    rw (main, node_argv_read parent id private_mount d h)
      (ap
        (λ flags.
          with_node (set_all (node_set parent id private_mount d) []) (codes "s" ∷ [])
            (eval_flags fuel ops flags))
        (named parent id private_mount d))

-- A slave that starts, with these flags.
abbrev pub slave_starts : Str → Str → Bool → ℕ → Str → Str → Str → MainEnd
slave_starts parent id private_mount d my_id my_address my_parent =
    starts run_slave (record { my_id = my_id; my_address = my_address; parent = my_parent })
      (set_all (node_set parent id private_mount d) [])

kane_id :
    (n fuel : ℕ)
    → eval (suc fuel) (opmap (some (codes "kn" ++ itoa_nat n))) (codes "hostname hostbase") []
      ≡ (value (itoa_nat n), [])
unfolding i_eval lookup split
kane_id n fuel =
    let letters : All (λ c. in_cutset c ≡ true) (codes "kn") = ground arith in
    eval-ok (suc fuel) _ _ [] [] _ (
      seq-ok (hostname (some (codes "kn" ++ itoa_nat n))) _ [] _ (hostname_lem _ _)
      ∙ seq-ok hostbase _ _ _ (hostbase_lem (codes "kn") n [] letters))

own_address :
    (h : Str) (fuel : ℕ) → eval (suc fuel) (opmap (some h)) (codes "hostname") [] ≡ (value h, [])
unfolding eval i_eval split push pop hostname lookup
own_address h fuel = refl

-- What startkane.go gives to a node makes it start as a slave: its id is its number, its address the
-- name of the host, and its parent the root for the nodes that the first level starts, and else a node of
-- the first level. The debug level is 0 or 1, and the range goes on for long enough.
pub kane_starts :
    (n low high fuel : ℕ) (private_mount : Bool) (d : ℕ)
    → n < 2 ^ 63 - 20
    → low ≤ n
    → n + 19 ≤ high
    → d ≤ 1
    → (m : ℕ) × (has m (runlevel low high true) ≡ true)
      × (main (suc fuel) (opmap (some (codes "kn" ++ itoa_nat n))) (kane_argv private_mount d)
          ≡ slave_starts parent_command
              (codes "hostname hostbase")
              private_mount
              d
              (itoa_nat n)
              (codes "kn" ++ itoa_nat n)
              (if has n (runlevel low high true)
                then codes "172.16.255.254"
                else codes "kn" ++ itoa_nat m))
unfolding mode_of
kane_starts n low high fuel private_mount d fits hl hh hd =
    let h = codes "kn" ++ itoa_nat n in
    let id = codes "hostname hostbase" in
    let (m, found, first) = parent_lem n low high fuel [] fits hl hh in
    let flags : NodeFlags = record {
      my_id = id;
      my_address = codes "hostname";
      parent = parent_command;
    } in
    let evaluated =
      eval_flags_lem (suc fuel) (opmap (some h)) flags _ _ _ [] [] [] (opmap-FramedOp (some h))
        (kane_id n fuel) (own_address h fuel) found in
    (
      m,
      first,
      main_node (suc fuel) (opmap (some h)) parent_command id private_mount d hd
          ∙ ap
              (with_node (set_all (node_set parent_command id private_mount d) []) (codes "s" ∷ []))
              evaluated,
    )

site_fails :
    (h : Str) (fuel : ℕ) (parent : Str)
    → ((eval_flags
          (suc fuel)
          (opmap (some h))
          (record { my_id = start_id; my_address = codes "hostname"; parent = parent })).0
        ≡ panicked)
      × ((eval_flags
            (suc fuel)
            (opmap (some h))
            (record { my_id = strongbox_id; my_address = codes "hostname"; parent = parent })).0
          ≡ panicked)
unfolding eval_flags eval i_eval lookup split to_int mod_op hostname push pop atoi
site_fails h fuel parent = (refl, refl)

kf_evaluates :
    (h : Str) (fuel : ℕ)
    → (eval_flags (suc fuel) (opmap (some h)) (record {
      my_id = codes "hostname base  ";
      my_address = codes "hostname";
      parent = codes "172.16.255.254";
    })).0
      ≡ returned (record { my_id = codes "base"; my_address = h; parent = codes "172.16.255.254" })
unfolding eval_flags eval i_eval lookup split hostname push pop
kf_evaluates h fuel = refl

panics :
    (set : Settings) (args : List Str) (r : Ended NodeFlags × Stack)
    → r.0 ≡ panicked
    → with_node set args r ≡ main_panics
panics set args r e = ap (λ o. with_node set args (o, r.1)) e

strongbox_panics :
    (h : Str) (fuel d : ℕ)
    → d ≤ 1
    → main (suc fuel) (opmap (some h)) (strongbox_argv d) ≡ main_panics
unfolding main strongbox_argv lookup word_of node_flags insert
strongbox_panics h fuel d hd =
    let words : List (Str × Str) =
      (codes "myParent", strongbox_parent)
      ∷ (codes "myId", strongbox_id)
      ∷ (codes "myAddress", codes "hostname")
      ∷ (codes "debug", itoa_nat d)
      ∷ [] in
    rw
      (
        main,
        parse_flags_lem words (codes "s") [] [] (refl, (refl, (refl, (debug-IsSetting d hd, tt))))
            refl,
      )
      (panics (set_all words []) (codes "s" ∷ []) _ (site_fails h fuel strongbox_parent).1)

-- The commands of the other three clusters use `base`, which is no operator and stands for itself. On every
-- host gproc panics on what start.go and startstrongbox.go give it, and with what startkf.go gives it all
-- slaves have the id "base". The debug level is 0 or 1.
pub sites_lem :
    (h : Str) (fuel : ℕ) (private_mount : Bool) (d : ℕ)
    → d ≤ 1
    → (main (suc fuel) (opmap (some h)) (start_argv private_mount d) ≡ main_panics)
      × (main (suc fuel) (opmap (some h)) (strongbox_argv d) ≡ main_panics)
      × (main (suc fuel) (opmap (some h)) (kf_argv (codes "172.16.255.254") private_mount d)
          ≡ slave_starts
              (codes "172.16.255.254")
              (codes "hostname base  ")
              private_mount
              d
              (codes "base")
              h
              (codes "172.16.255.254"))
unfolding start_argv kf_argv strongbox_argv mode_of
sites_lem h fuel private_mount d hd =
    let ops = opmap (some h) in
    let (start, strongbox) = site_fails h fuel start_parent in
    (
      main_node (suc fuel) ops start_parent start_id private_mount d hd
          ∙ panics (set_all (node_set start_parent start_id private_mount d) []) (codes "s" ∷ [])
              (eval_flags (suc fuel) ops
                (record { my_id = start_id; my_address = codes "hostname"; parent = start_parent }))
              start,
      strongbox_panics h fuel d hd,
      main_node (suc fuel) ops (codes "172.16.255.254") (codes "hostname base  ") private_mount d hd
          ∙ node_end
              (set_all (node_set (codes "172.16.255.254") (codes "hostname base  ") private_mount d)
                [])
              (codes "s" ∷ [])
              (eval_flags (suc fuel) ops (record {
                my_id = codes "hostname base  ";
                my_address = codes "hostname";
                parent = codes "172.16.255.254";
              }))
              _ (kf_evaluates h fuel),
    )
