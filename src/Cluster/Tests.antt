-- ===== src/Cluster/Tests.antt =====
-- Runs of the two levels, and the instances of the theorems.
use gproc.Common.{
  ℕ, Bool, List, Str, ◌&&◌, not, join, ◌==◌, true, false, [], ◌∷◌, ◌++◌, some, ◌≡◌, refl, arith,
  codes, if◌then◌else◌,
}
use gproc.Decimal.{itoa_nat}
use gproc.Forth.{opmap}
use gproc.Cluster.{runlevel, parent_command, ssh_args}
use gproc.CommandLine.Flags.{main, main_panics}
use gproc.Cluster.Tree.{has}
use gproc.Cluster.Sites.{
  kane_argv, start_argv, kf_argv, strongbox_argv, kf_runlevel, strongbox_runlevel,
}
use gproc.Cluster.Started.{slave_starts, kane_starts, sites_lem}

-- What a shell makes of a line: words between spaces, where single quotes keep spaces. The first word, and the
-- others.
abbrev shell_words : Bool → Str → Str × List Str
shell_words quoted [] = ([], [])
shell_words quoted (c ∷ s) = elim (c == 39) [
  | true ↦ shell_words (not quoted) s
  | false ↦
      let (w, ws) = shell_words quoted s in
      if (c == b' ') && not quoted then ([], w ∷ ws) else (c ∷ w, ws)
]

abbrev non_empty : List Str → List Str
non_empty [] = []
non_empty ([] ∷ ws) = non_empty ws
non_empty ((c ∷ w) ∷ ws) = (c ∷ w) ∷ non_empty ws

abbrev remote : List Str → List Str
remote (ssh ∷ o ∷ option ∷ host ∷ command) = non_empty ((shell_words false (join b' ' command)).1)
remote args = []

-- The arguments of ssh in startkane.go come to gproc like this.
kane_ssh : (anode : ℕ) → remote (ssh_args true 1 anode) ≡ kane_argv true 1
unfolding ssh_args join itoa_nat
kane_ssh anode = refl

levels_run : (runlevel 18 41 true ≡ 20 ∷ 40 ∷ []) × (runlevel 38 42 false ≡ 38 ∷ 39 ∷ 41 ∷ 42 ∷ [])
unfolding runlevel
levels_run = (refl, refl)

kane_starts_example :
    (m : ℕ) × (has m (runlevel 1 40 true) ≡ true)
    × (main 2 (opmap (some (codes "kn" ++ itoa_nat 7))) (kane_argv true 0)
        ≡ slave_starts parent_command
            (codes "hostname hostbase")
            true
            0
            (itoa_nat 7)
            (codes "kn" ++ itoa_nat 7)
            (if has 7 (runlevel 1 40 true)
              then codes "172.16.255.254"
              else codes "kn" ++ itoa_nat m))
kane_starts_example =
    kane_starts 7 1 40 1 true 0 (omega arith) (omega arith) (omega arith) (omega arith)

sites_lem_example :
    (main 2 (opmap (some (codes "kn7"))) (start_argv true 1) ≡ main_panics)
    × (main 2 (opmap (some (codes "kn7"))) (strongbox_argv 1) ≡ main_panics)
    × (main 2 (opmap (some (codes "kn7"))) (kf_argv (codes "172.16.255.254") true 1)
        ≡ slave_starts
            (codes "172.16.255.254")
            (codes "hostname base  ")
            true
            1
            (codes "base")
            (codes "kn7")
            (codes "172.16.255.254"))
sites_lem_example = sites_lem (codes "kn7") 1 true 1 (omega arith)

levels_of_others : (kf_runlevel 3 5 ≡ 3 ∷ 4 ∷ 5 ∷ []) × (strongbox_runlevel 6 15 true ≡ 7 ∷ 14 ∷ [])
unfolding kf_runlevel strongbox_runlevel
levels_of_others = (refl, refl)
