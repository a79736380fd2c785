-- ===== src/Cluster/Sites.antt =====
-- src/utils/start.go, startkf.go, startstrongbox.go: the programs that start the slaves of three other
-- clusters. Their loops are that of startkane.go with another test or none, and their commands differ.
use gproc.Common.{
  ℕ, zero, suc, ◌+◌, ◌-◌, ◌%◌, Bool, List, [], ◌∷◌, ◌++◌, Str, codes, ◌==◌, if◌then◌else◌,
}
use gproc.Decimal.{itoa_nat}
use gproc.Cluster.{bool_eq, bool_text, parent_command}

-- `runlevel` of startkf.go: every node.
unfoldable pub kf_level_from : ℕ → ℕ → List ℕ
kf_level_from zero i = []
kf_level_from (suc rounds) i = i ∷ kf_level_from rounds (i + 1)

unfoldable pub kf_runlevel : ℕ → ℕ → List ℕ
unfolding kf_level_from
kf_runlevel low_node high_node = kf_level_from (high_node + 1 - low_node) low_node

-- `runlevel` of startstrongbox.go: by multiples of 7.
unfoldable pub sevens_from : ℕ → ℕ → Bool → List ℕ
sevens_from zero i mod7 = []
sevens_from (suc rounds) i mod7 =
    let rest = sevens_from rounds (i + 1) mod7 in
    if bool_eq (i % 7 == 0) mod7 then i ∷ rest else rest

unfoldable pub strongbox_runlevel : ℕ → ℕ → Bool → List ℕ
unfolding sevens_from
strongbox_runlevel low_node high_node mod7 = sevens_from (high_node + 1 - low_node) low_node mod7

-- The arguments of gproc on a node, once the remote shell has taken off the quotes, as all four programs give
-- them.
abbrev pub node_argv : Str → Str → Bool → ℕ → List Str
node_argv parent id private_mount debug_level =
    (codes "-myParent=" ++ parent)
    ∷ (codes "-myId=" ++ id)
    ∷ codes "-myAddress=hostname"
    ∷ (codes "-p=" ++ bool_text private_mount)
    ∷ (codes "-debug=" ++ itoa_nat debug_level)
    ∷ codes "s"
    ∷ []

-- startkane.go
abbrev pub kane_argv : Bool → ℕ → List Str
kane_argv = node_argv parent_command (codes "hostname hostbase")

abbrev pub start_parent : Str
start_parent = codes "hostname base 20 roundup kn strcat 10.1.234.234 hostname base 20 % ifelse"

abbrev pub start_id : Str
start_id = codes "hostname base 20 % 1  + hostname base 20 / hostname base    %  ifelse"

-- start.go
unfoldable pub start_argv : Bool → ℕ → List Str
start_argv private_mount debug_level = node_argv start_parent start_id private_mount debug_level

-- startkf.go, with the address of the parent.
unfoldable pub kf_argv : Str → Bool → ℕ → List Str
kf_argv parent private_mount debug_level =
    node_argv parent (codes "hostname base  ") private_mount debug_level

abbrev pub strongbox_parent : Str
strongbox_parent = codes "hostname base 7 roundup sb strcat 10.0.0.253 hostname base 7 % ifelse"

abbrev pub strongbox_id : Str
strongbox_id = codes "hostname base 7 % 1  + hostname base 7 / hostname base   7 %  ifelse"

-- startstrongbox.go
unfoldable pub strongbox_argv : ℕ → List Str
strongbox_argv debug_level =
    (codes "-myParent=" ++ strongbox_parent)
    ∷ (codes "-myId=" ++ strongbox_id)
    ∷ codes "-myAddress=hostname"
    ∷ (codes "-debug=" ++ itoa_nat debug_level)
    ∷ codes "s"
    ∷ []
