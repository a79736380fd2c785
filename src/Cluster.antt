-- ===== src/Cluster.antt =====
-- src/utils/startkane.go: the program that starts the slaves of one cluster over ssh, in two levels. The
-- node numbers are not negative.
pub mod Tree
pub mod Sites
pub mod Started
pub mod Tests
use gproc.Common.{
  ℕ, zero, suc, ◌+◌, ◌-◌, ◌%◌, Bool, true, false, not, List, [], ◌∷◌, ◌++◌, Str, codes, ◌==◌,
  if◌then◌else◌,
}
use gproc.Decimal.{itoa_nat}

-- `BLOCKSIZE`
abbrev pub block_size : ℕ
block_size = 20

abbrev pub bool_eq : Bool → Bool → Bool
bool_eq true b = b
bool_eq false b = not b

-- The loop of `runlevel` from `i` on, for so many rounds: the nodes that are started.
unfoldable pub level_from : ℕ → ℕ → Bool → List ℕ
level_from zero i mod_level = []
level_from (suc rounds) i mod_level =
    let rest = level_from rounds (i + 1) mod_level in
    if bool_eq (i % block_size == 0) mod_level then i ∷ rest else rest

-- `runlevel`
unfoldable pub runlevel : ℕ → ℕ → Bool → List ℕ
unfolding level_from
runlevel low_node high_node mod_level = level_from (high_node + 1 - low_node) low_node mod_level

-- The commands by which a node finds its parent, its id and its address.
abbrev pub parent_command : Str
parent_command =
    codes "172.16.255.254 kn hostname hostbase 20 roundup strcat hostname hostbase 20 % ifelse"

abbrev pub bool_text : Bool → Str
bool_text true = codes "true"
bool_text false = codes "false"

-- The arguments of ssh for a node.
unfoldable pub ssh_args : Bool → ℕ → ℕ → List Str
ssh_args private_mount debug_level anode =
    codes "ssh"
    ∷ codes "-o"
    ∷ codes "StrictHostKeyCHecking=no"
    ∷ (codes "root@kn" ++ itoa_nat anode)
    ∷ codes "./gproc"
    ∷ (codes "-myParent='" ++ parent_command ++ codes "'")
    ∷ codes "-myId='hostname hostbase'"
    ∷ codes "-myAddress='hostname'"
    ∷ (codes "-p=" ++ bool_text private_mount ++ codes " ")
    ∷ (codes "-debug=" ++ itoa_nat debug_level)
    ∷ codes "s"
    ∷ []
