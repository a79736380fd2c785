-- ===== src/NodeList/Syntax.antt =====
-- The node specification of the README as a syntax tree, how it is written, and what it stands for in
-- src/gproc/common.go.
use gproc.Common.{
  ℕ, zero, suc, ◌+◌, ◌-◌, ◌<◌, ◌≤◌, ◌^◌, List, [], ◌∷◌, ◌++◌, Option, none, some, Str, Lacks, join,
  map,
}
use gproc.Decimal.{itoa_nat}
use gproc.NodeList.{NodeExecList, subnodes_of}

-- `<nodeset>`: one node by its name, `.` among them, or the nodes from `a` to `b`.
pub data Nodeset : Type 0 where
  node : Str → Nodeset
  range : ℕ → ℕ → Nodeset

-- A nodeset, and behind a slash what its nodes pass on to the nodes below them.
pub record Spec : Type 0 where
  pub nodeset : Nodeset
  pub below : Option Str

abbrev pub print_nodeset : Nodeset → Str
print_nodeset (node s) = s
print_nodeset (range a b) = itoa_nat a ++ b'-' ∷ itoa_nat b

abbrev pub print_below : Option Str → Str → Str
print_below none s = s
print_below (some t) s = s ++ b'/' ∷ t

abbrev pub print : Spec → Str
print s = print_below s.below (print_nodeset s.nodeset)

-- `count` numbers from `a` on.
abbrev pub numbers : ℕ → ℕ → List Str
numbers a zero = []
numbers a (suc count) = itoa_nat a ∷ numbers (a + 1) count

-- A range keeps the empty string that `Nodes` is made with before its numbers.
abbrev pub meaning_nodeset : Nodeset → List Str
meaning_nodeset (node s) = s ∷ []
meaning_nodeset (range a b) = [] ∷ numbers a (b + 1 - a)

abbrev pub meaning : Spec → NodeExecList
meaning s = record { nodes = meaning_nodeset s.nodeset; subnodes = subnodes_of s.below }

-- The fuel that the range loop needs is below `fuel`.
abbrev pub ValidNodeset : ℕ → Nodeset → Type 0
ValidNodeset fuel (node s) = Lacks b',' s × Lacks b'/' s × Lacks b'-' s
ValidNodeset fuel (range a b) = (a ≤ b) × (b < 2 ^ 63 - 1) × (b + 1 - a < fuel)

abbrev pub ValidBelow : Option Str → Type 0
ValidBelow none = Unit
ValidBelow (some t) = Lacks b',' t

abbrev pub Valid : ℕ → Spec → Type 0
Valid fuel s = ValidNodeset fuel s.nodeset × ValidBelow s.below

abbrev pub print_all : List Spec → Str
print_all specs = join b',' (map print specs)
