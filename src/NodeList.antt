-- ===== src/NodeList.antt =====
-- src/gproc/common.go: `nodeExecList` and `parseNodeList`, which reads the node specification of a
-- command. `parsed` and `bad_range` hold the list that is returned, `running` says that the fuel of the
-- range loop ran out.
pub mod Syntax
pub mod Correct
pub mod Subnodes
pub mod Tests
use gproc.Common.{
  ℕ, zero, suc, ◌+◌, ◌<◌, Bool, List, [], ◌∷◌, ◌++◌, Option, none, some, Str, codes, split, split_2,
  if◌then◌else◌,
}
use gproc.Common.Int.{ℤ, pos, ◌+ℤ◌, wrap, ltb_ℤ}
use gproc.Decimal.{atoi, itoa}

pub record NodeExecList : Type 0 where
  pub nodes : List Str
  pub subnodes : Str

pub data Parsed : Type 0 where
  parsed : List NodeExecList → Parsed
  bad_range : List NodeExecList → Parsed
  running : Parsed

-- `for i := beg; i <= end; i++ { ne.Nodes = append(ne.Nodes, fmt.Sprintf("%d", i)) }`
unfoldable pub range_nodes : ℕ → ℤ → ℤ → List Str → Option (List Str)
range_nodes zero i end nodes = none
range_nodes (suc fuel) i end nodes =
    let rest = range_nodes fuel (wrap (i +ℤ pos 1)) end (nodes ++ itoa i ∷ []) in
    if ltb_ℤ end i then some nodes else rest

-- What the body of the loop over the comma-separated parts makes of one part.
pub data Part : Type 0 where
  good : NodeExecList → Part
  bad : Part
  unfinished : Part

abbrev pub subnodes_of : Option Str → Str
subnodes_of none = codes ""
subnodes_of (some s) = s

abbrev pub part_of : Str → Option (List Str) → Part
part_of sub none = unfinished
part_of sub (some nodes) = good (record { nodes = nodes; subnodes = sub })

-- `be[0]`, and `be[1]` where it is there. `Nodes` starts as `make([]string, 1)`, and a range appends to
-- it. The errors of `Atoi` are dropped.
unfoldable pub expand : ℕ → Str → Option Str → Str → Part
expand fuel b0 none sub = part_of sub (some (b0 ∷ []))
expand fuel b0 (some b1) sub =
    let beg = (atoi b0).0 in
    let end = (atoi b1).0 in
    let loop = range_nodes fuel beg end ([] ∷ []) in if ltb_ℤ end beg then bad else part_of sub loop

unfoldable pub parse_part : ℕ → Str → Part
unfolding expand
parse_part fuel n =
    let (l0, sub) = split_2 b'/' n in
    let (b0, b1) = split_2 b'-' l0 in expand fuel b0 b1 (subnodes_of sub)

unfoldable pub parse_parts : ℕ → List Str → List NodeExecList → Parsed
parse_parts fuel [] rl = parsed rl
parse_parts fuel (n ∷ ranges) rl = elim (parse_part fuel n) [
  | good ne ↦ parse_parts fuel ranges (rl ++ ne ∷ [])
  | bad ↦ bad_range rl
  | unfinished ↦ running
]

unfoldable pub parse_node_list : ℕ → Str → Parsed
unfolding parse_parts
parse_node_list fuel l = parse_parts fuel (split b',' l) []
