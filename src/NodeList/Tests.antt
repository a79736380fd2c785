-- ===== src/NodeList/Tests.antt =====
-- Runs of `parseNodeList`, and the instances of its theorems.
use gproc.Common.{
  ℕ, ◌-◌, ◌^◌, List, [], ◌∷◌, ◌++◌, none, some, ◌≡◌, refl, arith, Str, codes, split, split_2, join,
  map,
}
use gproc.Common.Int.{pos, wrap, ◌+ℤ◌}
use gproc.Decimal.{atoi, itoa, itoa_nat}
use gproc.NodeList.{
  NodeExecList, Parsed, parsed, bad_range, running, range_nodes, parse_part, parse_node_list,
}
use gproc.NodeList.Syntax.{Spec, node, range, print_all, meaning}
use gproc.NodeList.Correct.{parse-print, parse_loops}

-- `parse_node_list` with all that it calls open.
run : ℕ → Str → Parsed
unfolding parse_node_list parse_part range_nodes split split_2 atoi itoa wrap ◌+ℤ◌
run = parse_node_list

abbrev entry : List Str → Str → NodeExecList
entry nodes subnodes = record { nodes = nodes; subnodes = subnodes }

parse_runs :
    (run 9 (codes "1-2,3/1-3")
      ≡ parsed
          (entry ([] ∷ codes "1" ∷ codes "2" ∷ []) [] ∷ entry (codes "3" ∷ []) (codes "1-3") ∷ []))
    × (run 9 (codes "./.") ≡ parsed (entry (codes "." ∷ []) (codes ".") ∷ []))
    × (run 9 (codes "1,5-3,7") ≡ bad_range (entry (codes "1" ∷ []) [] ∷ []))
    × (run 9 (codes "a-b") ≡ parsed (entry ([] ∷ codes "0" ∷ []) [] ∷ []))
unfolding run
parse_runs = (refl, refl, refl, refl)

abbrev specs : List Spec
specs =
    record { nodeset = range 1 3; below = some (codes "4-5/.") }
    ∷ record { nodeset = node (codes "."); below = none }
    ∷ []

parse-print_example : parse_node_list 9 (print_all specs) ≡ parsed (map meaning specs)
parse-print_example = parse-print 9 specs (ground arith) (omega arith)

too_large : (atoi (codes "99999999999999999999")).0 ≡ pos (2 ^ 63 - 1)
unfolding atoi
too_large = refl

parse_loops_example :
    parse_node_list 7
      (join b',' ((itoa_nat 1 ++ b'-' ∷ codes "99999999999999999999") ∷ codes "2" ∷ []))
    ≡ running
parse_loops_example =
    parse_loops 7 1 (codes "99999999999999999999") (codes "2" ∷ []) (omega arith) (omega arith)
      (omega arith) too_large

two_entries :
    parse_node_list 9 (codes "1,3/1-3")
    ≡ parsed ((entry (codes "1" ∷ []) [] ∷ []) ++ entry (codes "3" ∷ []) (codes "1-3") ∷ [])
unfolding run
two_entries = refl

below_entry :
    parse_node_list 9 (codes "1-3")
    ≡ parsed (entry ([] ∷ codes "1" ∷ codes "2" ∷ codes "3" ∷ []) [] ∷ [])
unfolding run
below_entry = refl
