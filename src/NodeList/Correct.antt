-- ===== src/NodeList/Correct.antt =====
-- src/gproc/common.go: `parseNodeList` reads what the specification syntax writes.
use gproc.Common.{
  ℕ, zero, suc, ◌+◌, ◌-◌, ◌<◌, ◌≤◌, ◌^◌, List, [], ◌∷◌, ◌++◌, Option, none, some, ◌≡◌, ◌≢◌, refl,
  ◌∙◌, arith, Str, All, All-append, Lacks, ltb, join, map, split_2, append_assoc, append-nil, true,
  false,
}
use gproc.Common.Int.{ℤ, pos, negsuc, InInt, wrap-InInt, ◌+ℤ◌, wrap, wrap_fits, add-pos, ltb_ℤ}
use gproc.Common.Split.{split-join, split_2-Lacks, split_2-append}
use gproc.Decimal.{atoi, itoa, itoa_nat}
use gproc.Decimal.RoundTrip.{atoi-itoa_nat, itoa_nat-Lacks}
use gproc.NodeList.{
  NodeExecList, parsed, bad_range, running, range_nodes, good, bad, unfinished, subnodes_of, expand,
  parse_part, parse_parts, parse_node_list,
}
use gproc.NodeList.Syntax.{
  Nodeset, node, range, Spec, print_nodeset, print_below, print, numbers, meaning_nodeset, meaning,
  ValidNodeset, ValidBelow, Valid, print_all,
}

-- With a round for each number and one more, the loop appends the numbers up to `end`.
range_nodes_lem :
    (count fuel i end : ℕ) (nodes : List Str)
    → i + count ≡ end + 1
    → end < 2 ^ 63 - 1
    → count < fuel
    → range_nodes fuel (pos i) (pos end) nodes ≡ some (nodes ++ numbers i count)
unfolding range_nodes
range_nodes_lem count zero i end nodes e fits lt = absurd (omega arith)
range_nodes_lem zero (suc fuel) i end nodes e fits lt =
    let past : ltb (end + 0) (i + 0) ≡ true = ground arith in rw past (rw append-nil)
range_nodes_lem (suc count) (suc fuel) i end nodes e fits lt =
    let more : ltb (end + 0) (i + 0) ≡ false = ground arith in
    rw more (
      rw
        (
          add-pos,
          wrap_fits (pos (i + 1)) (omega arith),
          range_nodes_lem count fuel (i + 1) end (nodes ++ itoa (pos i) ∷ []) (omega arith) fits
              (omega arith),
          append_assoc,
        )
        (unfold itoa in refl))

expand_range :
    (fuel a b : ℕ) (sub : Str)
    → a ≤ b
    → b < 2 ^ 63 - 1
    → b + 1 - a < fuel
    → expand fuel (itoa_nat a) (some (itoa_nat b)) sub
      ≡ good (record { nodes = [] ∷ numbers a (b + 1 - a); subnodes = sub })
unfolding expand
expand_range fuel a b sub le fits enough =
    let test : ltb (b + 0) (a + 0) ≡ false = ground arith in
    rw (atoi-itoa_nat a (omega arith), atoi-itoa_nat b (omega arith))
      (rw test (rw (range_nodes_lem (b + 1 - a) fuel a b ([] ∷ []) (omega arith) fits enough)))

range-Lacks : (c a b : ℕ) → c < b'-' → Lacks c (itoa_nat a ++ b'-' ∷ itoa_nat b)
range-Lacks c a b h =
    All-append (λ d. d ≢ c) (itoa_nat a) (b'-' ∷ itoa_nat b) (itoa_nat-Lacks c a (omega arith))
      (omega arith, itoa_nat-Lacks c b (omega arith))

slash-Lacks : (a b : ℕ) → Lacks b'/' (itoa_nat a ++ b'-' ∷ itoa_nat b)
slash-Lacks a b =
    All-append (λ d. d ≢ b'/') (itoa_nat a) (b'-' ∷ itoa_nat b)
      (itoa_nat-Lacks b'/' a (omega arith)) (omega arith, itoa_nat-Lacks b'/' b (omega arith))

print_nodeset-Lacks :
    (fuel : ℕ) (s : Nodeset)
    → ValidNodeset fuel s
    → Lacks b'/' (print_nodeset s) × Lacks b',' (print_nodeset s)
print_nodeset-Lacks fuel (node s) v = (v.1, v.0)
print_nodeset-Lacks fuel (range a b) v = (slash-Lacks a b, range-Lacks b',' a b (omega arith))

split_below : (s : Str) (o : Option Str) → Lacks b'/' s → split_2 b'/' (print_below o s) ≡ (s, o)
split_below s none h = split_2-Lacks b'/' s h
split_below s (some t) h = split_2-append b'/' s t h

below-Lacks :
    (s : Str) (o : Option Str) → Lacks b',' s → ValidBelow o → Lacks b',' (print_below o s)
below-Lacks s none h v = h
below-Lacks s (some t) h v = All-append (λ d. d ≢ b',') s (b'/' ∷ t) h (omega arith, v)

split_range :
    (a b : ℕ) → split_2 b'-' (itoa_nat a ++ b'-' ∷ itoa_nat b) ≡ (itoa_nat a, some (itoa_nat b))
split_range a b =
    split_2-append b'-' (itoa_nat a) (itoa_nat b) (itoa_nat-Lacks b'-' a (omega arith))

expand_nodeset :
    (fuel : ℕ) (ns : Nodeset) (sub : Str)
    → ValidNodeset fuel ns
    → expand fuel (split_2 b'-' (print_nodeset ns)).0 (split_2 b'-' (print_nodeset ns)).1 sub
      ≡ good (record { nodes = meaning_nodeset ns; subnodes = sub })
expand_nodeset fuel (node s) sub v = rw (split_2-Lacks b'-' s v.2) (unfold expand in refl)
expand_nodeset fuel (range a b) sub v = rw (split_range a b) (expand_range fuel a b sub v.0 v.1 v.2)

parse_part-print :
    (fuel : ℕ) (s : Spec) → Valid fuel s → parse_part fuel (print s) ≡ good (meaning s)
parse_part-print fuel s v =
    unfold parse_part in
    rw (split_below (print_nodeset s.nodeset) s.below (print_nodeset-Lacks fuel s.nodeset v.0).0)
      (expand_nodeset fuel s.nodeset (subnodes_of s.below) v.0)

parse_parts-append :
    (fuel : ℕ) (specs : List Spec) (more : List Str) (rl : List NodeExecList)
    → All (Valid fuel) specs
    → parse_parts fuel (map print specs ++ more) rl
      ≡ parse_parts fuel more (rl ++ map meaning specs)
unfolding parse_parts
parse_parts-append fuel [] more rl v = rw append-nil
parse_parts-append fuel (s ∷ specs) more rl (v, vs) =
    rw (parse_part-print fuel s v, parse_parts)
      (rw (parse_parts-append fuel specs more (rl ++ meaning s ∷ []) vs, append_assoc))

print-Lacks :
    (fuel : ℕ) (specs : List Spec) → All (Valid fuel) specs → All (Lacks b',') (map print specs)
print-Lacks fuel [] v = tt
print-Lacks fuel (s ∷ specs) (v, vs) = (
  below-Lacks (print_nodeset s.nodeset) s.below (print_nodeset-Lacks fuel s.nodeset v.0).1 v.1,
  print-Lacks fuel specs vs,
)

print-ne-nil : (specs : List Spec) → specs ≢ [] → map print specs ≢ []
print-ne-nil [] h = absurd (h refl)
print-ne-nil (s ∷ specs) h = ground arith

-- A list of specifications that is not empty and whose ranges go up and end below the largest `int`
-- is read as what it stands for, one entry for each, in order.
pub parse-print :
    (fuel : ℕ) (specs : List Spec)
    → specs ≢ []
    → All (Valid fuel) specs
    → parse_node_list fuel (print_all specs) ≡ parsed (map meaning specs)
unfolding parse_node_list
parse-print fuel specs h v =
    rw (split-join b',' (map print specs) (print-ne-nil specs h) (print-Lacks fuel specs v))
      (rw (← append-nil (map print specs)) (parse_parts-append fuel specs [] [] v))

append-cons-ne-nil : (xs : List Str) (y : Str) (ys : List Str) → xs ++ y ∷ ys ≢ []
append-cons-ne-nil [] y ys = ground arith
append-cons-ne-nil (x ∷ xs) y ys = ground arith

expand_bad :
    (fuel a b : ℕ) (sub : Str)
    → b < a
    → a < 2 ^ 63
    → expand fuel (itoa_nat a) (some (itoa_nat b)) sub ≡ bad
unfolding expand
expand_bad fuel a b sub lt fits =
    let test : ltb (b + 0) (a + 0) ≡ true = ground arith in
    rw (atoi-itoa_nat a fits, atoi-itoa_nat b (omega arith)) (rw test)

parse_part-range :
    (fuel a b : ℕ) (below : Option Str)
    → parse_part fuel (print (record { nodeset = range a b; below = below }))
      ≡ expand fuel (itoa_nat a) (some (itoa_nat b)) (subnodes_of below)
parse_part-range fuel a b below =
    unfold parse_part in rw (split_below _ below (slash-Lacks a b), split_range a b)

-- A range that goes down ends the reading with an error, whatever the parts behind it are, and what was
-- read before it is returned.
pub parse_bad_range :
    (fuel : ℕ) (specs : List Spec) (a b : ℕ) (below : Option Str) (more : List Str)
    → All (Valid fuel) specs
    → b < a
    → a < 2 ^ 63
    → ValidBelow below
    → All (Lacks b',') more
    → parse_node_list fuel (
        join b',' (map print specs ++ print (record { nodeset = range a b; below = below }) ∷ more))
      ≡ bad_range (map meaning specs)
unfolding parse_node_list
parse_bad_range fuel specs a b below more v lt fits vb hm =
    let p = print (record { nodeset = range a b; below = below }) in
    let p-Lacks : Lacks b',' p = below-Lacks _ below (range-Lacks b',' a b (omega arith)) vb in
    rw
      (split-join b',' (map print specs ++ p ∷ more) (append-cons-ne-nil (map print specs) p more) (
        All-append (Lacks b',') (map print specs) (p ∷ more) (print-Lacks fuel specs v)
          (p-Lacks, hm)))
      (rw (parse_parts-append fuel specs (p ∷ more) [] v, parse_parts)
        (rw (
          parse_part-range fuel a b below ∙ expand_bad fuel a b (subnodes_of below) lt fits,
          parse_parts,
        )))

not_past : (i : ℤ) → InInt i → ltb_ℤ (pos (2 ^ 63 - 1)) i ≡ false
not_past (pos n) h = ground arith
not_past (negsuc n) h = ground arith

-- The loop to the largest `int` does not end: its counter wraps around below its bound.
range_nodes_loops :
    (fuel : ℕ) (i : ℤ) (nodes : List Str)
    → InInt i
    → range_nodes fuel i (pos (2 ^ 63 - 1)) nodes ≡ none
unfolding range_nodes
range_nodes_loops zero i nodes h = refl
range_nodes_loops (suc fuel) i nodes h =
    let more : ltb_ℤ (pos (2 ^ 63 - 1)) i ≡ false = not_past i h in
    rw more (range_nodes_loops fuel (wrap (i +ℤ pos 1)) _ (wrap-InInt _))

parse_part-loops :
    (fuel a : ℕ) (e : Str)
    → a < 2 ^ 63
    → Lacks b'/' e
    → (atoi e).0 ≡ pos (2 ^ 63 - 1)
    → parse_part fuel (itoa_nat a ++ b'-' ∷ e) ≡ unfinished
parse_part-loops fuel a e fits le top =
    let text-Lacks : Lacks b'/' (itoa_nat a ++ b'-' ∷ e) =
      All-append (λ d. d ≢ b'/') (itoa_nat a) (b'-' ∷ e) (itoa_nat-Lacks b'/' a (omega arith))
        (omega arith, le) in
    unfold parse_part expand in
    rw
      (
        split_2-Lacks b'/' _ text-Lacks,
        split_2-append b'-' (itoa_nat a) e (itoa_nat-Lacks b'-' a (omega arith)),
        atoi-itoa_nat a fits,
        top,
      )
      (rw (not_past (pos a) fits, range_nodes_loops fuel (pos a) ([] ∷ []) fits))

-- A first range whose end is read as the largest `int`, as the end of every number that is too large
-- is, never ends: no amount of fuel is enough.
pub parse_loops :
    (fuel a : ℕ) (e : Str) (more : List Str)
    → a < 2 ^ 63
    → All (Lacks b',') (e ∷ more)
    → Lacks b'/' e
    → (atoi e).0 ≡ pos (2 ^ 63 - 1)
    → parse_node_list fuel (join b',' ((itoa_nat a ++ b'-' ∷ e) ∷ more)) ≡ running
unfolding parse_node_list
parse_loops fuel a e more fits (lc, lm) le top =
    let part-Lacks : Lacks b',' (itoa_nat a ++ b'-' ∷ e) =
      All-append (λ d. d ≢ b',') (itoa_nat a) (b'-' ∷ e) (itoa_nat-Lacks b',' a (omega arith))
        (omega arith, lc) in
    rw (split-join b',' _ (append-cons-ne-nil [] _ more) (part-Lacks, lm))
      (rw (parse_part-loops fuel a e fits le top, parse_parts))
