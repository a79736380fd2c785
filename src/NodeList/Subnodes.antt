-- ===== src/NodeList/Subnodes.antt =====
-- src/gproc/common.go and src/gproc/slave.go: a slave looks only at the first entry of the list that it
-- parses, and there is no other.
use gproc.Common.{
  ℕ, zero, suc, List, [], ◌∷◌, ◌++◌, Option, none, some, ◌≡◌, ◌≢◌, refl, sym, ap, ◌∙◌, ◌⊎◌, inl,
  inr, Bool-cases, arith, Str, All, All-append, Lacks, length, length-append, split, split_2, ◌+◌,
}
use mathlib.Core.Path.{subst}
use mathlib.Core.Option.{some-injective}
use mathlib.Core.List.{concat-ne-nil}
use gproc.Common.Int.{ℤ, pos, ltb_ℤ, wrap, ◌+ℤ◌}
use gproc.Decimal.{atoi, itoa}
use gproc.Common.Split.{split-Lacks, split-parts}
use gproc.NodeList.{
  NodeExecList, parsed, bad_range, running, Part, good, bad, unfinished, range_nodes, subnodes_of,
  part_of, expand, parse_part, parse_parts, parse_node_list,
}

-- What stands behind a slash holds only bytes of the part.
split_2-rest-Lacks : (b sep : ℕ) (s : Str) → Lacks b s → Lacks b (subnodes_of (split_2 sep s).1)
unfolding split_2
split_2-rest-Lacks b sep [] h = tt
split_2-rest-Lacks b sep (c ∷ s) (h, hs) = ground (arith, split_2-rest-Lacks b sep s hs)

-- What every entry of a list that is returned has: a first node, and nothing to split at a comma in
-- what it passes on.
pub record IsEntry (ne : NodeExecList) : Type 0 where
  pub first : ne.nodes ≢ []
  pub below : Lacks b',' ne.subnodes

range_nodes-ne-nil :
    (fuel : ℕ) (i end : ℤ) (nodes out : List Str)
    → nodes ≢ []
    → range_nodes fuel i end nodes ≡ some out
    → out ≢ []
unfolding range_nodes
range_nodes-ne-nil zero i end nodes out h e = absurd (ground arith)
range_nodes-ne-nil (suc fuel) i end nodes out h e = elim (Bool-cases (ltb_ℤ end i)) [
  | inl past ↦ rw (← some-injective nodes out (rw past at e)) h
  | inr more ↦
      range_nodes-ne-nil fuel (wrap (i +ℤ pos 1)) end (nodes ++ itoa i ∷ []) out
        (concat-ne-nil (itoa i) nodes) (rw more at e)
]

part_of-IsEntry :
    (sub : Str) (o : Option (List Str)) (ne : NodeExecList)
    → Lacks b',' sub
    → ((out : List Str) → o ≡ some out → out ≢ [])
    → part_of sub o ≡ good ne
    → IsEntry ne
part_of-IsEntry sub none ne l h e = absurd (ground arith)
part_of-IsEntry sub (some nodes) ne l h e =
    subst IsEntry (good-injective _ ne e) (record { first = h nodes refl; below = l })
  where
    good-injective : (x y : NodeExecList) → good x ≡ good y → x ≡ y
    good-injective x y p = cc

expand-IsEntry :
    (fuel : ℕ) (b0 : Str) (b1 : Option Str) (sub : Str) (ne : NodeExecList)
    → Lacks b',' sub
    → expand fuel b0 b1 sub ≡ good ne
    → IsEntry ne
unfolding expand
expand-IsEntry fuel b0 none sub ne l e =
    part_of-IsEntry sub (some (b0 ∷ [])) ne l
      (λ out p. rw (← some-injective _ out p) (ground arith)) e
expand-IsEntry fuel b0 (some b1) sub ne l e = elim (Bool-cases (ltb_ℤ (atoi b1).0 (atoi b0).0)) [
  | inl down ↦ absurd (good-ne-bad ne (rw down at e))
  | inr up ↦
      part_of-IsEntry sub (range_nodes fuel (atoi b0).0 (atoi b1).0 ([] ∷ [])) ne l
        (λ out. range_nodes-ne-nil fuel (atoi b0).0 (atoi b1).0 ([] ∷ []) out (ground arith))
        (rw up at e)
]
  where
    good-ne-bad : (ne : NodeExecList) → ¬ (bad ≡ good ne)
    good-ne-bad ne p = cc

parse_part-IsEntry :
    (fuel : ℕ) (n : Str) (ne : NodeExecList)
    → Lacks b',' n
    → parse_part fuel n ≡ good ne
    → IsEntry ne
unfolding parse_part
parse_part-IsEntry fuel n ne l e =
    let l0 = split_2 b'/' n in
    let be = split_2 b'-' l0.0 in
    expand-IsEntry fuel be.0 be.1 (subnodes_of l0.1) ne (split_2-rest-Lacks b',' b'/' n l) e

Part-cases : (p : Part) → ((ne : NodeExecList) × (p ≡ good ne)) ⊎ ((p ≡ bad) ⊎ (p ≡ unfinished))
Part-cases (good ne) = inl (ne, refl)
Part-cases bad = inr (inl refl)
Part-cases unfinished = inr (inr refl)

module _ (fuel : ℕ) (n : Str) (ranges : List Str) (rl : List NodeExecList) where
  parse_parts-good :
      (ne : NodeExecList)
      → parse_part fuel n ≡ good ne
      → parse_parts fuel (n ∷ ranges) rl ≡ parse_parts fuel ranges (rl ++ ne ∷ [])
  unfolding parse_parts
  parse_parts-good ne p = rw (p, parse_parts)

  parse_parts-bad : parse_part fuel n ≡ bad → parse_parts fuel (n ∷ ranges) rl ≡ bad_range rl
  unfolding parse_parts
  parse_parts-bad p = rw (p, parse_parts)

  parse_parts-unfinished :
      parse_part fuel n ≡ unfinished → parse_parts fuel (n ∷ ranges) rl ≡ running
  unfolding parse_parts
  parse_parts-unfinished p = rw (p, parse_parts)

parsed-injective : (x y : List NodeExecList) → parsed x ≡ parsed y → x ≡ y
parsed-injective x y p = cc

parse_parts-IsEntry :
    (fuel : ℕ) (ranges : List Str) (rl out : List NodeExecList)
    → All (Lacks b',') ranges
    → All IsEntry rl
    → parse_parts fuel ranges rl ≡ parsed out
    → All IsEntry out × (length out ≡ length rl + length ranges)
parse_parts-IsEntry fuel [] rl out l h e =
    let same : rl ≡ out = parsed-injective rl out (unfold parse_parts in e) in
    (subst (All IsEntry) same h, omega (arith, ap length same))
parse_parts-IsEntry fuel (n ∷ ranges) rl out (l, ls) h e = elim (Part-cases (parse_part fuel n)) [
  | inl (ne, p) ↦
      let rest =
        parse_parts-IsEntry fuel ranges (rl ++ ne ∷ []) out ls
          (All-append IsEntry rl (ne ∷ []) h (parse_part-IsEntry fuel n ne l p, tt))
          (sym (parse_parts-good fuel n ranges rl ne p) ∙ e) in
      (rest.0, omega (arith, rest.1, length-append rl (ne ∷ [])))
  | inr (inl p) ↦ cc (parse_parts-bad fuel n ranges rl p)
  | inr (inr p) ↦ cc (parse_parts-unfinished fuel n ranges rl p)
]

pub parse-IsEntry :
    (fuel : ℕ) (l : Str) (out : List NodeExecList)
    → parse_node_list fuel l ≡ parsed out
    → All IsEntry out
unfolding parse_node_list
parse-IsEntry fuel l out e =
    (parse_parts-IsEntry fuel (split b',' l) [] out (split-parts b',' l) tt e).0

All-middle :
    (xs : List NodeExecList) (ne : NodeExecList) (ys : List NodeExecList)
    → All IsEntry (xs ++ ne ∷ ys)
    → IsEntry ne
All-middle [] ne ys h = h.0
All-middle (x ∷ xs) ne ys h = All-middle xs ne ys h.1

parse_one :
    (fuel : ℕ) (sub : Str) (below : List NodeExecList)
    → Lacks b',' sub
    → parse_node_list fuel sub ≡ parsed below
    → length below ≡ 1
unfolding parse_node_list
parse_one fuel sub below h p = omega (
  arith,
  (parse_parts-IsEntry fuel (split b',' sub) [] below (split-parts b',' sub) tt p).1,
  ap length (split-Lacks b',' sub h),
)

-- Every entry of a list that `parseNodeList` returns has a first node, and if what it passes on is read
-- in turn and gives a list, that list has exactly one entry: a slave, which looks at the first entry
-- only, misses none.
pub subnodes_single :
    (fuel fuel' : ℕ) (l : Str) (xs : List NodeExecList) (ne : NodeExecList) (ys : List NodeExecList)
    (below : List NodeExecList)
    → parse_node_list fuel l ≡ parsed (xs ++ ne ∷ ys)
    → parse_node_list fuel' ne.subnodes ≡ parsed below
    → (ne.nodes ≢ []) × (length below ≡ 1)
unfolding parse_node_list
subnodes_single fuel fuel' l xs ne ys below e p =
    let entry =
      All-middle xs ne ys
        (parse_parts-IsEntry fuel (split b',' l) [] (xs ++ ne ∷ ys) (split-parts b',' l) tt e).0 in
    (entry.first, parse_one fuel' ne.subnodes below entry.below p)
