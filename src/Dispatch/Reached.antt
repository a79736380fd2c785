-- ===== src/Dispatch/Reached.antt =====
-- src/gproc/master.go: the requests that a call sends, and the number that it returns.
use gproc.Common.{
  ℕ, ◌+◌, true, false, List, [], ◌∷◌, ◌++◌, some, ◌≡◌, refl, sym, ◌∙◌, ap, inl, inr, arith, Str,
  map, length, length-append, length-map, ◌≢◌, append_assoc, append-nil, Bool-cases, if◌then◌else◌,
  All,
}
use gproc.Protocol.{StartReq}
use gproc.NodeList.{NodeExecList, Parsed, parsed, bad_range, running, parse_node_list}
use gproc.NodeList.Subnodes.{IsEntry, parse-IsEntry}
use gproc.Registry.{Slaves, MapOrder, serv_intersect, get}
use gproc.Dispatch.{
  drop_slave, Net, Delegation, Node, larg, send_one, send_each, send_to_set, send_entries,
  send_commands, add_count, Ended, returned, panicked, endless, bad_list,
}

-- The addresses that the calls from number `k` on reach, in order.
unfoldable pub reached : Net → ℕ → List Str → List Str
reached net k [] = []
reached net k (s ∷ node_set) =
    let rest = reached net (k + 1) node_set in if net k s then s ∷ rest else rest

-- The request that goes to an address.
abbrev pub delegation : StartReq → Str → Str → Delegation
delegation req root s = record { to = s; req = larg req root }

module _ (net : Net) (req : StartReq) (root : Str) where
  -- The state after a dial that succeeds, and after one that fails.
  abbrev pub after_up : Str → Node → Node
  after_up s n = record n { dials = n.dials + 1; sent = n.sent ++ delegation req root s ∷ [] }

  abbrev pub after_down : Str → Node → Node
  after_down s n = record n { dials = n.dials + 1; slaves = drop_slave (get n.slaves s) n.slaves }

  pub send_one_up :
      (s : Str) (n : Node) → net n.dials s ≡ true → send_one net req root s n ≡ (1, after_up s n)
  unfolding send_one
  send_one_up s n e = rw e

  pub send_one_down :
      (s : Str) (n : Node) → net n.dials s ≡ false → send_one net req root s n ≡ (0, after_down s n)
  unfolding send_one
  send_one_down s n e = rw e

  send_each_lem :
      (node_set : List Str) (n : Node)
      → ((send_each net req root node_set n).0 ≡ length (reached net n.dials node_set))
        × ((send_each net req root node_set n).1.sent
            ≡ n.sent ++ map (delegation req root) (reached net n.dials node_set))
        × ((send_each net req root node_set n).1.dials ≡ n.dials + length node_set)
        × ((send_each net req root node_set n).1.replies ≡ n.replies)
  unfolding send_each reached
  send_each_lem [] n = (refl, sym (append-nil n.sent), omega arith, refl)
  send_each_lem (s ∷ node_set) n = elim (Bool-cases (net n.dials s)) [
    | inl up ↦
        let ih = send_each_lem node_set (after_up s n) in
        rw (send_one_up s n up, up)
          (omega (arith, ih.0), ih.1 ∙ append_assoc n.sent _ _, omega (arith, ih.2), ih.3)
    | inr down ↦
        let ih = send_each_lem node_set (after_down s n) in
        rw (send_one_down s n down, down) (omega (arith, ih.0), ih.1, omega (arith, ih.2), ih.3)
  ]

-- `sendCommandsToANodeSet` sends the request, with the nodes below put in, to exactly the addresses
-- that it reaches, in order, and returns their number. It dials each address once and answers nothing.
pub send_to_set_lem :
    (net : Net) (req : StartReq) (root sub_nodes : Str) (node_set : List Str) (n : Node)
    → ((send_to_set net req sub_nodes root node_set n).0 ≡ length (reached net n.dials node_set))
      × ((send_to_set net req sub_nodes root node_set n).1.sent
          ≡ n.sent
            ++ map
                (delegation (record req { nodes = sub_nodes }) root)
                (reached net n.dials node_set))
      × ((send_to_set net req sub_nodes root node_set n).1.dials ≡ n.dials + length node_set)
      × ((send_to_set net req sub_nodes root node_set n).1.replies ≡ n.replies)
unfolding send_to_set
send_to_set_lem net req root sub_nodes node_set n =
    send_each_lem net (record req { nodes = sub_nodes }) root node_set n

-- The number that is returned is the number of requests that were sent.
send_to_set-length :
    (net : Net) (req : StartReq) (root sub_nodes : Str) (node_set : List Str) (n : Node)
    → length (send_to_set net req sub_nodes root node_set n).1.sent
      ≡ length n.sent + (send_to_set net req sub_nodes root node_set n).0
send_to_set-length net req root sub_nodes node_set n =
    let h = send_to_set_lem net req root sub_nodes node_set n in
    let r = reached net n.dials node_set in
    omega (
      arith,
      ap length h.1,
      length-append n.sent (map (delegation (record req { nodes = sub_nodes }) root) r),
      length-map r (delegation (record req { nodes = sub_nodes }) root),
      h.0,
    )

-- The call ends with the number of the requests that it sent.
abbrev Counts : Node → Ended ℕ × Node → Type 0
Counts n (returned c, n') = length n'.sent ≡ length n.sent + c
Counts n (panicked, n') = ⊥
Counts n (endless, n') = ⊥

add_count-Counts :
    (n : Node) (k : ℕ) (mid : Node) (r : Ended ℕ × Node)
    → length mid.sent ≡ length n.sent + k
    → Counts mid r
    → Counts n (add_count k r)
add_count-Counts n k mid (returned c, n') e h = omega arith
add_count-Counts n k mid (panicked, n') e h = h
add_count-Counts n k mid (endless, n') e h = h

pub intersect-some :
    (go : MapOrder) (sv : Slaves) (set : List Str)
    → set ≢ []
    → (out : List Str) × (serv_intersect go sv set ≡ some out)
unfolding serv_intersect
intersect-some go sv [] h = absurd (h refl)
intersect-some go sv (x ∷ set) h = (_, refl)

send_entries-Counts :
    (net : Net) (go : MapOrder) (req : StartReq) (root : Str) (slave_nodes : List NodeExecList)
    (n : Node)
    → All IsEntry slave_nodes
    → Counts n (send_entries net go req root slave_nodes n)
unfolding send_entries
send_entries-Counts net go req root [] n h = omega arith
send_entries-Counts net go req root (e ∷ es) n (h, hs) =
    let (node_set, p) = intersect-some go n.slaves e.nodes h.first in
    rw (p, send_entries)
      (add_count-Counts n (send_to_set net req e.subnodes root node_set n).0
        (send_to_set net req e.subnodes root node_set n).1
        (send_entries net go req root es (send_to_set net req e.subnodes root node_set n).1)
        (send_to_set-length net req root e.subnodes node_set n)
        (send_entries-Counts net go req root es (send_to_set net req e.subnodes root node_set n).1
          hs))

Counts-returned :
    (n : Node) (r : Ended ℕ × Node)
    → Counts n r
    → (c : ℕ) × (r.0 ≡ returned c) × (length r.1.sent ≡ length n.sent + c)
Counts-returned n (returned c, n') h = (c, refl, h)
Counts-returned n (panicked, n') h = elim h [ ]
Counts-returned n (endless, n') h = elim h [ ]

send_commands-Counts :
    (fuel : ℕ) (net : Net) (go : MapOrder) (req : StartReq) (root : Str) (n : Node) (p : Parsed)
    → parse_node_list fuel req.nodes ≡ p
    → p ≢ running
    → Counts n (send_commands fuel net go req root n)
send_commands-Counts fuel net go req root n (parsed out) e h =
    unfold send_commands in
    rw (e, send_commands)
      (send_entries-Counts net go req root out n (parse-IsEntry fuel req.nodes out e))
send_commands-Counts fuel net go req root n (bad_range rl) e h =
    unfold send_commands in rw (e, send_commands) (omega arith)
send_commands-Counts fuel net go req root n running e h = absurd (h refl)

-- If the node list is read, with or without an error, `sendCommandsToNodes` does not panic, and it
-- returns the number of the requests that it has sent.
pub send_commands_lem :
    (fuel : ℕ) (net : Net) (go : MapOrder) (req : StartReq) (root : Str) (n : Node)
    → parse_node_list fuel req.nodes ≢ running
    → (c : ℕ) × ((send_commands fuel net go req root n).0 ≡ returned c)
      × (length (send_commands fuel net go req root n).1.sent ≡ length n.sent + c)
send_commands_lem fuel net go req root n h =
    Counts-returned n (send_commands fuel net go req root n)
      (send_commands-Counts fuel net go req root n (parse_node_list fuel req.nodes) refl h)

send_entries-replies :
    (net : Net) (go : MapOrder) (req : StartReq) (root : Str) (slave_nodes : List NodeExecList)
    (n : Node)
    → All IsEntry slave_nodes
    → (send_entries net go req root slave_nodes n).1.replies ≡ n.replies
unfolding send_entries
send_entries-replies net go req root [] n h = refl
send_entries-replies net go req root (e ∷ es) n (h, hs) =
    let (node_set, p) = intersect-some go n.slaves e.nodes h.first in
    let mid = (send_to_set net req e.subnodes root node_set n).1 in
    rw (p, send_entries)
      (add_count-replies _ (send_entries net go req root es mid)
        ∙ send_entries-replies net go req root es mid hs
        ∙ (send_to_set_lem net req root e.subnodes node_set n).3)
  where
    add_count-replies : (k : ℕ) (r : Ended ℕ × Node) → (add_count k r).1.replies ≡ r.1.replies
    add_count-replies k (returned c, n') = refl
    add_count-replies k (panicked, n') = refl
    add_count-replies k (endless, n') = refl

-- The answers of `sendCommandsToNodes` itself: one for a bad node list.
abbrev pub own_replies : Parsed → ℕ
own_replies (parsed out) = 0
own_replies (bad_range rl) = 1
own_replies running = 0

pub send_commands_replies :
    (fuel : ℕ) (net : Net) (go : MapOrder) (req : StartReq) (root : Str) (n : Node) (p : Parsed)
    → parse_node_list fuel req.nodes ≡ p
    → length (send_commands fuel net go req root n).1.replies ≡ length n.replies + own_replies p
send_commands_replies fuel net go req root n (parsed out) e =
    unfold send_commands in
    rw (e, send_commands)
      (omega (
        arith,
        ap length (send_entries-replies net go req root out n (parse-IsEntry fuel req.nodes out e)),
      ))
send_commands_replies fuel net go req root n (bad_range rl) e =
    unfold send_commands in rw (e, send_commands) (length-append n.replies (bad_list ∷ []))
send_commands_replies fuel net go req root n running e =
    unfold send_commands in rw (e, send_commands) (omega arith)
