-- ===== src/Dispatch/Failed.antt =====
-- src/gproc/master.go: a node that cannot be reached leaves the registry.
use gproc.Common.{
  ℕ, ◌+◌, List, [], ◌∷◌, Option, none, some, ◌≡◌, inl, inr, arith, Str, str_eq, str_eq_self,
  Bool-cases, Option-cases, if◌then◌else◌, All,
}
use gproc.Protocol.{StartReq}
use gproc.Registry.{SlaveInfo, Slaves, get, remove}
use gproc.Registry.Consistent.{
  IsConsistent, get-remove, get-registered, remove-IsConsistent, unless_id,
}
use gproc.Dispatch.{Net, Node, drop_slave, send_each, send_to_set}
use gproc.Dispatch.Reached.{send_one_up, send_one_down, after_up, after_down}

-- The addresses that the calls from number `k` on do not reach.
unfoldable pub missed : Net → ℕ → List Str → List Str
missed net k [] = []
missed net k (s ∷ node_set) =
    let rest = missed net (k + 1) node_set in if net k s then rest else s ∷ rest

module _ (sv : Slaves) (h : IsConsistent sv) where
  drop-IsConsistent : (o : Option SlaveInfo) → IsConsistent (drop_slave o sv)
  drop-IsConsistent none = h
  drop-IsConsistent (some s) = remove-IsConsistent s sv h

  get-remove-found :
      (a b : Str) (s : SlaveInfo)
      → get sv b ≡ some s
      → get (remove s sv) a ≡ (if str_eq s.server a then none else unless_id s.id (get sv a))
  get-remove-found a b s e =
      let (k, found) = get-registered sv b s e in get-remove s sv a h (h.servers k s found)

  -- What the failed address led to is gone.
  get-drop_self : (a : Str) → get (drop_slave (get sv a) sv) a ≡ none
  get-drop_self a = elim (Option-cases (get sv a)) [
    | inl e ↦ rw e e
    | inr (s, e) ↦ rw e (rw (get-remove-found a a s e, e, str_eq_self s.id) (ground arith))
  ]

  -- What was not found is not found.
  get-drop-none : (a b : Str) → get sv a ≡ none → get (drop_slave (get sv b) sv) a ≡ none
  get-drop-none a b n = elim (Option-cases (get sv b)) [
    | inl e ↦ rw e n
    | inr (s, e) ↦ rw e (rw (get-remove-found a b s e, n) (ground arith))
  ]

module _ (net : Net) (req : StartReq) (root : Str) where
  send_each-IsConsistent :
      (node_set : List Str) (n : Node)
      → IsConsistent n.slaves
      → IsConsistent (send_each net req root node_set n).1.slaves
  unfolding send_each
  send_each-IsConsistent [] n h = h
  send_each-IsConsistent (s ∷ node_set) n h = elim (Bool-cases (net n.dials s)) [
    | inl up ↦ rw (send_one_up net req root s n up) (send_each-IsConsistent node_set _ h)
    | inr down ↦
        rw (send_one_down net req root s n down)
          (send_each-IsConsistent node_set _ (drop-IsConsistent n.slaves h (get n.slaves s)))
  ]

  send_each-none :
      (node_set : List Str) (n : Node) (a : Str)
      → IsConsistent n.slaves
      → get n.slaves a ≡ none
      → get (send_each net req root node_set n).1.slaves a ≡ none
  unfolding send_each
  send_each-none [] n a h e = e
  send_each-none (s ∷ node_set) n a h e = elim (Bool-cases (net n.dials s)) [
    | inl up ↦ rw (send_one_up net req root s n up) (send_each-none node_set _ a h e)
    | inr down ↦ rw (send_one_down net req root s n down) (
        send_each-none node_set _ a (drop-IsConsistent n.slaves h (get n.slaves s))
          (get-drop-none n.slaves h a s e))
  ]

  send_each-missed :
      (node_set : List Str) (n : Node)
      → IsConsistent n.slaves
      → All
          (λ a. get (send_each net req root node_set n).1.slaves a ≡ none)
          (missed net n.dials node_set)
  unfolding send_each missed
  send_each-missed [] n h = tt
  send_each-missed (s ∷ node_set) n h = elim (Bool-cases (net n.dials s)) [
    | inl up ↦
        rw (send_one_up net req root s n up, up)
          (send_each-missed node_set (after_up net req root s n) h)
    | inr down ↦
        let h' = drop-IsConsistent n.slaves h (get n.slaves s) in
        rw (send_one_down net req root s n down, down)
          (
            send_each-none node_set (after_down net req root s n) s h' (get-drop_self n.slaves h s),
            send_each-missed node_set (after_down net req root s n) h',
          )
  ]

-- From a consistent registry: after a call no address that it could not reach leads to a slave any
-- more, and the registry is consistent again.
pub send_to_set-missed :
    (net : Net) (req : StartReq) (root sub_nodes : Str) (node_set : List Str) (n : Node)
    → IsConsistent n.slaves
    → All
        (λ a. get (send_to_set net req sub_nodes root node_set n).1.slaves a ≡ none)
        (missed net n.dials node_set)
      × IsConsistent (send_to_set net req sub_nodes root node_set n).1.slaves
unfolding send_to_set
send_to_set-missed net req root sub_nodes node_set n h =
    let req' = record req { nodes = sub_nodes } in
    (send_each-missed net req' root node_set n h, send_each-IsConsistent net req' root node_set n h)
