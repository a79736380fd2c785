-- ===== src/Slave/Sent.antt =====
-- src/gproc/slave.go: the requests that `slaveProc` sends on, and the workers that it waits for.
use gproc.Common.{ℕ, ◌+◌, true, List, [], ◌∷◌, ◌++◌, some, ◌≡◌, ◌≢◌, refl, arith, Str, length, map}
use gproc.Protocol.{StartReq}
use gproc.NodeList.{NodeExecList, parsed, parse_node_list}
use gproc.Dispatch.{Net, Node, returned, send_to_set}
use gproc.Dispatch.Reached.{reached, delegation, send_to_set_lem}
use gproc.Dispatch.Failed.{missed}
use gproc.Slave.{Around, Child, waits, count_workers, set_proxy, slave_proc}

count_workers_lem : (nodes : List Str) (k : ℕ) → count_workers nodes k ≡ k + length nodes
unfolding count_workers
count_workers_lem [] k = omega arith
count_workers_lem (s ∷ nodes) k = omega (arith, count_workers_lem nodes (k + 1))

-- Every address is reached or missed.
reached-missed :
    (net : Net) (k : ℕ) (node_set : List Str)
    → length node_set ≡ length (reached net k node_set) + length (missed net k node_set)
unfolding reached missed
reached-missed net k [] = refl
reached-missed net k (s ∷ node_set) = ground (arith, reached-missed net (k + 1) node_set)

set_proxy_lem :
    (network address : Str) (req : StartReq) (nodes : List Str)
    → nodes ≢ []
    → set_proxy (some (network, address)) nodes req
      ≡ some (length nodes, record req { lfam = network; lserver = address })
unfolding set_proxy
set_proxy_lem network address req [] h = absurd (h refl)
set_proxy_lem network address req (s ∷ nodes) h =
    rw (count_workers_lem (s ∷ nodes) 0)
      (let e : 0 + length (s ∷ nodes) ≡ length (s ∷ nodes) = omega arith in rw e refl)

-- The request that a slave sends on: its own proxy in place of the one above, and the nodes below.
abbrev pub passed_on : StartReq → Str → Str → Str → StartReq
passed_on req network address subnodes = record req {
  lfam = network;
  lserver = address;
  nodes = subnodes;
}

-- A process that gets a request, whose node list is read, and an answer with at least one address, and that
-- can listen, starts the program of the request, sends the request on, with its own proxy and
-- the nodes below in it, to exactly the addresses that it reaches, and waits for as many
-- workers as it has sent requests and one more for each address that it could not reach.
pub slave_proc_lem :
    (fuel : ℕ) (net : Net) (bin_root : Str) (e : Around) (n : Node) (req : StartReq)
    (ne available : NodeExecList) (more : List NodeExecList) (network address : Str)
    → e.request ≡ some req
    → e.reaches_proxy ≡ true
    → parse_node_list fuel req.nodes ≡ parsed (ne ∷ more)
    → e.answer ne ≡ some available
    → available.nodes ≢ []
    → e.proxy ≡ some (network, address)
    → (c : Child) × (slave_proc fuel net bin_root e n ≡ (
      returned (
          waits (
            length (reached net n.dials available.nodes)
            + length (missed net n.dials available.nodes))),
      c,
    ))
      × (c.started ≡ some req)
      × (c.asked ≡ ne ∷ [])
      × (c.node.sent
          ≡ n.sent
            ++ map
                (delegation (passed_on req network address ne.subnodes) bin_root)
                (reached net n.dials available.nodes))
unfolding slave_proc
slave_proc_lem fuel net bin_root e n req ne available more network address got proxy read answered
      some_node listens =
    let next = record req { lfam = network; lserver = address } in
    let node_set = available.nodes in
    let (_, sent, _, _) = send_to_set_lem net next bin_root ne.subnodes node_set n in
    (
      record {
        node = (send_to_set net next ne.subnodes bin_root node_set n).1;
        started = some req;
        asked = ne ∷ [];
      },
      rw (got, proxy, read, answered)
          (rw
            (
              listens,
              set_proxy_lem network address req node_set some_node,
              reached-missed net n.dials node_set,
            )
            refl),
      refl,
      refl,
      sent,
    )
