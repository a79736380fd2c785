-- ===== src/Master/Serve.antt =====
-- src/gproc/master.go: what one connection to `receiveCmds` is answered.
use gproc.Common.{
  ℕ, ◌+◌, Bool, true, false, not, ◌||◌, List, [], ◌∷◌, some, ◌≡◌, ◌≢◌, refl, ◌∙◌, ap, inl, inr,
  arith, Str, codes, str_eq, map, length, length-append, Bool-cases, ◌==◌, if◌then◌else◌,
}
use gproc.Common.Dict.{Dict, lookup, insert, lookup-insert}
use gproc.Protocol.{StartReq, Resp}
use gproc.NodeList.{running, parse_node_list}
use gproc.Registry.{MapOrder}
use gproc.Dispatch.{Net, Node, Ended, returned, panicked, endless, send_commands}
use gproc.Dispatch.Reached.{send_commands_lem, send_commands_replies, own_replies}
use gproc.Master.{
  Master, greet, respond, except_all, do_except, do_info, do_exec, finish_exec, switch_command,
  serve,
}

-- The string is among these.
unfoldable pub contains : Str → List Str → Bool
contains f [] = false
contains f (s ∷ args) = str_eq s f || contains f args

-- `x` excepts the files that it names, and those that were excepted before stay so.
pub lookup-except_all :
    (f : Str) (args : List Str) (files : Dict Bool)
    → lookup f (except_all args files) ≡ (if contains f args then some true else lookup f files)
unfolding except_all contains
lookup-except_all f [] files = refl
lookup-except_all f (s ∷ args) files =
    ground (arith, lookup-except_all f args (insert s true files), lookup-insert s f true files)

pub greet-node : (m : Master) → (greet m).node ≡ m.node
unfolding greet
greet-node m = ground arith

-- What is sent back on a connection behind the vital data, by the first byte of the command.
abbrev pub answers : ℕ → StartReq → Bool → ℕ → ℕ
answers fuel a ready c =
    if c == b'e' then (if ready then own_replies (parse_node_list fuel a.nodes) + 1 else 0) else 1

-- The command ends, and `k` answers were sent.
abbrev Answers : Master → ℕ → Ended (Unit {0}) × Master → Type 0
Answers m k r = (r.0 ≡ returned tt) × (length r.1.node.replies ≡ length m.node.replies + k)

Answers-respond :
    (r : Resp) (m m' : Master) → m'.node ≡ m.node → Answers m 1 (returned tt, respond r m')
Answers-respond r m m' e =
    (refl, length-append m'.node.replies (r ∷ []) ∙ ap (λ (n : Node). length n.replies + 1) e)

finish_exec-Answers :
    (m : Master) (k c : ℕ) (r : Ended ℕ × Node)
    → r.0 ≡ returned c
    → length r.1.replies ≡ length m.node.replies + k
    → Answers m (k + 1) (finish_exec m r)
finish_exec-Answers m k c (returned c', n) e h = (
  refl,
  omega (
    arith,
    h,
    length-append n.replies
        (record { num_nodes = c'; msg = codes "sendCommandsToNodes finished" } ∷ []),
  ),
)
finish_exec-Answers m k c (panicked, n) e h = absurd (ground arith)
finish_exec-Answers m k c (endless, n) e h = absurd (ground arith)

do_exec-Answers :
    (fuel : ℕ) (net : Net) (go : MapOrder) (a : StartReq) (m : Master)
    → parse_node_list fuel a.nodes ≢ running
    → Answers m
        (if m.host_ready then own_replies (parse_node_list fuel a.nodes) + 1 else 0)
        (do_exec fuel net go a m)
unfolding do_exec
do_exec-Answers fuel net go a m h = go_on m.host_ready
  where
    go_on :
        (ready : Bool)
        → Answers m (if ready then own_replies (parse_node_list fuel a.nodes) + 1 else 0) (
            if not ready
            then (returned tt, m)
            else finish_exec m (send_commands fuel net go a [] m.node))
    go_on false = (refl, omega arith)
    go_on true =
        let (c, e, _) = send_commands_lem fuel net go a [] m.node h in
        finish_exec-Answers m (own_replies (parse_node_list fuel a.nodes)) c
          (send_commands fuel net go a [] m.node) e
          (send_commands_replies fuel net go a [] m.node (parse_node_list fuel a.nodes) refl)

Answers-if :
    (b : Bool) (m : Master) (k : ℕ) (x y : Ended (Unit {0}) × Master)
    → Answers m k x
    → Answers m k y
    → Answers m k (if b then x else y)
Answers-if true m k x y hx hy = hx
Answers-if false m k x y hx hy = hy

do_except-Answers :
    (go : MapOrder) (a : StartReq) (m : Master) → Answers m 1 (returned tt, do_except go a m)
unfolding do_except
do_except-Answers go a m =
    let files = except_all a.args m.except_files in
    Answers-respond _ m
      (record m { except_files = files; except_list = map (λ e. e.0) (go.order files) }) refl

do_info-Answers : (go : MapOrder) (m : Master) → Answers m 1 (returned tt, do_info go m)
unfolding do_info
do_info-Answers go m = Answers-respond _ m m refl

switch-Answers :
    (fuel : ℕ) (net : Net) (go : MapOrder) (a : StartReq) (c : ℕ) (command : Str) (m : Master)
    → parse_node_list fuel a.nodes ≢ running
    → Answers m (answers fuel a m.host_ready c) (switch_command fuel net go a (c ∷ command) m)
unfolding switch_command
switch-Answers fuel net go a c command m h = elim (Bool-cases (c == b'e')) [
  | inl exec ↦
      let not_x : (c == b'x') ≡ false = ground arith in
      let not_i : (c == b'i') ≡ false = ground arith in
      rw (not_x, not_i, exec) (do_exec-Answers fuel net go a m h)
  | inr other ↦ rw other (
      Answers-if (c == b'x') m 1 _ _ (do_except-Answers go a m)
        (Answers-if (c == b'i') m 1 _ _ (do_info-Answers go m) (Answers-respond _ m m refl)))
]

serve_on :
    (fuel : ℕ) (net : Net) (go : MapOrder) (a : StartReq) (c : ℕ) (command cmd : Str) (m : Master)
    → cmd ≡ c ∷ command
    → parse_node_list fuel a.nodes ≢ running
    → Answers m (answers fuel a (greet m).host_ready c) (switch_command fuel net go a cmd (greet m))
serve_on fuel net go a c command cmd m e h =
    let (ends, count) = switch-Answers fuel net go a c command (greet m) h in
    let k = answers fuel a (greet m).host_ready c in
    rw e (ends, count ∙ ap (λ (n : Node). length n.replies + k) (greet-node m))

-- A connection whose command is not empty ends, if its node list is read: one answer for every command
-- but `e`, no answer to `e` while no slave has reported, and else one answer, or two for a bad node list.
pub serve-answers :
    (fuel : ℕ) (net : Net) (go : MapOrder) (a : StartReq) (c : ℕ) (command : Str) (m : Master)
    → a.command ≡ c ∷ command
    → parse_node_list fuel a.nodes ≢ running
    → ((serve fuel net go (some a) m).0 ≡ returned tt)
      × (length (serve fuel net go (some a) m).1.node.replies
          ≡ length m.node.replies + answers fuel a (greet m).host_ready c)
unfolding serve
serve-answers fuel net go a c command m e h = serve_on fuel net go a c command a.command m e h
