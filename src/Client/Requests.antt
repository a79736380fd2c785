-- ===== src/Client/Requests.antt =====
-- src/gproc/mexec.go with src/gproc/master.go: what the program packs and sends, and what it waits for.
use gproc.Common.{
  ℕ, ◌+◌, Bool, true, false, List, [], ◌∷◌, ◌++◌, Option, none, some, ◌≡◌, ◌≢◌, refl, ap, ◌∙◌,
  arith, Str, codes, str_eq_iff, length, All, if◌then◌else◌,
}
use gproc.Common.Dict.{Dict, lookup}
use gproc.Protocol.{StartReq, Resp, VitalData}
use gproc.NodeList.{NodeExecList, parsed, running, parse_node_list}
use gproc.Registry.{MapOrder}
use gproc.Dispatch.{Net, Node, Ended, returned, panicked, endless, send_commands}
use gproc.Dispatch.Reached.{send_commands_lem}
use gproc.Master.{Master, greet, do_exec, finish_exec, switch_command, serve, except_all}
use gproc.Master.Serve.{greet-node, contains, lookup-except_all}
use gproc.Pack.{FileSystem, PackVisitor, or_false, is_visited, new_pack_visitor, walk}
use gproc.Pack.Grows.{Grows-trans, Fine, walk-Fine}
use gproc.Client.{
  walk_binary, raw_files, Flags, Outside, and_walk, walk_paths, taken_along, filter_files, pack,
  exec_request, waits_for, start_execution,
}

contains-filter_files :
    (exceptlist : Dict Bool) (s : Str) (raw_files : List Str)
    → contains s (filter_files exceptlist raw_files)
      ≡ (if or_false (lookup s exceptlist) then false else contains s raw_files)
unfolding contains filter_files
contains-filter_files exceptlist s [] = ground arith
contains-filter_files exceptlist s (r ∷ raw_files) =
    ground (arith, contains-filter_files exceptlist s raw_files, str_eq_iff r s)

-- A file is packed with a binary if `ldd` names it, the `x` command has not named it, and
-- it was not excepted before.
pub filter_files-except_all :
    (args : List Str) (files : Dict Bool) (s : Str) (raw_files : List Str)
    → contains s (filter_files (except_all args files) raw_files)
      ≡ (if contains s args then false else contains s (filter_files files raw_files))
filter_files-except_all args files s raw_files =
    rw
      (
        contains-filter_files (except_all args files) s raw_files,
        contains-filter_files files s raw_files,
        lookup-except_all s args files,
      )
      (ground arith)

and_walk-Fine :
    (fuel : ℕ) (fs : FileSystem) (path : Option Str) (p : PackVisitor)
    (r : Ended (Unit {0}) × PackVisitor)
    → Fine p r
    → Fine p (and_walk fuel fs path r)
and_walk-Fine fuel fs none p (returned u, q) h e = absurd (ground (arith, e))
and_walk-Fine fuel fs (some path) p (returned u, q) h e =
    Grows-trans p q _ (h refl) (walk-Fine fuel fs path q e)
and_walk-Fine fuel fs none p (panicked, q) h e = absurd (ground (arith, e))
and_walk-Fine fuel fs (some path) p (panicked, q) h e = absurd (ground (arith, e))
and_walk-Fine fuel fs none p (endless, q) h e = absurd (ground (arith, e))
and_walk-Fine fuel fs (some path) p (endless, q) h e = absurd (ground (arith, e))

walk_paths-Fine :
    (fuel : ℕ) (fs : FileSystem) (paths : List (Option Str)) (p : PackVisitor)
    (r : Ended (Unit {0}) × PackVisitor)
    → Fine p r
    → Fine p (walk_paths fuel fs paths r)
unfolding walk_paths
walk_paths-Fine fuel fs [] p r h = h
walk_paths-Fine fuel fs (path ∷ paths) p r h =
    walk_paths-Fine fuel fs paths p (and_walk fuel fs path r) (and_walk-Fine fuel fs path p r h)

walk_binary-Fine :
    (fuel : ℕ) (fs : FileSystem) (flags : Flags) (exceptlist : Dict Bool) (raw : Ended (List Str))
    (p : PackVisitor) (r : Ended (Unit {0}) × PackVisitor)
    → Fine p r
    → Fine p (walk_binary fuel fs flags exceptlist raw r)
walk_binary-Fine fuel fs flags exceptlist (returned raw) p (returned u, q) h =
    walk_paths-Fine fuel fs _ p (returned tt, q) h
walk_binary-Fine fuel fs flags exceptlist panicked p (returned u, q) h =
    λ e. absurd (ground (arith, e))
walk_binary-Fine fuel fs flags exceptlist endless p (returned u, q) h =
    λ e. absurd (ground (arith, e))
walk_binary-Fine fuel fs flags exceptlist (returned raw) p (panicked, q) h =
    λ e. absurd (ground (arith, e))
walk_binary-Fine fuel fs flags exceptlist panicked p (panicked, q) h =
    λ e. absurd (ground (arith, e))
walk_binary-Fine fuel fs flags exceptlist endless p (panicked, q) h =
    λ e. absurd (ground (arith, e))
walk_binary-Fine fuel fs flags exceptlist (returned raw) p (endless, q) h =
    λ e. absurd (ground (arith, e))
walk_binary-Fine fuel fs flags exceptlist panicked p (endless, q) h =
    λ e. absurd (ground (arith, e))
walk_binary-Fine fuel fs flags exceptlist endless p (endless, q) h = λ e. absurd (ground (arith, e))

-- If the walks return, every command that is packed has its path marked.
pub pack_lem :
    (fuel : ℕ) (fs : FileSystem) (flags : Flags) (exceptlist : Dict Bool) (raw : Ended (List Str))
    → (pack fuel fs flags exceptlist raw).0 ≡ returned tt
    → All
        (λ c. is_visited c.current_name (pack fuel fs flags exceptlist raw).1 ≡ true)
        (pack fuel fs flags exceptlist raw).1.cmds
unfolding pack new_pack_visitor
pack_lem fuel fs flags exceptlist raw e =
    let first = walk fuel fs (flags.cwd ++ codes "/.") new_pack_visitor in
    let along =
      walk_paths-Fine fuel fs (taken_along flags) new_pack_visitor first
        (walk-Fine fuel fs (flags.cwd ++ codes "/.") new_pack_visitor) in
    let g =
      walk_binary-Fine fuel fs flags exceptlist raw new_pack_visitor
        (walk_paths fuel fs (taken_along flags) first) along e in
    rw g.cmds_eq g.marked

abbrev pub last : List Resp → Option Resp
last [] = none
last (r ∷ []) = some r
last (r ∷ s ∷ rs) = last (s ∷ rs)

last-append : (rs : List Resp) (r : Resp) → last (rs ++ r ∷ []) ≡ some r
last-append [] r = refl
last-append (q ∷ []) r = refl
last-append (q ∷ s ∷ rs) r = last-append (s ∷ rs) r

-- The answer to a request that was sent to `c` nodes.
abbrev pub finished : ℕ → Resp
finished c = record { num_nodes = c; msg = codes "sendCommandsToNodes finished" }

finish_exec-last :
    (m : Master) (c : ℕ) (r : Ended ℕ × Node)
    → r.0 ≡ returned c
    → (last (finish_exec m r).1.node.replies ≡ some (finished c))
      × ((finish_exec m r).1.node.sent ≡ r.1.sent)
finish_exec-last m c (returned k, n) e =
    let same : k ≡ c = ground (arith, e) in
    (last-append n.replies (finished k) ∙ ap (λ j. some (finished j)) same, refl)
finish_exec-last m c (panicked, n) e = absurd (ground arith)
finish_exec-last m c (endless, n) e = absurd (ground arith)

-- The last answer of a ready master to a request counts the requests that it has sent on.
serve_exec :
    (fuel : ℕ) (net : Net) (go : MapOrder) (req : StartReq) (m : Master)
    → req.command ≡ codes "e"
    → (greet m).host_ready ≡ true
    → parse_node_list fuel req.nodes ≢ running
    → (c : ℕ) × (last (serve fuel net go (some req) m).1.node.replies ≡ some (finished c))
      × (length (serve fuel net go (some req) m).1.node.sent ≡ length m.node.sent + c)
unfolding serve switch_command do_exec
serve_exec fuel net go req m command ready h =
    let (c, done, count) = send_commands_lem fuel net go req [] (greet m).node h in
    let (answer, same) =
      finish_exec-last (greet m) c (send_commands fuel net go req [] (greet m).node) done in
    let run : serve fuel net go (some req) m
        ≡ finish_exec (greet m) (send_commands fuel net go req [] (greet m).node) =
      rw command (rw ready refl) in
    (
      c,
      rw run answer,
      rw run (rw same (count ∙ ap (λ (n : Node). length n.sent + c) (greet-node m))),
    )

-- A program whose master says that it is ready, whose files are packed, whose proxy listens, and whose
-- master answers it as `receiveCmds` does, sends one request, which has the packed files in it, and waits for as
-- many workers as the master has sent requests on, if the master is ready when it serves
-- the request and the node list is read without an error.
pub start_execution_lem :
    (fuel fuel' : ℕ) (fs : FileSystem) (o : Outside) (flags : Flags) (port slave_nodes : Str)
    (cmd : List Str) (vital : VitalData) (pv : PackVisitor) (l : Str × Str) (net : Net)
    (go : MapOrder) (m : Master) (entries : List NodeExecList)
    → o.vital ≡ some vital
    → vital.host_ready ≡ true
    → pack fuel fs flags vital.exceptlist (raw_files fuel o.elf_files flags cmd) ≡ (returned tt, pv)
    → o.proxy (vital.host_addr ++ b':' ∷ port) ≡ some l
    → o.response (exec_request flags slave_nodes cmd l pv)
      ≡ last (serve fuel' net go (some (exec_request flags slave_nodes cmd l pv)) m).1.node.replies
    → (greet m).host_ready ≡ true
    → parse_node_list fuel' slave_nodes ≡ parsed entries
    → (c : ℕ) × (start_execution fuel fs o flags port slave_nodes cmd
        ≡ (returned (waits_for c), exec_request flags slave_nodes cmd l pv ∷ []))
      × (length (serve fuel' net go (some (exec_request flags slave_nodes cmd l pv)) m).1.node.sent
          ≡ length m.node.sent + c)
unfolding start_execution
start_execution_lem fuel fuel' fs o flags port slave_nodes cmd vital pv l net go m entries told
      ready packed listens answered up read =
    let req = exec_request flags slave_nodes cmd l pv in
    let reads : parse_node_list fuel' slave_nodes ≢ running =
      λ e. absurd (ground (arith, read, e)) in
    let (c, answer, count) = serve_exec fuel' net go req m refl up reads in
    (c, rw (told, packed) (rw (ready, listens) (rw (answered ∙ answer) refl)), count)
