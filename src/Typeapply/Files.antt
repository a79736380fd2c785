-- ===== src/Typeapply/Files.antt =====
-- src/typeapply/typeapply.go and src/filemarshal/filemarshal.go: `Do` on a `StartReq`, after the calls that a
-- process has made before.
use gproc.Common.{ℕ, [], map, ◌≡◌, sym, ap, ◌∙◌, codes}
use mathlib.Core.Path.{subst}
use gproc.Common.Dict.{lookup}
use gproc.Dispatch.{returned}
use gproc.Protocol.{StartReq}
use gproc.Typeapply.Values.{Value, pointer, Tmap}
use gproc.Typeapply.Request.{request_value, file_value}
use gproc.Typeapply.Calls.{
  Ready, Ready-start, get_nested, do_files, entries, run_ready, run_nested, Ready-at,
}
use gproc.Typeapply.Serving.{
  after, after_request, after_slave, Serving, Serving-Ready, after_vital-Ready,
  after_received-Ready, after_slave_vital-Ready,
}

-- What `Do` has kept when a process comes to send or receive a pointer to a request: nothing; what it kept of
-- the vital data that a program received first; what it kept of the pointer to a pointer that a slave's
-- process received first; in a master, what it kept of the vital data that it sent, first or after the report
-- of a slave and the answer to it; what it kept in a master that has heard of a slave and answered a
-- program with its first calls and then handled any messages; and what each further request added.
pub data Before (n : ℕ) : Tmap → Type 0 where
  unused : {tmap : Tmap} → tmap ≡ [] → Before n tmap
  in_program : {tmap : Tmap} (v : Value) → tmap ≡ after n (codes "*vitalData") v [] → Before n tmap
  in_slave :
      {tmap : Tmap} (r : StartReq)
      → tmap ≡ after n (codes "**StartReq") (pointer (request_value r)) []
      → Before n tmap
  greeted : {tmap : Tmap} (v : Value) → tmap ≡ after n (codes "vitalData") v [] → Before n tmap
  slave_greeted :
      {tmap : Tmap} (v0 v1 v2 : Value)
      → tmap ≡ after n (codes "vitalData") v2 (after_slave n v0 v1 [])
      → Before n tmap
  in_master : {tmap : Tmap} → Serving n tmap → Before n tmap
  again :
      {tmap : Tmap} (r : StartReq) (earlier : Tmap)
      → Before n earlier
      → tmap ≡ after_request n r earlier
      → Before n tmap

Before-Ready : (n : ℕ) (tmap : Tmap) → Before n tmap → Ready n (entries tmap)
unfolding lookup
Before-Ready n tmap (unused e) = subst (Ready n) (sym (ap entries e)) (Ready-start n)
Before-Ready n tmap (in_program v e) =
    subst (λ t. Ready n (entries t)) (sym e) (after_received-Ready n v)
Before-Ready n tmap (in_slave r e) =
    Ready-at n _ tmap [] (e ∙ ap (λ o. o.2) (run_nested n r)) (get_nested n).3
Before-Ready n tmap (greeted v e) = subst (λ t. Ready n (entries t)) (sym e) (after_vital-Ready n v)
Before-Ready n tmap (slave_greeted v0 v1 v2 e) =
    subst (λ t. Ready n (entries t)) (sym e) (after_slave_vital-Ready n v0 v1 v2)
Before-Ready n tmap (in_master serving) = Serving-Ready n tmap serving
Before-Ready n tmap (again r earlier before e) =
    let ready = Before-Ready n earlier before in
    Ready-at n ready.made tmap earlier (e ∙ ap (λ o. o.2) (run_ready n r earlier ready)) (record {
      made = ready.made;
      found = ready.stays;
      on_files = ready.on_files;
      stays = ready.stays;
    })

-- `Do` with a function on files calls it on the files of a request, each once and in order, and on nothing
-- else: on the pointer to a pointer to it, as the first call, which is how a slave's process receives it; and on
-- a pointer to it, as the first call; after a first call on the vital data that a program receives; after a
-- first call on what a slave's process receives; in a master, after its vital data, sent first or after one
-- report of a slave and the answer to it, and, where its first five calls were on such a report, the answer
-- to it, its vital data, a request and the answer to that, or on the last three and then the first two, after
-- any further messages of it; and in each case after any number of other such requests.
pub do_request :
    (n : ℕ) (r : StartReq) (tmap : Tmap)
    → Before n tmap
    → ((do_files n (codes "**StartReq") (pointer (request_value r)) []).0 ≡ returned tt)
      × ((do_files n (codes "**StartReq") (pointer (request_value r)) []).1
          ≡ map file_value r.files)
      × ((do_files n (codes "*StartReq") (request_value r) tmap).0 ≡ returned tt)
      × ((do_files n (codes "*StartReq") (request_value r) tmap).1 ≡ map file_value r.files)
do_request n r tmap before =
    let nested = run_nested n r in
    let run = run_ready n r tmap (Before-Ready n tmap before) in
    (ap (λ o. o.0) nested, ap (λ o. o.1) nested, ap (λ o. o.0) run, ap (λ o. o.1) run)
