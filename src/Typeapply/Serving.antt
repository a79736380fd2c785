-- ===== src/Typeapply/Serving.antt =====
-- src/gproc/master.go, src/gproc/common.go: the calls of `Do` that a master makes.
use gproc.Common.{ℕ, [], ◌≡◌, refl, sym, ap, ◌∙◌, Str, codes}
use mathlib.Core.Path.{subst}
use gproc.Common.Dict.{lookup}
use gproc.Dispatch.{returned}
use gproc.Protocol.{StartReq}
use gproc.Typeapply.{nil_func, Infos}
use gproc.Typeapply.Values.{Value, Tmap}
use gproc.Typeapply.Request.{request_value}
use gproc.Typeapply.Calls.{getter, Ready, do_files, entries, entries-insert, run_quiet, run_ready}
use gproc.Typeapply.Firsts.{Settled, Settled-Ready, slave_first, command_first, get_received}

-- The map after a message.
abbrev pub after : ℕ → Str → Value → Tmap → Tmap
after n xt v tmap = (do_files n xt v tmap).2

abbrev pub after_request : ℕ → StartReq → Tmap → Tmap
after_request n r tmap = after n (codes "*StartReq") (request_value r) tmap

-- The map after the report of a slave, and the answer to it.
abbrev pub after_slave : ℕ → Value → Value → Tmap → Tmap
after_slave n report id tmap =
    after n (codes "SlaveResp") id (after n (codes "**vitalData") report tmap)

-- The map after the vital data that is sent to a program, the request of the program, and the answer to it.
abbrev pub after_command : ℕ → Value → StartReq → Value → Tmap → Tmap
after_command n vital r answer tmap =
    after n (codes "Resp") answer (after_request n r (after n (codes "vitalData") vital tmap))

-- The messages of a master that hold no file.
pub data Quiet : Str → Type 0 where
  report : Quiet (codes "**vitalData")
  id : Quiet (codes "SlaveResp")
  vital : Quiet (codes "vitalData")
  answer : Quiet (codes "Resp")

-- What `Do` has kept in a master that has heard of a slave and answered a program with its first five calls, in
-- either order, and then received and sent any of its messages.
pub data Serving (n : ℕ) : Tmap → Type 0 where
  slave_and_command :
      {tmap : Tmap} (v0 v1 v2 v3 : Value) (r : StartReq)
      → tmap ≡ after_command n v2 r v3 (after_slave n v0 v1 [])
      → Serving n tmap
  command_and_slave :
      {tmap : Tmap} (v0 v1 v2 v3 : Value) (r : StartReq)
      → tmap ≡ after_slave n v0 v1 (after_command n v2 r v3 [])
      → Serving n tmap
  message :
      {tmap : Tmap} (xt : Str) (v : Value) (earlier : Tmap)
      → Quiet xt
      → Serving n earlier
      → tmap ≡ after n xt v earlier
      → Serving n tmap
  request :
      {tmap : Tmap} (r : StartReq) (earlier : Tmap)
      → Serving n earlier
      → tmap ≡ after_request n r earlier
      → Serving n tmap

entries-after :
    (n : ℕ) (xt : Str) (v : Value) (tmap : Tmap) (m m' : Infos)
    → entries tmap ≡ m
    → getter n m xt ≡ returned (nil_func, m')
    → entries (after n xt v tmap) ≡ m'
entries-after n xt v tmap m m' e got =
    ap (λ o. entries o.2)
      (run_quiet n xt v m' tmap (subst (λ k. getter n k xt ≡ returned (nil_func, m')) (sym e) got))
    ∙ entries-insert m' tmap

entries-after_request :
    (n : ℕ) (r : StartReq) (tmap : Tmap) (m : Infos) (ready : Ready n m)
    → entries tmap ≡ m
    → entries (after_request n r tmap) ≡ ready.made
entries-after_request n r tmap m ready e =
    let here : Ready n (entries tmap) = record {
      made = ready.made;
      found = ap (λ k. getter n k (codes "*StartReq")) e ∙ ready.found;
      on_files = ready.on_files;
      stays = ready.stays;
    } in
    ap (λ o. entries o.2) (run_ready n r tmap here) ∙ entries-insert ready.made tmap

get_quiet :
    (n : ℕ) (m : Infos) (xt : Str) → Settled n m → Quiet xt → getter n m xt ≡ returned (nil_func, m)
get_quiet n m xt h report = h.get_report
get_quiet n m xt h id = h.get_id
get_quiet n m xt h vital = h.get_vital
get_quiet n m xt h answer = h.get_answer

Serving-Settled :
    (n : ℕ) (tmap : Tmap) → Serving n tmap → (m : Infos) × (entries tmap ≡ m) × Settled n m
unfolding lookup
Serving-Settled n tmap (slave_and_command v0 v1 v2 v3 r e) =
    let h = slave_first n in
    let e0 = entries-after n (codes "**vitalData") v0 [] [] h.reported refl h.get_report in
    let e1 = entries-after n (codes "SlaveResp") v1 _ h.reported h.answered e0 h.get_id in
    let e2 = entries-after n (codes "vitalData") v2 _ h.answered h.greeted e1 h.get_vital in
    let e3 = entries-after_request n r _ h.greeted h.ready e2 in
    let e4 = entries-after n (codes "Resp") v3 _ h.ready.made h.served e3 h.get_answer in
    (h.served, ap entries e ∙ e4, h.settled)
Serving-Settled n tmap (command_and_slave v0 v1 v2 v3 r e) =
    let h = command_first n in
    let e0 = entries-after n (codes "vitalData") v2 [] [] h.greeted refl h.get_vital in
    let e1 = entries-after_request n r _ h.greeted h.ready e0 in
    let e2 = entries-after n (codes "Resp") v3 _ h.ready.made h.served e1 h.get_answer in
    let e3 = entries-after n (codes "**vitalData") v0 _ h.served h.reported e2 h.get_report in
    let e4 = entries-after n (codes "SlaveResp") v1 _ h.reported h.answered e3 h.get_id in
    (h.answered, ap entries e ∙ e4, h.settled)
Serving-Settled n tmap (message xt v earlier q before e) =
    let (m, known, h) = Serving-Settled n earlier before in
    (m, ap entries e ∙ entries-after n xt v earlier m m known (get_quiet n m xt h q), h)
Serving-Settled n tmap (request r earlier before e) =
    let (m, known, h) = Serving-Settled n earlier before in
    (m, ap entries e ∙ entries-after_request n r earlier m (Settled-Ready n m h) known, h)

pub Serving-Ready : (n : ℕ) (tmap : Tmap) → Serving n tmap → Ready n (entries tmap)
Serving-Ready n tmap before =
    let (m, known, h) = Serving-Settled n tmap before in
    subst (Ready n) (sym known) (Settled-Ready n m h)

-- The entries after the first vital data that a master sends, and after that which a program receives.
pub after_vital-Ready : (n : ℕ) (v : Value) → Ready n (entries (after n (codes "vitalData") v []))
unfolding lookup
after_vital-Ready n v =
    let h = command_first n in
    let e = entries-after n (codes "vitalData") v [] [] h.greeted refl h.get_vital in
    subst (Ready n) (sym e) h.ready

pub after_received-Ready :
    (n : ℕ) (v : Value) → Ready n (entries (after n (codes "*vitalData") v []))
unfolding lookup
after_received-Ready n v =
    let (m, got, ready) = get_received n in
    subst (Ready n) (sym (entries-after n (codes "*vitalData") v [] [] m refl got)) ready

-- The entries of a master that hears of a slave before the first program.
pub after_slave_vital-Ready :
    (n : ℕ) (v0 v1 v2 : Value)
    → Ready n (entries (after n (codes "vitalData") v2 (after_slave n v0 v1 [])))
unfolding lookup
after_slave_vital-Ready n v0 v1 v2 =
    let h = slave_first n in
    let e0 = entries-after n (codes "**vitalData") v0 [] [] h.reported refl h.get_report in
    let e1 = entries-after n (codes "SlaveResp") v1 _ h.reported h.answered e0 h.get_id in
    let e2 = entries-after n (codes "vitalData") v2 _ h.answered h.greeted e1 h.get_vital in
    subst (Ready n) (sym e2) h.ready
