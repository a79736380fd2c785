-- ===== src/Typeapply/Firsts.antt =====
-- src/gproc/master.go, src/gproc/common.go and src/gproc/mexec.go: the entries that the first calls of `Do` make
-- for the messages of a master and of a program.
use gproc.Common.{ℕ, [], ◌≡◌, refl, codes}
use gproc.Common.Dict.{lookup, insert}
use gproc.Dispatch.{returned}
use gproc.Typeapply.{
  nil_func, elements_trav, call_func, Infos, can_reach, get_traverser_func, info_at, make_trav,
  trav_of_kind, reach_kind, visit_fields, field_funcs,
}
use gproc.Typeapply.Request.{files}
use gproc.Typeapply.Calls.{request_trav, getter, Ready}

-- From these entries on no message of a master adds anything.
pub record Settled (n : ℕ) (m : Infos) : Type 0 where
  pub get_report : getter n m (codes "**vitalData") ≡ returned (nil_func, m)
  pub get_id : getter n m (codes "SlaveResp") ≡ returned (nil_func, m)
  pub get_vital : getter n m (codes "vitalData") ≡ returned (nil_func, m)
  pub get_answer : getter n m (codes "Resp") ≡ returned (nil_func, m)
  pub found : getter n m (codes "*StartReq") ≡ returned (request_trav, m)
  pub on_files : (info_at files m).trav ≡ elements_trav call_func

abbrev pub Settled-Ready : (n : ℕ) (m : Infos) → Settled n m → Ready n m
Settled-Ready n m h = record { made = m; found = h.found; on_files = h.on_files; stays = h.found }

-- The entries of a master that hears of a slave first: after the report, the answer to it, the vital data, the
-- request and the answer to that.
pub record SlaveFirst (n : ℕ) : Type 0 where
  pub reported : Infos
  pub answered : Infos
  pub greeted : Infos
  pub served : Infos
  pub get_report : getter n [] (codes "**vitalData") ≡ returned (nil_func, reported)
  pub get_id : getter n reported (codes "SlaveResp") ≡ returned (nil_func, answered)
  pub get_vital : getter n answered (codes "vitalData") ≡ returned (nil_func, greeted)
  pub ready : Ready n greeted
  pub get_answer : getter n ready.made (codes "Resp") ≡ returned (nil_func, served)
  pub settled : Settled n served

pub slave_first : (n : ℕ) → SlaveFirst n
unfolding get_traverser_func can_reach info_at make_trav trav_of_kind reach_kind visit_fields
    field_funcs lookup insert
slave_first n = record {
  reported = _;
  answered = _;
  greeted = _;
  served = _;
  get_report = refl;
  get_id = refl;
  get_vital = refl;
  ready = record { made = _; found = refl; on_files = refl; stays = refl };
  get_answer = refl;
  settled = record {
    get_report = refl;
    get_id = refl;
    get_vital = refl;
    get_answer = refl;
    found = refl;
    on_files = refl;
  };
}

-- The entries of a master that hears of a command first.
pub record CommandFirst (n : ℕ) : Type 0 where
  pub greeted : Infos
  pub served : Infos
  pub reported : Infos
  pub answered : Infos
  pub get_vital : getter n [] (codes "vitalData") ≡ returned (nil_func, greeted)
  pub ready : Ready n greeted
  pub get_answer : getter n ready.made (codes "Resp") ≡ returned (nil_func, served)
  pub get_report : getter n served (codes "**vitalData") ≡ returned (nil_func, reported)
  pub get_id : getter n reported (codes "SlaveResp") ≡ returned (nil_func, answered)
  pub settled : Settled n answered

pub command_first : (n : ℕ) → CommandFirst n
unfolding get_traverser_func can_reach info_at make_trav trav_of_kind reach_kind visit_fields
    field_funcs lookup insert
command_first n = record {
  greeted = _;
  served = _;
  reported = _;
  answered = _;
  get_vital = refl;
  ready = record { made = _; found = refl; on_files = refl; stays = refl };
  get_answer = refl;
  get_report = refl;
  get_id = refl;
  settled = record {
    get_report = refl;
    get_id = refl;
    get_vital = refl;
    get_answer = refl;
    found = refl;
    on_files = refl;
  };
}

-- The entries after the vital data that a program receives.
pub get_received :
    (n : ℕ) → (m : Infos) × (getter n [] (codes "*vitalData") ≡ returned (nil_func, m)) × Ready n m
unfolding get_traverser_func can_reach info_at make_trav trav_of_kind reach_kind visit_fields
    field_funcs lookup insert
get_received n = (_, refl, record { made = _; found = refl; on_files = refl; stays = refl })
