-- ===== src/Master/Schedules.antt =====
-- src/gproc/master.go: every interleaving of the starts of connections.
use gproc.Common.{
  ℕ, List, [], ◌∷◌, Option, none, some, ◌≡◌, ◌≢◌, refl, sym, ◌∙◌, inl, inr, arith, Str, str_eq,
  str_eq_iff, All-append, Bool-cases,
}
use mathlib.Core.Path.{subst}
use gproc.Protocol.{VitalData}
use gproc.Registry.{MapOrder}
use gproc.Master.{Master, switch_command, cut_7, fix_server, learn_netaddr, add_slave, register}
use gproc.Master.Reach.{SameTold-switch}
use gproc.Master.Interleaved.{
  Point, tests, receives, ended, System, Step, accepted, acted, answered, hung_up, registered,
  Reach, start, next,
}
use gproc.Master.Told.{
  IsTold, Later, Later-All, Own-later, sent-later, in_between-append, IsTold-same, IsTold-replace,
  act-IsTold,
}

-- A report changes the master's address only where there is none, and nothing that programs are told.
record Learns (m m' : Master) : Type 0 where
  address : m.netaddr ≢ [] → m'.netaddr ≡ m.netaddr
  same_ready : m'.host_ready ≡ m.host_ready
  same_address : m'.host_addr ≡ m.host_addr
  same_vitals : m'.vitals ≡ m.vitals

learn-Learns : (vd : VitalData) (m : Master) → Learns m (learn_netaddr vd m)
unfolding learn_netaddr
learn-Learns vd m = elim (Bool-cases (str_eq m.netaddr [])) [
  | inl unknown ↦ rw unknown (record {
    address = λ set. absurd (set ((str_eq_iff m.netaddr []).0 unknown));
    same_ready = refl;
    same_address = refl;
    same_vitals = refl;
  })
  | inr known ↦
      rw known
        (record { address = λ _. refl; same_ready = refl; same_address = refl; same_vitals = refl })
]

add-Learns :
    (vd : VitalData) (r : ℕ) (m m' : Master) (o : Option Str)
    → Learns m m'
    → Learns m (add_slave vd r m' o).1
add-Learns vd r m m' none h = h
add-Learns vd r m m' (some server) h = record {
  address = h.address;
  same_ready = h.same_ready;
  same_address = h.same_address;
  same_vitals = h.same_vitals;
}

register-Learns :
    (o : Option VitalData) (r : ℕ) (remote : Str) (m : Master) → Learns m (register o r remote m).1
unfolding register
register-Learns none r remote m = record {
  address = λ _. refl;
  same_ready = refl;
  same_address = refl;
  same_vitals = refl;
}
register-Learns (some vd) r remote m =
    add-Learns vd r m (learn_netaddr vd m) (fix_server vd.server_addr remote (cut_7 vd.server_addr))
      (learn-Learns vd m)

Learns-IsTold : (m m' : Master) (ps : List Point) → Learns m m' → IsTold m ps → IsTold m' ps
Learns-IsTold m m' ps l h =
    let later : Later m m' =
      (l.address, λ ready. l.same_ready ∙ ready, λ _ a. l.same_address ∙ a) in
    record {
      at = Later-All m m' ps later h.at;
      own = rw (l.same_ready, l.same_address) (Own-later m m' m.host_ready m.host_addr later h.own);
      half = rw (l.same_ready, l.same_address) h.half;
      sent = rw l.same_vitals (sent-later m m' m.vitals later h.sent);
    }

module _ (go : MapOrder) where
  abbrev Safe : System → Type 0
  Safe s = IsTold s.master s.points

  Step-IsTold : {s s' : System} → Step go s s' → Safe s → Safe s'
  Step-IsTold {s} (accepted e) h = subst Safe (sym e) (record {
    at = All-append _ s.points (tests ∷ []) h.at (tt, tt);
    own = h.own;
    half = λ ready none_set. in_between-append s.points (tests ∷ []) (h.half ready none_set);
    sent = h.sent;
  })
  Step-IsTold {s} (acted before after p places e) h =
      subst Safe (sym e) (act-IsTold before after p s.master (subst (IsTold s.master) places h))
  Step-IsTold {s} (answered before after fuel net a places e) h =
      let moved =
        IsTold-replace before after s.master receives ended (λ b. b) tt
          (subst (IsTold s.master) places h) in
      subst Safe (sym e) (
        IsTold-same s.master (switch_command fuel net go a a.command s.master).1 _
          (SameTold-switch fuel net go a a.command s.master) moved)
  Step-IsTold {s} (hung_up before after places e) h = subst Safe (sym e) (
      IsTold-replace before after s.master receives ended (λ b. b) tt
        (subst (IsTold s.master) places h))
  Step-IsTold {s} (registered o r remote e) h =
      subst Safe (sym e) (Learns-IsTold s.master _ s.points (register-Learns o r remote s.master) h)

  -- Whatever connections a master serves at once, statement by statement, and whatever slaves report in
  -- between: every vital data that it has sent and that holds an address says that the hosts are ready, and the
  -- address is the master's own; so does one that is sent by a connection that found the address set when it
  -- came; and the vital data says that the hosts are ready without an address only while another connection
  -- has set the first of the three fields and not the last.
  pub Reach-IsTold : {s : System} → Reach go s → IsTold s.master s.points
  Reach-IsTold start = record {
    at = tt;
    own = λ a. absurd (a refl);
    half = λ ready _. absurd (ground (arith, ready));
    sent = tt;
  }
  Reach-IsTold (next reach step) = Step-IsTold step (Reach-IsTold reach)
