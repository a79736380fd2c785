-- ===== src/Master/Reach.antt =====
-- src/gproc/master.go, src/gproc/common.go: the master's globals over any sequence of connections of both
-- kinds, each served to its end before the next.
use gproc.Common.{
  ℕ, Bool, true, false, not, List, [], ◌∷◌, Option, none, some, ◌≡◌, ◌≢◌, refl, sym, ◌∙◌, inl, inr,
  arith, Str, str_eq, str_eq_iff, All, All-append, Bool-cases, ◌==◌, if◌then◌else◌,
}
use mathlib.Core.Path.{subst}
use gproc.Protocol.{StartReq, VitalData}
use gproc.Registry.{MapOrder}
use gproc.Dispatch.{Net, Node, Ended, returned, panicked, endless, send_commands}
use gproc.Master.{
  Master, start_master, vital_data, greet, do_except, do_info, do_exec, finish_exec, switch_command,
  serve, cut_7, fix_server, learn_netaddr, add_slave, register,
}

-- A program that sees that the hosts are ready is given an address.
abbrev pub GoodVital : VitalData → Type 0
GoodVital v = v.host_ready ≡ true → v.host_addr ≢ []

-- Once the hosts are ready the address that programs are told is the master's own, and there is one.
-- Every vital data that was sent is good.
pub record IsTold (ready : Bool) (host_addr netaddr : Str) (vitals : List VitalData) : Type 0 where
  pub told : ready ≡ true → (host_addr ≡ netaddr) × (netaddr ≢ [])
  pub good : All GoodVital vitals

abbrev pub Told : Master → Type 0
Told m = IsTold m.host_ready m.host_addr m.netaddr m.vitals

greet-Told : (m : Master) → Told m → Told (greet m)
unfolding greet
greet-Told m h = elim (Bool-cases (str_eq m.netaddr [])) [
  | inl unknown ↦ rw unknown (record {
    told = h.told;
    good =
        All-append GoodVital m.vitals (vital_data m ∷ []) h.good
          (λ ready e. (h.told ready).1 (sym (h.told ready).0 ∙ e), tt);
  })
  | inr known ↦
      let set : m.netaddr ≢ [] = ground (arith, str_eq_iff m.netaddr []) in
      rw known (record {
        told = λ _. (refl, set);
        good = All-append GoodVital m.vitals _ h.good (λ _. set, tt);
      })
]

-- What programs are told is the same in both states.
abbrev pub SameTold : Master → Master → Type 0
SameTold m m' =
    (m'.host_ready ≡ m.host_ready)
    × (m'.host_addr ≡ m.host_addr)
    × (m'.netaddr ≡ m.netaddr)
    × (m'.vitals ≡ m.vitals)

SameTold-Told : (m m' : Master) → SameTold m m' → Told m → Told m'
SameTold-Told m m' (r, a, n, v) h = rw (r, a, n, v) h

SameTold-finish : (m : Master) (r : Ended ℕ × Node) → SameTold m (finish_exec m r).1
SameTold-finish m (returned c, n) = (refl, refl, refl, refl)
SameTold-finish m (panicked, n) = (refl, refl, refl, refl)
SameTold-finish m (endless, n) = (refl, refl, refl, refl)

SameTold-if :
    (b : Bool) (m : Master) (x y : Ended (Unit {0}) × Master)
    → SameTold m x.1
    → SameTold m y.1
    → SameTold m (if b then x else y).1
SameTold-if true m x y hx hy = hx
SameTold-if false m x y hx hy = hy

pub SameTold-switch :
    (fuel : ℕ) (net : Net) (go : MapOrder) (a : StartReq) (cmd : Str) (m : Master)
    → SameTold m (switch_command fuel net go a cmd m).1
unfolding switch_command do_except do_info do_exec
SameTold-switch fuel net go a [] m = (refl, refl, refl, refl)
SameTold-switch fuel net go a (c ∷ cmd) m =
    SameTold-if (c == b'x') m _ _ (refl, refl, refl, refl)
      (SameTold-if (c == b'i') m _ _ (refl, refl, refl, refl)
        (SameTold-if (c == b'e') m _ _
          (SameTold-if (not m.host_ready) m (returned tt, m)
            (finish_exec m (send_commands fuel net go a [] m.node)) (refl, refl, refl, refl)
            (SameTold-finish m (send_commands fuel net go a [] m.node)))
          (refl, refl, refl, refl)))

serve-Told :
    (fuel : ℕ) (net : Net) (go : MapOrder) (o : Option StartReq) (m : Master)
    → Told m
    → Told (serve fuel net go o m).1
unfolding serve
serve-Told fuel net go none m h = greet-Told m h
serve-Told fuel net go (some a) m h =
    SameTold-Told (greet m) (switch_command fuel net go a a.command (greet m)).1
      (SameTold-switch fuel net go a a.command (greet m)) (greet-Told m h)

learn-Told : (vd : VitalData) (m : Master) → Told m → Told (learn_netaddr vd m)
unfolding learn_netaddr
learn-Told vd m h = elim (Bool-cases (str_eq m.netaddr [])) [
  | inl unknown ↦ rw unknown (record {
    told = λ ready. absurd ((h.told ready).1 ((str_eq_iff m.netaddr []).0 unknown));
    good = h.good;
  })
  | inr known ↦ rw known h
]

add_slave-Told :
    (vd : VitalData) (r : ℕ) (m : Master) (o : Option Str) → Told m → Told (add_slave vd r m o).1
add_slave-Told vd r m none h = h
add_slave-Told vd r m (some server) h = h

register-Told :
    (o : Option VitalData) (r : ℕ) (remote : Str) (m : Master)
    → Told m
    → Told (register o r remote m).1
unfolding register
register-Told none r remote m h = h
register-Told (some vd) r remote m h =
    add_slave-Told vd r (learn_netaddr vd m)
      (fix_server vd.server_addr remote (cut_7 vd.server_addr)) (learn-Told vd m h)

module _ (go : MapOrder) where
  -- One connection of either kind, served to its end.
  pub data Step (m : Master) : Master → Type 0 where
    served :
        (fuel : ℕ) (net : Net) (o : Option StartReq) {m' : Master}
        → m' ≡ (serve fuel net go o m).1
        → Step m m'
    registered :
        (o : Option VitalData) (r : ℕ) (remote : Str) {m' : Master}
        → m' ≡ (register o r remote m).1
        → Step m m'

  pub data Reach : Master → Type 0 where
    start : Reach start_master
    next : {m m' : Master} → Reach m → Step m m' → Reach m'

  Step-Told : {m m' : Master} → Step m m' → Told m → Told m'
  Step-Told {m} (served fuel net o e) h = subst Told (sym e) (serve-Told fuel net go o m h)
  Step-Told {m} (registered o r remote e) h = subst Told (sym e) (register-Told o r remote m h)

  -- If connections of both kinds are served one after the other, each to its end before the next: in every
  -- state that the master reaches, every vital data that it has sent and that says that the hosts are ready
  -- holds an address, and once they are ready that address is the master's own.
  pub Reach-Told : {m : Master} → Reach m → Told m
  Reach-Told start = record { told = λ e. absurd (ground arith); good = tt }
  Reach-Told (next reach step) = Step-Told step (Reach-Told reach)
