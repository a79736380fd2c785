-- ===== src/Master/Interleaved.antt =====
-- src/gproc/master.go: the start of the function that serves a connection, statement by statement, for several
-- connections at once: they share the vital data. What a connection does with its request is one step.
use gproc.Common.{
  ℕ, Bool, true, false, List, [], ◌∷◌, ◌++◌, Option, ◌≡◌, refl, inl, inr, Str, str_eq, Bool-cases,
  if◌then◌else◌,
}
use gproc.Protocol.{StartReq, VitalData}
use gproc.Registry.{MapOrder}
use gproc.Dispatch.{Net}
use gproc.Master.{Master, start_master, vital_data, greet, switch_command, register}

-- The statement that is next: the test of the address, the three that follow it where there is one, the send,
-- with whether the test found an address, and the rest of the function.
pub data Point : Type 0 where
  tests : Point
  sets_ready : Point
  sets_error : Point
  sets_address : Point
  sends : Bool → Point
  receives : Point
  ended : Point

-- One statement. What follows the send is not made of single statements.
unfoldable pub act : Point → Master → Point × Master
act tests m = if str_eq m.netaddr [] then (sends false, m) else (sets_ready, m)
act sets_ready m = (sets_error, record m { host_ready = true })
act sets_error m = (sets_address, record m { error_text = [] })
act sets_address m = (sends true, record m { host_addr = m.netaddr })
act (sends known) m = (receives, record m { vitals = m.vitals ++ vital_data m ∷ [] })
act receives m = (receives, m)
act ended m = (ended, m)

-- Five statements of one connection alone are its greeting.
five-greet :
    (m : Master)
    → (let (p1, m1) = act tests m in
        let (p2, m2) = act p1 m1 in
        let (p3, m3) = act p2 m2 in let (p4, m4) = act p3 m3 in act p4 m4)
      ≡ (receives, greet m)
unfolding act greet
five-greet m = elim (Bool-cases (str_eq m.netaddr [])) [
  | inl unknown ↦ rw unknown refl
  | inr known ↦ rw known refl
]

-- The globals, and where each connection stands.
pub record System : Type 0 where
  pub master : Master
  pub points : List Point

module _ (go : MapOrder) where
  -- A connection comes; one executes a statement; one is served, or its request does not come; a slave reports.
  pub data Step (s : System) : System → Type 0 where
    accepted : {s' : System} → s' ≡ record s { points = s.points ++ tests ∷ [] } → Step s s'
    acted :
        (before after : List Point) (p : Point) {s' : System}
        → s.points ≡ before ++ p ∷ after
        → s' ≡ record { master = (act p s.master).1; points = before ++ (act p s.master).0 ∷ after }
        → Step s s'
    answered :
        (before after : List Point) (fuel : ℕ) (net : Net) (a : StartReq) {s' : System}
        → s.points ≡ before ++ receives ∷ after
        → s' ≡ record {
          master = (switch_command fuel net go a a.command s.master).1;
          points = before ++ ended ∷ after;
        }
        → Step s s'
    hung_up :
        (before after : List Point) {s' : System}
        → s.points ≡ before ++ receives ∷ after
        → s' ≡ record s { points = before ++ ended ∷ after }
        → Step s s'
    registered :
        (o : Option VitalData) (r : ℕ) (remote : Str) {s' : System}
        → s' ≡ record s { master = (register o r remote s.master).1 }
        → Step s s'

  pub data Reach : System → Type 0 where
    start : Reach (record { master = start_master; points = [] })
    next : {s s' : System} → Reach s → Step s s' → Reach s'
