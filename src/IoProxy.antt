-- ===== src/IoProxy.antt =====
-- src/gproc/common.go: `ioProxy`, one goroutine for each worker that connects, and the loops of
-- src/gproc/slave.go and src/gproc/mexec.go that wait for so many workers, interleaved in any order.
pub mod Wait
pub mod Tests
use gproc.Common.{
  ℕ, zero, suc, ◌+◌, ◌-◌, ◌<◌, Bool, true, false, List, [], ◌∷◌, ◌++◌, Option, none, some, ◌≡◌,
  ◌==◌, if◌then◌else◌,
}

-- The number of the next worker; the workers whose input is copied; those whose copy has ended and that
-- stand at the channel, which has no buffer; those that were received; those whose copy ended with an error,
-- which panic once they are received; and how many are still waited for. A panic ends the program.
pub record Proxy : Type 0 where
  pub which_worker : ℕ
  pub copying : List ℕ
  pub sending : List ℕ
  pub received : List ℕ
  pub failed : List ℕ
  pub num_workers : ℕ
  pub alive : Bool

-- `for whichWorker := 7090; ; whichWorker++`
abbrev pub first_worker : ℕ
first_worker = 7090

-- A proxy that has just started, and a loop that waits for so many workers.
abbrev pub start_proxy : ℕ → Proxy
start_proxy num_workers = record {
  which_worker = first_worker;
  copying = [];
  sending = [];
  received = [];
  failed = [];
  num_workers = num_workers;
  alive = true;
}

-- The list without the number, if it is there.
unfoldable pub take_out : ℕ → List ℕ → Option (List ℕ)
take_out id [] = none
take_out id (i ∷ is) =
    let rest = take_out id is in
    if i == id then some is else elim rest [ none ↦ none | some left ↦ some (i ∷ left) ]

-- A worker connects; `Accept` fails; the copy of a worker ends, without an error or with one; a worker is
-- received from the channel; the goroutine of a worker with an error panics behind that.
pub data Action : Type 0 where
  connect : Action
  accept_error : Action
  copy_ends : Bool → ℕ → Action
  receive : ℕ → Action
  worker_panics : ℕ → Action

abbrev pub end_copy : Bool → ℕ → Proxy → Option (List ℕ) → Option Proxy
end_copy ok id s none = none
end_copy ok id s (some left) = some (record s {
  copying = left;
  sending = s.sending ++ id ∷ [];
  failed = if ok then s.failed else s.failed ++ id ∷ [];
})

abbrev pub panic_of : Proxy → Option (List ℕ) → Option (List ℕ) → Option Proxy
panic_of s (some others) (some more) = some (record s { alive = false })
panic_of s o p = none

-- One round of the waiting loop.
abbrev pub receive_one : ℕ → Proxy → ℕ → Option (List ℕ) → Option Proxy
receive_one id s zero left = none
receive_one id s (suc n) none = none
receive_one id s (suc n) (some left) =
    some (record s { sending = left; received = s.received ++ id ∷ []; num_workers = n })

abbrev pub if_alive : Bool → Option Proxy → Option Proxy
if_alive true r = r
if_alive false r = none

-- An action, where it can happen. Where `Accept` fails there is no connection, and the address of
-- none is asked for before the error is looked at.
unfoldable pub act : Action → Proxy → Option Proxy
unfolding take_out
act connect s = if_alive s.alive (
    some
      (record s { which_worker = s.which_worker + 1; copying = s.copying ++ s.which_worker ∷ [] }))
act accept_error s = if_alive s.alive (some (record s { alive = false }))
act (copy_ends ok id) s = if_alive s.alive (end_copy ok id s (take_out id s.copying))
act (worker_panics id) s =
    if_alive s.alive (panic_of s (take_out id s.received) (take_out id s.failed))
act (receive id) s = if_alive s.alive (receive_one id s s.num_workers (take_out id s.sending))

-- The states that actions lead to, from a proxy whose caller waits for so many workers.
pub data Reach (n : ℕ) : Proxy → Type 0 where
  start : Reach n (start_proxy n)
  later : {s s' : Proxy} (a : Action) → Reach n s → act a s ≡ some s' → Reach n s'

-- Sequences of actions of the workers that are connected, and of the caller.
pub data Runs : Proxy → Proxy → Type 0 where
  stay : {s : Proxy} → Runs s s
  copy_then :
      {s s' s'' : Proxy} (id : ℕ) → act (copy_ends true id) s ≡ some s' → Runs s' s'' → Runs s s''
  receive_then :
      {s s' s'' : Proxy} (id : ℕ) → act (receive id) s ≡ some s' → Runs s' s'' → Runs s s''
