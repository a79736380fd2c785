-- ===== src/Slave/Deaf.antt =====
-- src/gproc/slave.go, src/gproc/main.go: which connections a slave answers.
use gproc.Common.{
  ℕ, ◌≤◌, Bool, true, false, List, [], ◌∷◌, ◌++◌, Option, none, some, ◌≡◌, refl, inl, inr, arith,
  Str, codes, length, Option-cases, if◌then◌else◌, split_2,
}
use gproc.Common.Dict.{Dict, lookup}
use gproc.Registry.{MapOrder}
use gproc.Dispatch.{Ended, returned, panicked, endless}
use gproc.Master.{Master, register}
use gproc.Forth.{Op}
use gproc.CommandLine.Flags.{exit_usage, main, parse_from, word_of}
use gproc.Cluster.{bool_text}
use gproc.Slave.{listen_address, init_slave, slave_vital_data}
use gproc.Slave.Main.{
  SlaveFlags, slave_argv, Says, Event, accept_fails, connects, reports, parent_leaves, Slave, Stage,
  runs, panics, exits_0, hear, take_connection, reported, on_event, after_event, on_events,
  new_slave, Parent, with_id, with_listener, start_slave,
}

argv_with :
    (fuel : ℕ) (ops : Dict Op) (debug private : Bool) (bin_root parent id : Str)
    → main fuel ops (
        (codes "-debug=" ++ bool_text debug)
        ∷ (codes "-p=" ++ bool_text private)
        ∷ (codes "-binRoot=" ++ bin_root)
        ∷ (codes "-parent=" ++ parent)
        ∷ (codes "-prefix=" ++ id)
        ∷ codes "R"
        ∷ [])
      ≡ exit_usage
unfolding main parse_from word_of split_2 lookup
argv_with fuel ops true true bin_root parent id = refl
argv_with fuel ops true false bin_root parent id = refl
argv_with fuel ops false true bin_root parent id = refl
argv_with fuel ops false false bin_root parent id = refl

-- The program that a slave starts for a connection exits in `flag.Parse`: it is given `-parent`, and the flag
-- is called `-myParent`.
pub argv_exits :
    (fuel : ℕ) (ops : Dict Op) (f : SlaveFlags) (id : Str)
    → main fuel ops (slave_argv f id) ≡ exit_usage
unfolding slave_argv
argv_exits fuel ops f id =
    argv_with fuel ops f.extra_debug f.do_private_mount f.bin_root f.parent id

-- The slave of a stage.
abbrev pub slave_of : Stage → Slave
slave_of (runs s) = s
slave_of (panics s) = s
slave_of (exits_0 s) = s

-- No answer was given, and a slave that still accepts connections has started no program.
record IsDeaf (s : Slave) : Type 0 where
  unanswered : s.answers ≡ []
  fresh : s.accepting ≡ true → s.started ≡ []
  few : length s.started ≤ 1

after_event-IsDeaf :
    (r : Stage) (go_on : Slave → Stage)
    → IsDeaf (slave_of r)
    → ((s : Slave) → IsDeaf s → IsDeaf (slave_of (go_on s)))
    → IsDeaf (slave_of (after_event r go_on))
after_event-IsDeaf (runs s) go_on d keeps = keeps s d
after_event-IsDeaf (panics s) go_on d keeps = d
after_event-IsDeaf (exits_0 s) go_on d keeps = d

module _ (fuel : ℕ) (ops : Dict Op) (go : MapOrder) (f : SlaveFlags) where
  reported-IsDeaf :
      (s : Slave) (r : Ended (Option Str) × Master) → IsDeaf s → IsDeaf (slave_of (reported s r))
  reported-IsDeaf s (returned resp, m) d = ground (arith, d)
  reported-IsDeaf s (panicked, m) d = ground (arith, d)
  reported-IsDeaf s (endless, m) d = ground (arith, d)

  take-IsDeaf :
      (can_start : Bool) (says : Says) (s : Slave)
      → IsDeaf s
      → s.accepting ≡ true
      → IsDeaf (slave_of (take_connection (main fuel ops) go f can_start says s))
  unfolding take_connection hear
  take-IsDeaf false says s d on = d
  take-IsDeaf true says s d on = rw (argv_exits fuel ops f s.id) (record {
    unanswered = d.unanswered;
    fresh = λ e. absurd (ground (arith, e));
    few = rw (d.fresh on) (omega arith);
  })

  on_event-IsDeaf :
      (e : Event) (s : Slave) → IsDeaf s → IsDeaf (slave_of (on_event (main fuel ops) go f e s))
  unfolding on_event take_connection hear
  on_event-IsDeaf accept_fails s d = record {
    unanswered = d.unanswered;
    fresh = λ e. absurd (ground (arith, e));
    few = d.few;
  }
  on_event-IsDeaf (connects can_start says) s d =
      by_accepting s.accepting (take-IsDeaf can_start says s d)
    where
      by_accepting :
          (b : Bool)
          → (b ≡ true → IsDeaf (slave_of (take_connection (main fuel ops) go f can_start says s)))
          → IsDeaf (
              slave_of
                (if b then take_connection (main fuel ops) go f can_start says s else runs s))
      by_accepting true h = h refl
      by_accepting false h = d
  on_event-IsDeaf (reports vd r remote) s d = reported-IsDeaf s (register vd r remote s.globals) d
  on_event-IsDeaf parent_leaves s d = d

  on_events-IsDeaf :
      (es : List Event) (s : Slave)
      → IsDeaf s
      → IsDeaf (slave_of (on_events (main fuel ops) go f es s))
  unfolding on_events
  on_events-IsDeaf [] s d = d
  on_events-IsDeaf (e ∷ es) s d =
      after_event-IsDeaf (on_event (main fuel ops) go f e s) _ (on_event-IsDeaf e s d)
        (on_events-IsDeaf es)

  new-IsDeaf : (id : Str) → IsDeaf (new_slave id)
  new-IsDeaf id = record { unanswered = refl; fresh = λ e. refl; few = omega arith }

-- Where the program that a slave starts is gproc itself, the slave answers none, and
-- starts at most one, whatever happens to it.
pub start_slave_deaf :
    (fuel : ℕ) (ops : Dict Op) (go : MapOrder) (f : SlaveFlags) (p : Parent) (es : List Event)
    → ((slave_of (start_slave (main fuel ops) go f p es)).answers ≡ [])
      × (length (slave_of (start_slave (main fuel ops) go f p es)).started ≤ 1)
unfolding start_slave
start_slave_deaf fuel ops go f p es =
    let d : IsDeaf (slave_of (start_slave (main fuel ops) go f p es)) =
      elim (Option-cases p.dialled) [
        | inl refused ↦ rw (start_slave, refused) (new-IsDeaf fuel ops go f [])
        | inr ((local, remote), dialled) ↦
            rw (start_slave, dialled) (listening local remote (p.listens (listen_address local)))
      ] in
    (d.unanswered, d.few)
  where
    named : (r : Ended Str) → IsDeaf (slave_of (with_id (main fuel ops) go f es r))
    named (returned id) =
        on_events-IsDeaf fuel ops go f es (new_slave id) (new-IsDeaf fuel ops go f id)
    named panicked = new-IsDeaf fuel ops go f []
    named endless = new-IsDeaf fuel ops go f []

    listening :
        (local remote : Str) (server : Option Str)
        → IsDeaf (slave_of (with_listener (main fuel ops) go f p es local remote server))
    listening local remote none = new-IsDeaf fuel ops go f []
    listening local remote (some server) =
        named (init_slave (p.response (slave_vital_data f.my_id server local remote)))
