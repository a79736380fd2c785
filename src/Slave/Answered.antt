-- ===== src/Slave/Answered.antt =====
-- src/gproc/slave.go: how many of the programs that a slave starts it answers, whatever they are and do.
use gproc.Common.{
  suc, ◌+◌, ◌≤◌, Bool, true, false, List, [], ◌∷◌, ◌++◌, Option, none, some, ◌≡◌, refl, arith, Str,
  length, length-append, All, All-append, if◌then◌else◌,
}
use gproc.NodeList.{NodeExecList}
use gproc.Dispatch.{Ended, returned, panicked, endless}
use gproc.Registry.{MapOrder}
use gproc.Master.{Master, register}
use gproc.CommandLine.Flags.{MainEnd}
use gproc.Slave.{answer_child}
use gproc.Slave.Main.{
  SlaveFlags, slave_argv, Says, asks, garbled, silent, Event, accept_fails, connects, reports,
  parent_leaves, Slave, Stage, runs, panics, exits_0, hear, take_connection, heard, answer_program,
  reported, on_event, after_event, on_events, new_slave,
}

-- All programs were started with the slave's arguments, no more were answered than started, and at most one
-- was not.
pub record Counts (f : SlaveFlags) (s : Slave) : Type 0 where
  pub arguments : All (λ argv. argv ≡ slave_argv f s.id) s.started
  pub fewer : length s.answers ≤ length s.started
  pub all_but_one : length s.started ≤ suc (length s.answers)

-- While a slave accepts connections, it has answered all that it started.
abbrev pub Served : Slave → Type 0
Served s = s.accepting ≡ true → length s.started ≡ length s.answers

-- A slave that runs or has left with its parent is served, one that panicked counts.
abbrev pub StageCounts : SlaveFlags → Stage → Type 0
StageCounts f (runs s) = Counts f s × Served s
StageCounts f (panics s) = Counts f s
StageCounts f (exits_0 s) = Counts f s × Served s

after_event-StageCounts :
    (f : SlaveFlags) (r : Stage) (go_on : Slave → Stage)
    → StageCounts f r
    → ((s : Slave) → Counts f s × Served s → StageCounts f (go_on s))
    → StageCounts f (after_event r go_on)
after_event-StageCounts f (runs s) go_on h keeps = keeps s h
after_event-StageCounts f (panics s) go_on h keeps = h
after_event-StageCounts f (exits_0 s) go_on h keeps = h

module _ (program : List Str → MainEnd) (go : MapOrder) (f : SlaveFlags) where
  abbrev one_more : Slave → Slave
  one_more s = record s { started = s.started ++ slave_argv f s.id ∷ [] }

  one_more-Counts :
      (s : Slave) (answers : List NodeExecList) (accepting : Bool)
      → Counts f s
      → length s.started ≡ length s.answers
      → length s.answers ≤ length answers
      → length answers ≤ suc (length s.answers)
      → Counts f (record (one_more s) { answers = answers; accepting = accepting })
  one_more-Counts s answers accepting c equal least most =
      let more : length (s.started ++ slave_argv f s.id ∷ []) ≡ length s.started + 1 =
        length-append s.started (slave_argv f s.id ∷ []) in
      record {
        arguments =
            All-append (λ argv. argv ≡ slave_argv f s.id) s.started _ c.arguments (refl, tt);
        fewer = omega (arith, more, equal, most);
        all_but_one = omega (arith, more, equal, least);
      }

  answer-StageCounts :
      (s : Slave) (o : Option NodeExecList)
      → Counts f s
      → length s.started ≡ length s.answers
      → StageCounts f (answer_program (one_more s) o)
  answer-StageCounts s none c e =
      one_more-Counts s s.answers s.accepting c e (omega arith) (omega arith)
  answer-StageCounts s (some ne) c e =
      let more : length (s.answers ++ ne ∷ []) ≡ length s.answers + 1 =
        length-append s.answers (ne ∷ []) in
      let begun : length (s.started ++ slave_argv f s.id ∷ []) ≡ length s.started + 1 =
        length-append s.started (slave_argv f s.id ∷ []) in
      (
        one_more-Counts s (s.answers ++ ne ∷ []) s.accepting c e (omega (arith, more))
            (omega (arith, more)),
        λ _. omega (arith, more, begun, e),
      )

  hear-StageCounts :
      (s : Slave) (says : Says)
      → Counts f s
      → length s.started ≡ length s.answers
      → StageCounts f (hear go (one_more s) says)
  unfolding hear
  hear-StageCounts s (asks ne) c e =
      answer-StageCounts s (answer_child go s.globals.node.slaves ne) c e
  hear-StageCounts s garbled c e = (
    one_more-Counts s s.answers false c e (omega arith) (omega arith),
    λ on. absurd (ground (arith, on)),
  )
  hear-StageCounts s silent c e = (
    one_more-Counts s s.answers false c e (omega arith) (omega arith),
    λ on. absurd (ground (arith, on)),
  )

  take-StageCounts :
      (can_start : Bool) (says : Says) (s : Slave)
      → Counts f s × Served s
      → s.accepting ≡ true
      → StageCounts f (take_connection program go f can_start says s)
  unfolding take_connection
  take-StageCounts false says s (c, served) on = c
  take-StageCounts true says s (c, served) on =
      hear-StageCounts s (heard (program (slave_argv f s.id)) says) c (served on)

  reported-StageCounts :
      (s : Slave) (r : Ended (Option Str) × Master)
      → Counts f s × Served s
      → StageCounts f (reported s r)
  reported-StageCounts s (returned resp, m) (c, served) =
      (record { arguments = c.arguments; fewer = c.fewer; all_but_one = c.all_but_one }, served)
  reported-StageCounts s (panicked, m) (c, served) = record {
    arguments = c.arguments;
    fewer = c.fewer;
    all_but_one = c.all_but_one;
  }
  reported-StageCounts s (endless, m) (c, served) = record {
    arguments = c.arguments;
    fewer = c.fewer;
    all_but_one = c.all_but_one;
  }

  on_event-StageCounts :
      (e : Event) (s : Slave) → Counts f s × Served s → StageCounts f (on_event program go f e s)
  unfolding on_event
  on_event-StageCounts accept_fails s (c, served) = (
    record { arguments = c.arguments; fewer = c.fewer; all_but_one = c.all_but_one },
    λ on. absurd (ground (arith, on)),
  )
  on_event-StageCounts (connects can_start says) s h =
      by_accepting s.accepting (take-StageCounts can_start says s h)
    where
      by_accepting :
          (b : Bool)
          → (b ≡ true → StageCounts f (take_connection program go f can_start says s))
          → StageCounts f (if b then take_connection program go f can_start says s else runs s)
      by_accepting true take = take refl
      by_accepting false take = h
  on_event-StageCounts (reports vd r remote) s h =
      reported-StageCounts s (register vd r remote s.globals) h
  on_event-StageCounts parent_leaves s h = h

  on_events-StageCounts :
      (es : List Event) (s : Slave)
      → Counts f s × Served s
      → StageCounts f (on_events program go f es s)
  unfolding on_events
  on_events-StageCounts [] s h = h
  on_events-StageCounts (e ∷ es) s h =
      after_event-StageCounts f (on_event program go f e s) _ (on_event-StageCounts e s h)
        (on_events-StageCounts es)

  -- Whatever the program that a slave starts does, and whatever connections and reports come: all programs were
  -- started with the arguments that carry the slave's id and flags, the slave has answered no more than it
  -- started and all but at most one, and one that runs on and accepts connections has answered all of them.
  pub on_events_answered :
      (es : List Event) (id : Str) → StageCounts f (on_events program go f es (new_slave id))
  on_events_answered es id =
      on_events-StageCounts es (new_slave id)
        (record { arguments = tt; fewer = omega arith; all_but_one = omega arith }, λ _. refl)
