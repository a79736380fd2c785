-- ===== src/Slave/Main.antt =====
-- src/gproc/slave.go: `startSlave`, the process of a slave that stays: it reports to its parent, lets other
-- slaves report to it, and starts a program for each connection, one after the other.
use gproc.Common.{
  ℕ, Bool, true, false, List, [], ◌∷◌, ◌++◌, Option, none, some, Str, codes, if◌then◌else◌,
}
use gproc.Protocol.{VitalData}
use gproc.NodeList.{NodeExecList}
use gproc.Registry.{MapOrder}
use gproc.Dispatch.{Ended, returned, panicked, endless}
use gproc.Master.{Master, start_master, register}
use gproc.Cluster.{bool_text}
use gproc.CommandLine.{slave_proc}
use gproc.CommandLine.Flags.{MainEnd, starts}
use gproc.Slave.{listen_address, slave_vital_data, init_slave, answer_child}

-- The flags that `startSlave` uses.
pub record SlaveFlags : Type 0 where
  pub extra_debug : Bool
  pub do_private_mount : Bool
  pub bin_root : Str
  pub parent : Str
  pub cmd_port : Str
  pub my_id : Str

-- The arguments of the program that is started for a connection, behind its name.
unfoldable pub slave_argv : SlaveFlags → Str → List Str
slave_argv f id =
    (codes "-debug=" ++ bool_text f.extra_debug)
    ∷ (codes "-p=" ++ bool_text f.do_private_mount)
    ∷ (codes "-binRoot=" ++ f.bin_root)
    ∷ (codes "-parent=" ++ f.parent)
    ∷ (codes "-prefix=" ++ id)
    ∷ codes "R"
    ∷ []

-- What the program that was started says on its pipe: the nodes that it asks for, something that is no such
-- message, or nothing. The slave holds the other end open itself, so that nothing is waited for without end.
pub data Says : Type 0 where
  asks : NodeExecList → Says
  garbled : Says
  silent : Says

-- What happens to a slave: `Accept` fails; a connection comes, with whether the program can be started and
-- what `slaveProc` says there; a slave reports, on a connection with a number from an address; the parent goes.
pub data Event : Type 0 where
  accept_fails : Event
  connects : Bool → Says → Event
  reports : Option VitalData → ℕ → Str → Event
  parent_leaves : Event

-- The globals, the id, whether connections are still accepted, the arguments of the programs that were
-- started, and the answers to them.
pub record Slave : Type 0 where
  pub globals : Master
  pub id : Str
  pub accepting : Bool
  pub started : List (List Str)
  pub answers : List NodeExecList

-- Where the process stands: it runs, it panicked, or it has exited with status 0.
pub data Stage : Type 0 where
  runs : Slave → Stage
  panics : Slave → Stage
  exits_0 : Slave → Stage

-- A program that does not get as far as `slaveProc` says nothing.
abbrev pub heard : MainEnd → Says → Says
heard (starts slave_proc node set) says = says
heard end says = silent

-- The answer to a program, and the wait for its end.
abbrev pub answer_program : Slave → Option NodeExecList → Stage
answer_program s none = panics s
answer_program s (some ne) = runs (record s { answers = s.answers ++ ne ∷ [] })

-- Behind the start of the program.
unfoldable pub hear : MapOrder → Slave → Says → Stage
hear go s (asks ne) = answer_program s (answer_child go s.globals.node.slaves ne)
hear go s garbled = runs (record s { accepting = false })
hear go s silent = runs (record s { accepting = false })

-- One round of the loop for connections. The program is a parameter: how it goes on with its arguments.
unfoldable pub take_connection :
    (List Str → MainEnd) → MapOrder → SlaveFlags → Bool → Says → Slave → Stage
unfolding hear slave_argv
take_connection program go f false says s = panics s
take_connection program go f true says s =
    let argv = slave_argv f s.id in
    hear go (record s { started = s.started ++ argv ∷ [] }) (heard (program argv) says)

abbrev pub reported : Slave → Ended (Option Str) × Master → Stage
reported s (returned resp, m) = runs (record s { globals = m })
reported s (panicked, m) = panics (record s { globals = m })
reported s (endless, m) = panics (record s { globals = m })

-- What a slave does on an event. A connection that comes when none is accepted waits.
unfoldable pub on_event : (List Str → MainEnd) → MapOrder → SlaveFlags → Event → Slave → Stage
unfolding take_connection
on_event program go f accept_fails s = runs (record s { accepting = false })
on_event program go f (connects can_start says) s =
    if s.accepting then take_connection program go f can_start says s else runs s
on_event program go f (reports vd r remote) s = reported s (register vd r remote s.globals)
on_event program go f parent_leaves s = exits_0 s

-- Events go on only for a process that runs.
abbrev pub after_event : Stage → (Slave → Stage) → Stage
after_event (runs s) go_on = go_on s
after_event (panics s) go_on = panics s
after_event (exits_0 s) go_on = exits_0 s

unfoldable pub on_events : (List Str → MainEnd) → MapOrder → SlaveFlags → List Event → Slave → Stage
unfolding on_event
on_events program go f [] s = runs s
on_events program go f (e ∷ es) s =
    after_event (on_event program go f e s) (λ s'. on_events program go f es s')

abbrev pub new_slave : Str → Slave
new_slave id = record {
  globals = start_master;
  id = id;
  accepting = true;
  started = [];
  answers = [];
}

-- What `startSlave` finds: the two addresses of its connection to the parent, if the dial succeeds; the
-- address of its listener, if it can listen; the id in the parent's response to its vital data, if one comes.
pub record Parent : Type 0 where
  pub dialled : Option (Str × Str)
  pub listens : Str → Option Str
  pub response : VitalData → Option Str

-- From the response on; where there is none the process panics.
abbrev pub with_id : (List Str → MainEnd) → MapOrder → SlaveFlags → List Event → Ended Str → Stage
with_id program go f es (returned id) = on_events program go f es (new_slave id)
with_id program go f es panicked = panics (new_slave [])
with_id program go f es endless = panics (new_slave [])

abbrev pub with_listener :
    (List Str → MainEnd)
    → MapOrder
    → SlaveFlags
    → Parent
    → List Event
    → Str
    → Str
    → Option Str
    → Stage
with_listener program go f p es local remote none = panics (new_slave [])
with_listener program go f p es local remote (some server) =
    with_id program go f es (init_slave (p.response (slave_vital_data f.my_id server local remote)))

-- `startSlave`; the errors go to `log_error`, which panics.
unfoldable pub start_slave :
    (List Str → MainEnd) → MapOrder → SlaveFlags → Parent → List Event → Stage
unfolding on_events listen_address slave_vital_data init_slave
start_slave program go f p es = elim p.dialled [
  | none ↦ panics (new_slave [])
  | some (local, remote) ↦
      with_listener program go f p es local remote (p.listens (listen_address local))
]
