-- ===== src/Slave/StartTests.antt =====
-- A slave with two connections, and the instances of the theorems on `startSlave`.
use gproc.Common.{◌≤◌, true, false, List, [], ◌∷◌, some, ◌≡◌, codes, length}
use gproc.NodeList.{NodeExecList}
use gproc.Registry.Tests.{in_place}
use gproc.Forth.{opmap}
use gproc.CommandLine.Flags.{main}
use gproc.Protocol.{VitalData}
use gproc.Slave.Main.{
  SlaveFlags, asks, Event, connects, reports, on_events, new_slave, Parent, start_slave,
}
use gproc.Slave.Deaf.{slave_of, start_slave_deaf}
use gproc.Slave.Answered.{StageCounts, on_events_answered}

abbrev own : NodeExecList
own = record { nodes = codes "." ∷ []; subnodes = codes "2" }

abbrev slave_flags : SlaveFlags
slave_flags = record {
  extra_debug = false;
  do_private_mount = true;
  bin_root = codes "/tmp/xproc";
  parent = codes "10.0.0.1";
  cmd_port = codes "6666";
  my_id = codes "7";
}

abbrev the_parent : Parent
the_parent = record {
  dialled = some (codes "10.0.0.9:33000", codes "10.0.0.1:6666");
  listens = λ address. some (codes "10.0.0.9:41000");
  response = λ vd. some vd.id;
}

abbrev reporting : VitalData
reporting = record {
  host_ready = true;
  error_text = [];
  host_addr = codes "10.0.0.8:33001";
  parent_addr = codes "10.0.0.9:6666";
  server_addr = codes "10.0.0.8:41000";
  id = codes "8";
  nodes = [];
  exceptlist = [];
}

-- Two connections, whose programs would ask for all slaves, and a slave that reports in between.
abbrev two_connections : List Event
two_connections =
    connects true (asks own)
    ∷ reports (some reporting) 0 (codes "10.0.0.8:33001")
    ∷ connects true (asks own)
    ∷ []

start_slave_deaf_example :
    ((slave_of (
        start_slave
          (main 2 (opmap (some (codes "kn7"))))
          in_place
          slave_flags
          the_parent
          two_connections)).answers
      ≡ [])
    × (length
          (slave_of (
            start_slave
              (main 2 (opmap (some (codes "kn7"))))
              in_place
              slave_flags
              the_parent
              two_connections)).started
        ≤ 1)
start_slave_deaf_example =
    start_slave_deaf 2 (opmap (some (codes "kn7"))) in_place slave_flags the_parent two_connections

-- The program is gproc itself.
on_events_answered_example : StageCounts slave_flags (
    on_events
      (main 2 (opmap (some (codes "kn7"))))
      in_place
      slave_flags
      two_connections
      (new_slave (codes "7")))
on_events_answered_example =
    on_events_answered (main 2 (opmap (some (codes "kn7")))) in_place slave_flags two_connections
      (codes "7")
