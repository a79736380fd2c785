-- ===== src/Lib.antt =====
-- gproc starts programs on the nodes of a cluster. A master (gproc m) accepts slaves, which report their
-- id and address, and serves the programs that the user starts (gproc e, gproc i) over a local socket. A
-- request names its nodes; the master sends it to those slaves, and each slave sends it on to the slaves
-- below it. A node finds its own id, address and parent by evaluating commands in a small postfix language.
--
-- The parts, and the files that model them:
-- * src/forth/forth.go, the postfix language: Forth.antt (the operator map, `NewWord`, `iEval`, `Eval`,
--   `errRecover`), Forth/Machine.antt (the stack and panics), Forth/Ops.antt (the operators). A run is a
--   function from a stack to an outcome and the stack that is left. Theorems: Forth/Frame.antt,
--   Forth/Compose.antt, Forth/Numbers.antt, Forth/Fuel.antt.
-- * src/gproc/common.go, `parseNodeList`: NodeList.antt; the syntax that it reads is in NodeList/Syntax.antt.
-- * src/gproc/common.go, the messages and `newStartReq`: Protocol.antt.
-- * src/gproc/common.go, `Slaves` with `Add`, `Remove`, `Get`, `ServIntersect`: Registry.antt. A Go map is
--   an association list (Common/Dict.antt); the order in which Go runs through one is a parameter, `MapOrder`.
-- * src/gproc/common.go `cacheRelayFilesAndDelegateExec`, src/gproc/master.go `sendCommandsToANodeSet` and
--   `sendCommandsToNodes`: Dispatch.antt, on the state `Node`. Whether a dial succeeds is a parameter, `Net`.
-- * src/gproc/master.go `receiveCmds`, src/gproc/common.go `registerSlaves`: Master.antt, one connection at
--   a time, on the state `Master`; Master/Reach.antt has the states that connections lead to. The start of
--   `receiveCmds` for several connections at once, statement by statement: Master/Interleaved.antt.
-- * src/filemarshal/filemarshal.go, `Encode` and `Decode`: Marshal.antt. The stream is the list of the values
--   that gob is given; the decoder's calls to the system are recorded, and whether one succeeds is a parameter.
-- * src/gproc/slave.go, a slave's report, `slaveProc` and `runLocal`: Slave.antt; `startSlave` over
--   sequences of events: Slave/Main.antt.
-- * src/gproc/common.go `ioProxy`, with the loops of slave.go and mexec.go that wait for workers: IoProxy.antt,
--   a transition system with one action for each thing that a goroutine does.
-- * src/gproc/mexec.go, `packVisitor` under `filepath.Walk`: Pack.antt, with the functions of Go's package
--   `path` in Pack/Path.antt; `startExecution`, and `getInfo` of src/gproc/info.go: Client.antt.
-- * src/gproc/main.go, the flags that are evaluated and the modes: CommandLine.antt; the flags as `flag.Parse`
--   reads them, and `main`: CommandLine/Flags.antt.
-- * src/ldd/ldd.go, `Lddroot`: Ldd.antt; ELF files and links are a parameter.
-- * src/typeapply/typeapply.go, `Do`: Typeapply.antt (`canReach`, `getTraverserFunc`), Typeapply/Values.antt (the
--   functions that it makes, run on values, and `Do`). What `reflect` says of types and values is a parameter;
--   Typeapply/Request.antt has it for a `StartReq` and the other messages of a master. Typeapply/Serving.antt has the
--   calls that a master makes. Typeapply/Reaches.antt says independently which types can hold a target.
-- * src/utils/startkane.go, which starts the nodes of one cluster: Cluster.antt; start.go, startkf.go and
--   startstrongbox.go: Cluster/Sites.antt. What the remote shell makes of the arguments is `node_argv`;
--   Cluster/Tests.antt has it for startkane.go from the arguments of ssh.
-- * src/gproc/common.go, `log_info` and `log_error`, and the printing of messages: Log.antt, Log/Printed.antt.
-- * src/gproc/web.go, the data that its pages get: Web.antt, Web/Pages.antt.
-- * src/gproc/common.go `Dial`, `Listen`, `Accept` and `fileTcpDial`, on what a process has open:
--   Connections.antt. What the network does is a parameter.
-- * Common.antt and its children are shared: strings as lists of bytes with `strings.SplitN`, signed
--   integers with the wrap-around of a 64-bit `int`, maps, lists. Decimal.antt is `strconv.Atoi` and
--   `strconv.Itoa`. An `int` has 64 bits, as on amd64.
--
-- Loops and fuel: `iEval` calls itself through words that `NewWord` made, so it runs on fuel that bounds
-- how deep words are nested; the initial map has no words, and Forth/Fuel.antt gives the fuel for others.
-- The loop over a range in `parseNodeList` runs on fuel; the condition `Valid` of NodeList/Syntax.antt
-- says how much is enough. `filepath.Walk` is called within the visit of a link, so a walk runs on
-- fuel that bounds how deep walks are nested; Pack/Ends.antt and Pack/Loops.antt are about which walks
-- end. The loop of `Lddroot` runs on fuel that bounds the elements taken from its channel, and the links
-- behind each of them; Ldd/Ends.antt says how much is enough. The blocks of a file take one round more than it
-- has bytes. `canReach` and `getTraverserFunc` run on fuel that bounds how deep types are nested, more than
-- the number of types being enough; the functions that they make run on fuel for the depth of a value.
-- Every other loop is structural.
--
-- Panics that the program does not recover are results of the model: `crashed` of `Eval`, `panicked`
-- elsewhere. Not modelled: gob and the sockets (a message that is sent is a value in a list of the state),
-- failures of `Send`, where the log is called (Log.antt is the log alone), interleavings inside the
-- requests of two connections of a master or a slave, the mutex of src/typeapply, templates,
-- src/gproc/misc.go and the bproc_*.go files, and ssh in src/utils.
pub mod Common
pub mod Decimal
pub mod Forth
pub mod NodeList
pub mod Protocol
pub mod Registry
pub mod Dispatch
pub mod Master
pub mod Slave
pub mod Marshal
pub mod Pack
pub mod Ldd
pub mod Client
pub mod CommandLine
pub mod Cluster
pub mod Typeapply
pub mod IoProxy
pub mod Log
pub mod Web
pub mod Connections
