-- ===== src/Client.antt =====
-- src/gproc/mexec.go: `startExecution`, the program that the user starts to run a command on nodes, and
-- src/gproc/info.go: `getInfo`. What the program learns from outside is a parameter, `Outside`.
pub mod Requests
pub mod Tests
use gproc.Common.{
  ℕ, zero, suc, ◌+◌, Bool, true, false, not, ◌&&◌, List, [], ◌∷◌, ◌++◌, Option, none, some, Str,
  codes, str_eq, split, map, ◌==◌, if◌then◌else◌,
}
use gproc.Common.Dict.{Dict, lookup}
use gproc.Protocol.{StartReq, Resp, VitalData}
use gproc.Dispatch.{Ended, returned, panicked, endless}
use gproc.Ldd.{ElfFiles, LddEnd, libraries, ldd_error, deadlock, unfinished, lddroot}
use gproc.Pack.{FileSystem, PackVisitor, or_false, new_pack_visitor, walk}

-- The flags of the command line, and the working directory.
pub record Flags : Type 0 where
  pub cwd : Str
  pub files_to_take_along : Str
  pub root : Str
  pub libs : Str
  pub localbin : Bool

-- What `Recv` and `ioProxy` give: the master's vital data, the network and address of the proxy, the
-- response to a request; and the ELF files.
pub record Outside : Type 0 where
  pub vital : Option VitalData
  pub elf_files : ElfFiles
  pub proxy : Str → Option (Str × Str)
  pub response : StartReq → Option Resp

-- The paths to take along, below the working directory where they are relative; `none` is the panic on
-- an empty one.
abbrev pub rooted_path : Str → Str → Option Str
rooted_path cwd [] = none
rooted_path cwd (c ∷ f) = some (if c == b'/' then c ∷ f else cwd ++ b'/' ∷ c ∷ f)

-- A walk that follows an earlier one.
abbrev pub and_walk :
    ℕ → FileSystem → Option Str → Ended (Unit {0}) × PackVisitor → Ended (Unit {0}) × PackVisitor
and_walk fuel fs none (returned _, p) = (panicked, p)
and_walk fuel fs (some path) (returned _, p) = walk fuel fs path p
and_walk fuel fs path (panicked, p) = (panicked, p)
and_walk fuel fs path (endless, p) = (endless, p)

-- The loops over the paths.
unfoldable pub walk_paths :
    ℕ
    → FileSystem
    → List (Option Str)
    → Ended (Unit {0}) × PackVisitor
    → Ended (Unit {0}) × PackVisitor
walk_paths fuel fs [] r = r
walk_paths fuel fs (path ∷ paths) r = walk_paths fuel fs paths (and_walk fuel fs path r)

abbrev pub taken_along : Flags → List (Option Str)
taken_along flags =
    if str_eq flags.files_to_take_along []
    then []
    else map (rooted_path flags.cwd) (split b',' flags.files_to_take_along)

-- The loop that drops the excepted files. On an empty map every lookup is false.
unfoldable pub filter_files : Dict Bool → List Str → List Str
filter_files exceptlist [] = []
filter_files exceptlist (s ∷ raw_files) =
    let rest = filter_files exceptlist raw_files in
    if or_false (lookup s exceptlist) then rest else s ∷ rest

-- The paths of the binary and its libraries that are walked.
unfoldable pub binary_paths : Str → List Str → List (Option Str)
binary_paths root [] = []
binary_paths root (s ∷ files) =
    let rest = binary_paths root files in if str_eq s [] then rest else some (root ++ s) ∷ rest

-- The files that `ldd.Lddroot` finds for the command: none where it returns an error. A command has a
-- first word, or the program panics.
abbrev pub ldd_files : LddEnd → Ended (List Str)
ldd_files (libraries st) = returned st.ret
ldd_files ldd_error = returned []
ldd_files deadlock = panicked
ldd_files unfinished = endless

unfoldable pub raw_files : ℕ → ElfFiles → Flags → List Str → Ended (List Str)
raw_files fuel elf_files flags [] = panicked
raw_files fuel elf_files flags (c ∷ cmd) =
    ldd_files (lddroot fuel elf_files c flags.root flags.libs)

-- The walks of the binary and its libraries, behind the others.
abbrev pub walk_binary :
    ℕ
    → FileSystem
    → Flags
    → Dict Bool
    → Ended (List Str)
    → Ended (Unit {0}) × PackVisitor
    → Ended (Unit {0}) × PackVisitor
walk_binary fuel fs flags exceptlist (returned raw) (returned _, p) =
    let binary = binary_paths flags.root (filter_files exceptlist raw) in
    walk_paths fuel fs (if flags.localbin then [] else binary) (returned tt, p)
walk_binary fuel fs flags exceptlist panicked (returned _, p) = (panicked, p)
walk_binary fuel fs flags exceptlist endless (returned _, p) = (endless, p)
walk_binary fuel fs flags exceptlist raw (panicked, p) = (panicked, p)
walk_binary fuel fs flags exceptlist raw (endless, p) = (endless, p)

-- All walks, from the working directory to the libraries.
unfoldable pub pack :
    ℕ → FileSystem → Flags → Dict Bool → Ended (List Str) → Ended (Unit {0}) × PackVisitor
unfolding walk_paths filter_files binary_paths
pack fuel fs flags exceptlist raw =
    let first = walk fuel fs (flags.cwd ++ codes "/.") new_pack_visitor in
    walk_binary fuel fs flags exceptlist raw (walk_paths fuel fs (taken_along flags) first)

-- The request.
unfoldable pub exec_request : Flags → Str → List Str → Str × Str → PackVisitor → StartReq
exec_request flags slave_nodes cmd (network, address) pv = record {
  command = codes "e";
  nodes = slave_nodes;
  peers = [];
  this_node = false;
  local_bin = flags.localbin;
  args = cmd;
  env = [];
  lib_list = split b':' flags.libs;
  path = flags.root;
  lfam = network;
  lserver = address;
  bytes_to_transfer = pv.bytes_to_transfer;
  uid = 0;
  gid = 0;
  cmds = pv.cmds;
  peer_group_size = 0;
  cwd = flags.cwd;
  files = [];
}

-- How the program ends: without a request, or waiting for so many workers.
pub data Wait : Type 0 where
  not_ready : Wait
  waits_for : ℕ → Wait

abbrev pub with_response : StartReq → Option Resp → Ended Wait × List StartReq
with_response req none = (panicked, req ∷ [])
with_response req (some resp) = (returned (waits_for resp.num_nodes), req ∷ [])

abbrev pub with_proxy :
    Outside → Flags → Str → List Str → PackVisitor → Option (Str × Str) → Ended Wait × List StartReq
with_proxy o flags slave_nodes cmd pv none = (panicked, [])
with_proxy o flags slave_nodes cmd pv (some l) =
    let req = exec_request flags slave_nodes cmd l pv in with_response req (o.response req)

-- From the packed files on.
abbrev pub with_files :
    Outside
    → Flags
    → Str
    → Str
    → List Str
    → VitalData
    → Ended (Unit {0}) × PackVisitor
    → Ended Wait × List StartReq
with_files o flags port slave_nodes cmd vital (returned _, pv) =
    if not vital.host_ready
    then (returned not_ready, [])
    else with_proxy o flags slave_nodes cmd pv (o.proxy (vital.host_addr ++ b':' ∷ port))
with_files o flags port slave_nodes cmd vital (panicked, pv) = (panicked, [])
with_files o flags port slave_nodes cmd vital (endless, pv) = (endless, [])

-- `startExecution`, with the requests that it sends; the fuel is that of the walks and of `Lddroot`.
unfoldable pub start_execution :
    ℕ → FileSystem → Outside → Flags → Str → Str → List Str → Ended Wait × List StartReq
unfolding pack exec_request raw_files
start_execution fuel fs o flags port slave_nodes cmd = elim o.vital [
  | none ↦ (panicked, [])
  | some vital ↦
      with_files o flags port slave_nodes cmd vital
        (pack fuel fs flags vital.exceptlist (raw_files fuel o.elf_files flags cmd))
]

abbrev pub info_request : StartReq
info_request = record {
  command = codes "i";
  nodes = [];
  peers = [];
  this_node = false;
  local_bin = false;
  args = [];
  env = [];
  lib_list = [];
  path = [];
  lfam = [];
  lserver = [];
  bytes_to_transfer = 0;
  uid = 0;
  gid = 0;
  cmds = [];
  peer_group_size = 0;
  cwd = [];
  files = [];
}

-- `getInfo`, with the requests that it sends: an empty answer where the master is not ready. `none` is a
-- panic.
unfoldable pub get_info : Option VitalData → (StartReq → Option Resp) → Option Resp × List StartReq
get_info none response = (none, [])
get_info (some vital) response =
    if vital.host_ready
    then (response info_request, info_request ∷ [])
    else (some (record { num_nodes = 0; msg = [] }), [])
