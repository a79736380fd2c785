-- ===== src/Client/Tests.antt =====
-- Runs of the client, and the instances of its theorems.
use gproc.Common.{
  Str, List, join, ℕ, ◌+◌, true, false, [], ◌∷◌, Option, none, some, ◌≡◌, refl, codes, split,
  split_2, length,
}
use gproc.Common.Dict.{lookup, insert}
use gproc.Protocol.{Resp, StartReq, VitalData}
use gproc.NodeList.{parsed, parse_node_list, parse_part, expand}
use gproc.Registry.Tests.{in_place, vital}
use gproc.Dispatch.{Ended, returned}
use gproc.Dispatch.Tests.{flaky}
use gproc.Master.{Master, start_master, greet, serve}
use gproc.Pack.{FileSystem, PackVisitor, new_pack_visitor, walk, directory}
use gproc.Pack.Path.{trim_path, has_suffix}
use gproc.Pack.Tests.{info}
use gproc.Ldd.Tests.{files}
use gproc.Ldd.{lddroot, path_join_all}
use gproc.Pack.Path.{clean}
use gproc.Client.{
  raw_files, Flags, Outside, pack, exec_request, waits_for, start_execution, get_info,
}
use gproc.Client.Requests.{last, start_execution_lem}

abbrev flags : Flags
flags = record {
  cwd = codes "/d";
  files_to_take_along = [];
  root = [];
  libs = codes "/lib:/usr/lib";
  localbin = false;
}

abbrev directories : FileSystem
directories = record { lstat = λ p. some (info directory); readlink = λ p. none; names = λ p. [] }

abbrev ready_master : Master
ready_master = record start_master { netaddr = codes "10.0.0.1" }

abbrev told : VitalData
told = vital (codes "1") (codes "10.0.0.9:7000")

abbrev answer : StartReq → Option Resp
answer req = last (serve 4 flaky in_place (some req) ready_master).1.node.replies

abbrev outside : Outside
outside = record {
  vital = some told;
  elf_files = files;
  proxy = λ address. some (codes "tcp", codes "10.0.0.1:9");
  response = answer;
}

abbrev raw : Ended (List Str)
raw = raw_files 4 files flags (codes "/bin/date" ∷ [])

abbrev packed : PackVisitor
packed = (pack 4 directories flags [] raw).1

abbrev sent : StartReq
sent =
    exec_request flags (codes "1") (codes "/bin/date" ∷ []) (codes "tcp", codes "10.0.0.1:9") packed

ends : pack 4 directories flags [] raw ≡ (returned tt, packed)
unfolding pack raw_files lddroot path_join_all clean walk new_pack_visitor trim_path has_suffix
    lookup insert split join
ends = refl

ends_first : (pack 4 directories flags [] raw).0 ≡ returned tt
ends_first = λ i. (ends i).0

one_node :
    parse_node_list 4 (codes "1") ≡ parsed (record { nodes = codes "1" ∷ []; subnodes = [] } ∷ [])
unfolding parse_node_list parse_part expand split split_2
one_node = refl

ready : (greet ready_master).host_ready ≡ true
unfolding greet
ready = refl

start_execution_lem_example :
    (c : ℕ) × (start_execution 4 directories outside flags
        (codes "0")
        (codes "1")
        (codes "/bin/date" ∷ [])
      ≡ (returned (waits_for c), sent ∷ []))
    × (length (serve 4 flaky in_place (some sent) ready_master).1.node.sent ≡ 0 + c)
start_execution_lem_example =
    start_execution_lem 4 4 directories outside flags (codes "0") (codes "1")
      (codes "/bin/date" ∷ []) told packed (codes "tcp", codes "10.0.0.1:9") flaky in_place
      ready_master (record { nodes = codes "1" ∷ []; subnodes = [] } ∷ []) refl refl ends refl refl
      ready one_node

get_info_runs :
    get_info (some (record told { host_ready = false })) answer
    ≡ (some (record { num_nodes = 0; msg = [] }), [])
unfolding get_info
get_info_runs = refl
