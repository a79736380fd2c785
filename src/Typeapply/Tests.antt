-- ===== src/Typeapply/Tests.antt =====
-- Runs of `Do`, and instances of the theorems.
use gproc.Common.{
  true, false, List, [], ◌∷◌, map, ◌≡◌, ◌↔◌, refl, inl, inr, arith, Str, codes, str_eq, All,
  if◌then◌else◌,
}
use gproc.Common.Dict.{lookup, insert}
use mathlib.Core.List.{Memᴰ}
use mathlib.Core.List.Memᴰ
use mathlib.Core.Path.{subst, sym}
use gproc.Dispatch.{Ended, returned, panicked}
use gproc.Protocol.{StartReq}
use gproc.Typeapply.{
  Knowledge, definite_no, definite_yes, Types, ptr, struct, map_kind, basic, Traverser, nil_func,
  Infos, can_reach, get_traverser_func, info_at, make_trav, trav_of_kind, reach_kind, visit_fields,
  field_funcs,
}
use gproc.Typeapply.Values.{
  Tmap, nil_value, pointer, struct_value, no_values, value_and, basic_value, do_target, do_apply,
  run_trav, run_fields,
}
use gproc.Typeapply.Reaches.{Reaches}
use gproc.Typeapply.Kinds.{MapsPlain}
use gproc.Typeapply.Later.{members, AllClosed, Consistent}
use gproc.Typeapply.Nil.{can_reach_lem, get_traverser_func_lem, empty-Consistent}
use gproc.Typeapply.Chain.{list_types, node, chain, list_infos, do_chain}
use gproc.Typeapply.Request.{request_value, file_value}
use gproc.Typeapply.Calls.{do_files}
use gproc.Typeapply.Serving.{after, after_slave, after_command, Serving}
use gproc.Typeapply.Serving.Serving.{slave_and_command, message}
use gproc.Typeapply.Serving.Quiet.{vital}
use gproc.Typeapply.Files.{do_request}
use gproc.Typeapply.Files.Before.{in_master}

abbrev pub names : List Str
names = codes "*Node" ∷ codes "Node" ∷ codes "T" ∷ []

all-Mem : (P : Str → Type 0) (xs : List Str) (x : Str) → All P xs → Memᴰ x xs → P x
all-Mem P [] x h mem = absurd (Memᴰ.not-nil mem)
all-Mem P (y ∷ ys) x (p, h) mem = elim (Memᴰ.cases_cons mem) [
  | inl first ↦ subst P (sym first) p
  | inr later ↦ all-Mem P ys x h later
]

list-AllClosed : AllClosed list_types names
list-AllClosed x y mx my =
    all-Mem (λ z. Memᴰ z names) (members (list_types x)) y
      (all-Mem (λ z. All (λ w. Memᴰ w names) (members (list_types z))) names x
        (
          (Memᴰ.tail (Memᴰ.head refl), tt),
          ((Memᴰ.tail (Memᴰ.tail (Memᴰ.head refl)), (Memᴰ.head refl, tt)), (tt, tt)),
        )
        mx)
      my

list-MapsPlain : MapsPlain list_types (codes "T")
list-MapsPlain x key elem e w = absurd (ground (arith, e))

can_reach_lem_example :
    (k : Knowledge) × (m' : Infos) × (can_reach 4 list_types (codes "T") [] (codes "Node")
      ≡ returned (k, m'))
    × Consistent list_types (codes "T") m'
    × ((k ≡ definite_yes) ↔ Reaches list_types (codes "T") (codes "Node"))
can_reach_lem_example =
    can_reach_lem list_types (codes "T") names 4 [] (codes "Node") list-MapsPlain list-AllClosed
      (omega arith) (empty-Consistent list_types (codes "T")) (Memᴰ.tail (Memᴰ.head refl))

get_traverser_func_lem_example :
    (f : Traverser) × (m' : Infos) × (get_traverser_func 4 4 list_types
        (codes "T")
        []
        (codes "Node")
      ≡ returned (f, m'))
    × Consistent list_types (codes "T") m'
    × ((f ≡ nil_func) ↔ (¬ Reaches list_types (codes "T") (codes "Node")))
get_traverser_func_lem_example =
    get_traverser_func_lem list_types (codes "T") names 4 4 [] (codes "Node") list-MapsPlain
      list-AllClosed (omega arith) (omega arith) (empty-Consistent list_types (codes "T"))
      (Memᴰ.tail (Memᴰ.head refl))

do_chain_example :
    (do_target 10 list_types (codes "T") (codes "*Node") (chain (codes "a" ∷ codes "b" ∷ [])) []
      ≡ (returned tt, map basic_value (codes "a" ∷ codes "b" ∷ []), (codes "T", list_infos) ∷ []))
    × ((do_target 10 list_types
          (codes "T")
          (codes "Node")
          (node (codes "a") (chain (codes "b" ∷ [])))
          []).0
        ≡ panicked)
    × ((do_target 10 list_types
          (codes "T")
          (codes "Node")
          (node (codes "a") (chain (codes "b" ∷ [])))
          []).1
        ≡ basic_value (codes "a") ∷ [])
do_chain_example = do_chain (codes "a") (codes "b") [] 6 (omega arith)

abbrev sample_request : StartReq
sample_request = record {
  command = codes "e";
  nodes = codes "1";
  peers = [];
  this_node = true;
  local_bin = false;
  args = codes "date" ∷ [];
  env = [];
  lib_list = [];
  path = codes "/bin/";
  lfam = codes "tcp";
  lserver = [];
  bytes_to_transfer = 0;
  uid = 0;
  gid = 0;
  cmds = [];
  peer_group_size = 0;
  cwd = [];
  files =
      record {
        current_name = codes "/bin/date";
        dest_name = codes "/bin/date";
        symlink_target = [];
        uid = 0;
        gid = 0;
        ftype = 0;
        perm = 493;
      }
      ∷ [];
}

-- The map of a master that has heard of a slave, answered one program, and greeted the next.
abbrev master_tmap : Tmap
master_tmap =
    after 0 (codes "vitalData") nil_value
      (after_command 0 nil_value sample_request nil_value (after_slave 0 nil_value nil_value []))

master_tmap-Serving : Serving 0 master_tmap
master_tmap-Serving =
    message (codes "vitalData") nil_value _ vital
      (slave_and_command nil_value nil_value nil_value nil_value sample_request refl) refl

do_request_example :
    ((do_files 0 (codes "**StartReq") (pointer (request_value sample_request)) []).0 ≡ returned tt)
    × ((do_files 0 (codes "**StartReq") (pointer (request_value sample_request)) []).1
        ≡ map file_value sample_request.files)
    × ((do_files 0 (codes "*StartReq") (request_value sample_request) master_tmap).0 ≡ returned tt)
    × ((do_files 0 (codes "*StartReq") (request_value sample_request) master_tmap).1
        ≡ map file_value sample_request.files)
do_request_example = do_request 0 sample_request master_tmap (in_master master_tmap-Serving)

-- struct { Shown T; hidden T }: the hidden field is looked into too, and `reflect` panics.
abbrev half_hidden : Types
half_hidden xt =
    if str_eq xt (codes "S")
    then struct (
        record { exported = true; type_name = codes "T" }
        ∷ record { exported = false; type_name = codes "T" }
        ∷ [])
    else basic

hidden_field :
    (do_target 9 half_hidden
      (codes "T")
      (codes "S")
      (struct_value (value_and true (basic_value []) (value_and false (basic_value []) no_values)))
      []).0
    ≡ panicked
unfolding do_target run_trav run_fields get_traverser_func can_reach info_at make_trav trav_of_kind
    reach_kind visit_fields field_funcs lookup insert
hidden_field = refl

-- type M map[string]E; type E struct { Back *M; Val T }
abbrev maps_back : Types
maps_back xt =
    if str_eq xt (codes "M")
    then map_kind (codes "string") (codes "E")
    else if str_eq xt (codes "E")
    then struct (
        record { exported = true; type_name = codes "*M" }
        ∷ record { exported = true; type_name = codes "T" }
        ∷ [])
    else if str_eq xt (codes "*M")
    then ptr (codes "M")
    else basic

-- Where `Do` has seen a string before, it takes the type of `Back` for one that cannot hold a target.
abbrev string_seen : Infos
string_seen =
    (codes "string", record { reach = definite_no; visiting = false; trav = nil_func }) ∷ []

abbrev reach_of_back : Ended (Knowledge × Infos) → Knowledge
reach_of_back (returned (k, m)) = (info_at (codes "*M") m).reach
reach_of_back r = definite_yes

stale_no : reach_of_back (can_reach 9 maps_back (codes "T") string_seen (codes "M")) ≡ definite_no
unfolding can_reach info_at reach_kind visit_fields lookup insert
stale_no = refl

-- A function of two arguments.
two_arguments :
    (do_apply 9 half_hidden
      (record { ins = codes "T" ∷ codes "T" ∷ []; outs = 0 })
      (codes "S")
      (basic_value [])
      []).0
    ≡ panicked
unfolding do_apply
two_arguments = refl
