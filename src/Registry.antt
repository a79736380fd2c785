-- ===== src/Registry.antt =====
-- src/gproc/common.go: `Slaves`, the table of the slaves that have reported to a node.
pub mod Consistent
pub mod Intersect
pub mod Tests
use gproc.Common.{ℕ, List, [], ◌∷◌, Option, none, some, Str, codes, str_eq, map, if◌then◌else◌}
use mathlib.Core.List.{Perm}
use gproc.Common.Dict.{Dict, lookup, insert, delete}
use gproc.Protocol.{VitalData}

-- `SlaveInfo`. Of its connection only the identity is kept.
pub record SlaveInfo : Type 0 where
  pub id : Str
  pub addr : Str
  pub server : Str
  pub nodes : List Str
  pub rpc : ℕ

pub record Slaves : Type 0 where
  pub slaves : Dict SlaveInfo
  pub addr2id : Dict Str

-- `newSlaves`
unfoldable pub new_slaves : Slaves
new_slaves = record { slaves = []; addr2id = [] }

-- The entry that `Add` makes.
abbrev pub info_of : VitalData → ℕ → SlaveInfo
info_of vd r = record {
  id = vd.id;
  addr = vd.host_addr;
  server = vd.server_addr;
  nodes = vd.nodes;
  rpc = r;
}

-- `Add`, with the `Id` of the response.
unfoldable pub add : VitalData → ℕ → Slaves → Slaves × Str
add vd r sv =
    let s = info_of vd r in
    (record { slaves = insert s.id s sv.slaves; addr2id = insert s.server s.id sv.addr2id }, s.id)

-- `Remove`
unfoldable pub remove : SlaveInfo → Slaves → Slaves
remove s sv = record { slaves = delete s.id sv.slaves; addr2id = delete s.server sv.addr2id }

-- `sv.Addr2id[n]`, which is the empty string where there is no entry.
abbrev pub or_empty : Option Str → Str
or_empty none = codes ""
or_empty (some s) = s

abbrev pub or_else : Option SlaveInfo → Option SlaveInfo → Option SlaveInfo
or_else none o = o
or_else (some s) o = some s

-- `Get`: by the id, or else by the address.
unfoldable pub get : Slaves → Str → Option SlaveInfo
get sv n = or_else (lookup n sv.slaves) (lookup (or_empty (lookup n sv.addr2id)) sv.slaves)

-- Go's `range` gives the entries of a map in an order of its own.
pub record MapOrder : Type 1 where
  pub order : {V : Type 0} → Dict V → List (Str × V)
  pub order-perm : {V : Type 0} (m : Dict V) → Perm (order m) m

abbrev pub add_server : Option SlaveInfo → List Str → List Str
add_server none i = i
add_server (some s) i = s.server ∷ i

-- The loop of `ServIntersect` over the names.
unfoldable pub servers_of : Slaves → List Str → List Str
servers_of sv [] = []
servers_of sv (n ∷ set) = add_server (get sv n) (servers_of sv set)

-- `ServIntersect`; `none` is the panic on an empty list.
unfoldable pub serv_intersect : MapOrder → Slaves → List Str → Option (List Str)
unfolding servers_of
serv_intersect go sv [] = none
serv_intersect go sv (first ∷ set) = some (
    if str_eq first (codes ".")
    then map (λ e. e.1.server) (go.order sv.slaves)
    else servers_of sv (first ∷ set))
