-- ===== src/Registry/Tests.antt =====
-- Runs of the registry, and the instances of its theorems.
use gproc.Common.{
  true, [], ◌∷◌, none, some, ◌≡◌, ◌≢◌, refl, arith, Str, codes, str_eq, map, if◌then◌else◌,
}
use mathlib.Core.List.Perm
use gproc.Common.Dict.{lookup, insert}
use gproc.Protocol.{VitalData}
use gproc.Registry.{
  SlaveInfo, Slaves, MapOrder, new_slaves, info_of, add, remove, get, or_empty, serv_intersect,
}
use gproc.Registry.Consistent.{
  IsConsistent, IsConsistent-new_slaves, IsNew, add-IsConsistent, get-remove, unless_id,
}
use gproc.Registry.Intersect.{Registered, serv_intersect_range}

abbrev pub vital : Str → Str → VitalData
vital id server = record {
  host_ready = true;
  error_text = [];
  host_addr = codes "10.0.0.9:33000";
  parent_addr = codes "10.0.0.1:6666";
  server_addr = server;
  id = id;
  nodes = [];
  exceptlist = [];
}

abbrev pub in_place : MapOrder
in_place = record { order = λ m. m; order-perm = λ m. Perm.refl m }

abbrev pub first : VitalData
first = vital (codes "1") (codes "10.0.0.9:7000")

-- The same slave after a restart, with another port.
abbrev second : VitalData
second = vital (codes "1") (codes "10.0.0.9:7001")

pub first-IsNew : IsNew first new_slaves
unfolding new_slaves lookup
first-IsNew = record {
  named = λ e. ground arith;
  id_free = refl;
  address_free = refl;
  different = λ e. ground arith;
  unused = λ k s e. absurd (ground arith);
}

abbrev pub one_slave : Slaves
one_slave = (add first 0 new_slaves).0

add-IsConsistent_example :
    IsConsistent (add first 0 new_slaves).0
    × (get (add first 0 new_slaves).0 first.id ≡ some (info_of first 0))
    × (get (add first 0 new_slaves).0 first.server_addr ≡ some (info_of first 0))
    × ((n : Str)
        → n ≢ first.id
        → n ≢ first.server_addr
        → get (add first 0 new_slaves).0 n ≡ (
            if str_eq first.id (or_empty (lookup n new_slaves.addr2id))
            then some (info_of first 0)
            else get new_slaves n))
add-IsConsistent_example = add-IsConsistent first 0 new_slaves first-IsNew IsConsistent-new_slaves

pub one_slave-IsConsistent : IsConsistent one_slave
one_slave-IsConsistent = (add-IsConsistent first 0 new_slaves first-IsNew IsConsistent-new_slaves).0

second-unused :
    (k : Str) (s : SlaveInfo) → lookup k one_slave.slaves ≡ some s → s.server ≢ codes "1"
unfolding add new_slaves insert lookup
second-unused k s e = ground arith

second-IsNew : IsNew second one_slave
unfolding add new_slaves insert lookup
second-IsNew = record {
  named = λ e. ground arith;
  id_free = refl;
  address_free = refl;
  different = λ e. ground arith;
  unused = second-unused;
}

get-remove_example : get (remove (info_of first 0) one_slave) (codes "1") ≡ (
    if str_eq (codes "10.0.0.9:7000") (codes "1")
    then none
    else unless_id (codes "1") (get one_slave (codes "1")))
unfolding add new_slaves insert lookup
get-remove_example = get-remove (info_of first 0) one_slave (codes "1") one_slave-IsConsistent refl

no_empty_address : lookup [] one_slave.addr2id ≡ none
unfolding add new_slaves insert lookup
no_empty_address = refl

one-Registered : Registered one_slave (codes "1" ∷ []) (info_of first 0 ∷ [])
unfolding add new_slaves insert lookup
one-Registered = (refl, tt)

serv_intersect_range_example :
    serv_intersect in_place one_slave ([] ∷ codes "1" ∷ [])
    ≡ some (map (λ s. s.server) (info_of first 0 ∷ []))
serv_intersect_range_example =
    serv_intersect_range in_place one_slave (codes "1" ∷ []) (info_of first 0 ∷ [])
      one_slave-IsConsistent no_empty_address one-Registered
