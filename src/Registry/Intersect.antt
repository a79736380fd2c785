-- ===== src/Registry/Intersect.antt =====
-- src/gproc/common.go: what `ServIntersect` returns.
use gproc.Common.{List, [], ◌∷◌, none, some, ◌≡◌, refl, arith, Str, codes, map, ◌≤◌, length}
use mathlib.Core.List.{Perm}
use mathlib.Core.List.Perm
use gproc.Common.Dict.{lookup}
use gproc.Registry.{SlaveInfo, Slaves, MapOrder, get, servers_of, serv_intersect}
use gproc.Registry.Consistent.{IsConsistent}

-- The names are ids, and these are the slaves registered under them.
abbrev pub Registered : Slaves → List Str → List SlaveInfo → Type 0
Registered sv [] [] = Unit
Registered sv (n ∷ ns) (s ∷ ss) = (lookup n sv.slaves ≡ some s) × Registered sv ns ss
Registered sv [] (s ∷ ss) = ⊥
Registered sv (n ∷ ns) [] = ⊥

get-id : (sv : Slaves) (n : Str) (s : SlaveInfo) → lookup n sv.slaves ≡ some s → get sv n ≡ some s
unfolding get
get-id sv n s e = rw e

servers_of-Registered :
    (sv : Slaves) (ns : List Str) (ss : List SlaveInfo)
    → Registered sv ns ss
    → servers_of sv ns ≡ map (λ s. s.server) ss
unfolding servers_of
servers_of-Registered sv [] [] h = refl
servers_of-Registered sv [] (s ∷ ss) h = elim h [ ]
servers_of-Registered sv (n ∷ ns) [] h = elim h [ ]
servers_of-Registered sv (n ∷ ns) (s ∷ ss) (h, hs) =
    rw (get-id sv n s h, servers_of-Registered sv ns ss hs)

-- The nodes of a range, whose list begins with an empty string: the servers of the slaves of these
-- ids, one for each and in order, if all are registered. The empty string finds no slave.
pub serv_intersect_range :
    (go : MapOrder) (sv : Slaves) (ns : List Str) (ss : List SlaveInfo)
    → IsConsistent sv
    → lookup [] sv.addr2id ≡ none
    → Registered sv ns ss
    → serv_intersect go sv ([] ∷ ns) ≡ some (map (λ s. s.server) ss)
unfolding serv_intersect
serv_intersect_range go sv ns ss h e hs =
    let absent : get sv [] ≡ none = unfold get in rw (h.named, e, h.named) in
    rw (absent, servers_of-Registered sv ns ss hs)

-- `.` gives the servers of all slaves, each as often as it stands in the table, in some order.
pub serv_intersect_all :
    (go : MapOrder) (sv : Slaves) (set : List Str)
    → (out : List Str) × (serv_intersect go sv (codes "." ∷ set) ≡ some out)
      × Perm out (map (λ e. e.1.server) sv.slaves)
unfolding serv_intersect
serv_intersect_all go sv set = (
  map (λ e. e.1.server) (go.order sv.slaves),
  refl,
  Perm.map (λ e. e.1.server) (go.order-perm sv.slaves),
)

-- A name that finds no slave is passed over, and no name gives more than one server.
pub length-servers_of : (sv : Slaves) (ns : List Str) → length (servers_of sv ns) ≤ length ns
unfolding servers_of
length-servers_of sv [] = omega arith
length-servers_of sv (n ∷ ns) = ground (arith, length-servers_of sv ns)
