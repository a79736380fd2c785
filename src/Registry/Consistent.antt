-- ===== src/Registry/Consistent.antt =====
-- src/gproc/common.go: the registry's invariant, and what `Get` finds after `Add` and `Remove`.
use gproc.Common.{
  ℕ, [], Option, none, some, ◌≡◌, ◌≢◌, refl, ◌∙◌, inl, inr, arith, Str, str_eq, str_eq_iff,
  str_eq_self, str_ne, sym, Bool-cases, Option-cases, if◌then◌else◌,
}
use gproc.Common.Dict.{lookup, delete, lookup-insert, lookup-delete}
use gproc.Protocol.{VitalData}
use gproc.Registry.{SlaveInfo, Slaves, new_slaves, info_of, add, remove, or_empty, or_else, get}

-- Every slave stands under its own id, no id is empty, no string is both an id and an address in use,
-- and no slave's own address is an id.
pub record IsConsistent (sv : Slaves) : Type 0 where
  pub keys : (k : Str) (s : SlaveInfo) → lookup k sv.slaves ≡ some s → s.id ≡ k
  pub named : lookup [] sv.slaves ≡ none
  pub apart : (n a : Str) → lookup n sv.addr2id ≡ some a → lookup n sv.slaves ≡ none
  pub servers :
      (k : Str) (s : SlaveInfo) → lookup k sv.slaves ≡ some s → lookup s.server sv.slaves ≡ none

pub IsConsistent-new_slaves : IsConsistent new_slaves
unfolding new_slaves lookup
IsConsistent-new_slaves = record {
  keys = λ k s e. absurd (ground arith);
  named = refl;
  apart = λ n a e. refl;
  servers = λ k s e. refl;
}

-- What a slave that reports must satisfy: its id is not empty, and neither its id nor its address is
-- used in the other way.
pub record IsNew (vd : VitalData) (sv : Slaves) : Type 0 where
  pub named : vd.id ≢ []
  pub id_free : lookup vd.id sv.addr2id ≡ none
  pub address_free : lookup vd.server_addr sv.slaves ≡ none
  pub different : vd.id ≢ vd.server_addr
  pub unused : (k : Str) (s : SlaveInfo) → lookup k sv.slaves ≡ some s → s.server ≢ vd.id

add-keeps :
    (vd : VitalData) (r : ℕ) (sv : Slaves)
    → IsNew vd sv
    → IsConsistent sv
    → IsConsistent (add vd r sv).0
unfolding add
add-keeps vd r sv new h = record {
  keys = λ k s e.
      ground
        (arith, lookup-insert vd.id k (info_of vd r) sv.slaves, str_eq_iff vd.id k, h.keys k s);
  named = ground (
    arith,
    lookup-insert vd.id [] (info_of vd r) sv.slaves,
    str_eq_iff vd.id [],
    h.named,
    new.named,
  );
  apart = λ n a e. ground (
    arith,
    lookup-insert vd.id n (info_of vd r) sv.slaves,
    str_eq_iff vd.id n,
    lookup-insert vd.server_addr n vd.id sv.addr2id,
    str_eq_iff vd.server_addr n,
    h.apart n a,
    new.id_free,
    new.address_free,
    new.different,
  );
  servers = λ k s e. ground (
    arith,
    lookup-insert vd.id k (info_of vd r) sv.slaves,
    str_eq_iff vd.id k,
    lookup-insert vd.id s.server (info_of vd r) sv.slaves,
    str_eq_iff vd.id s.server,
    new.unused k s,
    h.servers k s,
    new.address_free,
    new.different,
  );
}

-- `Remove` keeps the invariant.
pub remove-IsConsistent :
    (s : SlaveInfo) (sv : Slaves) → IsConsistent sv → IsConsistent (remove s sv)
unfolding remove
remove-IsConsistent s sv h = record {
  keys = λ k t e. ground (arith, lookup-delete s.id k sv.slaves, h.keys k t);
  named = ground (arith, lookup-delete s.id [] sv.slaves, h.named);
  apart = λ n a e.
      ground
        (arith, lookup-delete s.id n sv.slaves, lookup-delete s.server n sv.addr2id, h.apart n a);
  servers = λ k t e.
      ground (
        arith,
        lookup-delete s.id k sv.slaves,
        lookup-delete s.id t.server sv.slaves,
        h.servers k t,
      );
}

-- After `Add` the slave is found by its id and by its address.
pub get-add :
    (vd : VitalData) (r : ℕ) (sv : Slaves)
    → IsNew vd sv
    → (get (add vd r sv).0 vd.id ≡ some (info_of vd r))
      × (get (add vd r sv).0 vd.server_addr ≡ some (info_of vd r))
unfolding get add
get-add vd r sv new = (
  simp (lookup-insert, str_eq_self),
  simp (lookup-insert, str_eq_self, new.address_free, str_ne vd.id vd.server_addr new.different),
)

-- What `Get` finds after `Add` under a name that is neither the new id nor the new address: what it
-- found before, except that an address of an earlier slave with the same id now leads to the new one.
pub get-add_ne :
    (vd : VitalData) (r : ℕ) (sv : Slaves) (n : Str)
    → IsConsistent sv
    → IsNew vd sv
    → n ≢ vd.id
    → n ≢ vd.server_addr
    → get (add vd r sv).0 n
      ≡ (if str_eq vd.id (or_empty (lookup n sv.addr2id)) then some (info_of vd r) else get sv n)
unfolding get add
get-add_ne vd r sv n h new ni na =
    rw
      (
        lookup-insert vd.id n (info_of vd r) sv.slaves,
        str_ne vd.id n (λ e. ni (sym e)),
        lookup-insert vd.server_addr n vd.id sv.addr2id,
        str_ne vd.server_addr n (λ e. na (sym e)),
      )
      (rw (lookup-insert vd.id (or_empty (lookup n sv.addr2id)) (info_of vd r) sv.slaves)
        (elim (Option-cases (lookup n sv.addr2id)) [
          | inl e ↦ rw (e, str_ne vd.id [] new.named, h.named)
          | inr (a, e) ↦ rw (e, h.apart n a e)
        ]))

-- `Add` of a slave with a non-empty id, whose id is no address in use and whose address is no id in use and not
-- its own id, to a table in which every slave stands under its own id, no id is empty, and no id is
-- an address: the table stays so, the slave is found by its id and by its address, and every other name finds
-- what it found before, except that an older address of this id now leads to the new entry.
pub add-IsConsistent :
    (vd : VitalData) (r : ℕ) (sv : Slaves)
    → IsNew vd sv
    → IsConsistent sv
    → IsConsistent (add vd r sv).0
      × (get (add vd r sv).0 vd.id ≡ some (info_of vd r))
      × (get (add vd r sv).0 vd.server_addr ≡ some (info_of vd r))
      × ((n : Str)
          → n ≢ vd.id
          → n ≢ vd.server_addr
          → get (add vd r sv).0 n ≡ (
              if str_eq vd.id (or_empty (lookup n sv.addr2id))
              then some (info_of vd r)
              else get sv n))
add-IsConsistent vd r sv new h =
    let (by_id, by_address) = get-add vd r sv new in
    (add-keeps vd r sv new h, by_id, by_address, λ n. get-add_ne vd r sv n h new)

-- The entry that is left of a search when the slave `s` is gone.
abbrev pub unless_id : Str → Option SlaveInfo → Option SlaveInfo
unless_id i none = none
unless_id i (some t) = if str_eq i t.id then none else some t

lookup-gone :
    (sv : Slaves) (i k : Str)
    → IsConsistent sv
    → lookup k (delete i sv.slaves) ≡ unless_id i (lookup k sv.slaves)
lookup-gone sv i k h = rw (lookup-delete i k sv.slaves) (elim (Option-cases (lookup k sv.slaves)) [
  | inl e ↦ rw e (ground arith)
  | inr (t, e) ↦ rw (e, h.keys k t e) (ground arith)
])

unless-or_else :
    (sv : Slaves) (i n : Str)
    → IsConsistent sv
    → or_else
        (unless_id i (lookup n sv.slaves))
        (unless_id i (lookup (or_empty (lookup n sv.addr2id)) sv.slaves))
      ≡ unless_id i
          (or_else (lookup n sv.slaves) (lookup (or_empty (lookup n sv.addr2id)) sv.slaves))
unless-or_else sv i n h = elim (Option-cases (lookup n sv.addr2id)) [
  | inl e ↦ rw (e, h.named) (ground arith)
  | inr (a, e) ↦ rw (e, h.apart n a e)
]

-- In a table in which every slave stands under its own id, no id is empty, and no id is an address:
-- after `Remove` of a slave whose address is no id, its own address finds nothing, and any other name
-- finds what it found before, unless that was the slave: an older address of it, too, finds nothing.
pub get-remove :
    (s : SlaveInfo) (sv : Slaves) (n : Str)
    → IsConsistent sv
    → lookup s.server sv.slaves ≡ none
    → get (remove s sv) n ≡ (if str_eq s.server n then none else unless_id s.id (get sv n))
unfolding get remove
get-remove s sv n h free = elim (Bool-cases (str_eq s.server n)) [
  | inl own ↦
      rw
        (
          own,
          lookup-delete s.server n sv.addr2id,
          own,
          lookup-gone sv s.id n h,
          lookup-gone sv s.id _ h,
        )
        (rw (h.named, ← (str_eq_iff s.server n).0 own, free))
  | inr other ↦
      rw
        (
          other,
          lookup-delete s.server n sv.addr2id,
          other,
          lookup-gone sv s.id n h,
          lookup-gone sv s.id _ h,
        )
        (unless-or_else sv s.id n h)
]

-- What is found is registered.
pub get-registered :
    (sv : Slaves) (n : Str) (s : SlaveInfo)
    → get sv n ≡ some s
    → (k : Str) × (lookup k sv.slaves ≡ some s)
unfolding get
get-registered sv n s e = elim (Option-cases (lookup n sv.slaves)) [
  | inl no_id ↦ (or_empty (lookup n sv.addr2id), rw no_id at e)
  | inr (t, found) ↦ (n, found ∙ rw found at e)
]
