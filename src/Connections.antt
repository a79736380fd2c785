-- ===== src/Connections.antt =====
-- src/gproc/common.go: `Dial`, `Listen`, `Accept`, and `fileTcpDial`. Whether the network
-- lets a call succeed is a parameter, and what the process has open is a list. The functions to call on a dial,
-- a listen or an accept are never set.
pub mod Closed
pub mod Tests
use gproc.Log.{Logger, log_info}
use gproc.Common.{
  ℕ, suc, Bool, true, false, List, [], ◌∷◌, Option, none, some, Str, codes, str_eq, if◌then◌else◌,
  join, ◌==◌,
}

-- The package net, where an address is its resolved form. A dial without a remote address fails.
pub record Net : Type 0 where
  pub resolve : Str → Option Str
  pub dials_tcp : (fam : Str) (laddr : Option Str) (raddr : Str) → Bool
  pub dials : (fam raddr : Str) → Bool
  pub listens : (fam laddr : Str) → Bool
  pub copies_file : Bool

-- What is open: the number of the next handle, and the handles.
pub record Handles : Type 0 where
  pub next : ℕ
  pub handles : List ℕ

abbrev pub Opened : Type 0
Opened = Option ℕ × Handles

-- A call that gives a new handle where it succeeds.
unfoldable pub open_if : Bool → Handles → Opened
open_if true h = (some h.next, record { next = suc h.next; handles = h.next ∷ h.handles })
open_if false h = (none, h)

-- `Close`
abbrev pub close_in : ℕ → List ℕ → List ℕ
close_in c [] = []
close_in c (d ∷ ds) = let rest = close_in c ds in if d == c then rest else d ∷ rest

abbrev pub close_handle : ℕ → Handles → Handles
close_handle c h = record h { handles = close_in c h.handles }

module _ (net : Net) where
  -- `net.DialTCP`
  abbrev pub dial_tcp : Str → Option Str → Option Str → Handles → Opened
  dial_tcp fam laddr none h = (none, h)
  dial_tcp fam laddr (some raddr) h = open_if (net.dials_tcp fam laddr raddr) h

  -- `Dial`
  unfoldable pub dial : (fam laddr raddr : Str) → Handles → Opened
  unfolding open_if
  dial fam laddr raddr h =
      if str_eq fam (codes "tcp")
      then dial_tcp fam (net.resolve laddr) (net.resolve raddr) h
      else open_if (net.dials fam raddr) h

  -- `Listen`
  unfoldable pub listen : (fam laddr : Str) → Handles → Opened
  unfolding open_if
  listen fam laddr h = open_if (net.listens fam laddr) h

  -- The call of `c.File`: on an error the connection is closed.
  abbrev pub file_of : ℕ → Opened → Option (ℕ × ℕ) × Handles
  file_of c (none, h) = (none, close_handle c h)
  file_of c (some f, h) = (some (f, c), h)

  abbrev pub with_connection : Opened → Option (ℕ × ℕ) × Handles
  with_connection (none, h) = (none, h)
  with_connection (some c, h) = file_of c (open_if net.copies_file h)

  -- `fileTcpDial`: the file and the connection. The local address is empty, not absent.
  abbrev pub dial_resolved : Str → Option Str → Handles → Option (ℕ × ℕ) × Handles
  dial_resolved fam none h = (none, h)
  dial_resolved fam (some raddr) h =
      with_connection (open_if (net.dials_tcp fam (some (codes "")) raddr) h)

  unfoldable pub file_tcp_dial : (fam server : Str) → Handles → Option (ℕ × ℕ) × Handles
  unfolding open_if
  file_tcp_dial fam server h = dial_resolved fam (net.resolve server) h

-- `Accept`, where the connection that comes has these remote and local addresses; `source` is the path of
-- common.go when the program is built.
unfoldable pub accept : Bool → Str → Option (Str × Str) → Handles → Logger → Opened × Logger
unfolding open_if log_info join
accept extra_debug source none h l = (open_if false h, l)
accept extra_debug source (some (remote, local_addr)) h l = (
  open_if true h,
  log_info extra_debug source 306
      (join b' ' (codes "accepted " ∷ remote ∷ codes "->" ∷ local_addr ∷ [])) l,
)
