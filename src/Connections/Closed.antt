-- ===== src/Connections/Closed.antt =====
-- src/gproc/common.go: what `fileTcpDial` leaves open.
use gproc.Common.{
  ℕ, ◌<◌, Bool, true, false, List, [], ◌∷◌, Option, none, some, ◌≡◌, refl, arith, Str, All,
}
use gproc.Connections.{
  Net, Handles, open_if, close_in, file_tcp_dial, dial_resolved, with_connection, file_of,
}

-- The handles that are open have numbers below the next one.
abbrev pub IsFresh : Handles → Type 0
IsFresh h = All (λ d. d < h.next) h.handles

close_in-fresh : (c : ℕ) (ds : List ℕ) → All (λ d. d < c) ds → close_in c ds ≡ ds
close_in-fresh c [] h = refl
close_in-fresh c (d ∷ ds) (less, h) = ground (arith, less, close_in-fresh c ds h)

-- After an error nothing more is open than before. Without one the file and the connection are two handles
-- that were not open, and they are open besides what was.
abbrev pub DialEnds : Handles → Option (ℕ × ℕ) × Handles → Type 0
DialEnds h (none, h') = h'.handles ≡ h.handles
DialEnds h (some (f, c), h') =
    (h'.handles ≡ f ∷ c ∷ h.handles) × (c < f) × All (λ d. d < c) h.handles × (f < h'.next)

module _ (net : Net) (h : Handles) (fresh : IsFresh h) where
  copied : (copies : Bool) → DialEnds h (file_of net h.next (open_if copies (open_if true h).1))
  unfolding open_if
  copied true = (refl, omega arith, fresh, omega arith)
  copied false = ground (arith, close_in-fresh h.next h.handles fresh)

  dialed : (dials : Bool) → DialEnds h (with_connection net (open_if dials h))
  unfolding open_if
  dialed true = copied net.copies_file
  dialed false = refl

  resolved : (fam : Str) (addr : Option Str) → DialEnds h (dial_resolved net fam addr h)
  resolved fam none = refl
  resolved fam (some addr) = dialed (net.dials_tcp fam (some []) addr)

  -- `fileTcpDial`, from a state whose handles are numbered below the next: after an error nothing is
  -- open but what was; without one the file and the connection are two new handles, and they are open
  -- besides what was.
  pub file_tcp_dial_lem : (fam server : Str) → DialEnds h (file_tcp_dial net fam server h)
  unfolding file_tcp_dial
  file_tcp_dial_lem fam server = resolved fam (net.resolve server)
