-- ===== src/Connections/Tests.antt =====
-- Dials of src/gproc/common.go.
use gproc.Common.{true, false, [], ◌∷◌, none, some, ◌≡◌, refl, arith, Str, codes}
use gproc.Connections.{Net, Handles, open_if, dial, file_tcp_dial}
use gproc.Connections.Closed.{DialEnds, file_tcp_dial_lem}

-- A network where connections succeed, and no more files can be opened.
abbrev full : Net
full = record {
  resolve = λ s. some s;
  dials_tcp = λ fam laddr raddr. true;
  dials = λ fam raddr. true;
  listens = λ fam laddr. true;
  copies_file = false;
}

abbrev open_3 : Handles
open_3 = record { next = 3; handles = 1 ∷ 2 ∷ [] }

abbrev server : Str
server = codes "10.0.0.1:4445"

-- The connection that was made is closed again.
closed_again :
    file_tcp_dial full (codes "tcp4") server open_3
    ≡ (none, record { next = 4; handles = 1 ∷ 2 ∷ [] })
unfolding file_tcp_dial open_if
closed_again = refl

-- `Dial` ignores the error of a name that is not resolved, and fails in the dial.
unresolved :
    dial (record full { resolve = λ s. none }) (codes "tcp") [] server open_3 ≡ (none, open_3)
unfolding dial
unresolved = refl

file_tcp_dial_lem_example : DialEnds open_3 (file_tcp_dial full (codes "tcp4") server open_3)
file_tcp_dial_lem_example =
    file_tcp_dial_lem full open_3 (omega arith, (omega arith, tt)) (codes "tcp4") server
