-- ===== src/Log/Printed.antt =====
-- src/gproc/common.go: how a message that is sent or received is logged.
use gproc.Common.{
  ℕ, zero, suc, ◌-◌, Bool, List, [], ◌∷◌, ◌++◌, Option, none, some, Str, codes, join, length,
}
use gproc.Decimal.{itoa_nat}
use gproc.Log.{Logger, log_info}

-- The values that the code sends through: a connection with its two addresses, a file with its
-- number, or a pair of an encoder and a decoder.
pub data Io : Type 0 where
  conn : (local_addr remote_addr : Str) → Io
  file : (fd : ℕ) → Io
  rpc_client_server : Io

pub data Direction : Type 0 where
  send : Direction
  recv : Direction

abbrev spaces : ℕ → Str
spaces zero = []
spaces (suc n) = b' ' ∷ spaces n

-- `%8s`
abbrev pub width_8 : Str → Str
width_8 s = spaces (8 - length s) ++ s

-- `IoString`
unfoldable pub io_string : Io → Direction → Str
io_string (conn l r) send = width_8 l ++ codes " -> " ++ width_8 r
io_string (conn l r) recv = width_8 l ++ codes " <- " ++ width_8 r
io_string (file fd) dir = itoa_nat fd
io_string rpc_client_server dir = codes "<unknown io>"

-- `log.Println` puts a space between its arguments, the first as well, and reads no format in them.
abbrev pub print_words : List Str → Str
print_words words = join b' ' words

-- `source` is the path of common.go when the program is built.
module _ (extra_debug : Bool) (source : Str) where
  -- `SendPrint`
  unfoldable pub send_print : Str → Io → Str → Logger → Logger
  unfolding log_info io_string join
  send_print funcname to arg l =
      log_info extra_debug source 206
        (print_words (codes "%15s send %25s: %s\n" ∷ funcname ∷ io_string to send ∷ arg ∷ [])) l

  -- `RecvPrint`, `from` as it is printed.
  unfoldable pub recv_print : Str → Str → Str → Logger → Logger
  unfolding log_info join
  recv_print funcname from arg l =
      log_info extra_debug source 210
        (print_words (codes "%v recv %v: %v\n" ∷ funcname ∷ from ∷ arg ∷ [])) l

  -- `Send`, where `encoded` is the error of the encoder, and the bytes it writes are not modelled.
  unfoldable pub rpc_send : Str → Option Str → Str → Logger → Logger
  unfolding send_print
  rpc_send funcname none arg l = send_print funcname rpc_client_server arg l
  rpc_send funcname (some err) arg l =
      log_info extra_debug source 239 (print_words (funcname ∷ codes ": Send: " ∷ err ∷ []))
        (send_print funcname rpc_client_server arg l)

  -- `Recv`, where `decoded` is the error of the decoder or the value as it is printed: the error
  -- that is returned, and the log.
  unfoldable pub rpc_recv : Str → Str → Str → Option Str → Logger → Option Str × Logger
  unfolding recv_print
  rpc_recv funcname from arg none l = (none, recv_print funcname from arg l)
  rpc_recv funcname from arg (some err) l = (
    some err,
    log_info extra_debug source 248 (print_words (funcname ∷ codes ": Recv error: " ∷ err ∷ [])) l,
  )
