-- ===== src/Log/Tests.antt =====
-- Lines of the log of src/gproc/common.go.
use gproc.Common.{true, [], ◌∷◌, ◌≡◌, refl, join, codes, length, none}
use gproc.Decimal.{itoa_nat}
use gproc.Log.{
  Logger, short_name, log_prologue, log_epilogue, log_info, log_error, slave_info_string,
}
use gproc.Log.Printed.{send_print, io_string, conn, rpc_client_server, send}

abbrev fresh : Logger
fresh = record { prefix = codes "master"; log_prefix = codes ""; lines = [] }

short : short_name (codes "/usr/src/gproc/master.go") ≡ codes "master.go"
unfolding short_name
short = refl

-- A path whose only slash is its first byte is kept.
short_of_root : short_name (codes "/master.go") ≡ codes "/master.go"
unfolding short_name
short_of_root = refl

-- An error leaves its prefix behind.
error_prefix : (log_error (codes "a/b.go") 7 (codes "x") fresh).prefix ≡ codes "master:b.go:7: "
unfolding log_error log_prologue short_name itoa_nat
error_prefix = refl

no_slave : slave_info_string none ≡ codes "<nil>"
unfolding slave_info_string
no_slave = refl

-- What is sent is logged with the format as it stands, and with no peer.
sent_text :
    (send_print true (codes "a/common.go") (codes "run") rpc_client_server (codes "x") fresh).lines
    ≡ codes "master:common.go:206: %15s send %25s: %s\n run <unknown io> x" ∷ []
unfolding send_print log_info log_prologue log_epilogue short_name itoa_nat io_string join
sent_text = refl

newline : length (codes "%s\n") ≡ 3
newline = refl

conn_text :
    io_string (conn (codes "1.2:3") (codes "10.0.0.1:80")) send ≡ codes "   1.2:3 -> 10.0.0.1:80"
unfolding io_string
conn_text = refl
