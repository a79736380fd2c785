-- ===== src/Marshal/Tests.antt =====
-- Runs of `Encode` and `Decode`, and the instances of their theorems.
use gproc.Common.{
  true, false, List, [], ◌∷◌, ◌++◌, none, some, ◌≡◌, refl, arith, Str, codes, str_eq, All, map,
  if◌then◌else◌,
}
use gproc.Common.Dict.{lookup, insert}
use gproc.Protocol.{File, StartReq}
use gproc.Marshal.{
  request, names, bytes, Source, collect, send_content, encode, Call, lstat, chown, symlink,
  open_file, write, close, Os, done, first_named, decode,
}
use gproc.Marshal.Blocks.{Reliable, written}
use gproc.Marshal.Delivery.{Sendable, delivered}
use gproc.Marshal.Returned.{received}
use gproc.Marshal.Whole.{decode-encode}

abbrev library : File
library = record {
  current_name = codes "/lib/c-2";
  dest_name = codes "/lib/c-2";
  symlink_target = [];
  uid = 0;
  gid = 0;
  ftype = 0;
  perm = 493;
}

abbrev link : File
link = record {
  current_name = codes "/lib/c";
  dest_name = codes "/lib/c";
  symlink_target = codes "/lib/c-2";
  uid = 0;
  gid = 0;
  ftype = 2;
  perm = 511;
}

abbrev start : StartReq
start = record {
  command = codes "e";
  nodes = codes "1";
  peers = [];
  this_node = true;
  local_bin = false;
  args = [];
  env = [];
  lib_list = [];
  path = [];
  lfam = [];
  lserver = [];
  bytes_to_transfer = 3;
  uid = 0;
  gid = 0;
  cmds = [];
  peer_group_size = 0;
  cwd = [];
  files = link ∷ library ∷ library ∷ [];
}

abbrev disk : Source
disk name = if str_eq name (codes "/lib/c-2") then some (codes "ELF") else none

abbrev no_disk : Source
no_disk name = none

abbrev willing : Os
willing calls c = true

abbrev root : Str
root = codes "/tmp"

encode_runs : encode disk start ≡ (
  true,
  request start
      ∷ names (codes "/lib/c" ∷ codes "/lib/c-2" ∷ [])
      ∷ bytes (codes "ELF")
      ∷ bytes []
      ∷ [],
)
unfolding encode lookup insert send_content
encode_runs = refl

decode_runs :
    (decode willing root
      (request start
        ∷ names (codes "/lib/c" ∷ codes "/lib/c-2" ∷ [])
        ∷ bytes (codes "ELF")
        ∷ bytes []
        ∷ [])
      []).1.calls
    ≡ lstat (codes "/tmp/lib/")
      ∷ symlink (codes "/tmp/lib/c-2") (codes "/tmp/lib/c")
      ∷ lstat (codes "/tmp/lib/")
      ∷ open_file (codes "/tmp/lib/c-2")
      ∷ chown (codes "/tmp/lib/c-2") 0 0
      ∷ write (codes "/tmp/lib/c-2") (codes "ELF")
      ∷ close (codes "/tmp/lib/c-2")
      ∷ []
unfolding decode
decode_runs = refl

reliable : Reliable willing
reliable = record { opens = λ h p. refl; writes = λ h p b. refl; closes = λ h p. refl }

sendable : All (Sendable disk) start.files
sendable =
    let file : Sendable disk library = record {
      readable = λ e. (codes "ELF", refl);
      target = λ e. absurd (omega (arith, e));
    } in
    (
      record { readable = λ e. absurd (omega (arith, e)); target = λ e. ground arith },
      (file, (file, tt)),
    )

found : first_named (codes "/lib/c-2") start.files ≡ some library
unfolding first_named
found = refl

decode-encode_example :
    ((encode disk start).0 ≡ true)
    × (calls : List Call) × (decode willing root ((encode disk start).1 ++ bytes [] ∷ []) [] ≡ (
      done (record start { files = map (received root (collect start.files [])) start.files }),
      record { stream = bytes [] ∷ []; calls = calls },
    ))
    × ((p : Str) → written p calls ≡ delivered disk root p (collect start.files []))
decode-encode_example = decode-encode disk willing root start (bytes [] ∷ []) reliable sendable
