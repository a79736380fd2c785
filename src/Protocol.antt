-- ===== src/Protocol.antt =====
-- src/gproc/common.go and src/filemarshal/filemarshal.go: the messages that gproc's processes exchange.
use gproc.Common.{ℕ, Bool, true, List, [], ◌∷◌, Str, codes}
use gproc.Common.Dict.{Dict}

-- `filemarshal.File`, without its open file, which is never sent.
pub record File : Type 0 where
  pub current_name : Str
  pub dest_name : Str
  pub symlink_target : Str
  pub uid : ℕ
  pub gid : ℕ
  pub ftype : ℕ
  pub perm : ℕ

-- `cmdToExec`
pub record CmdToExec : Type 0 where
  pub current_name : Str
  pub dest_name : Str
  pub symlink_target : Str
  pub local_file : ℕ
  pub uid : ℕ
  pub gid : ℕ
  pub ftype : ℕ
  pub perm : ℕ

-- `StartReq`
pub record StartReq : Type 0 where
  pub command : Str
  pub nodes : Str
  pub peers : List Str
  pub this_node : Bool
  pub local_bin : Bool
  pub args : List Str
  pub env : List Str
  pub lib_list : List Str
  pub path : Str
  pub lfam : Str
  pub lserver : Str
  -- The bits of an `int64`.
  pub bytes_to_transfer : ℕ
  pub uid : ℕ
  pub gid : ℕ
  pub cmds : List CmdToExec
  pub peer_group_size : ℕ
  pub cwd : Str
  pub files : List File

-- `Resp`
pub record Resp : Type 0 where
  pub num_nodes : ℕ
  pub msg : Str

-- `vitalData`
pub record VitalData : Type 0 where
  pub host_ready : Bool
  pub error_text : Str
  pub host_addr : Str
  pub parent_addr : Str
  pub server_addr : Str
  pub id : Str
  pub nodes : List Str
  pub exceptlist : Dict Bool

-- `newStartReq`: a copy that tells its receiver to run the command. What is not named is left at its
-- zero value.
unfoldable pub new_start_req : StartReq → StartReq
new_start_req arg = record {
  command = arg.command;
  nodes = arg.nodes;
  peers = arg.peers;
  this_node = true;
  local_bin = arg.local_bin;
  args = arg.args;
  env = arg.env;
  lib_list = arg.lib_list;
  path = arg.path;
  lfam = arg.lfam;
  lserver = arg.lserver;
  bytes_to_transfer = arg.bytes_to_transfer;
  uid = 0;
  gid = 0;
  cmds = arg.cmds;
  peer_group_size = 0;
  cwd = arg.cwd;
  files = [];
}

abbrev pub text_or_nil : Str → Str
text_or_nil [] = codes "<nil>"
text_or_nil (c ∷ s) = c ∷ s

-- `Resp.String`
unfoldable pub resp_string : Resp → Str
resp_string r = text_or_nil r.msg
