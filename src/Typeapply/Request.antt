-- ===== src/Typeapply/Request.antt =====
-- src/typeapply/typeapply.go and src/filemarshal/filemarshal.go: the types that a `StartReq` is
-- made of, and a request as a value.
use gproc.Common.{ℕ, Bool, true, false, List, [], ◌∷◌, ◌++◌, map, Option, none, some, Str, codes}
use gproc.Common.Dict.{Dict, lookup}
use gproc.Decimal.{itoa_nat}
use gproc.Protocol.{File, CmdToExec, StartReq}
use gproc.Typeapply.{Field, TypeKind, ptr, struct, map_kind, slice, basic, Types}
use gproc.Typeapply.Values.{
  Value, Values, pointer, struct_value, list_value, no_values, value_and, basic_value,
}

abbrev public : Str → Field
public s = record { exported = true; type_name = s }

abbrev pub texts : Str
texts = codes "[]string"

abbrev pub text : Str
text = codes "string"

abbrev pub int : Str
int = codes "int"

abbrev pub cmds : Str
cmds = codes "[]*cmdToExec"

abbrev pub files : Str
files = codes "[]*File"

abbrev pub request_fields : List Field
request_fields = map public (
    text
    ∷ text
    ∷ texts
    ∷ codes "bool"
    ∷ codes "bool"
    ∷ texts
    ∷ texts
    ∷ texts
    ∷ text
    ∷ text
    ∷ text
    ∷ codes "int64"
    ∷ int
    ∷ int
    ∷ cmds
    ∷ int
    ∷ text
    ∷ files
    ∷ [])

abbrev pub cmd_fields : List Field
cmd_fields = map public (text ∷ text ∷ text ∷ int ∷ int ∷ int ∷ int ∷ codes "uint32" ∷ [])

abbrev pub file_fields : List Field
file_fields =
    map public (text ∷ text ∷ text ∷ [])
    ++ record { exported = false; type_name = codes "*os.File" }
      ∷ map public (int ∷ int ∷ int ∷ codes "uint32" ∷ [])

abbrev pub vital_fields : List Field
vital_fields =
    map public
      (codes "bool" ∷ text ∷ text ∷ text ∷ text ∷ text ∷ texts ∷ codes "map[string]bool" ∷ [])

-- The types that a `StartReq` and the other messages of a master are made of. No call looks into an `os.File`.
abbrev pub request_kinds : Dict TypeKind
request_kinds =
    (codes "StartReq", struct request_fields)
    ∷ (codes "*StartReq", ptr (codes "StartReq"))
    ∷ (texts, slice text)
    ∷ (cmds, slice (codes "*cmdToExec"))
    ∷ (codes "*cmdToExec", ptr (codes "cmdToExec"))
    ∷ (codes "cmdToExec", struct cmd_fields)
    ∷ (files, slice (codes "*File"))
    ∷ (codes "*File", ptr (codes "File"))
    ∷ (codes "File", struct file_fields)
    ∷ (codes "**StartReq", ptr (codes "*StartReq"))
    ∷ (codes "vitalData", struct vital_fields)
    ∷ (codes "*vitalData", ptr (codes "vitalData"))
    ∷ (codes "**vitalData", ptr (codes "*vitalData"))
    ∷ (codes "Resp", struct (map public (int ∷ text ∷ [])))
    ∷ (codes "SlaveResp", struct (map public (text ∷ [])))
    ∷ (codes "map[string]bool", map_kind text (codes "bool"))
    ∷ []

abbrev pub or_basic : Option TypeKind → TypeKind
or_basic none = basic
or_basic (some k) = k

abbrev pub request_types : Types
request_types xt = or_basic (lookup xt request_kinds)

abbrev pub number : ℕ → Value
number n = basic_value (itoa_nat n)

abbrev pub truth : Bool → Value
truth true = basic_value (codes "true")
truth false = basic_value (codes "false")

-- Values that are accessible.
abbrev pub all_public : List Value → Values
all_public [] = no_values
all_public (v ∷ vs) = value_and true v (all_public vs)

abbrev pub file_value : File → Value
file_value f = pointer (
    struct_value (
      value_and true (basic_value f.current_name) (
        value_and true (basic_value f.dest_name) (
          value_and true (basic_value f.symlink_target) (
            value_and false (basic_value [])
              (all_public (number f.uid ∷ number f.gid ∷ number f.ftype ∷ number f.perm ∷ [])))))))

abbrev pub cmd_value : CmdToExec → Value
cmd_value c = pointer (
    struct_value (
      all_public (
        basic_value c.current_name
        ∷ basic_value c.dest_name
        ∷ basic_value c.symlink_target
        ∷ number c.local_file
        ∷ number c.uid
        ∷ number c.gid
        ∷ number c.ftype
        ∷ number c.perm
        ∷ [])))

abbrev pub text_values : List Str → Value
text_values ss = list_value (all_public (map basic_value ss))

-- A pointer to a request.
abbrev pub request_value : StartReq → Value
request_value r = pointer (
    struct_value (
      all_public (
        basic_value r.command
        ∷ basic_value r.nodes
        ∷ text_values r.peers
        ∷ truth r.this_node
        ∷ truth r.local_bin
        ∷ text_values r.args
        ∷ text_values r.env
        ∷ text_values r.lib_list
        ∷ basic_value r.path
        ∷ basic_value r.lfam
        ∷ basic_value r.lserver
        ∷ number r.bytes_to_transfer
        ∷ number r.uid
        ∷ number r.gid
        ∷ list_value (all_public (map cmd_value r.cmds))
        ∷ number r.peer_group_size
        ∷ basic_value r.cwd
        ∷ list_value (all_public (map file_value r.files))
        ∷ [])))
