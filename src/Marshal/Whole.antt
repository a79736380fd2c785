-- ===== src/Marshal/Whole.antt =====
-- src/filemarshal/filemarshal.go: `Encode` and `Decode` of a whole value.
use gproc.Common.{
  true, false, List, [], ◌∷◌, ◌++◌, none, some, ◌≡◌, sym, ap, ◌∙◌, inl, inr, arith, Str, str_eq,
  All, map, Bool-cases, Option-cases,
}
use gproc.Common.Dict.{Dict, lookup, AllValues, AllValues-insert}
use gproc.Protocol.{File, StartReq}
use gproc.Marshal.{
  Packet, Source, add_file, collect, send_files, encode, Call, Os, done, first_named, with_files,
  decode,
}
use gproc.Marshal.Keys.{collect-Holds, first_named-name}
use gproc.Marshal.Blocks.{Reliable, written}
use gproc.Marshal.Returned.{received, all_placed-received}
use gproc.Marshal.Delivery.{Sendable, delivered, send_files-nil, send_files_lem, place_all_lem}

module _ (P : File → Type 0) where
  add_file-AllValues :
      (f : File) (files : Dict File) → P f → AllValues P files → AllValues P (add_file f files)
  unfolding add_file
  add_file-AllValues f files p h = elim (Bool-cases (str_eq f.current_name [])) [
    | inl empty ↦ rw empty h
    | inr named ↦ elim (Option-cases (lookup f.current_name files)) [
      | inl fresh ↦ rw (named, fresh) (AllValues-insert P f.current_name f files p h)
      | inr (g, known) ↦ rw (named, known) h
    ]
  ]

  collect-AllValues :
      (fs : List File) (files : Dict File)
      → All P fs
      → AllValues P files
      → AllValues P (collect fs files)
  unfolding collect
  collect-AllValues [] files _ h = h
  collect-AllValues (f ∷ fs) files (p, ps) h =
      collect-AllValues fs (add_file f files) ps (add_file-AllValues f files p h)

send_files_done :
    (source : Source) (es : Dict File)
    → AllValues (Sendable source) es
    → (send_files source es).0 ≡ true
send_files_done source [] h = ap (λ r. r.0) (send_files-nil source)
send_files_done source ((n, f) ∷ es) (s, h) =
    rw (send_files_lem source n f es s) (send_files_done source es h)

-- If every regular file can be opened and every link has a target, `Encode` returns no error, and `Decode` of
-- what it has sent, before anything else, on a system that opens, writes and closes files without an error,
-- returns the value with other files in it: in place of each file that has a name the first of this name, where
-- a link with an absolute target has it below the root. It takes from the stream what was sent and no
-- more, and writes to each path the bytes of the regular files that go there: one for each name, the first.
pub decode-encode :
    (source : Source) (os : Os) (root : Str) (x : StartReq) (rest : List Packet)
    → Reliable os
    → All (Sendable source) x.files
    → ((encode source x).0 ≡ true)
      × (calls : List Call) × (decode os root ((encode source x).1 ++ rest) [] ≡ (
        done (record x { files = map (received root (collect x.files [])) x.files }),
        record { stream = rest; calls = calls },
      ))
      × ((p : Str) → written p calls ≡ delivered source root p (collect x.files []))
unfolding encode decode
decode-encode source os root x rest r h =
    let files = collect x.files [] in
    let held = collect-Holds x.files in
    let all = collect-AllValues (Sendable source) x.files [] h tt in
    let (fs, as_placed, runs) =
      place_all_lem source os root files x.files rest [] r held.unique
        (λ n f e. sym (held.first n) ∙ e) all in
    let returned : fs ≡ map (received root files) x.files =
      as_placed
      ∙ all_placed-received root files x.files held.unique
          (λ n f e. first_named-name n f x.files (sym (held.first n) ∙ e)) in
    (
      send_files_done source files all,
      runs.new_calls,
      ap (with_files x) runs.run_eq
          ∙ ap
              (λ g.
                (done (record x { files = g }), record { stream = rest; calls = runs.new_calls }))
              returned,
      runs.written_eq,
    )

send_files_fails :
    (source : Source) (es : Dict File) (n : Str) (f : File)
    → lookup n es ≡ some f
    → f.ftype ≡ 0
    → source f.current_name ≡ none
    → (send_files source es).0 ≡ false
unfolding send_files lookup
send_files_fails source [] n f e regular u = absurd (ground arith)
send_files_fails source ((m, g) ∷ es) n f e regular u =
    ground (arith, send_files_fails source es n f)

-- If a regular file that is sent under its name cannot be opened, `Encode` returns an error.
pub encode_unreadable :
    (source : Source) (x : StartReq) (n : Str) (f : File)
    → first_named n x.files ≡ some f
    → f.ftype ≡ 0
    → source n ≡ none
    → (encode source x).0 ≡ false
unfolding encode
encode_unreadable source x n f e regular unreadable =
    send_files_fails source (collect x.files []) n f ((collect-Holds x.files).first n ∙ e) regular
      (rw (first_named-name n f x.files e) unreadable)
