-- ===== src/Marshal/Delivery.antt =====
-- src/filemarshal/filemarshal.go: what `Encode` sends is what `Decode` writes.
use gproc.Common.{
  ◌%◌, true, false, ◌&&◌, List, [], ◌∷◌, ◌++◌, Option, none, some, ◌≡◌, ◌≢◌, refl, sym, ap, ◌∙◌,
  inl, inr, arith, Str, str_eq, str_eq_self, str_ne, map, append_assoc, append-nil, Bool-cases,
  Option-cases, ◌==◌, if◌then◌else◌,
}
use gproc.Common.Dict.{Dict, lookup, AllValues}
use gproc.Protocol.{File}
use gproc.Marshal.{
  Packet, Source, send_content, send_files, Call, mkdir_all, chown, lstat, symlink, open_file,
  close, Os, dir_of, make_dir, place_regular, place_symlink, place_directory, rooted_target, place,
  first_named, set_named, place_all,
}
use gproc.Marshal.Keys.{Unique, first_named-set_named, first_named-name}
use gproc.Marshal.Blocks.{Reliable, written, written-append, Runs, receive-send_content}

module _ (source : Source) where
  -- A regular file can be opened, and a symbolic link has a target.
  pub record Sendable (f : File) : Type 0 where
    pub readable : f.ftype ≡ 0 → (content : Str) × (source f.current_name ≡ some content)
    pub target : f.ftype ≡ 2 → f.symlink_target ≢ []

  abbrev pub or_nothing : Option Str → Str
  or_nothing none = []
  or_nothing (some content) = content

  -- What a file puts at `p`: its bytes where it is regular and goes there.
  unfoldable pub content_at : Str → Str → File → Str
  content_at root p f =
      if (f.ftype == 0) && str_eq (root ++ f.dest_name) p
      then or_nothing (source f.current_name)
      else []

  -- What the files put at `p`, one after the other.
  unfoldable pub delivered : Str → Str → Dict File → Str
  unfolding content_at
  delivered root p [] = []
  delivered root p ((n, f) ∷ files) = content_at root p f ++ delivered root p files

  abbrev pub packets_of : Option Str → List Packet
  packets_of none = []
  packets_of (some content) = send_content content

  abbrev pub file_packets : File → List Packet
  file_packets f = if f.ftype == 0 then packets_of (source f.current_name) else []

  pub send_files-nil : send_files source [] ≡ (true, [])
  unfolding send_files
  send_files-nil = refl

  pub send_files_lem :
      (n : Str) (f : File) (files : Dict File)
      → Sendable f
      → send_files source ((n, f) ∷ files)
        ≡ ((send_files source files).0, file_packets f ++ (send_files source files).1)
  unfolding send_files
  send_files_lem n f files h = elim (Bool-cases (f.ftype == 0)) [
    | inl regular ↦ let (content, e) = h.readable (ground arith) in rw (regular, e) refl
    | inr other ↦ rw other refl
  ]

rooted-none : (root s : Str) → rooted_target root s ≡ none → s ≡ []
rooted-none root [] e = refl
rooted-none root (c ∷ s) e = absurd (ground arith)

module _ (os : Os) (dest : Str) where
  make_dir_lem :
      (stream : List Packet) (calls : List Call)
      → (more : List Call) × (make_dir os dest (record { stream = stream; calls = calls })
          ≡ record { stream = stream; calls = calls ++ more })
        × ((p : Str) → written p more ≡ [])
  unfolding written make_dir
  make_dir_lem stream calls = elim (Bool-cases (os calls (lstat (dir_of dest)))) [
    | inl found ↦ (lstat (dir_of dest) ∷ [], rw found refl, λ p. refl)
    | inr missing ↦ (
      lstat (dir_of dest) ∷ mkdir_all (dir_of dest) 511 ∷ [],
      rw missing
          (rw (append_assoc calls (lstat (dir_of dest) ∷ []) (mkdir_all (dir_of dest) 511 ∷ []))),
      λ p. refl,
    )
  ]

  place_regular_lem :
      (f : File) (content : Str) (stream : List Packet) (calls : List Call)
      → Reliable os
      → Runs
          (place_regular os dest f
            (record { stream = send_content content ++ stream; calls = calls }))
          f
          stream
          calls
          (λ p. if str_eq dest p then content else [])
  unfolding place_regular written
  place_regular_lem f content stream calls r =
      let (more, made, none_made) = make_dir_lem (send_content content ++ stream) calls in
      let start = (calls ++ more) ++ open_file dest ∷ [] ++ chown dest f.uid f.gid ∷ [] in
      let got = receive-send_content os dest content stream start r in
      let new = open_file dest ∷ chown dest f.uid f.gid ∷ (got.new_calls ++ (close dest ∷ [])) in
      record {
        new_calls = more ++ new;
        run_eq =
            rw (place_regular, made)
              (rw (r.opens (calls ++ more) dest) (
                rw got.run_eq
                  (rw (r.closes (start ++ got.new_calls) dest) (simp append_assoc refl))));
        written_eq = λ p.
            rw (written-append p more new, none_made p)
              (rw (written-append p got.new_calls (close dest ∷ []), got.written_eq p)
                (simp append-nil refl));
      }

  place_symlink_lem :
      (root : Str) (f : File) (stream : List Packet) (calls : List Call)
      → f.symlink_target ≢ []
      → (target : Str) × (rooted_target root f.symlink_target ≡ some target)
        × Runs
            (place_symlink os root dest f (record { stream = stream; calls = calls }))
            (record f { symlink_target = target })
            stream
            calls
            (λ p. [])
  unfolding place_symlink written
  place_symlink_lem root f stream calls h =
      elim (Option-cases (rooted_target root f.symlink_target)) [
        | inl e ↦ absurd (h (rooted-none root f.symlink_target e))
        | inr (target, e) ↦
            let (more, made, none_made) = make_dir_lem stream calls in
            (
              target,
              e,
              record {
                new_calls = more ++ symlink target dest ∷ [];
                run_eq =
                    rw (place_symlink, made, e)
                      (rw (append_assoc calls more (symlink target dest ∷ [])));
                written_eq =
                    λ p. rw (written-append p more (symlink target dest ∷ []), none_made p) refl;
              },
            )
      ]

  place_directory_lem :
      (f : File) (stream : List Packet) (calls : List Call)
      → Runs
          (place_directory os dest f (record { stream = stream; calls = calls }))
          f
          stream
          calls
          (λ p. [])
  unfolding place_directory written
  place_directory_lem f stream calls =
      let make = mkdir_all dest (f.perm % 512) in
      elim (Bool-cases (os calls make)) [
        | inl made ↦ record { new_calls = make ∷ []; run_eq = rw made refl; written_eq = λ p. refl }
        | inr not_made ↦ record {
          new_calls = make ∷ chown dest f.uid f.gid ∷ [];
          run_eq = rw not_made (rw (append_assoc calls (make ∷ []) (chown dest f.uid f.gid ∷ [])));
          written_eq = λ p. refl;
        }
      ]

-- A file as it is returned: a link has the target that it was made with.
abbrev pub with_target : File → Option Str → File
with_target f none = f
with_target f (some target) = record f { symlink_target = target }

abbrev pub placed : Str → File → File
placed root f = if f.ftype == 2 then with_target f (rooted_target root f.symlink_target) else f

-- The files after all have been placed.
abbrev pub all_placed : Str → Dict File → List File → List File
all_placed root [] fs = fs
all_placed root ((n, f) ∷ es) fs = all_placed root es (set_named n (placed root f) fs)

module _ (source : Source) (os : Os) (root : Str) where
  place_lem :
      (f : File) (stream : List Packet) (calls : List Call)
      → Reliable os
      → Sendable source f
      → (f' : File) × (f'.current_name ≡ f.current_name)
        × (f' ≡ placed root f)
        × Runs
            (place os root f (record { stream = file_packets source f ++ stream; calls = calls }))
            f'
            stream
            calls
            (λ p. content_at source root p f)
  unfolding place content_at written
  place_lem f stream calls r h = elim (Bool-cases (f.ftype == 1)) [
    | inl one ↦
        let regular : (f.ftype == 0) ≡ false = ground (arith, one) in
        let link : (f.ftype == 2) ≡ false = ground (arith, one) in
        rw (one, regular, link)
          (f, refl, refl, place_directory_lem os (root ++ f.dest_name) f stream calls)
    | inr not_one ↦ elim (Bool-cases (f.ftype == 2)) [
      | inl two ↦
          let regular : (f.ftype == 0) ≡ false = ground (arith, two) in
          let (target, made, runs) =
            place_symlink_lem os (root ++ f.dest_name) root f stream calls
              (h.target (ground (arith, two))) in
          rw (not_one, two, regular)
            (record f { symlink_target = target }, refl, rw made refl, runs)
      | inr not_two ↦ elim (Bool-cases (f.ftype == 0)) [
        | inl zero_type ↦
            let (content, e) = h.readable (ground (arith, zero_type)) in
            rw (not_one, not_two, zero_type, e)
              (f, refl, refl, place_regular_lem os (root ++ f.dest_name) f content stream calls r)
        | inr other ↦
            rw (not_one, not_two, other)
              (
                f,
                refl,
                refl,
                record {
                  new_calls = [];
                  run_eq = rw (append-nil calls) refl;
                  written_eq = λ p. refl;
                },
              )
      ]
    ]
  ]

  -- The entries of `es` are the first files of their names, in `fs`.
  abbrev pub Found : Dict File → List File → Type 0
  Found es fs = (n : Str) (f : File) → lookup n es ≡ some f → first_named n fs ≡ some f

  pub place_all_lem :
      (es : Dict File) (fs : List File) (stream : List Packet) (calls : List Call)
      → Reliable os
      → Unique es
      → Found es fs
      → AllValues (Sendable source) es
      → (fs' : List File) × (fs' ≡ all_placed root es fs)
        × Runs
            (place_all os root
              (map (λ e. e.0) es)
              fs
              (record { stream = (send_files source es).1 ++ stream; calls = calls }))
            fs'
            stream
            calls
            (λ p. delivered source root p es)
  unfolding place_all delivered written lookup
  place_all_lem [] fs stream calls r u found h = (
    fs,
    refl,
    record {
      new_calls = [];
      run_eq = rw (send_files-nil source) (rw (append-nil calls) refl);
      written_eq = λ p. refl;
    },
  )
  place_all_lem ((n, f) ∷ es) fs stream calls r (fresh, u) found (s, h) =
      let here : first_named n fs ≡ some f = found n f (ground (arith, str_eq_self n)) in
      let (f', same, as_placed, now) = place_lem f ((send_files source es).1 ++ stream) calls r s in
      let (fs', later_files, later) =
        place_all_lem es (set_named n f' fs) stream (calls ++ now.new_calls) r u
          (λ m g e.
            let other : n ≢ m = λ k. absurd (ground (arith, k, e, fresh)) in
            first_named-set_named n m f' fs (same ∙ first_named-name n f fs here) other
            ∙ found m g (rw (str_ne n m other) e))
          h in
      (
        fs',
        later_files ∙ ap (λ g. all_placed root es (set_named n g fs)) as_placed,
        record {
          new_calls = now.new_calls ++ later.new_calls;
          run_eq =
              rw
                (
                  send_files_lem source n f es s,
                  append_assoc (file_packets source f) (send_files source es).1 stream,
                )
                (rw (place_all, here)
                  (rw now.run_eq (
                    rw now.run_eq
                      (rw (sym (append_assoc calls now.new_calls later.new_calls)) later.run_eq))));
          written_eq = λ p.
              rw
                (
                  written-append p now.new_calls later.new_calls,
                  now.written_eq p,
                  later.written_eq p,
                )
                refl;
        },
      )
