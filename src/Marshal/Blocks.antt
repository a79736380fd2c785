-- ===== src/Marshal/Blocks.antt =====
-- src/filemarshal/filemarshal.go: the blocks of one file, sent and received.
use gproc.Common.{
  ℕ, zero, suc, ◌+◌, ◌<◌, ◌≤◌, true, List, [], ◌∷◌, ◌++◌, ◌≡◌, ◌⊎◌, refl, sym, ◌∙◌, inl, inr, arith,
  Str, str_eq, length, append_assoc, append-nil, if◌then◌else◌,
}
use gproc.Marshal.{
  Packet, bytes, take, drop, block_size, send_blocks, send_content, Call, open_file, write, close,
  Os, Decoder, Result, done, receive,
}

-- The calls that `Decode` stops at when they fail never fail.
pub record Reliable (os : Os) : Type 0 where
  pub opens : (h : List Call) (p : Str) → os h (open_file p) ≡ true
  pub writes : (h : List Call) (p b : Str) → os h (write p b) ≡ true
  pub closes : (h : List Call) (p : Str) → os h (close p) ≡ true

abbrev pub written_by : Str → Call → Str
written_by p (write q b) = if str_eq q p then b else []
written_by p _ = []

-- What the calls write to `p`.
unfoldable pub written : Str → List Call → Str
written p [] = []
written p (c ∷ calls) = written_by p c ++ written p calls

pub written-append : (p : Str) (a b : List Call) → written p (a ++ b) ≡ written p a ++ written p b
unfolding written
written-append p [] b = refl
written-append p (c ∷ a) b =
    rw (written-append p a b) (sym (append_assoc (written_by p c) (written p a) (written p b)))

take-drop : (n : ℕ) (s : Str) → take n s ++ drop (length (take n s)) s ≡ s
unfolding take drop
take-drop zero s = refl
take-drop (suc n) [] = refl
take-drop (suc n) (c ∷ s) = rw (take-drop n s)

drop-nil : (n : ℕ) → drop n [] ≡ []
unfolding drop
drop-nil zero = refl
drop-nil (suc n) = refl

drop-add : (a b : ℕ) (s : Str) → drop (a + b) s ≡ drop b (drop a s)
unfolding drop
drop-add zero b s = let e : 0 + b ≡ b = omega arith in rw e refl
drop-add (suc a) b [] = rw (drop-nil (suc a + b), drop-nil b) refl
drop-add (suc a) b (c ∷ s) = let e : suc a + b ≡ suc (a + b) = omega arith in rw e (drop-add a b s)

drop_past : (n : ℕ) (s : Str) → length s ≤ n → drop n s ≡ []
unfolding drop
drop_past zero [] h = refl
drop_past (suc n) [] h = refl
drop_past zero (c ∷ s) h = absurd (omega arith)
drop_past (suc n) (c ∷ s) h = drop_past n s (omega arith)

take-nil : (n : ℕ) (s : Str) → 0 < n → take n s ≡ [] → s ≡ []
unfolding take
take-nil zero s h e = absurd (omega arith)
take-nil (suc n) [] h e = refl
take-nil (suc n) (c ∷ s) h e = absurd (ground arith)

-- The block at `off` and what follows it.
block_lem :
    (size off : ℕ) (s : Str)
    → drop off s ≡ take size (drop off s) ++ drop (off + length (take size (drop off s))) s
block_lem size off s =
    rw (drop-add off (length (take size (drop off s))) s) (sym (take-drop size (drop off s)))

List-cases : (s : Str) → (s ≡ []) ⊎ ((c : ℕ) × (cs : Str) × (s ≡ c ∷ cs))
List-cases [] = inl refl
List-cases (c ∷ cs) = inr (c, cs, refl)

send_blocks_end :
    (fuel size off : ℕ) (content : Str)
    → take size (drop off content) ≡ []
    → send_blocks (suc fuel) size content off ≡ []
unfolding send_blocks
send_blocks_end fuel size off content e = rw (send_blocks, e) refl

send_blocks_step :
    (fuel size off c : ℕ) (content cs : Str)
    → take size (drop off content) ≡ c ∷ cs
    → send_blocks (suc fuel) size content off
      ≡ bytes (c ∷ cs) ∷ send_blocks fuel size content (off + length (c ∷ cs))
unfolding send_blocks
send_blocks_step fuel size off c content cs e = rw (send_blocks, e) (rw e refl)

-- The blocks from `off` on are received in full: the calls write what is left of the file.
receive_blocks :
    (os : Os) (dest : Str) (fuel size off : ℕ) (content : Str) (stream : List Packet)
    (calls : List Call)
    → Reliable os
    → 0 < size
    → length content < fuel + off
    → (calls' : List Call) × (receive os dest
          (send_blocks fuel size content off ++ bytes [] ∷ stream)
          calls
        ≡ (done tt, record { stream = stream; calls = calls ++ calls' }))
      × ((p : Str) → written p calls' ≡ (if str_eq dest p then drop off content else []))
unfolding receive send_blocks written
receive_blocks os dest zero size off content stream calls r h n = (
  [],
  rw (append-nil calls) refl,
  λ p. rw (drop_past off content (omega (arith, n))) (ground arith),
)
receive_blocks os dest (suc fuel) size off content stream calls r h n =
    elim (List-cases (take size (drop off content))) [
      | inl e ↦ (
        [],
        rw (send_blocks_end fuel size off content e) (rw (append-nil calls) refl),
        λ p. rw (take-nil size (drop off content) h e) (ground arith),
      )
      | inr (c, cs, e) ↦
          let now = write dest (c ∷ cs) in
          let (calls', run, all) =
            receive_blocks os dest fuel size (off + length (c ∷ cs)) content stream
              (calls ++ now ∷ []) r h (omega arith) in
          (
            now ∷ calls',
            rw (send_blocks_step fuel size off c content cs e) (
                rw (r.writes calls dest (c ∷ cs))
                  (run ∙ rw (append_assoc calls (now ∷ []) calls'))),
            λ p. rw (all p, block_lem size off content) (rw e (ground arith)),
          )
    ]

-- A run of the decoder that returns `a`, leaves `stream`, and writes what `content` says.
pub record Runs {A : Type 0} (run : Result A × Decoder) (a : A) (stream : List Packet)
    (calls : List Call) (content : Str → Str) : Type 0 where
  pub new_calls : List Call
  pub run_eq : run ≡ (done a, record { stream = stream; calls = calls ++ new_calls })
  pub written_eq : (p : Str) → written p new_calls ≡ content p

pub receive-send_content :
    (os : Os) (dest content : Str) (stream : List Packet) (calls : List Call)
    → Reliable os
    → Runs
        (receive os dest (send_content content ++ stream) calls)
        tt
        stream
        calls
        (λ p. if str_eq dest p then content else [])
unfolding send_content drop
receive-send_content os dest content stream calls r =
    let (new_calls, run, all) =
      receive_blocks os dest (suc (length content)) block_size 0 content stream calls r
        (omega arith) (omega arith) in
    record {
      new_calls = new_calls;
      run_eq =
          rw
            (append_assoc (send_blocks (suc (length content)) block_size content 0) (bytes [] ∷ [])
              stream)
            run;
      written_eq = all;
    }
