-- ===== src/Master/Told.antt =====
-- src/gproc/master.go: what the programs are told when connections are served at once.
use gproc.Common.{
  Bool, true, false, ◌||◌, List, [], ◌∷◌, ◌++◌, ◌≡◌, ◌≢◌, refl, sym, ◌∙◌, inl, inr, arith, Str,
  str_eq, str_eq_iff, All, All-append, Bool-cases,
}
use gproc.Protocol.{VitalData}
use gproc.Master.{Master, vital_data}
use gproc.Master.Reach.{SameTold}
use gproc.Master.Interleaved.{
  Point, tests, sets_ready, sets_error, sets_address, sends, receives, ended, act,
}

-- Vital data with this address says that the hosts are ready, and it is the master's own.
abbrev pub Own : Bool → Str → Str → Type 0
Own ready address netaddr = address ≢ [] → (ready ≡ true) × (address ≡ netaddr)

-- What a connection that stands at a point relies on.
abbrev pub At : Master → Point → Type 0
At m tests = Unit
At m sets_ready = m.netaddr ≢ []
At m sets_error = (m.host_ready ≡ true) × (m.netaddr ≢ [])
At m sets_address = (m.host_ready ≡ true) × (m.netaddr ≢ [])
At m (sends true) = (m.host_ready ≡ true) × (m.host_addr ≡ m.netaddr) × (m.netaddr ≢ [])
At m (sends false) = Unit
At m receives = Unit
At m ended = Unit

-- A connection has set the first of the three, and not the last.
abbrev pub is_between : Point → Bool
is_between sets_error = true
is_between sets_address = true
is_between p = false

abbrev pub in_between : List Point → Bool
in_between [] = false
in_between (p ∷ ps) = is_between p || in_between ps

pub record IsTold (m : Master) (ps : List Point) : Type 0 where
  pub at : All (At m) ps
  pub own : Own m.host_ready m.host_addr m.netaddr
  pub half : m.host_ready ≡ true → m.host_addr ≡ [] → in_between ps ≡ true
  pub sent : All (λ (v : VitalData). Own v.host_ready v.host_addr m.netaddr) m.vitals

-- The globals move on: the address and the readiness stay once they are there.
abbrev pub Later : Master → Master → Type 0
Later m m' =
    (m.netaddr ≢ [] → m'.netaddr ≡ m.netaddr)
    × (m.host_ready ≡ true → m'.host_ready ≡ true)
    × (m.netaddr ≢ [] → m.host_addr ≡ m.netaddr → m'.host_addr ≡ m.netaddr)

Later-At : (m m' : Master) (p : Point) → Later m m' → At m p → At m' p
Later-At m m' tests l h = tt
Later-At m m' sets_ready (n, r, a) h = rw (n h) h
Later-At m m' sets_error (n, r, a) (ready, h) = (r ready, rw (n h) h)
Later-At m m' sets_address (n, r, a) (ready, h) = (r ready, rw (n h) h)
Later-At m m' (sends true) (n, r, a) (ready, e, h) = (r ready, a h e ∙ sym (n h), rw (n h) h)
Later-At m m' (sends false) l h = tt
Later-At m m' receives l h = tt
Later-At m m' ended l h = tt

pub Later-All : (m m' : Master) (ps : List Point) → Later m m' → All (At m) ps → All (At m') ps
Later-All m m' [] l h = tt
Later-All m m' (p ∷ ps) l (h, hs) = (Later-At m m' p l h, Later-All m m' ps l hs)

pub Own-later :
    (m m' : Master) (ready : Bool) (address : Str)
    → Later m m'
    → Own ready address m.netaddr
    → Own ready address m'.netaddr
Own-later m m' ready address (n, _, _) own set =
    let (is_ready, e) = own set in (is_ready, e ∙ sym (n (λ none_set. set (e ∙ none_set))))

pub sent-later :
    (m m' : Master) (vs : List VitalData)
    → Later m m'
    → All (λ (v : VitalData). Own v.host_ready v.host_addr m.netaddr) vs
    → All (λ (v : VitalData). Own v.host_ready v.host_addr m'.netaddr) vs
sent-later m m' [] l h = tt
sent-later m m' (v ∷ vs) l (h, hs) =
    (Own-later m m' v.host_ready v.host_addr l h, sent-later m m' vs l hs)

in_between-here :
    (before after : List Point) (p : Point)
    → is_between p ≡ true
    → in_between (before ++ p ∷ after) ≡ true
in_between-here [] after p h = rw h refl
in_between-here (q ∷ before) after p h = ground (arith, in_between-here before after p h)

in_between-replace :
    (before after : List Point) (p p' : Point)
    → (is_between p ≡ true → is_between p' ≡ true)
    → in_between (before ++ p ∷ after) ≡ true
    → in_between (before ++ p' ∷ after) ≡ true
in_between-replace [] after p p' h e = ground (arith, h, e)
in_between-replace (q ∷ before) after p p' h e =
    ground (arith, e, in_between-replace before after p p' h)

pub in_between-append : (ps qs : List Point) → in_between ps ≡ true → in_between (ps ++ qs) ≡ true
in_between-append [] qs e = absurd (ground (arith, e))
in_between-append (p ∷ ps) qs e = ground (arith, e, in_between-append ps qs)

At-here :
    (m : Master) (before after : List Point) (p : Point) → All (At m) (before ++ p ∷ after) → At m p
At-here m [] after p (h, hs) = h
At-here m (q ∷ before) after p (h, hs) = At-here m before after p hs

At-replace :
    (m m' : Master) (before after : List Point) (p p' : Point)
    → Later m m'
    → At m' p'
    → All (At m) (before ++ p ∷ after)
    → All (At m') (before ++ p' ∷ after)
At-replace m m' [] after p p' l here (h, hs) = (here, Later-All m m' after l hs)
At-replace m m' (q ∷ before) after p p' l here (h, hs) =
    (Later-At m m' q l h, At-replace m m' before after p p' l here hs)

pub Later-same : (m m' : Master) → SameTold m m' → Later m m'
Later-same m m' (r, a, n, v) = (λ _. n, λ h. r ∙ h, λ _ h. a ∙ h)

pub IsTold-same : (m m' : Master) (ps : List Point) → SameTold m m' → IsTold m ps → IsTold m' ps
IsTold-same m m' ps same h = record {
  at = Later-All m m' ps (Later-same m m' same) h.at;
  own = rw (same.0, same.1, same.2) h.own;
  half = rw (same.0, same.1) h.half;
  sent = rw (same.2, same.3) h.sent;
}

module _ (before after : List Point) where
  -- One connection goes on from a point to another that stands in between only if it did.
  pub IsTold-replace :
      (m : Master) (p p' : Point)
      → (is_between p ≡ true → is_between p' ≡ true)
      → At m p'
      → IsTold m (before ++ p ∷ after)
      → IsTold m (before ++ p' ∷ after)
  IsTold-replace m p p' keeps here h = record {
    at = At-replace m m before after p p' (λ _. refl, λ r. r, λ _ a. a) here h.at;
    own = h.own;
    half = λ ready none_set. in_between-replace before after p p' keeps (h.half ready none_set);
    sent = h.sent;
  }

  pub act-IsTold :
      (p : Point) (m : Master)
      → IsTold m (before ++ p ∷ after)
      → IsTold (act p m).1 (before ++ (act p m).0 ∷ after)
  unfolding act
  act-IsTold tests m h = elim (Bool-cases (str_eq m.netaddr [])) [
    | inl unknown ↦
        rw unknown (IsTold-replace m tests (sends false) (λ b. absurd (ground (arith, b))) tt h)
    | inr known ↦
        let set : m.netaddr ≢ [] = ground (arith, known, str_eq_iff m.netaddr []) in
        rw known (IsTold-replace m tests sets_ready (λ b. absurd (ground (arith, b))) set h)
  ]
  act-IsTold sets_ready m h =
      let set = At-here m before after sets_ready h.at in
      record {
        at =
            At-replace m (record m { host_ready = true }) before after sets_ready sets_error
              (λ _. refl, λ r. refl, λ _ a. a) (refl, set) h.at;
        own = λ a. (refl, (h.own a).1);
        half = λ ready none_set. in_between-here before after sets_error refl;
        sent = h.sent;
      }
  act-IsTold sets_error m h =
      let here = At-here m before after sets_error h.at in
      let moved = IsTold-replace m sets_error sets_address (λ b. refl) here h in
      IsTold-same m (record m { error_text = [] }) _ (refl, refl, refl, refl) moved
  act-IsTold sets_address m h =
      let (ready, set) = At-here m before after sets_address h.at in
      record {
        at =
            At-replace m (record m { host_addr = m.netaddr }) before after sets_address (sends true)
              (λ _. refl, λ r. r, λ _ a. refl) (ready, refl, set) h.at;
        own = λ a. (ready, refl);
        half = λ r none_set. absurd (set none_set);
        sent = h.sent;
      }
  act-IsTold (sends known) m h =
      let moved = IsTold-replace m (sends known) receives (λ b. absurd (ground (arith, b))) tt h in
      record {
        at =
            Later-All m (record m { vitals = m.vitals ++ vital_data m ∷ [] }) _
              (λ _. refl, λ r. r, λ _ a. a) moved.at;
        own = moved.own;
        half = moved.half;
        sent = All-append _ m.vitals (vital_data m ∷ []) moved.sent (h.own, tt);
      }
  act-IsTold receives m h = h
  act-IsTold ended m h = h
