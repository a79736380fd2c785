-- ===== src/IoProxy/Wait.antt =====
-- src/gproc/common.go, slave.go, mexec.go: when the wait for the workers ends.
use gproc.Common.{
  ℕ, zero, suc, ◌+◌, ◌*◌, ◌≤◌, ◌<◌, Bool, true, false, List, [], ◌∷◌, ◌++◌, Option, none, some, ◌≡◌,
  ◌↔◌, ◌⊎◌, refl, sym, ap, ◌∙◌, inl, inr, arith, length, length-append, ◌==◌, Bool-cases,
  Option-cases,
}
use mathlib.Core.Option.{some-injective}
use mathlib.Core.Path.{subst}
use gproc.IoProxy.{
  Proxy, first_worker, start_proxy, take_out, Action, connect, accept_error, copy_ends, receive,
  worker_panics, panic_of, end_copy, receive_one, if_alive, act, Reach, start, later, Runs, stay,
  copy_then, receive_then,
}

take_out-length :
    (id : ℕ) (is left : List ℕ) → take_out id is ≡ some left → length is ≡ suc (length left)
unfolding take_out
take_out-length id [] left e = absurd (ground (arith, e))
take_out-length id (i ∷ is) left e = elim (Bool-cases (i == id)) [
  | inl same ↦ ap (λ l. suc (length l)) (some-injective is left (rw same at e))
  | inr other ↦ elim (Option-cases (take_out id is)) [
    | inl gone ↦ absurd (ground (arith, rw (other, gone) at e))
    | inr (rest, there) ↦
        let e' : i ∷ rest ≡ left = some-injective (i ∷ rest) left (rw (other, there) at e) in
        ap suc (take_out-length id is rest there) ∙ ap (λ l. suc (length l)) e'
  ]
]

take_out-head : (id : ℕ) (is : List ℕ) → take_out id (id ∷ is) ≡ some is
unfolding take_out
take_out-head id is = let same : (id == id) ≡ true = ground arith in rw same refl

-- Every worker that has connected copies, stands at the channel or was received; the caller has received
-- as many as it waits for no longer.
record Counted (n : ℕ) (s : Proxy) : Type 0 where
  all_workers :
      first_worker + (length s.copying + length s.sending + length s.received) ≡ s.which_worker
  waits_left : s.num_workers + length s.received ≡ n

start-Counted : (n : ℕ) → Counted n (start_proxy n)
start-Counted n = record { all_workers = omega arith; waits_left = omega arith }

alive-some : (b : Bool) (r : Option Proxy) (s' : Proxy) → if_alive b r ≡ some s' → r ≡ some s'
alive-some true r s' e = e
alive-some false r s' e = absurd (ground (arith, e))

act-Counted : (n : ℕ) (a : Action) (s s' : Proxy) → act a s ≡ some s' → Counted n s → Counted n s'
unfolding act
act-Counted n connect s s' e c =
    subst (Counted n) (some-injective _ s' (alive-some s.alive _ s' e)) (record {
      all_workers = omega (arith, c.all_workers, length-append s.copying (s.which_worker ∷ []));
      waits_left = c.waits_left;
    })
act-Counted n accept_error s s' e c =
    subst (Counted n) (some-injective _ s' (alive-some s.alive _ s' e))
      (record { all_workers = c.all_workers; waits_left = c.waits_left })
act-Counted n (copy_ends ok id) s s' e c =
    let e1 = alive-some s.alive (end_copy ok id s (take_out id s.copying)) s' e in
    elim (Option-cases (take_out id s.copying)) [
      | inl none_there ↦ absurd (ground (arith, rw none_there at e1))
      | inr (left, there) ↦
          subst (Counted n) (some-injective _ s' (ap (end_copy ok id s) (sym there) ∙ e1)) (record {
            all_workers = omega (
              arith,
              c.all_workers,
              take_out-length id s.copying left there,
              length-append s.sending (id ∷ []),
            );
            waits_left = c.waits_left;
          })
    ]
act-Counted n (worker_panics id) s s' e c =
    panicked (take_out id s.received) (take_out id s.failed) (alive-some s.alive _ s' e)
  where
    panicked : (o p : Option (List ℕ)) → panic_of s o p ≡ some s' → Counted n s'
    panicked none p e1 = absurd (ground (arith, e1))
    panicked (some others) none e1 = absurd (ground (arith, e1))
    panicked (some others) (some more) e1 =
        subst (Counted n) (some-injective _ s' e1)
          (record { all_workers = c.all_workers; waits_left = c.waits_left })
act-Counted n (receive id) s s' e c = received s.num_workers refl (alive-some s.alive _ s' e)
  where
    received :
        (k : ℕ)
        → s.num_workers ≡ k
        → receive_one id s k (take_out id s.sending) ≡ some s'
        → Counted n s'
    received zero w e1 = absurd (ground (arith, e1))
    received (suc k) w e1 = elim (Option-cases (take_out id s.sending)) [
      | inl none_there ↦ absurd (ground (arith, rw none_there at e1))
      | inr (left, there) ↦
          subst (Counted n) (some-injective _ s' (ap (receive_one id s (suc k)) (sym there) ∙ e1))
            (record {
              all_workers = omega (
                arith,
                c.all_workers,
                take_out-length id s.sending left there,
                length-append s.received (id ∷ []),
              );
              waits_left = omega (arith, c.waits_left, w, length-append s.received (id ∷ []));
            })
    ]

Reach-Counted : {n : ℕ} {s : Proxy} → Reach n s → Counted n s
Reach-Counted {n} start = start-Counted n
Reach-Counted {n} (later {s} {s'} a r e) = act-Counted n a s s' e (Reach-Counted r)

-- Nothing goes on: no input is copied, and no worker at the channel is waited for.
abbrev pub Quiet : Proxy → Type 0
Quiet s = (s.copying ≡ []) × ((s.sending ≡ []) ⊎ (s.num_workers ≡ 0))

-- In whatever order the workers connect, end and are received: once nothing goes on any more, the caller has
-- stopped waiting exactly if at least as many workers have connected as it waits for.
pub wait_over :
    (n : ℕ) (s : Proxy)
    → Reach n s
    → Quiet s
    → (s.num_workers ≡ 0) ↔ (first_worker + n ≤ s.which_worker)
wait_over n s r (idle, at_channel) =
    let c = Reach-Counted r in
    let none_copies : length s.copying ≡ 0 = ap length idle in
    (
      λ over. omega (arith, c.all_workers, c.waits_left, over),
      λ enough. elim at_channel [
        | inr over ↦ over
        | inl empty ↦
            omega (arith, c.all_workers, c.waits_left, none_copies, ap length empty, enough)
      ],
    )

copying-then :
    (s : Proxy) (id : ℕ) (is : List ℕ)
    → s.alive ≡ true
    → s.copying ≡ id ∷ is
    → act (copy_ends true id) s ≡ some (record s { copying = is; sending = s.sending ++ id ∷ [] })
unfolding act
copying-then s id is on e =
    ap (λ b. if_alive b (end_copy true id s (take_out id s.copying))) on
    ∙ ap (end_copy true id s) (ap (take_out id) e ∙ take_out-head id is)

receive-then :
    (s : Proxy) (id k : ℕ) (is : List ℕ)
    → s.alive ≡ true
    → s.sending ≡ id ∷ is
    → s.num_workers ≡ suc k
    → act (receive id) s
      ≡ some (record s { sending = is; received = s.received ++ id ∷ []; num_workers = k })
unfolding act
receive-then s id k is on e w =
    ap (λ b. if_alive b (receive_one id s s.num_workers (take_out id s.sending))) on
    ∙ ap (λ m. receive_one id s m (take_out id s.sending)) w
    ∙ ap (receive_one id s (suc k)) (ap (take_out id) e ∙ take_out-head id is)

-- Two for each input that is copied, and one for each worker at the channel.
abbrev work : Proxy → ℕ
work s = 2 * length s.copying + length s.sending

-- The wait of this state can end.
CanEnd : Proxy → Type 0
CanEnd s = (s' : Proxy) × Runs s s' × (s'.num_workers ≡ 0)

record Ready (n : ℕ) (s : Proxy) : Type 0 where
  on : s.alive ≡ true
  counted : Counted n s
  enough : first_worker + n ≤ s.which_worker

end_step :
    (n : ℕ) (s : Proxy) (k : ℕ) (copying sending : List ℕ)
    → Ready n s
    → s.num_workers ≡ k
    → s.copying ≡ copying
    → s.sending ≡ sending
    → ((s1 : Proxy) → work s1 < work s → Ready n s1 → CanEnd s1)
    → CanEnd s
unfolding CanEnd
end_step n s zero copying sending r w e e' more = (s, stay, w)
end_step n s (suc k) copying (id ∷ is) r w e e' more =
    let s1 : Proxy = record s { sending = is; received = s.received ++ id ∷ []; num_workers = k } in
    let step = receive-then s id k is r.on e' w in
    let (s', runs, over) = more s1 (omega (arith, ap length e')) (record {
      on = r.on;
      counted = act-Counted n (receive id) s s1 step r.counted;
      enough = r.enough;
    }) in
    (s', receive_then id step runs, over)
end_step n s (suc k) (id ∷ is) [] r w e e' more =
    let s1 : Proxy = record s { copying = is; sending = s.sending ++ id ∷ [] } in
    let step = copying-then s id is r.on e in
    let (s', runs, over) =
      more s1 (omega (arith, ap length e, length-append s.sending (id ∷ []))) (record {
        on = r.on;
        counted = act-Counted n (copy_ends true id) s s1 step r.counted;
        enough = r.enough;
      }) in
    (s', copy_then id step runs, over)
end_step n s (suc k) [] [] r w e e' more = absurd (
    omega
      (arith, r.counted.all_workers, r.counted.waits_left, w, ap length e, ap length e', r.enough))

runs_on : (m n : ℕ) (s : Proxy) → work s < m → Ready n s → CanEnd s
runs_on zero n s small r = absurd (omega arith)
runs_on (suc m) n s small r =
    end_step n s s.num_workers s.copying s.sending r refl refl refl
      (λ s1 less r1. runs_on m n s1 (omega (arith, less, small)) r1)

-- The wait is never stuck: from every state that is reached, once as many workers have connected as the
-- caller waits for, and nothing has panicked, the workers that are connected and the caller can go on, with
-- no other connection, until the wait is over.
pub wait_ends :
    (n : ℕ) (s : Proxy)
    → Reach n s
    → s.alive ≡ true
    → first_worker + n ≤ s.which_worker
    → (s' : Proxy) × Runs s s' × (s'.num_workers ≡ 0)
unfolding CanEnd
wait_ends n s r on enough =
    runs_on (suc (work s)) n s (omega arith)
      (record { on = on; counted = Reach-Counted r; enough = enough })
