-- ===== src/IoProxy/Tests.antt =====
-- Two workers at one proxy, and the instances of the theorems.
use gproc.Common.{◌+◌, ◌≤◌, true, [], ◌∷◌, ◌≡◌, ◌↔◌, refl, inr, arith}
use gproc.IoProxy.{
  Proxy, first_worker, connect, copy_ends, receive, act, take_out, Reach, start, later, Runs,
}
use gproc.IoProxy.Wait.{wait_over, wait_ends}

-- Both have connected.
abbrev two : Proxy
two = record {
  which_worker = 7092;
  copying = 7090 ∷ 7091 ∷ [];
  sending = [];
  received = [];
  failed = [];
  num_workers = 2;
  alive = true;
}

two-Reach : Reach 2 two
unfolding act
two-Reach = later connect (later connect start refl) refl

-- One was waited for, and it was the second one that ended.
abbrev one_left : Proxy
one_left = record {
  which_worker = 7092;
  copying = [];
  sending = 7090 ∷ [];
  received = 7091 ∷ [];
  failed = [];
  num_workers = 0;
  alive = true;
}

one_left-Reach : Reach 1 one_left
unfolding act take_out
one_left-Reach =
    later (copy_ends true 7090)
      (later (receive 7091)
        (later (copy_ends true 7091) (later connect (later connect start refl) refl) refl) refl)
      refl

wait_over_example : (one_left.num_workers ≡ 0) ↔ (first_worker + 1 ≤ one_left.which_worker)
wait_over_example = wait_over 1 one_left one_left-Reach (refl, inr refl)

wait_ends_example : (s' : Proxy) × Runs two s' × (s'.num_workers ≡ 0)
wait_ends_example = wait_ends 2 two two-Reach refl (omega arith)
