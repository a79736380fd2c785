-- ===== src/Cluster/Tree.antt =====
-- src/utils/startkane.go with src/forth/forth.go: which nodes a level starts, and the parent that each
-- node finds.
use gproc.Common.{
  ℕ, zero, suc, ◌+◌, ◌-◌, ◌*◌, ◌%◌, ◌^◌, ◌≤◌, ◌<◌, Bool, true, false, ◌||◌, ◌&&◌, List, [], ◌∷◌,
  ◌++◌, some, ◌≡◌, refl, ap, ◌∙◌, inl, inr, arith, Str, codes, split, ◌==◌, leb, All, Bool-cases,
  if◌then◌else◌,
}
use gproc.Common.Dict.{lookup}
use gproc.Decimal.{itoa_nat}
use gproc.Forth.Machine.{Stack, ok, Exec, pure, push, ◌>>◌}
use gproc.Forth.Ops.{hostname, hostbase, roundup, strcat, mod_op, ifelse, in_cutset}
use gproc.Forth.{opmap, i_eval, eval, value}
use gproc.Forth.Numbers.{
  seq-ok, hostname_lem, push_lem, hostbase_lem, mod_twenty, ifelse-print, eval-ok, twenty,
  roundup_lem,
}
use gproc.Cluster.{block_size, bool_eq, level_from, runlevel, parent_command}

-- The number is among these.
unfoldable pub has : ℕ → List ℕ → Bool
has n [] = false
has n (i ∷ is) = (i == n) || has n is

has-level_from :
    (n rounds i : ℕ) (mod_level : Bool)
    → has n (level_from rounds i mod_level)
      ≡ ((leb i n && leb (n + 1) (i + rounds)) && bool_eq (n % 20 == 0) mod_level)
unfolding has level_from
has-level_from n zero i mod_level = ground arith
has-level_from n (suc rounds) i mod_level = elim (Bool-cases (i == n)) [
  | inl here ↦
      let same : i ≡ n = ground (arith, here) in
      elim (Bool-cases (bool_eq (i % block_size == 0) mod_level)) [
        | inl started ↦
            rw started
              (ground (arith, here, same, started, ap (λ j. bool_eq (j % 20 == 0) mod_level) same))
        | inr left ↦ rw left (
            rw (has-level_from n rounds (i + 1) mod_level)
              (ground (arith, here, same, left, ap (λ j. bool_eq (j % 20 == 0) mod_level) same)))
      ]
  | inr elsewhere ↦ elim (Bool-cases (bool_eq (i % block_size == 0) mod_level)) [
    | inl started ↦
        rw started (rw (has-level_from n rounds (i + 1) mod_level) (ground (arith, elsewhere)))
    | inr left ↦
        rw left (rw (has-level_from n rounds (i + 1) mod_level) (ground (arith, elsewhere)))
  ]
]

strcat_lem : (x y : Str) (s : Stack) → strcat (x ∷ y ∷ s) ≡ (ok tt, (y ++ x) ∷ s)
unfolding strcat
strcat_lem x y s = refl

abbrev parent_tail : Str → Exec (Unit {0})
parent_tail h =
    hostname (some h) >> (hostbase >> (push (codes "20") >> (mod_op >> (ifelse >> pure tt))))

parent_calls :
    (h : Str) (fuel : ℕ)
    → i_eval (suc fuel) (opmap (some h)) parent_command ≡ (
        push (codes "172.16.255.254")
        >> (push (codes "kn")
            >> (hostname (some h)
                >> (hostbase >> (push (codes "20") >> (roundup >> (strcat >> parent_tail h)))))))
unfolding i_eval lookup split
parent_calls h fuel = refl

roundup_twenty :
    (n : ℕ) (s : Stack)
    → n < 2 ^ 63 - 20
    → (k : ℕ) × (roundup (codes "20" ∷ itoa_nat n ∷ s) ≡ (ok tt, itoa_nat (k * 20) ∷ s))
      × (n ≤ k * 20)
      × (k * 20 < n + 20)
roundup_twenty n s fits = rw twenty (roundup_lem 20 n s (omega arith) (omega arith))

module _ (n : ℕ) (fits : n < 2 ^ 63 - 20) (letters : Str)
    (h : All (λ c. in_cutset c ≡ true) letters) (s : Stack) where
  parent_tail_lem :
      (y z : Str)
      → parent_tail (letters ++ itoa_nat n) (y ∷ z ∷ s)
        ≡ (ok tt, (if n % 20 == 0 then z else y) ∷ s)
  parent_tail_lem y z =
      seq-ok (hostname (some (letters ++ itoa_nat n))) _ _ _ (hostname_lem _ _)
      ∙ seq-ok hostbase _ _ _ (hostbase_lem letters n _ h)
      ∙ seq-ok (push (codes "20")) _ _ _ (push_lem _ _)
      ∙ seq-ok mod_op _ _ _ (mod_twenty n _ (omega arith))
      ∙ seq-ok ifelse _ _ _ (ifelse-print (n % 20) y z s (omega arith))

  parent_run :
      (fuel : ℕ)
      → (k : ℕ) × (i_eval (suc fuel) (opmap (some (letters ++ itoa_nat n))) parent_command s ≡ (
        ok tt,
        (if n % 20 == 0 then codes "172.16.255.254" else codes "kn" ++ itoa_nat (k * 20)) ∷ s,
      ))
        × (n ≤ k * 20)
        × (k * 20 < n + 20)
  parent_run fuel =
      let (k, run, above, near) = roundup_twenty n (codes "kn" ∷ codes "172.16.255.254" ∷ s) fits in
      (
        k,
        ap (λ (m : Exec (Unit {0})). m s) (parent_calls (letters ++ itoa_nat n) fuel)
            ∙ seq-ok (push (codes "172.16.255.254")) _ s _ (push_lem _ _)
            ∙ seq-ok (push (codes "kn")) _ _ _ (push_lem _ _)
            ∙ seq-ok (hostname (some (letters ++ itoa_nat n))) _ _ _ (hostname_lem _ _)
            ∙ seq-ok hostbase _ _ _ (hostbase_lem letters n _ h)
            ∙ seq-ok (push (codes "20")) _ _ _ (push_lem _ _)
            ∙ seq-ok roundup _ _ _ run
            ∙ seq-ok strcat _ _ _ (strcat_lem _ _ _)
            ∙ parent_tail_lem _ _,
        above,
        near,
      )

-- A level starts the nodes of the range whose numbers are multiples of 20, and the other one the rest.
pub runlevel_lem :
    (n low high : ℕ) (mod_level : Bool)
    → low ≤ high + 1
    → has n (runlevel low high mod_level)
      ≡ ((leb low n && leb n high) && bool_eq (n % 20 == 0) mod_level)
unfolding runlevel
runlevel_lem n low high mod_level h =
    rw (has-level_from n (high + 1 - low) low mod_level) (ground arith)

-- Below the largest numbers, the parent command of node `n` gives the address of the root if the first level
-- starts the node, and else the name of a node of the first level, which is started with it if the range
-- goes on for long enough.
pub parent_lem :
    (n low high fuel : ℕ) (s : Stack)
    → n < 2 ^ 63 - 20
    → low ≤ n
    → n + 19 ≤ high
    → (m : ℕ) × (eval (suc fuel) (opmap (some (codes "kn" ++ itoa_nat n))) parent_command s ≡ (
      value (
          if has n (runlevel low high true)
          then codes "172.16.255.254"
          else codes "kn" ++ itoa_nat m),
      s,
    ))
      × (has m (runlevel low high true) ≡ true)
parent_lem n low high fuel s fits hl hh =
    let letters : All (λ c. in_cutset c ≡ true) (codes "kn") = ground arith in
    let (k, run, above, near) = parent_run n fits (codes "kn") letters s fuel in
    let own : has n (runlevel low high true) ≡ (n % 20 == 0) =
      runlevel_lem n low high true (omega arith) ∙ ground (arith, hl, hh) in
    let multiple : k * 20 % 20 ≡ 0 = omega arith in
    (
      k * 20,
      rw own (eval-ok (suc fuel) _ _ s s _ run),
      runlevel_lem (k * 20) low high true (omega arith)
          ∙ ground (arith, multiple, above, near, hl, hh),
    )
