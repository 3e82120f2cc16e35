-- ===== src/Daemon/Backoff/Delays.antt =====
-- src/daemon/backoff.rs: how the delays grow.
use native.Mathlib.Nat.{mul_assoc, mul_comm, pow-suc}
use yank.Prelude.{
  ℕ, zero, suc, ◌*◌, ◌^◌, ◌≤◌, ◌≡◌, sym, ap, ◌∙◌, min, arith, leb, inl, inr, Bool-cases,
}
use yank.Daemon.Backoff.{Backoff, next_delay, reset, delays}

double-pow : (a n : ℕ) → a * 2 * 2 ^ n ≡ a * 2 ^ suc n
double-pow a n =
    mul_assoc a 2 (2 ^ n)
    ∙ ap (λ x. a * x) (mul_comm 2 (2 ^ n))
    ∙ ap (λ x. a * x) (sym (pow-suc 2 n))

grows : (a n : ℕ) → a ≤ a * 2 ^ n
grows a zero = omega arith
grows a (suc n) = omega (arith, grows (a * 2) n, double-pow a n)

current-delays :
    (jitter : ℕ → ℕ) (n : ℕ) (backoff : Backoff)
    → backoff.current ≤ backoff.ceiling
    → (delays jitter n backoff).current ≡ min (backoff.current * 2 ^ n) backoff.ceiling
unfolding delays
current-delays jitter zero backoff h = omega (arith, h)
current-delays jitter (suc n) backoff h =
    let next = (next_delay jitter backoff).0 in
    current-delays jitter n next (ground arith)
    ∙ elim (Bool-cases (leb (backoff.current * 2) backoff.ceiling)) [
      | inl small ↦
          let fits : min (backoff.current * 2) backoff.ceiling ≡ backoff.current * 2 =
            ground (arith, small) in
          rw fits (ap (λ x. min x backoff.ceiling) (double-pow backoff.current n))
      | inr large ↦
          let capped : min (backoff.current * 2) backoff.ceiling ≡ backoff.ceiling =
            ground (arith, large) in
          let over : backoff.ceiling ≤ backoff.current * 2 = ground (arith, large) in
          let there = grows (backoff.current * 2) n in
          let here = grows backoff.ceiling n in
          rw capped (omega (arith, over, there, here, double-pow backoff.current n))
    ]

-- After a reset, the delay behind any number of failures is the floor doubled that often, or the ceiling
-- where that is less, but for the jitter.
pub delays-reset :
    (jitter : ℕ → ℕ) (n : ℕ) (backoff : Backoff)
    → backoff.floor ≤ backoff.ceiling
    → (next_delay jitter (delays jitter n (reset backoff))).1
      ≡ jitter (min (backoff.floor * 2 ^ n) backoff.ceiling)
unfolding next_delay reset
delays-reset jitter n backoff h = ap jitter (current-delays jitter n (reset backoff) h)
