-- ===== src/Daemon/Backoff.antt =====
-- src/daemon/backoff.rs: growing delays, in nanoseconds. `jitter` is what a delay is multiplied with by
-- chance. A doubling that would leave a `Duration` is not reached below its end.
pub mod Delays
use yank.Prelude.{ℕ, zero, suc, ◌*◌, min}

-- `Backoff`; `floor` and `ceiling` are its `min` and `max`.
pub record Backoff : Type 0 where
  pub floor : ℕ
  pub ceiling : ℕ
  pub current : ℕ

-- `Backoff::new`
abbrev pub new_backoff : (floor ceiling : ℕ) → Backoff
new_backoff floor ceiling = record { floor = floor; ceiling = ceiling; current = floor }

-- `Backoff::next_delay`
unfoldable pub next_delay : (ℕ → ℕ) → Backoff → Backoff × ℕ
next_delay jitter backoff =
    (record backoff { current = min (backoff.current * 2) backoff.ceiling }, jitter backoff.current)

-- `Backoff::reset`
unfoldable pub reset : Backoff → Backoff
reset backoff = record backoff { current = backoff.floor }

-- The delays of a number of failures in a row.
unfoldable pub delays : (ℕ → ℕ) → ℕ → Backoff → Backoff
unfolding next_delay
delays jitter zero backoff = backoff
delays jitter (suc n) backoff = delays jitter n (next_delay jitter backoff).0
