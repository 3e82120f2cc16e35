-- ===== src/Clip/Time.antt =====
-- The wall clock, as `std::time` gives it to src/clip/stamp.rs and src/clip/state.rs. A `SystemTime`
-- counts nanoseconds from the earliest instant that it can hold, so it may lie before the epoch. A
-- `Duration` counts nanoseconds.
use yank.Prelude.{ℕ, ◌-◌, ◌*◌, ◌/◌, ◌^◌, min}

abbrev pub SystemTime : Type 0
SystemTime = ℕ

abbrev pub Duration : Type 0
Duration = ℕ

-- The seconds of a `SystemTime` are an `i64`.
unfoldable pub unix_epoch : SystemTime
unix_epoch = 2 ^ 63 * 1_000_000_000

abbrev pub u64_max : ℕ
u64_max = 2 ^ 64 - 1

abbrev pub from_millis : ℕ → Duration
from_millis n = n * 1_000_000

abbrev pub from_secs : ℕ → Duration
from_secs n = n * 1_000_000_000

abbrev pub from_mins : ℕ → Duration
from_mins n = from_secs (n * 60)

abbrev pub as_millis : Duration → ℕ
as_millis d = d / 1_000_000

abbrev pub as_secs : Duration → ℕ
as_secs d = d / 1_000_000_000

-- `stamp::millis_of`, which saturates.
abbrev pub millis_of : Duration → ℕ
millis_of d = min (as_millis d) u64_max

-- `stamp::wall_millis` at the clock reading `now`: a clock set before the epoch reads as the epoch.
abbrev pub wall_millis : SystemTime → ℕ
wall_millis now = millis_of (now - unix_epoch)
