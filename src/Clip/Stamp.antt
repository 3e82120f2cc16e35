-- ===== src/Clip/Stamp.antt =====
-- src/clip/stamp.rs: when a copy was made and where. An `EndpointId` is a public key of iroh; the
-- code only compares two of them, so it is the number that the key's bytes spell.
pub mod Order
use yank.Prelude.{
  ℕ, ◌+◌, ◌*◌, ◌%◌, ◌^◌, min, max, compare, Ordering, Bool, true, false, Option, none, some, leb,
}
use yank.Clip.Time.{
  SystemTime, Duration, unix_epoch, u64_max, from_mins, from_millis, millis_of, wall_millis,
}

abbrev pub EndpointId : Type 0
EndpointId = ℕ

pub record Stamp : Type 0 where
  pub millis : ℕ
  pub origin : EndpointId

-- How far ahead of local wall time a peer's stamp may be.
abbrev pub max_drift : Duration
max_drift = from_mins 5

-- The derived `Ord`: the fields in their order.
unfoldable pub cmp : Stamp → Stamp → Ordering
cmp a b = elim (compare a.millis b.millis) [
  | Ordering.eq ↦ compare a.origin b.origin
  | Ordering.lt ↦ Ordering.lt
  | Ordering.gt ↦ Ordering.gt
]

-- The derived `Ord` of `Option<Stamp>`: `None` is least.
unfoldable pub cmp_option : Option Stamp → Option Stamp → Ordering
unfolding cmp
cmp_option none none = Ordering.eq
cmp_option none (some b) = Ordering.lt
cmp_option (some a) none = Ordering.gt
cmp_option (some a) (some b) = cmp a b

-- `a <= b`
unfoldable pub le_option : Option Stamp → Option Stamp → Bool
unfolding cmp_option
le_option a b = elim (cmp_option a b) [ Ordering.gt ↦ false | _ ↦ true ]

-- `a == b`
unfoldable pub eq_option : Option Stamp → Option Stamp → Bool
unfolding cmp_option
eq_option a b = elim (cmp_option a b) [ Ordering.eq ↦ true | _ ↦ false ]

-- `last.millis + 1` wraps in a release build.
after : Option Stamp → ℕ
after none = 0
after (some last) = (last.millis + 1) % 2 ^ 64

-- `Stamp::next`, at the clock reading `now`.
unfoldable pub next : SystemTime → Option Stamp → EndpointId → Stamp
unfolding after
next now last origin = record { millis = max (wall_millis now) (after last); origin = origin }

saturating_add : ℕ → ℕ → ℕ
saturating_add a b = min (a + b) u64_max

-- `Stamp::is_plausible`, at the clock reading `now`.
unfoldable pub is_plausible : SystemTime → Stamp → Bool
unfolding saturating_add
is_plausible now s = leb s.millis (saturating_add (wall_millis now) (millis_of max_drift))

-- `Stamp::time`.
unfoldable pub time : Stamp → SystemTime
time s = unix_epoch + from_millis s.millis
