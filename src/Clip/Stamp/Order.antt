-- ===== src/Clip/Stamp/Order.antt =====
-- The order that every machine agrees on: src/clip/stamp.rs orders stamps totally, a machine's next
-- stamp comes after the last one it saw, and a believed stamp is close to the local clock.
use yank.Prelude.{◌+◌, ◌≤◌, ◌<◌, Ordering, ◌≡◌, refl, ◌↔◌, true, false, Option, none, some, arith}
use yank.Clip.Time.{SystemTime, u64_max, wall_millis}
use yank.Clip.Stamp.{Stamp, EndpointId, cmp, le_option, eq_option, next, is_plausible}

pub cmp_refl : (a : Stamp) → cmp a a ≡ Ordering.eq
unfolding cmp
cmp_refl a = ground arith

pub eq_of_cmp : (a b : Stamp) → cmp a b ≡ Ordering.eq → a ≡ b
unfolding cmp
eq_of_cmp a b h = ground arith

pub lt_of_gt : (a b : Stamp) → cmp a b ≡ Ordering.gt → cmp b a ≡ Ordering.lt
unfolding cmp
lt_of_gt a b h = ground arith

pub gt_of_lt : (a b : Stamp) → cmp a b ≡ Ordering.lt → cmp b a ≡ Ordering.gt
unfolding cmp
gt_of_lt a b h = ground arith

pub cmp-lt_trans :
    (a b c : Stamp) → cmp a b ≡ Ordering.lt → cmp b c ≡ Ordering.lt → cmp a c ≡ Ordering.lt
unfolding cmp
cmp-lt_trans a b c h k = ground arith

pub eq_option_iff : (a b : Option Stamp) → (eq_option a b ≡ true) ↔ (a ≡ b)
unfolding eq_option
eq_option_iff none none = ground arith
eq_option_iff none (some b) = ground arith
eq_option_iff (some a) none = ground arith
eq_option_iff (some a) (some b) = ground (arith, eq_of_cmp a b, cmp_refl a)

pub le_option-none : (a : Option Stamp) → le_option none a ≡ true
unfolding le_option
le_option-none none = refl
le_option-none (some a) = refl

pub le_option_refl : (a : Option Stamp) → le_option a a ≡ true
unfolding le_option
le_option_refl none = refl
le_option_refl (some a) = ground (arith, cmp_refl a)

pub le_option_trans :
    (a b c : Option Stamp) → le_option a b ≡ true → le_option b c ≡ true → le_option a c ≡ true
unfolding le_option
le_option_trans none none c h k = ground arith
le_option_trans none (some b) none h k = ground arith
le_option_trans none (some b) (some c) h k = ground arith
le_option_trans (some a) none c h k = cc
le_option_trans (some a) (some b) none h k = cc
le_option_trans (some a) (some b) (some c) h k = ground arith

pub le_option_antisymm : (a b : Option Stamp) → le_option a b ≡ true → le_option b a ≡ true → a ≡ b
unfolding le_option
le_option_antisymm none none h k = refl
le_option_antisymm none (some b) h k = cc
le_option_antisymm (some a) none h k = cc
le_option_antisymm (some a) (some b) h k = ground arith

pub le_option_total : (a b : Option Stamp) → le_option a b ≡ false → le_option b a ≡ true
unfolding le_option
le_option_total none none h = cc
le_option_total none (some b) h = cc
le_option_total (some a) none h = refl
le_option_total (some a) (some b) h = ground arith

-- The stamp of a new copy comes strictly after the last one, whatever the wall clock reads, as long
-- as the last one is not at the end of a u64; and it names this machine.
pub next-outranks :
    (now : SystemTime) (last : Stamp) (origin : EndpointId)
    → last.millis < u64_max
    → (cmp last (next now (some last) origin) ≡ Ordering.lt)
      × ((next now (some last) origin).origin ≡ origin)
unfolding next cmp
next-outranks now last origin h = ground arith

-- A stamp is believed exactly when it is at most five minutes ahead of the wall clock, the clock
-- being less than five minutes from the end of a u64.
pub is_plausible_iff :
    (now : SystemTime) (s : Stamp)
    → wall_millis now + 300_000 ≤ u64_max
    → (is_plausible now s ≡ true) ↔ (s.millis ≤ wall_millis now + 300_000)
unfolding is_plausible
is_plausible_iff now s h = ground arith
