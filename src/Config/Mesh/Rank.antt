-- ===== src/Config/Mesh/Rank.antt =====
-- src/config/mesh.rs: `outranks` is a strict total order on the records, and a local change outranks
-- every record of the versions up to the one that it replaces.
use yank.Prelude.{◌<◌, ◌≡◌, refl, Ordering, compare, Bool, true, false, not, arith, is_some}
use yank.Prelude.Bytes.{Str, compare_list}
use yank.Prelude.Order.{
  compare_list_refl, compare_list→eq, gt_of_lt, lt_of_gt, compare_list-gt_trans,
}
use yank.Config.Mesh.{
  Peer, PeerStatus, alive, removed, outranks, name, name_of, unwrap_or_empty, cmp_bool, then_cmp,
}

pub outranks_irrefl : (a : Peer) → outranks a a ≡ false
unfolding outranks
outranks_irrefl a = ground (arith, compare_list_refl (unwrap_or_empty (name a)))

pub outranks-asymm : (a b : Peer) → outranks a b ≡ true → outranks b a ≡ false
unfolding outranks
outranks-asymm a b h = ground (
  arith,
  gt_of_lt (unwrap_or_empty (name b)) (unwrap_or_empty (name a)),
  lt_of_gt (unwrap_or_empty (name b)) (unwrap_or_empty (name a)),
)

-- What decides between records of one version.
cmp_status : PeerStatus → PeerStatus → Ordering
cmp_status a b =
    then_cmp (cmp_bool (not (is_some (name_of a))) (not (is_some (name_of b))))
      (compare_list (unwrap_or_empty (name_of b)) (unwrap_or_empty (name_of a)))

cmp_status-gt_trans :
    (a b c : PeerStatus)
    → cmp_status a b ≡ Ordering.gt
    → cmp_status b c ≡ Ordering.gt
    → cmp_status a c ≡ Ordering.gt
unfolding cmp_status
cmp_status-gt_trans (alive a) (alive b) (alive c) h k = compare_list-gt_trans c b a k h
cmp_status-gt_trans (alive a) (alive b) removed h k = cc
cmp_status-gt_trans (alive a) removed c h k = cc
cmp_status-gt_trans removed (alive b) (alive c) h k = refl
cmp_status-gt_trans removed (alive b) removed h k = cc
cmp_status-gt_trans removed removed c h k = cc

cmp_status→eq : (a b : PeerStatus) → cmp_status a b ≡ Ordering.eq → a ≡ b
unfolding cmp_status
cmp_status→eq (alive a) (alive b) h = cc (compare_list→eq b a h)
cmp_status→eq (alive a) removed h = cc
cmp_status→eq removed (alive b) h = cc
cmp_status→eq removed removed h = refl

cmp_status-gt_of_lt :
    (a b : PeerStatus) → cmp_status a b ≡ Ordering.lt → cmp_status b a ≡ Ordering.gt
unfolding cmp_status compare_list
cmp_status-gt_of_lt (alive a) (alive b) h = gt_of_lt b a h
cmp_status-gt_of_lt (alive a) removed h = refl
cmp_status-gt_of_lt removed (alive b) h = cc
cmp_status-gt_of_lt removed removed h = cc

outranks_status :
    (a b : Peer)
    → outranks a b
      ≡ elim (then_cmp (compare a.version b.version) (cmp_status a.status b.status))
          as (λ _. Bool) [ Ordering.gt ↦ true | _ ↦ false ]
unfolding outranks cmp_status
outranks_status a b = refl

pub outranks_trans :
    (a b c : Peer) → outranks a b ≡ true → outranks b c ≡ true → outranks a c ≡ true
outranks_trans a b c h k = ground (
  arith,
  outranks_status a b,
  outranks_status b c,
  outranks_status a c,
  cmp_status-gt_trans a.status b.status c.status,
)

-- Two records that do not outrank one another are one.
pub outranks-total : (a b : Peer) → outranks a b ≡ false → outranks b a ≡ false → a ≡ b
outranks-total a b h k = ground (
  arith,
  outranks_status a b,
  outranks_status b a,
  cmp_status→eq a.status b.status,
  cmp_status-gt_of_lt a.status b.status,
)

-- A record of a higher version outranks.
pub outranks_of_version : (a b : Peer) → b.version < a.version → outranks a b ≡ true
outranks_of_version a b h = ground (arith, outranks_status a b)

-- At one version a tombstone outranks whatever is alive.
pub outranks_of_removed :
    (a b : Peer) (s : Str)
    → a.version ≡ b.version
    → a.status ≡ removed
    → b.status ≡ alive s
    → outranks a b ≡ true
unfolding cmp_status
outranks_of_removed a b s v h k = ground (arith, outranks_status a b)
