-- ===== src/Daemon/Peers/Pulls.antt =====
-- src/daemon/peers.rs: `Pulls`, the clips that are being pulled. The fetchers take steps one at a time: one
-- that finds its clip claimed waits, and is woken to try again.
pub mod Exclusive
use yank.Prelude.{
  ℕ, ◌==◌, ◌≡◌, ◌≢◌, refl, sym, ap, ◌∙◌, Bool, true, false, not, ◌&&◌, List, [], ◌∷◌, any, keep,
  if◌then◌else◌, arith, ◌⊎◌, inl, inr, Bool-cases, some,
}
use yank.Clip.Stamp.{Stamp, eq_option}
use yank.Clip.Stamp.Order.{eq_option_iff}

-- What a fetcher is doing.
pub data Task : Type 0 where
  idle : Task
  waiting : Stamp → Task
  pulling : Stamp → Task

-- The stamps that are claimed, and the fetchers.
pub record Pulls : Type 0 where
  pub stamps : List Stamp
  pub task : ℕ → Task

abbrev pub eq_stamp : Stamp → Stamp → Bool
eq_stamp a b = eq_option (some a) (some b)

abbrev pub is_claimed : Stamp → List Stamp → Bool
is_claimed stamp = any (eq_stamp stamp)

abbrev pub set_task : ℕ → Task → (ℕ → Task) → ℕ → Task
set_task t task tasks u = if t == u then task else tasks u

-- `Pulls::default`
abbrev pub no_pulls : Pulls
no_pulls = record { stamps = []; task = λ t. idle }

-- One round of the loop of `Pulls::claim`, by the fetcher `t`.
unfoldable pub claim : ℕ → Stamp → Pulls → Pulls
claim t stamp pulls =
    if is_claimed stamp pulls.stamps
    then record pulls { task = set_task t (waiting stamp) pulls.task }
    else record { stamps = stamp ∷ pulls.stamps; task = set_task t (pulling stamp) pulls.task }

abbrev pub released : ℕ → Task → Pulls → Pulls
released t idle pulls = pulls
released t (waiting stamp) pulls = pulls
released t (pulling stamp) pulls = record {
  stamps = keep (λ held. not (eq_stamp stamp held)) pulls.stamps;
  task = set_task t idle pulls.task;
}

-- `Pull::drop`, of the pull that the fetcher `t` has, if it has one.
unfoldable pub drop : ℕ → Pulls → Pulls
drop t pulls = released t (pulls.task t) pulls

-- What the fetchers can do: one that is not pulling tries to claim, and one drops its pull.
pub data Reached : Pulls → Type 0 where
  start : Reached no_pulls
  claims :
      (t : ℕ) (stamp : Stamp) (pulls : Pulls)
      → ((other : Stamp) → pulls.task t ≢ pulling other)
      → Reached pulls
      → Reached (claim t stamp pulls)
  drops : (t : ℕ) (pulls : Pulls) → Reached pulls → Reached (drop t pulls)
