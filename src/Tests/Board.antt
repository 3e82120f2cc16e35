-- ===== src/Tests/Board.antt =====
-- The clipboard at concrete inputs.
use yank.Prelude.{
  ℕ, ◌≡◌, ◌↔◌, refl, inl, true, false, Option, none, some, is_some, List, [], ◌∷◌, All, arith, ok,
}
use yank.Prelude.Bytes.{eq_list, compare_list, eq_ignore_ascii_case, strip_prefix}
use yank.Files.Manifest.{validate, sort, no_neighbours_clash}
use yank.Clip.Time.{unix_epoch}
use yank.Clip.Settings.{max_bytes}
use yank.Clip.Mime.{is_text, is_local, is_content, aliases}
use yank.Clip.Stamp.{Stamp, time, is_plausible, le_option, eq_option, next}
use yank.Clip.Copy.{Clip, Copied, check, is_usable, is_files, selection_size}
use yank.Clip.State.{
  Clipboard, head, current, deadline, set, lapse, expire, saved, new, accept, adopt, then_apply,
  apply, apply_clip, copy, captured, capture_some, capture_fit, capture_new, clear, replace,
  new_copy, lifetime, already_holds, is_ours, offered, materialized,
}
use yank.Clip.State.Effects.{Effect, save, backend, empty, Captured}
use yank.Clip.State.Offer.{carried, stripped, serves, fit}
use yank.Clip.State.Calls.{accepts, clears, expires, step, run}
use yank.Clip.State.Converge.{
  Delivery, stamps, receive, take_in, IsGood, Known, IsGenuine, head-receive_agree,
  current-receive_agree,
}
use yank.Clip.State.Heads.{step-head-le}
use yank.Clip.State.Changes.{saves}
use yank.Clip.State.Invariant.{IsSound, run-IsSound, expire_due}
use yank.Clip.State.Secrets.{restart_lem}
use yank.Clip.State.Echo.{Quiet, captured-Quiet}
use yank.Tests.Data.{
  crates, settings, at, clip_of, board_of, timed_clip, timed_copy, plain_copy, stamp_of, words,
  text, path_rep,
}

abbrev delivery : Clip → ℕ → Delivery
delivery clip now = record { clip = clip; wall_now = at now; set_now = at now; lapse_now = at now }

abbrev in_order : List Delivery
in_order = delivery (clip_of 1000 3) 2000 ∷ delivery (clip_of 1500 4) 2001 ∷ []

abbrev reversed_twice : List Delivery
reversed_twice =
    delivery (clip_of 1500 4) 2100
    ∷ delivery (clip_of 1000 3) 2101
    ∷ delivery (clip_of 1500 4) 2102
    ∷ []

-- What a run of the code needs open.
code : Unit {0}
unfolding unix_epoch is_plausible le_option eq_option next eq_list check is_usable is_text is_local
    is_content eq_ignore_ascii_case strip_prefix set lapse deadline time validate sort
    no_neighbours_clash is_files selection_size max_bytes accept adopt then_apply apply apply_clip
    receive take_in step run copy captured capture_some capture_fit capture_new clear expire replace
    new_copy lifetime already_holds carried stripped offered serves fit aliases is_ours saved new
    materialized compare_list
code = tt

in_order-IsGood : All (IsGood crates 1) in_order
unfolding code
in_order-IsGood = (
  record { foreign = refl; plausible = refl; sound = refl },
  (record { foreign = refl; plausible = refl; sound = refl }, tt),
)

reversed_twice-IsGood : All (IsGood crates 2) reversed_twice
unfolding code
reversed_twice-IsGood = (
  record { foreign = refl; plausible = refl; sound = refl },
  (
    record { foreign = refl; plausible = refl; sound = refl },
    (record { foreign = refl; plausible = refl; sound = refl }, tt),
  ),
)

same_stamps : (s : Stamp) → Known none (stamps in_order) s ↔ Known none (stamps reversed_twice) s
same_stamps s = (ground arith, ground arith)

head-receive_agree_example :
    head (receive crates in_order (board_of 1)) ≡ head (receive crates reversed_twice (board_of 2))
head-receive_agree_example =
    head-receive_agree crates (board_of 1) (board_of 2) in_order reversed_twice in_order-IsGood
      reversed_twice-IsGood same_stamps

abbrev made : Stamp → Option Copied
made s = some plain_copy

fresh-IsGenuine : (origin : ℕ) → IsGenuine crates made (board_of origin)
fresh-IsGenuine origin s c e = cc

received_one : current (receive crates in_order (board_of 1)) ≡ some (stamp_of 1500 4, plain_copy)
unfolding code
received_one = refl

received_too :
    current (receive crates reversed_twice (board_of 2)) ≡ some (stamp_of 1500 4, plain_copy)
unfolding code
received_too = refl

current-receive_agree_example : (stamp_of 1500 4 ≡ stamp_of 1500 4) × (plain_copy ≡ plain_copy)
current-receive_agree_example =
    current-receive_agree crates made (board_of 1) (board_of 2) in_order reversed_twice
      in_order-IsGood reversed_twice-IsGood ((λ c e. cc e), ((λ c e. cc e), tt))
      ((λ c e. cc e), ((λ c e. cc e), ((λ c e. cc e), tt))) (fresh-IsGenuine 1) (fresh-IsGenuine 2)
      same_stamps received_one received_too

-- A clip whose lifetime runs.
held : Clipboard
unfolding set
held = set (at 2000) timed_clip (board_of 1)

held-IsSound : IsSound crates held
unfolding code held
held-IsSound = record { timed = (at 6000, refl, omega arith); checked = refl }

step-head-le_example :
    le_option (head held) (head (step crates (clears (at 0) (at 0)) held).0) ≡ true
unfolding held
step-head-le_example = step-head-le crates (clears (at 0) (at 0)) held (omega arith)

run-IsSound_example :
    IsSound crates
      (run crates
        (accepts (at 2000) (at 2000) (at 2000) (clip_of 1500 4) ∷ expires (at 9000) ∷ [])
        held).0
run-IsSound_example =
    run-IsSound crates
      (accepts (at 2000) (at 2000) (at 2000) (clip_of 1500 4) ∷ expires (at 9000) ∷ []) held
      held-IsSound

expire_due_example :
    (current (expire crates (at 6000) held).0 ≡ none)
    × (head (expire crates (at 6000) held).0 ≡ some (stamp_of 1000 3))
    × (saves (expire crates (at 6000) held).1 ≡ true)
    × (held.settings.apply ≡ true
        → is_some held.applied ≡ true
        → (expire crates (at 6000) held).1 ≡ save ∷ backend empty ∷ [])
unfolding held time
expire_due_example =
    expire_due crates (at 6000) held {s = stamp_of 1000 3} {c = timed_copy} {ttl = 5}
      held-IsSound.timed refl refl (omega arith)

restart_lem_example :
    let restarted = new crates 1 settings (saved held) (at 3000) (at 3000) in
    (head restarted ≡ head held)
    × ((s : Stamp) (c : Copied)
        → current restarted ≡ some (s, c)
        → (current held ≡ some (s, c)) × (c.secret ≡ false))
restart_lem_example = restart_lem crates held 1 settings (at 3000) (at 3000)

copied :
    (r : Clipboard × List Effect) × (copy crates (at 2000) (at 2000) words [] true none (board_of 1)
      ≡ (r.0, ok r.1))
unfolding code
copied = (_, refl)

abbrev reported : Captured
reported = record {
  selection = record { primary = text; alternates = path_rep ∷ [] };
  secret = false;
}

applied_board : Clipboard
unfolding set
applied_board = set (at 2000) (clip_of 1500 4) (board_of 1)

captured-Quiet_example :
    Quiet reported applied_board (captured crates (at 3000) (at 3000) reported [] applied_board)
unfolding applied_board
captured-Quiet_example =
    captured-Quiet crates (at 3000) (at 3000) reported [] applied_board {s = stamp_of 1500 4}
      {held = plain_copy} refl (inl refl)
