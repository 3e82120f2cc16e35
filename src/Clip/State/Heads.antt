-- ===== src/Clip/State/Heads.antt =====
-- The stamp of the clip after each mutation of src/clip/state.rs.
use yank.Prelude.{
  ℕ, ◌<◌, ◌≡◌, ◌∙◌, refl, ◌⊎◌, inl, inr, true, Option, none, some, List, [], ◌∷◌, arith,
}
use yank.Files.Crates.{Crates}
use yank.Files.Manifest.{FileRef}
use yank.Files.Uri.{FilePath}
use yank.Clip.Time.{SystemTime, u64_max}
use yank.Clip.Stamp.{Stamp, next, le_option}
use yank.Clip.Stamp.Order.{next-outranks, le_option_total, le_option_refl}
use yank.Clip.Copy.{Clip, Copied}
use yank.Clip.State.{
  Clipboard, head, set, lapse, then_apply, replace, capture_new, capture_fit, capture_some,
  captured, adopt, clear, expire, materialized,
}
use yank.Clip.State.Effects.{Effect, save, Captured}
use yank.Clip.State.Calls.{Call, copies, captures, accepts, clears, expires, materializes, step}
use yank.Clip.State.Frame.{apply-SameClip, copy-cases, accept-cases, lapse-Lapsed}

-- Either the stamp is the old one, or it is the next stamp of this machine.
abbrev HeadOf : Clipboard → SystemTime → Clipboard → Type 0
HeadOf old stamp_now new =
    (head new ≡ head old) ⊎ (head new ≡ some (next stamp_now (head old) old.origin))

module _ (crates : Crates) where
  then_apply-head :
      (board : Clipboard) (effects : List Effect)
      → head (then_apply crates (board, effects)).0 ≡ head board
  unfolding then_apply
  then_apply-head board effects = ground (arith, apply-SameClip crates board)

  head-replace :
      (stamp_now set_now : SystemTime) (c : Option Copied) (board : Clipboard)
      → head (replace crates stamp_now set_now c board).0
        ≡ some (next stamp_now (head board) board.origin)
  unfolding replace set
  head-replace stamp_now set_now c board = refl

  pub head-clear :
      (stamp_now set_now : SystemTime) (board : Clipboard)
      → head (clear crates stamp_now set_now board).0
        ≡ some (next stamp_now (head board) board.origin)
  unfolding clear
  head-clear stamp_now set_now board =
      then_apply-head _ _ ∙ head-replace stamp_now set_now none board

  head-copied :
      (stamp_now set_now : SystemTime) (c : Copied) (board : Clipboard)
      → head (then_apply crates (replace crates stamp_now set_now (some c) board)).0
        ≡ some (next stamp_now (head board) board.origin)
  head-copied stamp_now set_now c board =
      then_apply-head _ _ ∙ head-replace stamp_now set_now (some c) board

  pub head-captured :
      (stamp_now set_now : SystemTime) (c : Captured) (files : List FileRef) (board : Clipboard)
      → HeadOf board stamp_now (captured crates stamp_now set_now c files board).0
  unfolding captured capture_some capture_fit capture_new
  head-captured stamp_now set_now c files board = grind (arith, head-replace)

  pub head-adopt :
      (set_now lapse_now : SystemTime) (clip : Clip) (board : Clipboard)
      → head (adopt crates set_now lapse_now clip board).0 ≡ some clip.stamp
  unfolding adopt set
  head-adopt set_now lapse_now clip board =
      then_apply-head (lapse lapse_now (set set_now clip board)).0 (save ∷ [])
      ∙ (lapse-Lapsed lapse_now (set set_now clip board)).same_head

  pub head-expire :
      (now : SystemTime) (board : Clipboard) → head (expire crates now board).0 ≡ head board
  unfolding expire
  head-expire now board =
      ground (arith, lapse-Lapsed now board, then_apply-head (lapse now board).0 (save ∷ []))

  pub head-materialized :
      (stamp : Stamp) (tree : FilePath) (board : Clipboard)
      → head (materialized crates stamp tree board).0 ≡ head board
  unfolding materialized
  head-materialized stamp tree board =
      ground (arith, apply-SameClip crates (record board { tree = some tree }))

-- The last stamp is not at the end of a u64.
abbrev pub IsUnwrapped : Option Stamp → Type 0
IsUnwrapped none = Unit {0}
IsUnwrapped (some stamp) = stamp.millis < u64_max

next-le :
    (now : SystemTime) (last : Option Stamp) (origin : ℕ)
    → IsUnwrapped last
    → le_option last (some (next now last origin)) ≡ true
unfolding le_option
next-le now none origin h = refl
next-le now (some last) origin h = ground (arith, next-outranks now last origin)

-- A newer stamp replaces an older one, and nothing else does.
head-accept :
    (crates : Crates) (wall_now set_now lapse_now : SystemTime) (clip : Clip) (board : Clipboard)
    → le_option (head board) (head (step crates (accepts wall_now set_now lapse_now clip) board).0)
      ≡ true
unfolding step
head-accept crates wall_now set_now lapse_now clip board =
    elim (accept-cases crates wall_now set_now lapse_now clip board) [
      | inl (e, refused) ↦ rw refused (le_option_refl (head board))
      | inr (inl (old, same)) ↦ rw same (le_option_refl (head board))
      | inr (inr (adopted, newer, _, _, _)) ↦
          rw (adopted, head-adopt crates set_now lapse_now clip board)
            (le_option_total (some clip.stamp) (head board) newer)
    ]

-- No mutation takes the clipboard back to an older stamp, so no older clip comes back: whatever the
-- clocks read, whether the call succeeds or is refused. (The last stamp is not at the end of a u64.)
pub step-head-le :
    (crates : Crates) (call : Call) (board : Clipboard)
    → IsUnwrapped (head board)
    → le_option (head board) (head (step crates call board).0) ≡ true
unfolding step
step-head-le crates (copies stamp_now set_now selection files secret ttl) board h =
    elim (copy-cases crates stamp_now set_now selection files secret ttl board) [
      | inl (e, refused) ↦ rw refused (le_option_refl (head board))
      | inr (done, _, _, _) ↦
          rw (done, head-copied crates stamp_now set_now _ board)
            (next-le stamp_now (head board) board.origin h)
    ]
step-head-le crates (captures stamp_now set_now c files) board h =
    elim (head-captured crates stamp_now set_now c files board) [
      | inl same ↦ rw same (le_option_refl (head board))
      | inr new ↦ rw new (next-le stamp_now (head board) board.origin h)
    ]
step-head-le crates (accepts wall_now set_now lapse_now clip) board h =
    head-accept crates wall_now set_now lapse_now clip board
step-head-le crates (clears stamp_now set_now) board h =
    rw (head-clear crates stamp_now set_now board) (next-le stamp_now (head board) board.origin h)
step-head-le crates (expires now) board h =
    rw (head-expire crates now board) (le_option_refl (head board))
step-head-le crates (materializes stamp tree) board h =
    rw (head-materialized crates stamp tree board) (le_option_refl (head board))
