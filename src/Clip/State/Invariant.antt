-- ===== src/Clip/State/Invariant.antt =====
-- src/clip/state.rs: what holds of the clipboard after any history, and when a copy disappears.
use yank.Prelude.{
  ℕ, ◌+◌, ◌≤◌, ◌<◌, ◌≡◌, refl, true, false, Option, none, some, List, [], ◌∷◌, arith, ok, min,
  is_some,
}
use yank.Files.Crates.{Crates}
use yank.Clip.Time.{SystemTime, from_secs}
use yank.Clip.Stamp.{Stamp, time}
use yank.Clip.Copy.{Clip, Copied}
use yank.Clip.State.{
  Clipboard, head, current, current_of, deadline, end_of, check_clip, lapse, set, then_apply, apply,
  apply_clip, apply_clear, expire, new,
}
use yank.Clip.State.Effects.{Effect, save, backend, empty}
use yank.Clip.State.Calls.{Call, step, run}
use yank.Clip.State.Changes.{
  Change, kept, written, Timed, TimedTtl, TimedCopy, IsTimed, saves, step-Change,
}
use yank.Clip.State.Converge.{current_of-head_of}

TimedTtl-end_of :
    (now : SystemTime) (stamp : Stamp) (ttl : Option ℕ)
    → TimedTtl stamp ttl (end_of (min (time stamp) now) ttl)
TimedTtl-end_of now stamp none = refl
TimedTtl-end_of now stamp (some ttl) = (min (time stamp) now + from_secs ttl, refl, omega arith)

TimedCopy-deadline :
    (now : SystemTime) (stamp : Stamp) (c : Option Copied)
    → TimedCopy stamp c (deadline now stamp c)
unfolding deadline
TimedCopy-deadline now stamp none = refl
TimedCopy-deadline now stamp (some copy) = TimedTtl-end_of now stamp copy.ttl

abbrev Checked : Crates → Option Clip → Type 0
Checked crates none = Unit {0}
Checked crates (some clip) = check_clip crates clip.copy ≡ ok tt

-- A copy is never held past the checks, and its deadline is the one that its lifetime gives it.
pub record IsSound (crates : Crates) (board : Clipboard) : Type 0 where
  pub timed : IsTimed board
  pub checked : Checked crates board.clip

Change-IsSound :
    (crates : Crates) (old new : Clipboard) {effects : List Effect}
    → Change crates old new effects
    → IsSound crates old
    → IsSound crates new
Change-IsSound crates old new (kept c e _) h = record {
  timed = rw (c, e) h.timed;
  checked = rw c h.checked;
}
Change-IsSound crates old new (written now clip c e sound _) h = record {
  timed = rw (c, e) (TimedCopy-deadline now clip.stamp clip.copy);
  checked = rw c sound;
}

-- Every mutation, refused ones included, keeps this: the copy that is held passes `check`, there is a
-- deadline exactly for a copy with a lifetime, and it is at most that lifetime after the stamp.
pub step-IsSound :
    (crates : Crates) (call : Call) (board : Clipboard)
    → IsSound crates board
    → IsSound crates (step crates call board).0
step-IsSound crates call board h =
    Change-IsSound crates board _ (step-Change crates call board h.timed) h

-- So it holds after any history.
pub run-IsSound :
    (crates : Crates) (calls : List Call) (board : Clipboard)
    → IsSound crates board
    → IsSound crates (run crates calls board).0
unfolding run
run-IsSound crates [] board h = h
run-IsSound crates (call ∷ calls) board h =
    run-IsSound crates calls (step crates call board).0 (step-IsSound crates call board h)

-- What is not asked to be saved has not changed: where the effects of a mutation name no save, the
-- clip on disk is still the clip.
pub unsaved-step :
    (crates : Crates) (call : Call) (board : Clipboard)
    → IsSound crates board
    → saves (step crates call board).1 ≡ false
    → (step crates call board).0.clip ≡ board.clip
unsaved-step crates call board h quiet = elim (step-Change crates call board h.timed) [
  | kept c _ _ ↦ c
  | written _ _ _ _ _ loud ↦ cc
]

deadline_of_ttl :
    (stamp : Stamp) (o : Option ℕ) (at : Option SystemTime) {ttl : ℕ}
    → TimedTtl stamp o at
    → o ≡ some ttl
    → (t : SystemTime) × (at ≡ some t) × (t ≤ time stamp + from_secs ttl)
deadline_of_ttl stamp none at h e = cc
deadline_of_ttl stamp (some n) at h e = (h.0, h.1, ground (arith, h.2))

deadline_of_current :
    (clip : Option Clip) (at : Option SystemTime) {s : Stamp} {c : Copied} {ttl : ℕ}
    → Timed clip at
    → current_of clip ≡ some (s, c)
    → c.ttl ≡ some ttl
    → (t : SystemTime) × (at ≡ some t) × (t ≤ time s + from_secs ttl)
deadline_of_current none at h e k = cc
deadline_of_current (some clip) at {s} {c} {ttl} h e k = go clip.copy h e
  where
    go :
        (o : Option Copied)
        → TimedCopy clip.stamp o at
        → current_of (some (record { stamp = clip.stamp; copy = o })) ≡ some (s, c)
        → (t : SystemTime) × (at ≡ some t) × (t ≤ time s + from_secs ttl)
    go none h e = cc
    go (some copy) h e =
        let (t, a, le) = deadline_of_ttl clip.stamp copy.ttl at {ttl = ttl} h (ground (arith, k)) in
        (t, a, ground arith)

module _ (crates : Crates) where
  lapse_due :
      (now : SystemTime) (board : Clipboard) {s : Stamp} {t : SystemTime}
      → head board ≡ some s
      → board.expires ≡ some t
      → t ≤ now
      → lapse now board ≡ (set now (record { stamp = s; copy = none }) board, true)
  unfolding lapse
  lapse_due now board h e due = ground arith

  -- From a lifetime after its stamp on, `expire` drops the copy and keeps the stamp, and asks for the
  -- clear to be saved; and where copies are applied and one was, the local clipboard is emptied.
  pub expire_due :
      (now : SystemTime) (board : Clipboard) {s : Stamp} {c : Copied} {ttl : ℕ}
      → IsTimed board
      → current board ≡ some (s, c)
      → c.ttl ≡ some ttl
      → time s + from_secs ttl ≤ now
      → (current (expire crates now board).0 ≡ none)
        × (head (expire crates now board).0 ≡ some s)
        × (saves (expire crates now board).1 ≡ true)
        × (board.settings.apply ≡ true
            → is_some board.applied ≡ true
            → (expire crates now board).1 ≡ save ∷ backend empty ∷ [])
  unfolding expire set then_apply apply apply_clip apply_clear
  expire_due now board {s} {c} {ttl} timed e h due =
      let (t, at, le) = deadline_of_current board.clip board.expires timed e h in
      let lapsed = lapse_due now board (current_of-head_of board.clip e) at (omega arith) in
      (
        ground (arith, lapsed),
        ground (arith, lapsed),
        ground (arith, lapsed),
        λ on was. ground (arith, lapsed),
      )

  -- Before the deadline `expire` does nothing.
  pub expire_early :
      (now : SystemTime) (board : Clipboard) {t : SystemTime}
      → board.expires ≡ some t
      → now < t
      → expire crates now board ≡ (board, [])
  unfolding expire lapse
  expire_early now board e early = ground arith
