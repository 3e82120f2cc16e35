-- ===== src/Clip/State/Changes.antt =====
-- src/clip/state.rs: every mutation either leaves the clip as it is or writes one through `set`, and
-- what is written is checked, timed and saved.
use yank.Prelude.{
  ℕ, ◌+◌, ◌≤◌, ◌≡◌, refl, ◌∙◌, ap, inl, inr, Bool, true, false, ◌||◌, Option, none, some, List, [],
  ◌∷◌, ◌++◌, arith, Bool-cases, if-elim, ok, Result-cases, Option-cases, any,
}
use yank.Files.Crates.{Crates}
use yank.Files.Manifest.{FileRef}
use yank.Files.Uri.{FilePath}
use yank.Clip.Time.{SystemTime, from_secs}
use yank.Clip.Stamp.{Stamp, eq_option, time}
use yank.Clip.Copy.{Clip, Copied, Selection, check}
use yank.Clip.State.{
  already_holds, head_of, Clipboard, head, current, deadline, check_clip, set, lapse, apply,
  apply_clip, then_apply, replace, new_copy, copy, capture_new, capture_fit, capture_some, captured,
  adopt, clear, expire, materialized,
}
use yank.Clip.State.Effects.{Effect, save, Captured}
use yank.Clip.State.Calls.{Call, copies, captures, accepts, clears, expires, materializes, step}
use yank.Clip.State.Frame.{apply-SameClip, accept-cases, copy-cases}

-- The deadline belongs to the copy: without a copy or a lifetime there is none, and otherwise it is at
-- most a lifetime after the stamp.
abbrev pub TimedTtl : Stamp → Option ℕ → Option SystemTime → Type 0
TimedTtl stamp none at = at ≡ none
TimedTtl stamp (some ttl) at = (t : SystemTime) × (at ≡ some t) × (t ≤ time stamp + from_secs ttl)

abbrev pub TimedCopy : Stamp → Option Copied → Option SystemTime → Type 0
TimedCopy stamp none at = at ≡ none
TimedCopy stamp (some copy) at = TimedTtl stamp copy.ttl at

abbrev pub Timed : Option Clip → Option SystemTime → Type 0
Timed none at = at ≡ none
Timed (some clip) at = TimedCopy clip.stamp clip.copy at

abbrev pub IsTimed : Clipboard → Type 0
IsTimed board = Timed board.clip board.expires

abbrev pub is_save : Effect → Bool
is_save save = true
is_save _ = false

-- Whether the caller is asked to write the clip to disk.
abbrev pub saves : List Effect → Bool
saves = any is_save

saves-append : (xs ys : List Effect) → saves (xs ++ ys) ≡ (saves xs || saves ys)
saves-append [] ys = refl
saves-append (x ∷ xs) ys = ground (arith, saves-append xs ys)

-- What a mutation does to the clip.
pub data Change (crates : Crates) (old new : Clipboard) (effects : List Effect) : Type 0 where
  kept :
      new.clip ≡ old.clip
      → new.expires ≡ old.expires
      → saves effects ≡ false
      → Change crates old new effects
  written :
      (now : SystemTime) (clip : Clip)
      → new.clip ≡ some clip
      → new.expires ≡ deadline now clip.stamp clip.copy
      → check_clip crates clip.copy ≡ ok tt
      → saves effects ≡ true
      → Change crates old new effects

module _ (crates : Crates) where
  saves-apply : (board : Clipboard) → saves (apply crates board).1 ≡ false
  unfolding apply apply_clip
  saves-apply board = ground arith

  -- A clip that was just set, and then applied.
  written_apply :
      (old board : Clipboard) (now : SystemTime) (clip : Clip)
      → board.clip ≡ some clip
      → board.expires ≡ deadline now clip.stamp clip.copy
      → check_clip crates clip.copy ≡ ok tt
      → let r = then_apply crates (board, save ∷ []) in Change crates old r.0 r.1
  unfolding then_apply
  written_apply old board now clip c e h =
      let same = apply-SameClip crates board in
      written now clip (same.same_clip ∙ c) (same.same_expires ∙ e) h refl

  replace_apply :
      (stamp_now set_now : SystemTime) (c : Option Copied) (board : Clipboard)
      → check_clip crates c ≡ ok tt
      → let r = then_apply crates (replace crates stamp_now set_now c board) in
        Change crates board r.0 r.1
  unfolding replace set
  replace_apply stamp_now set_now c board h = written_apply board _ set_now _ refl refl h

  capture_new-Change :
      (stamp_now set_now : SystemTime) (c : Copied) (board : Clipboard)
      → let r = capture_new crates stamp_now set_now c board in Change crates board r.0 r.1
  unfolding capture_new replace set
  capture_new-Change stamp_now set_now c board = elim (Result-cases (check c)) [
    | inr (e, refused) ↦ rw (refused, capture_new) (kept refl refl refl)
    | inl (tt, sound) ↦ rw (sound, capture_new) (written set_now _ refl refl sound refl)
  ]

  -- `lapse` does nothing, or writes the clip without its copy.
  lapse-false :
      (now : SystemTime) (board : Clipboard)
      → (lapse now board).1 ≡ false
      → (lapse now board).0 ≡ board
  unfolding lapse
  lapse-false now board h = ground arith

  lapse-some :
      (now : SystemTime) (board : Clipboard) (s : Stamp)
      → head board ≡ some s
      → (lapse now board).1 ≡ true
      → (lapse now board).0 ≡ set now (record { stamp = s; copy = none }) board
  unfolding lapse
  lapse-some now board s e h = ground arith

  lapse-none :
      (now : SystemTime) (board : Clipboard)
      → board.clip ≡ none
      → board.expires ≡ none
      → (lapse now board).1 ≡ false
  unfolding lapse
  lapse-none now board c e = ground arith

  expire-Change :
      (now : SystemTime) (board : Clipboard)
      → IsTimed board
      → let r = expire crates now board in Change crates board r.0 r.1
  unfolding expire set
  expire-Change now board t = elim (Bool-cases (lapse now board).1) [
    | inl due ↦ elim (Option-cases board.clip) [
      | inl e ↦ cc (lapse-none now board e (rw e at t))
      | inr (clip, e) ↦
          let to = lapse-some now board clip.stamp (ap head_of e) due in
          rw (due, expire) (rw to (written_apply board _ now _ refl refl refl))
    ]
    | inr early ↦ rw (early, expire) (rw (lapse-false now board early) (kept refl refl refl))
  ]

  materialized-Change :
      (stamp : Stamp) (tree : FilePath) (board : Clipboard)
      → let r = materialized crates stamp tree board in Change crates board r.0 r.1
  unfolding materialized
  materialized-Change stamp tree board =
      let laid = record board { tree = some tree } in
      let same = apply-SameClip crates laid in
      elim (Bool-cases (eq_option (head board) (some stamp))) [
        | inr other ↦ rw (other, materialized) (kept refl refl refl)
        | inl here ↦
            rw (here, materialized) (kept same.same_clip same.same_expires (saves-apply laid))
      ]

  capture_fit-Change :
      (stamp_now set_now : SystemTime) (selection : Selection) (secret : Bool)
      (files : List FileRef) (board : Clipboard)
      → let r = capture_fit crates stamp_now set_now selection secret files board in
        Change crates board r.0 r.1
  unfolding capture_fit
  capture_fit-Change stamp_now set_now selection secret files board =
      let fresh =
        capture_new-Change stamp_now set_now (new_copy crates board selection secret none files)
          board in
      elim (Option-cases (current board)) [
        | inl e ↦ rw (e, capture_fit) fresh
        | inr ((stamp, held), e) ↦ elim (Bool-cases (already_holds crates board held selection)) [
          | inl same ↦ rw (e, capture_fit) (rw same (kept refl refl refl))
          | inr new ↦ rw (e, capture_fit) (rw new fresh)
        ]
      ]

  capture_some-Change :
      (stamp_now set_now : SystemTime) (fitting : Option Selection) (secret : Bool)
      (files : List FileRef) (board : Clipboard)
      → let r = capture_some crates stamp_now set_now fitting secret files board in
        Change crates board r.0 r.1
  unfolding capture_some
  capture_some-Change stamp_now set_now none secret files board = kept refl refl refl
  capture_some-Change stamp_now set_now (some selection) secret files board =
      capture_fit-Change stamp_now set_now selection secret files board

  captured-Change :
      (stamp_now set_now : SystemTime) (c : Captured) (files : List FileRef) (board : Clipboard)
      → let r = captured crates stamp_now set_now c files board in Change crates board r.0 r.1
  unfolding captured
  captured-Change stamp_now set_now c files board =
      if-elim {A = Clipboard × List Effect} (λ r. Change crates board r.0 r.1)
        board.settings.capture (λ _. capture_some-Change stamp_now set_now _ c.secret files board)
        (λ _. kept refl refl refl)

  -- A clip whose lifetime may have run out on the way.
  adopt-Change :
      (set_now lapse_now : SystemTime) (clip : Clip) (board : Clipboard)
      → check_clip crates clip.copy ≡ ok tt
      → let r = adopt crates set_now lapse_now clip board in Change crates board r.0 r.1
  unfolding adopt set
  adopt-Change set_now lapse_now clip board h =
      let held = set set_now clip board in
      elim (Bool-cases (lapse lapse_now held).1) [
        | inl due ↦
            rw (lapse-some lapse_now held clip.stamp refl due)
              (written_apply board _ lapse_now _ refl refl refl)
        | inr fresh ↦
            rw (lapse-false lapse_now held fresh)
              (written_apply board held set_now clip refl refl h)
      ]

  -- Every mutation keeps the clip and its deadline and asks for nothing to be saved, or writes a
  -- clip that passes the checks, with the deadline that belongs to it, and asks for it to be saved.
  pub step-Change :
      (call : Call) (board : Clipboard)
      → IsTimed board
      → let r = step crates call board in Change crates board r.0 r.1
  unfolding step clear
  step-Change (copies stamp_now set_now selection files secret ttl) board t =
      elim (copy-cases crates stamp_now set_now selection files secret ttl board) [
        | inl (e, refused) ↦ rw refused (kept refl refl refl)
        | inr (done, _, _, sound) ↦ rw done (replace_apply stamp_now set_now _ board sound)
      ]
  step-Change (captures stamp_now set_now c files) board t =
      captured-Change stamp_now set_now c files board
  step-Change (accepts wall_now set_now lapse_now clip) board t =
      elim (accept-cases crates wall_now set_now lapse_now clip board) [
        | inl (e, refused) ↦ rw refused (kept refl refl refl)
        | inr (inl (old, same)) ↦ rw same (kept refl refl refl)
        | inr (inr (adopted, _, _, _, sound)) ↦
            rw adopted (adopt-Change set_now lapse_now clip board sound)
      ]
  step-Change (clears stamp_now set_now) board t = replace_apply stamp_now set_now none board refl
  step-Change (expires now) board t = expire-Change now board t
  step-Change (materializes stamp tree) board t = materialized-Change stamp tree board
