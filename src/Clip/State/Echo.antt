-- ===== src/Clip/State/Echo.antt =====
-- src/clip/state.rs: a selection that the compositor reports back is no new copy.
use yank.Prelude.{
  ℕ, ◌≡◌, refl, ◌∙◌, ◌&&◌, is_some, if◌then◌else◌, ap, ◌⊎◌, inl, inr, Bool, true, Option, none,
  some, List, [], arith,
}
use yank.Prelude.Bytes.{Bytes, eq_list_refl}
use yank.Files.Crates.{Crates}
use yank.Files.Manifest.{FileRef}
use yank.Clip.Time.{SystemTime}
use yank.Clip.Stamp.{Stamp}
use yank.Clip.Copy.{Clip, Copied, Selection}
use yank.Clip.Settings.{max_bytes}
use yank.Clip.State.{
  Clipboard, head, current, current_of, is_ours, already_holds, capture_fit, capture_some, captured,
  apply, apply_clip, apply_copy,
}
use yank.Clip.State.Effects.{Effect, Captured}
use yank.Clip.State.Offer.{carried, fit}
use yank.Clip.State.Offer.Fit.{Fitted, too_big, fitted, fit-Fitted}
use yank.Clip.State.Frame.{apply-SameClip}

-- A selection asked for nothing, and nothing has changed but that the clip counts as applied, where the
-- selection is captured and something of it fits.
abbrev pub Quiet : Captured → Clipboard → Clipboard × List Effect → Type 0
Quiet c board r =
    let taken = board.settings.capture && is_some (fit (max_bytes board.settings) c.selection) in
    r ≡ (record board { applied = if taken then head board else board.applied }, [])

fit_primary :
    {cap : ℕ} {selection : Selection} {result : Option Selection} {f : Selection}
    → Fitted cap selection result
    → result ≡ some f
    → f.primary.bytes ≡ selection.primary.bytes
fit_primary (too_big e over) k = cc
fit_primary (fitted kept dropped e split small next) k = ground (arith, e, k)

module _ (crates : Crates) where
  -- Whether a clipboard holds these bytes already: as the clip's own, or as what was served for it.
  abbrev pub Holds : Clipboard → Copied → Bytes → Type 0
  Holds board held bytes =
      (held.selection.primary.bytes ≡ bytes) ⊎ (board.served ≡ some (crates.blake3 bytes))

  Holds-already_holds :
      (board : Clipboard) (held : Copied) (selection : Selection)
      → Holds board held selection.primary.bytes
      → already_holds crates board held selection ≡ true
  unfolding already_holds
  Holds-already_holds board held selection (inl e) =
      rw e (ground (arith, eq_list_refl selection.primary.bytes))
  Holds-already_holds board held selection (inr e) =
      ground (arith, e, eq_list_refl (crates.blake3 selection.primary.bytes).bytes)

  capture_some-Quiet :
      (stamp_now set_now : SystemTime) (fits : Option Selection) (secret : Bool)
      (files : List FileRef) (board : Clipboard) (bytes : Bytes) {s : Stamp} {held : Copied}
      → ((f : Selection) → fits ≡ some f → f.primary.bytes ≡ bytes)
      → current board ≡ some (s, held)
      → Holds board held bytes
      → capture_some crates stamp_now set_now fits secret files board
        ≡ (record board { applied = if is_some fits then head board else board.applied }, [])
  unfolding capture_some capture_fit
  capture_some-Quiet stamp_now set_now none secret files board bytes same e h = refl
  capture_some-Quiet stamp_now set_now (some f) secret files board bytes {s} {held} same e h =
      let again : already_holds crates board held f ≡ true =
        Holds-already_holds board held f (rw (same f refl) h) in
      ground (arith, again)

  -- A selection whose first representation is what the clip holds, or what was served for it, asks for
  -- nothing, and changes nothing but that the clip counts as applied, where selections are captured and
  -- something of this one fits: whatever its other types, its size and its files are.
  pub captured-Quiet :
      (stamp_now set_now : SystemTime) (c : Captured) (files : List FileRef) (board : Clipboard)
      {s : Stamp} {held : Copied}
      → current board ≡ some (s, held)
      → Holds board held c.selection.primary.bytes
      → Quiet c board (captured crates stamp_now set_now c files board)
  unfolding captured
  captured-Quiet stamp_now set_now c files board e h =
      let some_case =
        capture_some-Quiet stamp_now set_now (fit (max_bytes board.settings) c.selection) c.secret
          files board c.selection.primary.bytes
          (λ f k. fit_primary (fit-Fitted (max_bytes board.settings) c.selection) k) e h in
      ground (arith, some_case)

  served-apply :
      (board : Clipboard) (clip : Clip) (copy : Copied)
      → board.clip ≡ some clip
      → clip.copy ≡ some copy
      → board.settings.apply ≡ true
      → (apply crates board).0.served
        ≡ some (crates.blake3 (carried crates board.tree (is_ours board) copy).primary.bytes)
  unfolding apply apply_clip apply_copy
  served-apply board clip copy e k on = ground arith

  -- What this machine itself puts on the clipboard comes back as no new copy: neither the copy's own
  -- bytes nor the text that stands for it here.
  pub apply-captured :
      (stamp_now set_now : SystemTime) (c : Captured) (files : List FileRef) (board : Clipboard)
      (clip : Clip) (copy : Copied)
      → board.clip ≡ some clip
      → clip.copy ≡ some copy
      → board.settings.apply ≡ true
      → c.selection.primary.bytes ≡ (carried crates board.tree (is_ours board) copy).primary.bytes
      → let applied = (apply crates board).0 in
        Quiet c applied (captured crates stamp_now set_now c files applied)
  apply-captured stamp_now set_now c files board clip copy e k on same =
      captured-Quiet stamp_now set_now c files (apply crates board).0 {s = clip.stamp} {held = copy}
        (ap current_of ((apply-SameClip crates board).same_clip ∙ e) ∙ ground (arith, k))
        (inr (rw same (served-apply board clip copy e k on)))
