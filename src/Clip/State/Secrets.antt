-- ===== src/Clip/State/Secrets.antt =====
-- src/clip/state.rs: secrets stay off the disk and have a lifetime, and a restart forgets no stamp.
use yank.Prelude.{
  ℕ, ◌+◌, ◌-◌, ◌^◌, ◌≤◌, ◌≡◌, refl, ◌∙◌, ap, true, false, Option, none, some, List, [], ◌∷◌, arith,
  min, inl, inr, ok, if◌then◌else◌,
}
use yank.Files.Crates.{Crates}
use yank.Files.Manifest.{FileRef}
use yank.Clip.Time.{SystemTime, Duration, from_secs, as_secs}
use yank.Clip.Stamp.{Stamp, EndpointId, time, next}
use yank.Clip.Copy.{Clip, Copied, Selection}
use yank.Clip.Settings.{Settings}
use yank.Clip.State.{
  Clipboard, head, head_of, current, current_of, saved, new, set, lapse, copy, new_copy, lifetime,
  replace, deadline, then_apply,
}
use yank.Clip.State.Effects.{Effect, save}
use yank.Clip.State.Frame.{apply-SameClip, lapse-Lapsed, copy-cases, then_apply-SameClip}

-- What is written to disk has the stamp of the clip; it has its copy, unless that is a secret, and
-- then none.
pub saved_lem :
    (board : Clipboard)
    → (head_of (saved board) ≡ head board)
      × ((s : Stamp) (c : Copied)
          → current board ≡ some (s, c)
          → current_of (saved board) ≡ (if c.secret then none else some (s, c)))
unfolding saved
saved_lem board = (ground arith, λ s c e. ground arith)

current-saved :
    (board : Clipboard) {s : Stamp} {c : Copied}
    → current_of (saved board) ≡ some (s, c)
    → (current board ≡ some (s, c)) × (c.secret ≡ false)
unfolding saved
current-saved board e = ground arith

-- The lifetime asked for, or the default.
abbrev pub asked_or : Duration → Option Duration → Duration
asked_or default none = default
asked_or default (some asked) = asked

module _ (crates : Crates) where
  new-frame :
      (origin : EndpointId) (settings : Settings) (clip : Clip) (set_now lapse_now : SystemTime)
      → head (new crates origin settings (some clip) set_now lapse_now) ≡ some clip.stamp
  unfolding new set
  new-frame origin settings clip set_now lapse_now =
      let fresh : Clipboard = record {
        origin = origin;
        settings = settings;
        clip = none;
        expires = none;
        applied = none;
        served = none;
        tree = none;
      } in
      let held = set set_now clip fresh in
      ap head_of (apply-SameClip crates (lapse lapse_now held).0).same_clip
      ∙ (lapse-Lapsed lapse_now held).same_head

  head-new :
      (origin : EndpointId) (settings : Settings) (disk : Option Clip)
      (set_now lapse_now : SystemTime)
      → head (new crates origin settings disk set_now lapse_now) ≡ head_of disk
  unfolding new
  head-new origin settings none set_now lapse_now = refl
  head-new origin settings (some clip) set_now lapse_now =
      new-frame origin settings clip set_now lapse_now

  current-new :
      (origin : EndpointId) (settings : Settings) (disk : Option Clip)
      (set_now lapse_now : SystemTime) {s : Stamp} {c : Copied}
      → current (new crates origin settings disk set_now lapse_now) ≡ some (s, c)
      → current_of disk ≡ some (s, c)
  unfolding new set lapse
  current-new origin settings none set_now lapse_now e = cc
  current-new origin settings (some clip) set_now lapse_now e =
      let fresh : Clipboard = record {
        origin = origin;
        settings = settings;
        clip = none;
        expires = none;
        applied = none;
        served = none;
        tree = none;
      } in
      let held = (lapse lapse_now (set set_now clip fresh)).0 in
      ground (arith, (apply-SameClip crates held).same_clip)

  -- A restart from what was saved keeps the stamp, so no older clip comes back; and it brings back no
  -- copy but the one that was held, which was no secret.
  pub restart_lem :
      (board : Clipboard) (origin : EndpointId) (settings : Settings)
      (set_now lapse_now : SystemTime)
      → let restarted = new crates origin settings (saved board) set_now lapse_now in
        (head restarted ≡ head board)
        × ((s : Stamp) (c : Copied)
            → current restarted ≡ some (s, c)
            → (current board ≡ some (s, c)) × (c.secret ≡ false))
  restart_lem board origin settings set_now lapse_now = (
    head-new origin settings (saved board) set_now lapse_now ∙ (saved_lem board).0,
    λ s c e. current-saved board (current-new origin settings (saved board) set_now lapse_now e),
  )

  lifetime-secret :
      (settings : Settings) (ttl : Option Duration)
      → lifetime crates settings true ttl
        ≡ some (min (as_secs (asked_or settings.secret_ttl ttl)) (2 ^ 32 - 1))
  unfolding lifetime
  lifetime-secret settings none = refl
  lifetime-secret settings (some asked) = refl

  expires-replace :
      (stamp_now set_now : SystemTime) (c : Copied) (board : Clipboard) {ttl : ℕ}
      → c.ttl ≡ some ttl
      → (t : SystemTime) × ((replace crates stamp_now set_now (some c) board).0.expires ≡ some t)
        × (t ≤ set_now + from_secs ttl)
  unfolding replace set deadline
  expires-replace stamp_now set_now c board {ttl} e =
      let stamp = next stamp_now (head board) board.origin in
      (min (time stamp) set_now + from_secs ttl, ground (arith, e), omega arith)

  copied-expires :
      (stamp_now set_now : SystemTime) (selection : Selection) (files : List FileRef)
      (ttl : Option Duration) (board : Clipboard) {r : Clipboard × List Effect}
      → copy crates stamp_now set_now selection files true ttl board ≡ (r.0, ok r.1)
      → let copied = new_copy crates board selection true ttl files in
        r.0.expires
        ≡ (then_apply crates (replace crates stamp_now set_now (some copied) board)).0.expires
  copied-expires stamp_now set_now selection files ttl board e =
      elim (copy-cases crates stamp_now set_now selection files true ttl board) [
        | inl (f, refused) ↦ cc
        | inr (done, _, _, _) ↦ cc
      ]

  -- A secret copied here disappears: its lifetime is the one asked for, or the configured one where
  -- none was, in whole seconds as far as a u32 counts them, and it ends at most that long from now.
  pub secret_deadline :
      (stamp_now set_now : SystemTime) (selection : Selection) (files : List FileRef)
      (ttl : Option Duration) (board : Clipboard) {r : Clipboard × List Effect}
      → copy crates stamp_now set_now selection files true ttl board ≡ (r.0, ok r.1)
      → (t : SystemTime) × (r.0.expires ≡ some t)
        × (t
            ≤ set_now
              + from_secs (min (as_secs (asked_or board.settings.secret_ttl ttl)) (2 ^ 32 - 1)))
  unfolding new_copy replace
  secret_deadline stamp_now set_now selection files ttl board e =
      let copied = new_copy crates board selection true ttl files in
      let (t, at, le) =
        expires-replace stamp_now set_now copied board (lifetime-secret board.settings ttl) in
      (
        t,
        copied-expires stamp_now set_now selection files ttl board e
            ∙ (then_apply-SameClip crates (replace crates stamp_now set_now (some copied) board).0
                (save ∷ [])).same_expires
            ∙ at,
        le,
      )
