-- ===== src/Clip/State.antt =====
-- src/clip/state.rs: the clipboard as a state machine. A mutation returns the new state and the
-- effects that the caller performs; one that can refuse returns the state with its error too. Each
-- reading of the clock is an argument of its own, named for the call that makes it: the clock may jump
-- between two of them.
pub mod Effects
pub mod Offer
pub mod Frame
pub mod Calls
pub mod Heads
pub mod Converge
pub mod Secrets
pub mod Changes
pub mod Invariant
pub mod Echo
use yank.Prelude.{
  ℕ, ◌+◌, ◌-◌, ◌^◌, min, ◌≡◌, Bool, true, false, not, ◌&&◌, ◌||◌, Option, none, some, List, [], ◌∷◌,
  ◌++◌, leb, ltb, ◌==◌, length, is_some, or_else, if◌then◌else◌, Result, ok, err, ensure,
  nothing_to_copy, selection_over_limit, claims_our_origin, clock_too_far_ahead,
}
use yank.Prelude.Mutations.{Mutation, get, lift, modify, ◌>>=◌, ◌>>◌}
use yank.Prelude.Bytes.{Str, Bytes, eq_list}
use yank.Files.Crates.{Crates, Hash}
use yank.Files.Manifest.{FileRef}
use yank.Files.Uri.{FilePath}
use yank.Clip.Time.{SystemTime, Duration, from_secs, as_secs}
use yank.Clip.Stamp.{Stamp, EndpointId, le_option, eq_option, next, is_plausible, time}
use yank.Clip.Settings.{Settings, max_bytes}
use yank.Clip.Copy.{Rep, Selection, Copied, Clip, selection_size, is_files, check}
use yank.Clip.State.Effects.{Effect, save, backend, fetch, Command, offer, empty, Captured, Serve}
use yank.Clip.State.Offer.{carried, serves, secret_serve, fit}

pub record Clipboard : Type 0 where
  pub origin : EndpointId
  pub settings : Settings
  pub clip : Option Clip
  pub expires : Option SystemTime
  pub applied : Option Stamp
  pub served : Option Hash
  pub tree : Option FilePath

-- `Clipboard::head`
abbrev pub head_of : Option Clip → Option Stamp
head_of none = none
head_of (some clip) = some clip.stamp

abbrev pub head : Clipboard → Option Stamp
head board = head_of board.clip

-- `Clipboard::current`
abbrev pub current_of : Option Clip → Option (Stamp × Copied)
current_of none = none
current_of (some clip) = elim clip.copy [ none ↦ none | some copy ↦ some (clip.stamp, copy) ]

abbrev pub current : Clipboard → Option (Stamp × Copied)
current board = current_of board.clip

abbrev is_from : EndpointId → Option Stamp → Bool
is_from origin none = false
is_from origin (some stamp) = stamp.origin == origin

-- `Clipboard::is_ours`
unfoldable pub is_ours : Clipboard → Bool
is_ours board = is_from board.origin (head board)

saved_copy : Option Copied → Option Copied
saved_copy none = none
saved_copy (some copy) = if copy.secret then none else some copy

-- `Clipboard::saved`: a secret is saved as a clear.
unfoldable pub saved : Clipboard → Option Clip
unfolding saved_copy
saved board = elim board.clip [
  | none ↦ none
  | some clip ↦ some (record { stamp = clip.stamp; copy = saved_copy clip.copy })
]

-- When a lifetime that counts from `from` ends.
abbrev pub end_of : SystemTime → Option ℕ → Option SystemTime
end_of from none = none
end_of from (some ttl) = some (from + from_secs ttl)

-- When a copy that reaches this machine at `now` disappears.
unfoldable pub deadline : SystemTime → Stamp → Option Copied → Option SystemTime
deadline now stamp none = none
deadline now stamp (some copy) = end_of (min (time stamp) now) copy.ttl

-- `Clipboard::set`
unfoldable pub set : SystemTime → Clip → Clipboard → Clipboard
set now clip board = record board {
  clip = some clip;
  expires = deadline now clip.stamp clip.copy;
  served = none;
  tree = none;
}

has_lapsed : SystemTime → Option SystemTime → Bool
has_lapsed now none = false
has_lapsed now (some at) = leb at now

-- `Clipboard::lapse`: the state, and whether the lifetime has run out. A clip without a copy has no
-- deadline, so what the clock reads in `set` does not matter.
unfoldable pub lapse : SystemTime → Clipboard → Clipboard × Bool
unfolding has_lapsed
lapse now board = elim (head board) [
  | none ↦ (board, has_lapsed now board.expires)
  | some stamp ↦
      if has_lapsed now board.expires
      then (set now (record { stamp = stamp; copy = none }) board, true)
      else (board, false)
]

-- The effect that asks for a peer's files.
fetch_effect : Clipboard → Stamp → Copied → List Effect
fetch_effect board stamp copy =
    if is_files copy && board.settings.files && not (is_ours board) && not (is_some board.tree)
    then fetch stamp ∷ []
    else []

module _ (crates : Crates) where
  -- What reaches the clipboard of this machine for a copy.
  unfoldable pub offered : Clipboard → Copied → List Serve
  offered board copy =
      serves (carried crates board.tree (is_ours board) copy)
      ++ (if copy.secret then secret_serve ∷ [] else [])

  -- The case of `apply` that puts a copy on the clipboard.
  unfoldable pub apply_copy : Clipboard → Stamp → Copied → Clipboard × List Effect
  unfolding fetch_effect
  apply_copy board stamp copy =
      let selection = carried crates board.tree (is_ours board) copy in
      (
        record board {
          applied = some stamp;
          served = some (crates.blake3 selection.primary.bytes);
        },
        fetch_effect board stamp copy ++ backend (offer (offered board copy)) ∷ [],
      )

  -- The case of `apply` that empties the clipboard.
  unfoldable pub apply_clear : Clipboard → Clipboard × List Effect
  apply_clear board =
      if is_some board.applied
      then (record board { applied = none }, backend empty ∷ [])
      else (board, [])

  unfoldable pub apply_clip : Clipboard → Option Clip → Clipboard × List Effect
  unfolding apply_copy apply_clear
  apply_clip board none = (board, [])
  apply_clip board (some clip) = elim clip.copy [
    | none ↦ apply_clear board
    | some copy ↦ apply_copy board clip.stamp copy
  ]

  -- `Clipboard::apply`
  unfoldable pub apply : Clipboard → Clipboard × List Effect
  apply board = if board.settings.apply then apply_clip board board.clip else (board, [])

  -- `Clipboard::new`
  unfoldable pub new :
      EndpointId → Settings → Option Clip → (set_now lapse_now : SystemTime) → Clipboard
  new origin settings saved set_now lapse_now =
      let board : Clipboard = record {
        origin = origin;
        settings = settings;
        clip = none;
        expires = none;
        applied = none;
        served = none;
        tree = none;
      } in
      elim saved [
        | none ↦ board
        | some clip ↦ (apply (lapse lapse_now (set set_now clip board)).0).0
      ]

  -- `Clipboard::lifetime`, in seconds that fit a u32.
  unfoldable pub lifetime : Settings → Bool → Option Duration → Option ℕ
  lifetime settings secret ttl =
      elim (or_else ttl (if secret then some settings.secret_ttl else none)) [
        | none ↦ none
        | some ttl ↦ some (min (as_secs ttl) (2 ^ 32 - 1))
      ]

  -- What a selection of this machine is shared as.
  unfoldable pub new_copy : Clipboard → Selection → Bool → Option Duration → List FileRef → Copied
  new_copy board selection secret ttl files = record {
    selection = selection;
    secret = secret;
    ttl = lifetime board.settings secret ttl;
    files = files;
  }

  -- `Clipboard::replace`
  unfoldable pub replace :
      (stamp_now set_now : SystemTime) → Option Copied → Clipboard → Clipboard × List Effect
  replace stamp_now set_now copy board =
      let stamp = next stamp_now (head board) board.origin in
      (set set_now (record { stamp = stamp; copy = copy }) board, save ∷ [])

  -- The effects of a change, and then those of `apply`.
  unfoldable pub then_apply : Clipboard × List Effect → Clipboard × List Effect
  then_apply (board, effects) = let (board', more) = apply board in (board', effects ++ more)

  -- `Clipboard::copy`
  unfoldable pub copy :
      (stamp_now set_now : SystemTime)
      → Selection
      → List FileRef
      → Bool
      → Option Duration
      → Mutation Clipboard (List Effect)
  copy stamp_now set_now selection files secret ttl = do
    board ← get
    lift (ensure (ltb 0 (selection_size selection)) nothing_to_copy)
    lift (ensure (leb (selection_size selection) (max_bytes board.settings)) selection_over_limit)
    let copied = new_copy board selection secret ttl files
    lift (check copied)
    modify (λ board. then_apply (replace stamp_now set_now (some copied) board))

  -- Whether the clipboard already holds the clip: by its own first representation, or by the one
  -- that was served for it.
  unfoldable pub already_holds : Clipboard → Copied → Selection → Bool
  already_holds board copied selection =
      eq_list copied.selection.primary.bytes selection.primary.bytes || elim board.served [
        | none ↦ false
        | some served ↦ eq_list served.bytes (crates.blake3 selection.primary.bytes).bytes
      ]

  -- `Clipboard::captured` from where the selection fits.
  unfoldable pub capture_new :
      (stamp_now set_now : SystemTime) → Copied → Clipboard → Clipboard × List Effect
  capture_new stamp_now set_now copied board = elim (check copied) [
    | err e ↦ (board, [])
    | ok _ ↦
        let (board', effects) = replace stamp_now set_now (some copied) board in
        (record board' { applied = head board' }, effects)
  ]

  unfoldable pub capture_fit :
      (stamp_now set_now : SystemTime)
      → Selection
      → Bool
      → List FileRef
      → Clipboard
      → Clipboard × List Effect
  capture_fit stamp_now set_now selection secret files board =
      let copied = new_copy board selection secret none files in
      elim (current board) [
        | none ↦ capture_new stamp_now set_now copied board
        | some (stamp, held) ↦
            if already_holds board held selection
            then (record board { applied = some stamp }, [])
            else capture_new stamp_now set_now copied board
      ]

  unfoldable pub capture_some :
      (stamp_now set_now : SystemTime)
      → Option Selection
      → Bool
      → List FileRef
      → Clipboard
      → Clipboard × List Effect
  capture_some stamp_now set_now none secret files board = (board, [])
  capture_some stamp_now set_now (some selection) secret files board =
      capture_fit stamp_now set_now selection secret files board

  -- `Clipboard::captured`
  unfoldable pub captured :
      (stamp_now set_now : SystemTime)
      → Captured
      → List FileRef
      → Clipboard
      → Clipboard × List Effect
  captured stamp_now set_now c files board =
      if board.settings.capture
      then capture_some stamp_now set_now (fit (max_bytes board.settings) c.selection) c.secret
          files board
      else (board, [])

  abbrev pub check_clip : Option Copied → Result (Unit {0})
  check_clip none = ok tt
  check_clip (some copy) = check copy

  -- The part of `Clipboard::accept` behind its checks.
  unfoldable pub adopt :
      (set_now lapse_now : SystemTime) → Clip → Clipboard → Clipboard × List Effect
  adopt set_now lapse_now clip board =
      then_apply ((lapse lapse_now (set set_now clip board)).0, save ∷ [])

  -- `Clipboard::accept`
  unfoldable pub accept :
      (wall_now set_now lapse_now : SystemTime) → Clip → Mutation Clipboard (List Effect)
  accept wall_now set_now lapse_now clip = do
    board ← get
    if le_option (some clip.stamp) (head board) then lift (ok []) else do
      lift (ensure (not (clip.stamp.origin == board.origin)) claims_our_origin)
      lift (ensure (is_plausible wall_now clip.stamp) clock_too_far_ahead)
      lift (check_clip clip.copy)
      modify (adopt set_now lapse_now clip)

  -- `Clipboard::clear`
  unfoldable pub clear : (stamp_now set_now : SystemTime) → Clipboard → Clipboard × List Effect
  clear stamp_now set_now board = then_apply (replace stamp_now set_now none board)

  -- `Clipboard::expire`
  unfoldable pub expire : SystemTime → Clipboard → Clipboard × List Effect
  expire now board =
      let (board', lapsed) = lapse now board in
      if lapsed then then_apply (board', save ∷ []) else (board', [])

  -- `Clipboard::materialized`
  unfoldable pub materialized : Stamp → FilePath → Clipboard → Clipboard × List Effect
  materialized stamp tree board =
      if eq_option (head board) (some stamp)
      then apply (record board { tree = some tree })
      else (board, [])
