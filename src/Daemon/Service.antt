-- ===== src/Daemon/Service.antt =====
-- src/daemon/clip.rs: the owner of the clipboard, which performs the effects of each change under one
-- lock. `disk` is what `load` would read from the clip's file: `write_private` replaces the file whole
-- or leaves it, so a write that fails leaves the content of before. Whether a write succeeds is an
-- argument. Waking other tasks leaves no trace in the state.
pub mod Events
pub mod InStep
pub mod Reading
use yank.Prelude.{
  ℕ, Bool, true, false, not, ◌&&◌, Option, none, some, is_some, List, [], ◌∷◌, ◌++◌, map, keep,
  find, if◌then◌else◌, Result, ok, err, Error, ensure, ◌>>=◌, ◌>>◌,
}
use yank.Prelude.Mutations.{Mutation, modify}
use yank.Prelude.Bytes.{Str, Bytes}
use yank.Files.Crates.{Crates, Hash}
use yank.Files.Manifest.{FileRef}
use yank.Files.Uri.{FilePath}
use yank.Clip.Time.{SystemTime, Duration}
use yank.Clip.Stamp.{Stamp, eq_option}
use yank.Clip.Settings.{Settings}
use yank.Clip.Copy.{Clip, Copied, Rep, Selection, selection_of, of_files, file_paths, rep_of, reps}
use yank.Clip.State.{
  Clipboard, head, current, saved, new, copy, captured, accept, clear, expire, materialized,
}
use yank.Clip.State.Effects.{Effect, Command, Captured, save, backend, fetch}

-- `Job`, of src/daemon/files.rs, without the channel that answers a copy.
pub data Job : Type 0 where
  recording : Option Stamp → Captured → List FilePath → Job
  copying : List FilePath → Option Duration → Job
  fetching : Stamp → Job
  sweep : Job

-- `ClipService`: the state, what it has told the peers, and what it has sent to the file service and
-- to the compositor, where there is one.
pub record Service : Type 0 where
  pub board : Clipboard
  pub head : Option Stamp
  pub disk : Option Clip
  pub jobs : List Job
  pub commands : List Command
  pub has_backend : Bool

abbrev pub send : Job → Service → Service
send job service = record service { jobs = service.jobs ++ job ∷ [] }

-- `ClipService::to_backend`
abbrev pub to_backend : Command → Service → Service
to_backend command service = record service {
  commands = if service.has_backend then service.commands ++ command ∷ [] else service.commands;
}

-- One round of the loop of `try_change`.
unfoldable pub perform : Bool → Effect → Service → Service
perform written save service =
    send sweep (record service { disk = if written then saved service.board else service.disk })
perform written (backend command) service = to_backend command service
perform written (fetch stamp) service = send (fetching stamp) service

unfoldable pub perform_all : Bool → List Effect → Service → Service
perform_all written [] service = service
perform_all written (effect ∷ effects) service =
    perform_all written effects (perform written effect service)

-- The part of `try_change` behind the mutation.
unfoldable pub finish : Bool → Clipboard × List Effect → Service → Service
finish written (board, []) service = record service { board = board }
finish written (board, effect ∷ effects) service =
    record (perform_all written (effect ∷ effects) (record service { board = board })) {
      head = head board;
    }

-- The board is changed in place: what a mutation wrote before it refused stays, and nothing follows it.
abbrev pub settle : Bool → Service → Clipboard × Result (List Effect) → Service × Result (Unit {0})
settle written service (board, err e) = (record service { board = board }, err e)
settle written service (board, ok effects) = (finish written (board, effects) service, ok tt)

-- `ClipService::try_change`
unfoldable pub try_change :
    Bool → Mutation Clipboard (List Effect) → Service → Service × Result (Unit {0})
try_change written mutate service = settle written service (mutate service.board)

-- `ClipService::change`
unfoldable pub change : Bool → (Clipboard → Clipboard × List Effect) → Service → Service
change written mutate service = (try_change written (modify mutate) service).0

module _ (crates : Crates) (written : Bool) where
  -- `ClipService::open`, of what `load` read.
  unfoldable pub open_service :
      Option Clip → ℕ → Settings → (set_now lapse_now : SystemTime) → Service
  open_service loaded identity settings set_now lapse_now =
      let board = new crates identity settings loaded set_now lapse_now in
      change written (λ board. (board, save ∷ []))
        (record {
          board = board;
          head = head board;
          disk = loaded;
          jobs = [];
          commands = [];
          has_backend = false;
        })

  -- `ClipService::accept`
  unfoldable pub accept_clip :
      (wall_now set_now lapse_now : SystemTime) → Clip → Service → Service × Result (Unit {0})
  accept_clip wall_now set_now lapse_now clip =
      try_change written (accept crates wall_now set_now lapse_now clip)

  -- `ClipService::copy`
  unfoldable pub copy_rep :
      (stamp_now set_now : SystemTime)
      → Rep
      → Bool
      → Option Duration
      → Service
      → Service × Result (Unit {0})
  copy_rep stamp_now set_now rep secret ttl =
      try_change written (copy crates stamp_now set_now (selection_of rep) [] secret ttl)

  -- `ClipService::copy_spooled`
  unfoldable pub copy_spooled :
      (stamp_now set_now : SystemTime)
      → List FilePath
      → List FileRef
      → Option Duration
      → Service
      → Service × Result (Unit {0})
  copy_spooled stamp_now set_now paths files ttl =
      try_change written (copy crates stamp_now set_now (of_files crates paths) files false ttl)

  -- `ClipService::record`: also the head after it, where it was not dropped.
  unfoldable pub record_captured :
      (stamp_now set_now : SystemTime)
      → (base recorded : Option Stamp) → Captured
      → List FileRef
      → Service
      → Service × Option Stamp
  record_captured stamp_now set_now base recorded c files service =
      if not (eq_option (head service.board) base) && not (eq_option (head service.board) recorded)
      then (change written (λ board. (board, [])) service, none)
      else (let service' = change written (captured crates stamp_now set_now c files) service in
          (service', head service'.board))

  -- `ClipService::materialized`
  unfoldable pub record_tree : Stamp → FilePath → Service → Service
  record_tree stamp tree = change written (materialized crates stamp tree)

  -- `ClipService::clear`
  unfoldable pub clear_clip : (stamp_now set_now : SystemTime) → Service → Service
  clear_clip stamp_now set_now = change written (clear crates stamp_now set_now)

  -- The last statement of the loop of `run`.
  unfoldable pub expire_clip : SystemTime → Service → Service
  expire_clip now = change written (expire crates now)

  -- `ClipService::on_backend_event` for `Event::Copied`.
  unfoldable pub on_copied : Captured → Service → Service
  on_copied c service =
      send
        (recording (head service.board) c (
          if service.board.settings.files && not c.secret
          then file_paths crates c.selection
          else []))
        service

-- `ClipService::on_backend_event` for `Event::Lost`.
unfoldable pub on_lost : Service → Service
on_lost service = record service { has_backend = false }

-- `ClipService::wanted`
unfoldable pub wanted : Stamp → Service → List FileRef
wanted stamp service = elim (current service.board) [
  | none ↦ []
  | some (held, copy) ↦
      if eq_option (some held) (some stamp) && not (is_some service.board.tree)
      then copy.files
      else []
]

-- `ClipService::referenced`, the hashes as they come.
unfoldable pub referenced : Service → Option Stamp × List Hash
referenced service = elim (current service.board) [
  | none ↦ (none, [])
  | some (stamp, copy) ↦ (some stamp, map (λ file. file.hash) copy.files)
]
