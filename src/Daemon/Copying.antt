-- ===== src/Daemon/Copying.antt =====
-- src/daemon/files.rs and src/daemon/clip.rs: files that the command line copies, which the file service
-- takes into the spool before the clipboard names them. What `WalkDir` lists and what a file holds are
-- parameters, as is the name that `take` draws for it.
use yank.Prelude.{
  ℕ, Bool, true, false, not, Option, List, [], ◌∷◌, if◌then◌else◌, Result, ok, err, ensure,
  no_files, sharing_off, service_gone,
}
use yank.Prelude.Mutations.{Mutation, lift, ◌>>=◌, ◌>>◌}
use yank.Prelude.Bytes.{Str, Bytes}
use yank.Files.Crates.{Crates, Hex}
use yank.Files.Manifest.{FileRef, max_files}
use yank.Files.Uri.{FilePath}
use yank.Files.Spool.{Store, take}
use yank.Files.Walk.{Source, DirEntry, walk}
use yank.Clip.Time.{SystemTime, Duration}
use yank.Daemon.Service.{Service, send, copying, copy_spooled}

-- What is on the disk, and what the file service and others do while a copy of files waits: `meanwhile` is
-- all that happens to the spool and the clipboard before its job is run, which is not at all where the
-- file service is gone.
pub record Outside : Type 0 where
  pub listing : FilePath → List (Option DirEntry)
  pub content : FilePath → Option Bytes
  pub drawn : FilePath → Str
  pub meanwhile : Store × Service → Store × Service
  pub gone : Bool

abbrev is_none {ℓ} : {A : Type ℓ} → List A → Bool
is_none [] = true
is_none (x ∷ xs) = false

module _ (crates : Crates) (hex : Hex) (outside : Outside) where
  -- The loop of `spool`.
  unfoldable pub take_all : List Source → Mutation Store (List FileRef)
  take_all [] = lift (ok [])
  take_all (source ∷ sources) = do
    taken ← take hex crates (outside.drawn source.from) (outside.content source.from)
    files ← take_all sources
    lift (ok (record { path = source.path; size = taken.1; hash = taken.0 } ∷ files))

  -- `spool`: what was taken in before an error stays.
  unfoldable pub spool : (max_file_size : ℕ) → List FilePath → Mutation Store (List FileRef)
  unfolding take_all
  spool max_file_size paths = do
    sources ← lift (walk outside.listing paths max_files max_file_size)
    lift (ensure (not (is_none sources)) no_files)
    take_all sources

  abbrev pub then_copy :
      (List FileRef → Service → Service × Result (Unit {0}))
      → Service
      → Store × Result (List FileRef)
      → (Store × Service) × Result (Unit {0})
  then_copy copies service (store, err e) = ((store, service), err e)
  then_copy copies service (store, ok files) =
      let (service', outcome) = copies files service in ((store, service'), outcome)

  -- `Job::Copy`, of the loop of `run`.
  unfoldable pub run_copy :
      (written : Bool) (stamp_now set_now : SystemTime)
      → List FilePath
      → Option Duration
      → Mutation (Store × Service) (Unit {0})
  run_copy written stamp_now set_now paths ttl (store, service) =
      then_copy (λ files. copy_spooled crates written stamp_now set_now paths files ttl) service
        (spool service.board.settings.max_file_size paths store)

  -- `ClipService::copy_files`, with the job that it waits for.
  unfoldable pub copy_files :
      (written : Bool) (stamp_now set_now : SystemTime)
      → List FilePath
      → Option Duration
      → Mutation (Store × Service) (Unit {0})
  unfolding run_copy
  copy_files written stamp_now set_now paths ttl (store, service) =
      if not service.board.settings.files
      then ((store, service), err sharing_off)
      else (let queued = outside.meanwhile (store, send (copying paths ttl) service) in
          if outside.gone
          then (queued, err service_gone)
          else run_copy written stamp_now set_now paths ttl queued)
