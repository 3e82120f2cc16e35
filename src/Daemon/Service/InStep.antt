-- ===== src/Daemon/Service/InStep.antt =====
-- src/daemon/clip.rs: what the peers are told and what the disk holds follow the clipboard.
use yank.Prelude.{
  ℕ, ◌≡◌, refl, sym, ap, subst, ◌∙◌, Bool, true, false, not, ◌&&◌, Option, some, List, [], ◌∷◌,
  if◌then◌else◌, if-elim, arith, Result, ok, err,
}
use yank.Prelude.Mutations.{accepted}
use yank.Files.Crates.{Crates}
use yank.Files.Manifest.{FileRef}
use yank.Clip.Time.{SystemTime}
use yank.Clip.Stamp.{Stamp, eq_option}
use yank.Clip.Copy.{Clip, Copied, selection_of, of_files}
use yank.Clip.State.{
  Clipboard, head, head_of, current, saved, copy, accept, captured, clear, expire, materialized,
  new,
}
use yank.Clip.State.Effects.{Effect, Captured, save, backend, fetch}
use yank.Clip.State.Calls.{
  Call, asked, step, copies, captures, accepts, clears, expires, materializes,
}
use yank.Clip.State.Changes.{saves}
use yank.Clip.State.Secrets.{restart_lem}
use yank.Clip.Settings.{Settings}
use yank.Clip.State.Invariant.{IsSound, step-IsSound, unsaved-step}
use yank.Daemon.Service.Events.{
  Event, accept_event, copy_event, spooled_event, record_event, tree_event, clear_event,
  expire_event, copied_event, lost_event, handle, handle_all, all_written,
}
use yank.Daemon.Service.{
  Service, open_service, perform, perform_all, finish, settle, try_change, change, accept_clip,
  copy_rep, copy_spooled, record_captured, record_tree, clear_clip, expire_clip, on_copied, on_lost,
}

-- The copy held is sound, the peers are told its stamp, and, where no write has failed, the disk holds
-- what the clipboard would save.
pub record InStep (crates : Crates) (wrote : Bool) (service : Service) : Type 0 where
  pub sound : IsSound crates service.board
  pub published : service.head ≡ head service.board
  pub on_disk : wrote ≡ true → service.disk ≡ saved service.board

pub board-perform_all :
    (written : Bool) (effects : List Effect) (service : Service)
    → (perform_all written effects service).board ≡ service.board
unfolding perform_all perform
board-perform_all written [] service = refl
board-perform_all written (save ∷ effects) service = board-perform_all written effects _
board-perform_all written (backend c ∷ effects) service = board-perform_all written effects _
board-perform_all written (fetch s ∷ effects) service = board-perform_all written effects _

disk-perform_all :
    (effects : List Effect) (service : Service)
    → (perform_all true effects service).disk
      ≡ (if saves effects then saved service.board else service.disk)
unfolding perform_all perform
disk-perform_all [] service = refl
disk-perform_all (save ∷ effects) service = disk-perform_all effects _ ∙ ground arith
disk-perform_all (backend c ∷ effects) service = disk-perform_all effects _
disk-perform_all (fetch s ∷ effects) service = disk-perform_all effects _

saved-clip : (a b : Clipboard) → a.clip ≡ b.clip → saved a ≡ saved b
unfolding saved
saved-clip a b e = ap (λ c. saved (record a { clip = c })) e

disk-kept :
    (written : Bool) (board : Clipboard) (effects : List Effect) (service : Service)
    → written ≡ true
    → (saves effects ≡ false → board.clip ≡ service.board.clip)
    → service.disk ≡ saved service.board
    → (perform_all written effects (record service { board = board })).disk ≡ saved board
disk-kept false board effects service w quiet held = cc
disk-kept true board effects service w quiet held =
    disk-perform_all effects (record service { board = board })
    ∙ if-elim (λ disk. disk ≡ saved board) (saves effects) (λ _. refl)
        (λ q. held ∙ sym (saved-clip board service.board (quiet q)))

-- What a change may do: keep the copy sound, and change the clip only where it asks for a save.
record IsFair (crates : Crates) (board : Clipboard) (change : Clipboard × List Effect)
    : Type 0 where
  sound : IsSound crates change.0
  quiet : saves change.1 ≡ false → change.0.clip ≡ board.clip

finish-InStep :
    (crates : Crates) (wrote written : Bool) (c : Clipboard × List Effect) (service : Service)
    → InStep crates wrote service
    → IsFair crates service.board c
    → InStep crates (wrote && written) (finish written c service)
unfolding finish
finish-InStep crates wrote written (board, []) service h fair = record {
  sound = fair.sound;
  published = h.published ∙ ap head_of (sym (fair.quiet refl));
  on_disk =
      λ w. h.on_disk (ground (arith, w)) ∙ sym (saved-clip board service.board (fair.quiet refl));
}
finish-InStep crates wrote written (board, effect ∷ effects) service h fair =
    let same = board-perform_all written (effect ∷ effects) (record service { board = board }) in
    record {
      sound = subst (λ b. IsSound crates b) (sym same) fair.sound;
      published = ap head (sym same);
      on_disk = λ w.
          disk-kept written board (effect ∷ effects) service (ground (arith, w)) fair.quiet
            (h.on_disk (ground (arith, w)))
          ∙ ap saved (sym same);
    }

settle-InStep :
    (crates : Crates) (wrote written : Bool) (service : Service)
    (r : Clipboard × Result (List Effect))
    → InStep crates wrote service
    → IsFair crates service.board (asked r)
    → InStep crates (wrote && written) (settle written service r).0
unfolding finish
settle-InStep crates wrote written service (board, err e) h fair =
    finish-InStep crates wrote written (board, []) service h fair
settle-InStep crates wrote written service (board, ok effects) h fair =
    finish-InStep crates wrote written (board, effects) service h fair

step-IsFair :
    (crates : Crates) (call : Call) (board : Clipboard)
    → IsSound crates board
    → IsFair crates board (step crates call board)
step-IsFair crates call board h = record {
  sound = step-IsSound crates call board h;
  quiet = unsaved-step crates call board h;
}

module _ (crates : Crates) (wrote written : Bool) where
  unchanged-IsFair : (board : Clipboard) → IsSound crates board → IsFair crates board (board, [])
  unchanged-IsFair board h = record { sound = h; quiet = λ _. refl }

  record_captured-InStep :
      (stamp_now set_now : SystemTime) (base recorded : Option Stamp) (c : Captured)
      (files : List FileRef) (service : Service)
      → InStep crates wrote service
      → InStep crates
          (wrote && written)
          (record_captured crates written stamp_now set_now base recorded c files service).0
  unfolding record_captured change try_change step
  record_captured-InStep stamp_now set_now base recorded c files service h =
      if-elim {A = Service × Option Stamp} (λ r. InStep crates (wrote && written) r.0)
        (not (eq_option (head service.board) base) && not (eq_option (head service.board) recorded))
        (λ _.
          settle-InStep crates wrote written service (service.board, ok []) h
            (unchanged-IsFair service.board h.sound))
        (λ _.
          settle-InStep crates wrote written service
            (accepted (captured crates stamp_now set_now c files service.board)) h
            (step-IsFair crates (captures stamp_now set_now c files) service.board h.sound))

  -- Whatever happens, and whether or not the write that it leads to succeeds, the service stays in step.
  pub handle-InStep :
      (event : Event) (service : Service)
      → InStep crates wrote service
      → InStep crates (wrote && written) (handle crates written event service)
  unfolding handle change try_change step accept_clip copy_rep copy_spooled record_tree clear_clip
      expire_clip on_copied on_lost
  handle-InStep (accept_event wall_now set_now lapse_now clip) service h =
      settle-InStep crates wrote written service
        (accept crates wall_now set_now lapse_now clip service.board) h
        (step-IsFair crates (accepts wall_now set_now lapse_now clip) service.board h.sound)
  handle-InStep (copy_event stamp_now set_now rep secret ttl) service h =
      settle-InStep crates wrote written service
        (copy crates stamp_now set_now (selection_of rep) [] secret ttl service.board) h
        (step-IsFair crates (copies stamp_now set_now (selection_of rep) [] secret ttl)
          service.board h.sound)
  handle-InStep (spooled_event stamp_now set_now paths files ttl) service h =
      settle-InStep crates wrote written service
        (copy crates stamp_now set_now (of_files crates paths) files false ttl service.board) h
        (step-IsFair crates (copies stamp_now set_now (of_files crates paths) files false ttl)
          service.board h.sound)
  handle-InStep (record_event stamp_now set_now base recorded c files) service h =
      record_captured-InStep stamp_now set_now base recorded c files service h
  handle-InStep (tree_event stamp tree) service h =
      settle-InStep crates wrote written service
        (accepted (materialized crates stamp tree service.board)) h
        (step-IsFair crates (materializes stamp tree) service.board h.sound)
  handle-InStep (clear_event stamp_now set_now) service h =
      settle-InStep crates wrote written service
        (accepted (clear crates stamp_now set_now service.board)) h
        (step-IsFair crates (clears stamp_now set_now) service.board h.sound)
  handle-InStep (expire_event now) service h =
      settle-InStep crates wrote written service (accepted (expire crates now service.board)) h
        (step-IsFair crates (expires now) service.board h.sound)
  handle-InStep (copied_event c) service h = record {
    sound = h.sound;
    published = h.published;
    on_disk = λ w. h.on_disk (ground (arith, w));
  }
  handle-InStep lost_event service h = record {
    sound = h.sound;
    published = h.published;
    on_disk = λ w. h.on_disk (ground (arith, w));
  }

-- So it is in step after any history: the peers are told the stamp of the clip, and where every write
-- succeeded the disk holds what the clipboard would save.
pub handle_all-InStep :
    (crates : Crates) (wrote : Bool) (events : List (Bool × Event)) (service : Service)
    → InStep crates wrote service
    → InStep crates (all_written wrote events) (handle_all crates events service)
unfolding handle_all
handle_all-InStep crates wrote [] service h = h
handle_all-InStep crates wrote ((written, event) ∷ events) service h =
    handle_all-InStep crates (wrote && written) events (handle crates written event service)
      (handle-InStep crates wrote written event service h)

-- A daemon that is started again from the disk, after any history of a daemon in step whose writes all
-- succeeded, tells the peers the stamp that it told them last; and a copy that it holds is the one that
-- was held last, and no secret.
pub reopen_lem :
    (crates : Crates) (events : List (Bool × Event)) (service : Service) (written : Bool)
    (identity : ℕ) (settings : Settings) (set_now lapse_now : SystemTime)
    → InStep crates true service
    → all_written true events ≡ true
    → let after = handle_all crates events service in
      let again = open_service crates written after.disk identity settings set_now lapse_now in
      (again.head ≡ after.head)
      × ((s : Stamp) (c : Copied)
          → current again.board ≡ some (s, c)
          → (current after.board ≡ some (s, c)) × (c.secret ≡ false))
unfolding open_service change try_change finish perform_all perform
reopen_lem crates events service written identity settings set_now lapse_now h w =
    let last = handle_all-InStep crates true events service h in
    let after = handle_all crates events service in
    let restarted = restart_lem crates after.board identity settings set_now lapse_now in
    let from_disk = λ (disk : Option Clip). new crates identity settings disk set_now lapse_now in
    (
      ap (λ disk. head (from_disk disk)) (last.on_disk w) ∙ restarted.0 ∙ sym last.published,
      λ s c e. restarted.1 s c (ap (λ disk. current (from_disk disk)) (sym (last.on_disk w)) ∙ e),
    )
