-- ===== src/Daemon/Service/Events.antt =====
-- src/daemon/clip.rs: the calls that reach the service, as one step.
use yank.Prelude.{Bool, ◌&&◌, Option, List, [], ◌∷◌}
use yank.Files.Crates.{Crates}
use yank.Files.Manifest.{FileRef}
use yank.Files.Uri.{FilePath}
use yank.Clip.Time.{SystemTime, Duration}
use yank.Clip.Stamp.{Stamp}
use yank.Clip.Copy.{Clip, Rep}
use yank.Clip.State.Effects.{Captured}
use yank.Daemon.Service.{
  Service, accept_clip, copy_rep, copy_spooled, record_captured, record_tree, clear_clip,
  expire_clip, on_copied, on_lost,
}

-- The entry points of the service, and its loop.
pub data Event : Type 0 where
  accept_event : (wall_now set_now lapse_now : SystemTime) → Clip → Event
  copy_event : (stamp_now set_now : SystemTime) → Rep → Bool → Option Duration → Event
  spooled_event :
      (stamp_now set_now : SystemTime) → List FilePath → List FileRef → Option Duration → Event
  record_event :
      (stamp_now set_now : SystemTime)
      → (base recorded : Option Stamp) → Captured
      → List FileRef
      → Event
  tree_event : Stamp → FilePath → Event
  clear_event : (stamp_now set_now : SystemTime) → Event
  expire_event : SystemTime → Event
  copied_event : Captured → Event
  lost_event : Event

unfoldable pub handle : Crates → Bool → Event → Service → Service
unfolding accept_clip copy_rep
handle crates written (accept_event wall_now set_now lapse_now clip) service =
    (accept_clip crates written wall_now set_now lapse_now clip service).0
handle crates written (copy_event stamp_now set_now rep secret ttl) service =
    (copy_rep crates written stamp_now set_now rep secret ttl service).0
handle crates written (spooled_event stamp_now set_now paths files ttl) service =
    (copy_spooled crates written stamp_now set_now paths files ttl service).0
handle crates written (record_event stamp_now set_now base recorded c files) service =
    (record_captured crates written stamp_now set_now base recorded c files service).0
handle crates written (tree_event stamp tree) service =
    record_tree crates written stamp tree service
handle crates written (clear_event stamp_now set_now) service =
    clear_clip crates written stamp_now set_now service
handle crates written (expire_event now) service = expire_clip crates written now service
handle crates written (copied_event c) service = on_copied crates written c service
handle crates written lost_event service = on_lost service

-- A history, each call with whether the write that it leads to succeeds.
unfoldable pub handle_all : Crates → List (Bool × Event) → Service → Service
handle_all crates [] service = service
handle_all crates ((written, event) ∷ events) service =
    handle_all crates events (handle crates written event service)

-- Whether every write succeeded.
abbrev pub all_written : Bool → List (Bool × Event) → Bool
all_written wrote [] = wrote
all_written wrote ((written, event) ∷ events) = all_written (wrote && written) events
