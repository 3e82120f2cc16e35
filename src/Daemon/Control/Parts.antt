-- ===== src/Daemon/Control/Parts.antt =====
-- src/daemon/control/server.rs: what the operations that a request runs leave where they fail.
use yank.Prelude.{
  ℕ, ◌≡◌, refl, ◌∙◌, Bool, true, false, not, Option, none, some, is_some, List, [], ◌∷◌, All,
  if-elim, Result, ok, err, Error, arith,
}
use yank.Prelude.Bytes.{Str}
use yank.Files.Manifest.{FileRef}
use yank.Files.Uri.{FilePath}
use yank.Clip.Time.{SystemTime, Duration}
use yank.Clip.Stamp.{Stamp, eq_option}
use yank.Clip.State.{Clipboard, head, copy as copy_board}
use yank.Clip.State.Effects.{Effect}
use yank.Config.Mesh.{MeshState}
use yank.Net.Pair.{PairTicket}
use yank.Daemon.Store.{MeshStore, commit}
use yank.Daemon.Pairing.{Pairing, host}
use yank.Daemon.Service.{Service, settle, try_change, copy_spooled, send, copying}
use yank.Daemon.Copying.{Outside, spool, then_copy, run_copy, copy_files}
use yank.Files.Crates.{Crates, Hex}
use yank.Files.Spool.{Store}
use yank.Clip.Copy.{Selection, of_files}
use yank.Clip.State.Frame.{copy-refused}
use yank.Daemon.Service.Reading.{Located, look, wait_for, located, to_locate}
use yank.Daemon.Control.{
  Request, status, pair_host, pair_join, remove, copy, paste_as, copy_paths, files, clear,
}

-- The clipboard, what the peers are told and the file are as they were.
pub record SameClip (old new : Service) : Type 0 where
  pub board : new.board ≡ old.board
  pub told : new.head ≡ old.head
  pub disk : new.disk ≡ old.disk

-- While files are waited for, or are taken in to be copied, nothing else changes the clipboard.
abbrev pub IsQuiet : Request → Type 0
IsQuiet status = Unit
IsQuiet (pair_host name online generated now) = Unit
IsQuiet (pair_join ticket name reached reply confirmed) = Unit
IsQuiet (remove peer) = Unit
IsQuiet (copy rep secret ttl) = Unit
IsQuiet (paste_as mime) = Unit
IsQuiet (copy_paths paths ttl outside) =
    (store : Store) (service : Service) → SameClip service (outside.meanwhile (store, service)).1
IsQuiet (files waits) =
    All (λ meanwhile. (service : Service) → SameClip service (meanwhile service)) waits
IsQuiet clear = Unit

pub SameClip-refl : (service : Service) → SameClip service service
SameClip-refl service = record { board = refl; told = refl; disk = refl }

SameClip-trans : (a b c : Service) → SameClip a b → SameClip b c → SameClip a c
SameClip-trans a b c h k = record {
  board = k.board ∙ h.board;
  told = k.told ∙ h.told;
  disk = k.disk ∙ h.disk;
}

-- A change of the board that is refused, and that has left it as it was by then.
pub settle-refused :
    (written : Bool) (service : Service) (r : Clipboard × Result (List Effect))
    → ((e : Error) → r.1 ≡ err e → r.0 ≡ service.board)
    → (e : Error) → (settle written service r).1 ≡ err e
    → SameClip service (settle written service r).0
settle-refused written service (board, err f) keeps e h = record {
  board = keeps f refl;
  told = refl;
  disk = refl;
}
settle-refused written service (board, ok effects) keeps e h = cc

pub commit-refused :
    (written : Bool) (store : MeshStore) (change : Result MeshState) (e : Error)
    → (commit written store change).1 ≡ err e
    → (commit written store change).0 ≡ store
commit-refused written store (err _) e h = refl
commit-refused written store (ok next) e h = ground (arith, h)

look-SameClip :
    (stamp : Stamp) (names : List FileRef) (service : Service)
    → SameClip service (look stamp names service).0
look-SameClip stamp names service =
    if-elim {A = Service × Option (Result Located)} (λ r. SameClip service r.0)
      (not (eq_option (head service.board) (some stamp))) (λ _. SameClip-refl service)
      (λ _.
        if-elim {A = Service × Option (Result Located)} (λ r. SameClip service r.0)
          (is_some service.board.tree) (λ _. SameClip-refl service)
          (λ _. record { board = refl; told = refl; disk = refl }))

after_look :
    (service : Service) (r : Service × Option (Result Located)) (further : Service × Result Located)
    → SameClip service r.0
    → SameClip service further.0
    → SameClip service
        (elim r.1 as (λ _. Service × Result Located) [
          | some result ↦ (r.0, result)
          | none ↦ further
        ]).0
after_look service (s, none) further h k = k
after_look service (s, some result) further h k = h

wait_for-SameClip :
    (stamp : Stamp) (names : List FileRef) (waits : List (Service → Service)) (service : Service)
    → IsQuiet (files waits)
    → SameClip service (wait_for stamp names waits service).0
unfolding wait_for
wait_for-SameClip stamp names [] service quiet = look-SameClip stamp names service
wait_for-SameClip stamp names (meanwhile ∷ waits) service quiet =
    let seen = look stamp names service in
    after_look service seen (wait_for stamp names waits (meanwhile seen.0))
      (look-SameClip stamp names service)
      (SameClip-trans service (meanwhile seen.0) _
        (SameClip-trans service seen.0 (meanwhile seen.0) (look-SameClip stamp names service)
          (quiet.0 seen.0))
        (wait_for-SameClip stamp names waits (meanwhile seen.0) quiet.1))

after_check :
    (waits : List (Service → Service)) (service : Service)
    → IsQuiet (files waits)
    → (r : Result (Stamp × List FileRef))
    → SameClip service
        (elim r as (λ _. Service × Result Located) [
          | err e ↦ (service, err e)
          | ok (stamp, names) ↦ wait_for stamp names waits service
        ]).0
after_check waits service quiet (err e) = SameClip-refl service
after_check waits service quiet (ok (stamp, names)) =
    wait_for-SameClip stamp names waits service quiet

pub located-SameClip :
    (waits : List (Service → Service)) (service : Service)
    → IsQuiet (files waits)
    → SameClip service (located waits service).0
unfolding located
located-SameClip waits service quiet = after_check waits service quiet (to_locate service)

-- A copy that is refused leaves the service as it was told and saved, and the board as it was.
pub change-copy :
    (crates : Crates) (written : Bool) (stamp_now set_now : SystemTime) (selection : Selection)
    (names : List FileRef) (secret : Bool) (ttl : Option Duration) (service : Service) (e : Error)
    → let mutate = copy_board crates stamp_now set_now selection names secret ttl in
      (try_change written mutate service).1 ≡ err e
      → SameClip service (try_change written mutate service).0
unfolding try_change
change-copy crates written stamp_now set_now selection names secret ttl service =
    settle-refused written service
      (copy_board crates stamp_now set_now selection names secret ttl service.board)
      (copy-refused crates stamp_now set_now selection names secret ttl service.board)

then_copy-refused :
    (crates : Crates) (hex : Hex) (outside : Outside)
    (copies : List FileRef → Service → Service × Result (Unit {0})) (service : Service)
    (r : Store × Result (List FileRef))
    → ((names : List FileRef) (e : Error)
        → (copies names service).1 ≡ err e
        → SameClip service (copies names service).0)
    → (e : Error) → (then_copy crates hex outside copies service r).1 ≡ err e
    → SameClip service (then_copy crates hex outside copies service r).0.1
then_copy-refused crates hex outside copies service (store, err f) keeps e h = SameClip-refl service
then_copy-refused crates hex outside copies service (store, ok names) keeps e h = keeps names e h

pub copy_files-refused :
    (crates : Crates) (hex : Hex) (outside : Outside) (written : Bool)
    (stamp_now set_now : SystemTime) (paths : List FilePath) (ttl : Option Duration) (spool : Store)
    (service : Service)
    → IsQuiet (copy_paths paths ttl outside)
    → (e : Error)
    → (copy_files crates hex outside written stamp_now set_now paths ttl (spool, service)).1 ≡ err e
    → SameClip service
        (copy_files crates hex outside written stamp_now set_now paths ttl (spool, service)).0.1
unfolding copy_files run_copy copy_spooled
copy_files-refused crates hex outside written stamp_now set_now paths ttl store service quiet e =
    let queued = outside.meanwhile (store, send (copying paths ttl) service) in
    let same = quiet store (send (copying paths ttl) service) in
    let waited : SameClip service queued.1 = record {
      board = same.board;
      told = same.told;
      disk = same.disk;
    } in
    if-elim {A = (Store × Service) × Result (Unit {0})} (λ r. r.1 ≡ err e → SameClip service r.0.1)
      (not service.board.settings.files) (λ _ h. SameClip-refl service)
      (λ _.
        if-elim {A = (Store × Service) × Result (Unit {0})}
          (λ r. r.1 ≡ err e → SameClip service r.0.1) outside.gone (λ _ h. waited)
          (λ _ h. SameClip-trans service queued.1 _ waited (
            then_copy-refused crates hex outside
              (λ names. copy_spooled crates written stamp_now set_now paths names ttl) queued.1
              (spool crates hex outside queued.1.board.settings.max_file_size paths queued.0)
              (λ names.
                change-copy crates written stamp_now set_now (of_files crates paths) names false ttl
                  queued.1)
              e h)))

pub store-host :
    (online : Bool) (ticket : PairTicket) (name : Str) (now : ℕ) (pairing : Pairing)
    → (host online ticket name now pairing).0.store ≡ pairing.store
unfolding host
store-host true ticket name now pairing = refl
store-host false ticket name now pairing = refl
