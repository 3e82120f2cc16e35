-- ===== src/Daemon/Service/Reading.antt =====
-- src/daemon/clip.rs: what is read of the clipboard for the command line.
use yank.Prelude.{
  not, Option, none, some, is_some, List, [], ◌∷◌, map, if◌then◌else◌, Result, ok, err, ensure,
  ◌>>=◌, ◌>>◌, empty_clipboard, no_such_type, no_files_named, files_are_here, clip_changed,
}
use yank.Prelude.Bytes.{Str, Bytes, eq_ignore_ascii_case}
use yank.Files.Manifest.{FileRef}
use yank.Files.Uri.{FilePath}
use yank.Clip.Stamp.{Stamp, eq_option}
use yank.Clip.Copy.{Rep, Selection, reps, is_files}
use yank.Clip.State.{head, current, is_ours}
use yank.Daemon.Service.{Service, send, fetching}

abbrev pub of_option {ℓ} : {A : Type ℓ} → Option A → Result A → Result A
of_option none otherwise = otherwise
of_option (some a) otherwise = ok a

-- The first of a type, with the types of all others: which ones they are is decided by where they sit.
unfoldable pub pick : Str → List Rep → Option (Rep × List Str)
pick mime [] = none
pick mime (rep ∷ rest) =
    let further = pick mime rest in
    if eq_ignore_ascii_case rep.mime mime
    then some (rep, map (λ other. other.mime) rest)
    else elim further [ none ↦ none | some (found, others) ↦ some (found, rep.mime ∷ others) ]

abbrev pub picked : Option Str → Selection → Result (Rep × List Str)
picked none selection = ok (selection.primary, map (λ other. other.mime) selection.alternates)
picked (some mime) selection = of_option (pick mime (reps selection)) (err no_such_type)

-- `ClipService::paste`
unfoldable pub paste : Option Str → Service → Result (Str × List Str × Bytes)
unfolding pick
paste mime service = do
  held ← of_option (current service.board) (err empty_clipboard)
  rep ← picked mime held.1.selection
  ok (rep.0.mime, rep.1, rep.0.bytes)

-- `Located`
pub record Located : Type 0 where
  pub files : List FileRef
  pub tree : Option FilePath

-- What `ClipService::located` checks at first.
unfoldable pub to_locate : Service → Result (Stamp × List FileRef)
to_locate service = do
  held ← of_option (current service.board) (err empty_clipboard)
  ensure (is_files held.1) no_files_named
  ensure (not (is_ours service.board)) files_are_here
  ok (held.0, held.1.files)

-- One look of the loop of `ClipService::located`: none where the files are asked for and waited for.
abbrev pub look : Stamp → List FileRef → Service → Service × Option (Result Located)
look stamp files service =
    if not (eq_option (head service.board) (some stamp))
    then (service, some (err clip_changed))
    else if is_some service.board.tree
    then (service, some (ok (record { files = files; tree = service.board.tree })))
    else (send (fetching stamp) service, none)

-- The loop, with what else happens during each wait; it is out of time when the list is.
unfoldable pub wait_for :
    Stamp → List FileRef → List (Service → Service) → Service → Service × Result Located
wait_for stamp files [] service =
    let (service', outcome) = look stamp files service in
    (
      service',
      elim outcome [ some result ↦ result | none ↦ ok (record { files = files; tree = none }) ],
    )
wait_for stamp files (meanwhile ∷ waits) service =
    let (service', outcome) = look stamp files service in
    let further = wait_for stamp files waits (meanwhile service') in
    elim outcome [ some result ↦ (service', result) | none ↦ further ]

-- `ClipService::located`
unfoldable pub located : List (Service → Service) → Service → Service × Result Located
unfolding to_locate wait_for
located waits service = elim (to_locate service) [
  | err e ↦ (service, err e)
  | ok (stamp, files) ↦ wait_for stamp files waits service
]
