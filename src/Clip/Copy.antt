-- ===== src/Clip/Copy.antt =====
-- src/clip/copy.rs: what the clipboard holds, as machines exchange it. `Copied` is the source's
-- `Copy`. A `Payload` is its bytes: the sharing and the wiping of src/clip/payload.rs leave no trace.
pub mod Check
use yank.Prelude.{
  ℕ, ◌+◌, Bool, true, false, not, ◌&&◌, ◌||◌, Option, none, some, List, [], ◌∷◌, ◌++◌, map, leb,
  ◌==◌, all, find, length, sum_of, if◌then◌else◌, Result, ensure, ◌>>=◌, ◌>>◌, copy_too_large,
  unusable_types, too_many_files, secret_names_files,
}
use yank.Prelude.Bytes.{Bytes, Str, len, eq_ignore_ascii_case}
use yank.Files.Crates.{Crates}
use yank.Files.Manifest.{FileRef, max_files, validate}
use yank.Files.Uri.{FilePath, as_text}
use yank.Files.Uri
use yank.Clip.Stamp.{Stamp}
use yank.Clip.Settings.{max_size}
use yank.Clip.Mime.{plain_text, max_reps}
use yank.Clip.Mime

pub record Rep : Type 0 where
  pub mime : Str
  pub bytes : Bytes

pub record Selection : Type 0 where
  pub primary : Rep
  pub alternates : List Rep

pub record Copied : Type 0 where
  pub selection : Selection
  pub secret : Bool
  pub ttl : Option ℕ
  pub files : List FileRef

pub record Clip : Type 0 where
  pub stamp : Stamp
  pub copy : Option Copied

-- `FILE_OVERHEAD`
abbrev pub file_overhead : ℕ
file_overhead = 48

-- `MAX_MIME_LEN`
abbrev pub max_mime_len : ℕ
max_mime_len = 255

-- `Selection::new`
unfoldable pub new_selection : List Rep → Option Selection
new_selection [] = none
new_selection (rep ∷ reps) = some (record { primary = rep; alternates = reps })

-- `Selection::of`
unfoldable pub selection_of : Rep → Selection
selection_of rep = record { primary = rep; alternates = [] }

-- `Selection::of_files`
unfoldable pub of_files : Crates → List FilePath → Selection
of_files crates paths = record {
  primary = record { mime = plain_text; bytes = as_text paths };
  alternates =
      record { mime = Mime.uri_list; bytes = Uri.uri_list crates paths }
      ∷ record { mime = Mime.gnome_copied_files; bytes = Uri.gnome_copied_files crates paths }
      ∷ [];
}

-- `Selection::reps`
abbrev pub reps : Selection → List Rep
reps selection = selection.primary ∷ selection.alternates

-- `Selection::size`
unfoldable pub selection_size : Selection → ℕ
selection_size selection = sum_of (λ rep. length rep.bytes) (reps selection)

-- `Selection::rep`
unfoldable pub rep_of : Selection → Str → Option Rep
rep_of selection mime = find (λ rep. eq_ignore_ascii_case rep.mime mime) (reps selection)

-- `Selection::file_paths`
unfoldable pub file_paths : Crates → Selection → List FilePath
unfolding rep_of
file_paths crates selection = elim (rep_of selection Mime.uri_list) [
  | none ↦ []
  | some rep ↦ Uri.paths crates rep.bytes
]

-- `Copy::is_files`
unfoldable pub is_files : Copied → Bool
is_files copy = elim copy.files [ [] ↦ false | file ∷ files ↦ true ]

-- `Copy::size`
unfoldable pub size : Copied → ℕ
unfolding selection_size
size copy =
    selection_size copy.selection + sum_of (λ file. len file.path + file_overhead) copy.files

-- `char::is_ascii_graphic`, or a space.
abbrev pub is_mime_char : ℕ → Bool
is_mime_char c = leb b'!' c && leb c b'~' || c == b' '

unfoldable pub is_usable : Rep → Bool
is_usable rep =
    not (len rep.mime == 0) && leb (len rep.mime) max_mime_len && all is_mime_char rep.mime

-- `Copy::check`
unfoldable pub check : Copied → Result (Unit {0})
unfolding size is_usable is_files
check copy = do
  ensure (leb (size copy) max_size) copy_too_large
  ensure (leb (length (reps copy.selection)) max_reps && all is_usable (reps copy.selection))
      unusable_types
  ensure (leb (length copy.files) max_files) too_many_files
  ensure (not (copy.secret && is_files copy)) secret_names_files
  validate copy.files
