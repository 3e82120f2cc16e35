-- ===== src/Tests/Files.antt =====
-- Manifests, uri lists and the checks of a copy, at concrete inputs.
use yank.Prelude.{
  ◌≡◌, ◌≢◌, refl, true, false, none, some, List, [], ◌∷◌, ◌++◌, All, arith, ok, err, same_path, all,
}
use yank.Prelude.Bytes.{Str, codes, eq_list, compare_list, strip_prefix}
use yank.Files.Manifest.{
  FileRef, split, is_plain, is_safe, insert_sorted, sort, is_under, no_neighbours_clash, paths_of,
  validate,
}
use yank.Files.Manifest.Safety.{resolve, reverse_onto, is_safe-resolve}
use yank.Files.Manifest.Sorted.{Distinct}
use yank.Files.Manifest.Paths.{validate-Distinct}
use yank.Files.Spool.{lay_out}
use yank.Files.Spool.Stuck.{lay_out-validate}
use yank.Tests.HexDigits.{hex}
use yank.Tests.Data.{stamp_of}
use yank.Tests.Spool.{show, spool}
use yank.Files.Uri.{FilePath, is_absolute, paths, uri_list}
use yank.Files.Uri.RoundTrip.{IsFilePath, paths-uri_list}
use yank.Clip.Copy.{Copied, check, size, selection_size, is_usable, is_files, selection_of}
use yank.Clip.Mime.{plain_text}
use yank.Tests.Percent.{codec, codec-IsUriCodec}

abbrev file : Str → FileRef
file path = record { path = path; size = 3; hash = record { bytes = [] } }

abbrev album : List FileRef
album = file (codes "photos/b.png") ∷ file (codes "photos/a.png") ∷ file (codes "notes") ∷ []

album-ok : validate album ≡ ok tt
unfolding validate is_safe split is_plain eq_list sort insert_sorted compare_list
    no_neighbours_clash is_under strip_prefix
album-ok = refl

twice_refused : validate (file (codes "a") ∷ file (codes "a/b") ∷ []) ≡ err same_path
unfolding validate is_safe split is_plain eq_list sort insert_sorted compare_list
    no_neighbours_clash is_under strip_prefix
twice_refused = refl

path-safe : is_safe (file (codes "photos/a.png")) ≡ true
unfolding is_safe split is_plain eq_list
path-safe = refl

is_safe-resolve_example :
    (is_absolute (codes "photos/a.png") ≡ false)
    × (resolve [] (split b'/' (codes "photos/a.png"))
        ≡ some (reverse_onto [] (split b'/' (codes "photos/a.png"))))
is_safe-resolve_example = is_safe-resolve (file (codes "photos/a.png")) path-safe

validate-Distinct_example : (all is_safe album ≡ true) × Distinct (paths_of album)
validate-Distinct_example = validate-Distinct album album-ok

one_safe : is_safe (file (codes "a")) ≡ true
unfolding is_safe split is_plain eq_list
one_safe = refl

between_safe : is_safe (file (codes "a.txt")) ≡ true
unfolding is_safe split is_plain eq_list
between_safe = refl

under_safe : is_safe (file (codes "a/b")) ≡ true
unfolding is_safe split is_plain eq_list
under_safe = refl

lay_out-validate_example :
    (validate (file (codes "a") ∷ file (codes "a.txt") ∷ file (codes "a/b") ∷ []) ≡ ok tt)
    × ((lay_out hex show
          (stamp_of 3 1)
          (file (codes "a") ∷ file (codes "a.txt") ∷ file (codes "a/b") ∷ [])
          spool).1
        ≢ ok tt)
lay_out-validate_example =
    lay_out-validate hex show (stamp_of 3 1) spool (file (codes "a")) (file (codes "a.txt"))
      (file (codes "a/b")) (codes "txt") (codes "b") b'.' (omega arith) one_safe between_safe
      under_safe refl refl

abbrev local_files : List FilePath
local_files = codes "/tmp/a b" ∷ (codes "/tmp/" ++ 255 ∷ 10 ∷ 37 ∷ []) ∷ []

local_files-IsFilePath : All IsFilePath local_files
local_files-IsFilePath = ground arith

paths-uri_list_example : paths codec (uri_list codec local_files) ≡ local_files
paths-uri_list_example = paths-uri_list codec codec-IsUriCodec local_files local_files-IsFilePath

abbrev shared_album : Copied
shared_album = record {
  selection = selection_of (record { mime = plain_text; bytes = codes "photos" });
  secret = false;
  ttl = none;
  files = album;
}

shared_album-ok : check shared_album ≡ ok tt
unfolding check size selection_size is_usable is_files selection_of validate is_safe split is_plain
    eq_list sort insert_sorted compare_list no_neighbours_clash is_under strip_prefix
shared_album-ok = refl
