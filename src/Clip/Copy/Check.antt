-- ===== src/Clip/Copy/Check.antt =====
-- src/clip/copy.rs: what `Copy::check` promises of a copy that a peer sent, and the files of a
-- selection that this machine made.
use yank.Prelude.{
  ◌≤◌, ◌≡◌, true, false, not, ◌&&◌, ok, ensure, >>-eq-ok, ensure-eq-ok, all, length, leb, leb→le,
  &&-elim, not-eq_true, List, All, copy_too_large, unusable_types, too_many_files,
  secret_names_files,
}
use yank.Prelude.Bytes.{eq_ignore_ascii_case}
use yank.Files.Crates.{Crates, IsUriCodec}
use yank.Files.Manifest.{is_safe, max_files, paths_of, validate}
use yank.Files.Manifest.Sorted.{Distinct}
use yank.Files.Manifest.Paths.{validate-Distinct}
use yank.Files.Uri.{FilePath}
use yank.Files.Uri.RoundTrip.{IsFilePath, paths-uri_list}
use yank.Clip.Settings.{max_size}
use yank.Clip.Mime.{max_reps}
use yank.Clip.Copy.{Copied, size, reps, is_usable, is_files, check, of_files, file_paths, rep_of}

-- The checks that a copy has passed, one by one.
pub record Checked (copy : Copied) : Type 0 where
  pub within_size : size copy ≤ max_size
  pub few_reps : length (reps copy.selection) ≤ max_reps
  pub usable : all is_usable (reps copy.selection) ≡ true
  pub few_files : length copy.files ≤ max_files
  pub no_secret_files : (copy.secret && is_files copy) ≡ false
  pub safe : all is_safe copy.files ≡ true
  pub distinct : Distinct (paths_of copy.files)

-- A copy that passes is within its bounds, has types that can be announced, is no secret with files,
-- and lays every file inside its tree and no two at one path.
pub check-Checked : (copy : Copied) → check copy ≡ ok tt → Checked copy
unfolding check
check-Checked copy h =
    let fits = leb (size copy) max_size in
    let types =
      leb (length (reps copy.selection)) max_reps && all is_usable (reps copy.selection) in
    let few = leb (length copy.files) max_files in
    let open_ = not (copy.secret && is_files copy) in
    let (a, h1) = >>-eq-ok (ensure fits copy_too_large) _ h in
    let (b, h2) = >>-eq-ok (ensure types unusable_types) _ h1 in
    let (c, h3) = >>-eq-ok (ensure few too_many_files) _ h2 in
    let (d, e) = >>-eq-ok (ensure open_ secret_names_files) (validate copy.files) h3 in
    let (count, usable) = &&-elim _ _ (ensure-eq-ok types unusable_types b) in
    let (safe, distinct) = validate-Distinct copy.files e in
    record {
      within_size = leb→le _ _ (ensure-eq-ok fits copy_too_large a);
      few_reps = leb→le _ _ count;
      usable = usable;
      few_files = leb→le _ _ (ensure-eq-ok few too_many_files c);
      no_secret_files = not-eq_true _ (ensure-eq-ok open_ secret_names_files d);
      safe = safe;
      distinct = distinct;
    }

-- The files of a selection made of them are those.
pub file_paths-of_files :
    (crates : Crates) (files : List FilePath)
    → IsUriCodec crates
    → All IsFilePath files
    → file_paths crates (of_files crates files) ≡ files
unfolding file_paths of_files rep_of eq_ignore_ascii_case
file_paths-of_files crates files codec h = paths-uri_list crates codec files h
