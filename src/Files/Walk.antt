-- ===== src/Files/Walk.antt =====
-- src/files/store.rs: `walk`, which expands the paths of a selection into the files under them. What
-- `WalkDir` lists under a root is a parameter, entry by entry; an entry that cannot be read is none.
pub mod Found
use yank.Prelude.{
  ℕ, ◌+◌, ◌^◌, Bool, true, false, Option, none, some, List, [], ◌∷◌, ◌++◌, map, ltb, leb, length,
  if◌then◌else◌, Ordering, Result, ok, err, ensure, ◌>>=◌, ◌>>◌, cannot_read, bad_file_name,
  sources_too_large, too_many_sources, same_name,
}
use yank.Prelude.Bytes.{Str, compare_list, eq_list}
use yank.Files.Uri.{FilePath}
use yank.Files.Manifest.Sorted.{no_equal_neighbours}

-- `Source`
pub record Source : Type 0 where
  pub from : FilePath
  pub path : Str

pub data FileType : Type 0 where
  file dir other : FileType

-- `walkdir::DirEntry`: `name` is the path from the root's parent on, where it is text, and `size` what
-- its metadata says, where that can be read.
pub record DirEntry : Type 0 where
  pub file_type : FileType
  pub path : FilePath
  pub name : Option Str
  pub size : Option ℕ

abbrev pub of_option {ℓ} : {A : Type ℓ} → Option A → Result A → Result A
of_option none otherwise = otherwise
of_option (some a) otherwise = ok a

abbrev pub is_file : FileType → Bool
is_file file = true
is_file dir = false
is_file other = false

module _ (max_files max_bytes : ℕ) where
  -- A plain file, at the end of what was found.
  unfoldable pub add_file : DirEntry → List Source × ℕ → Result (List Source × ℕ)
  add_file entry (found, total) = do
    path ← of_option entry.name (err bad_file_name)
    size ← of_option entry.size (err cannot_read)
    ensure (ltb (total + size) (2 ^ 64)) sources_too_large
    ensure (ltb (length found) max_files) too_many_sources
    ensure (leb (total + size) max_bytes) sources_too_large
    ok (found ++ record { from = entry.path; path = path } ∷ [], total + size)

  -- One round of the inner loop.
  unfoldable pub visit : Option DirEntry → List Source × ℕ → Result (List Source × ℕ)
  unfolding add_file
  visit none found = err cannot_read
  visit (some entry) found = if is_file entry.file_type then add_file entry found else ok found

  unfoldable pub visit_all : List (Option DirEntry) → List Source × ℕ → Result (List Source × ℕ)
  visit_all [] found = ok found
  visit_all (entry ∷ entries) found = do found' ← visit entry found; visit_all entries found'

  -- The outer loop.
  unfoldable pub visit_roots :
      (FilePath → List (Option DirEntry))
      → List FilePath
      → List Source × ℕ
      → Result (List Source × ℕ)
  visit_roots listing [] found = ok found
  visit_roots listing (root ∷ roots) found = do
    found' ← visit_all (listing root) found
    visit_roots listing roots found'

-- `sort_by`, which is stable.
unfoldable pub insert_source : Source → List Source → List Source
insert_source s [] = s ∷ []
insert_source s (t ∷ ts) =
    let rest = insert_source s ts in
    elim (compare_list s.path t.path) [ Ordering.gt ↦ t ∷ rest | _ ↦ s ∷ t ∷ ts ]

unfoldable pub sort_sources : List Source → List Source
unfolding insert_source
sort_sources [] = []
sort_sources (s ∷ ss) = insert_source s (sort_sources ss)

abbrev pub names_of : List Source → List Str
names_of = map (λ s. s.path)

-- `walk`
unfoldable pub walk :
    (FilePath → List (Option DirEntry))
    → List FilePath
    → (max_files max_bytes : ℕ) → Result (List Source)
walk listing roots max_files max_bytes = do
  found ← visit_roots max_files max_bytes listing roots ([], 0)
  ensure (no_equal_neighbours (names_of (sort_sources found.0))) same_name
  ok (sort_sources found.0)
