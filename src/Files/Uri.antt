-- ===== src/Files/Uri.antt =====
-- src/files/mod.rs: local paths, as `text/uri-list`, as GNOME's file managers read them, and as text.
pub mod RoundTrip
use yank.Prelude.{
  ℕ, ◌≡◌, Bool, true, false, not, ◌&&◌, ◌||◌, Option, none, some, List, [], ◌∷◌, ◌++◌, map, ◌==◌,
  keep, if◌then◌else◌,
}
use yank.Prelude.Bytes.{Bytes, codes, eq_list, strip_prefix}
use yank.Files.Crates.{Crates}
use yank.Files.Manifest.{split}

-- A `PathBuf` is its bytes.
abbrev pub FilePath : Type 0
FilePath = Bytes

-- `strip_suffix(b"\r")`, or the line itself.
unfoldable pub strip_cr : Bytes → Bytes
strip_cr [] = []
strip_cr (c ∷ []) = if c == 13 then [] else c ∷ []
strip_cr (c ∷ d ∷ rest) = c ∷ strip_cr (d ∷ rest)

-- Neither empty nor a comment.
unfoldable pub is_uri_line : Bytes → Bool
is_uri_line [] = false
is_uri_line (c ∷ line) = not (c == b'#')

-- The authority before the first `/`, and the rest from it on.
unfoldable pub split_authority : Bytes → Option (Bytes × Bytes)
split_authority [] = none
split_authority (c ∷ rest) =
    let further = split_authority rest in
    if c == b'/'
    then some ([], c ∷ rest)
    else elim further [ none ↦ none | some (authority, path) ↦ some (c ∷ authority, path) ]

-- The path behind `file:`, still encoded.
unfoldable pub encoded_path : Bytes → Option Bytes
unfolding split_authority
encoded_path rest = elim (strip_prefix (codes "//") rest) [
  | none ↦ some rest
  | some authority ↦ elim (split_authority authority) [
    | none ↦ none
    | some (host, path) ↦
        if eq_list host [] || eq_list host (codes "localhost") then some path else none
  ]
]

-- `filter_map`
abbrev pub filter_map {ℓ κ} : {A : Type ℓ} {B : Type κ} → (A → Option B) → List A → List B
filter_map f [] = []
filter_map f (x ∷ xs) = elim (f x) [ none ↦ filter_map f xs | some y ↦ y ∷ filter_map f xs ]

module _ (crates : Crates) where
  unfoldable pub local_path : Bytes → Option FilePath
  unfolding encoded_path strip_prefix
  local_path uri = elim (strip_prefix (codes "file:") uri) [
    | none ↦ none
    | some rest ↦ elim (encoded_path rest) [
      | none ↦ none
      | some path ↦ some (crates.percent_decode path)
    ]
  ]

  unfoldable pub paths : Bytes → List FilePath
  unfolding local_path split strip_cr is_uri_line
  paths list = filter_map local_path (keep is_uri_line (map strip_cr (split 10 list)))

  unfoldable pub uri_list : List FilePath → Bytes
  uri_list [] = []
  uri_list (path ∷ rest) =
      codes "file://" ++ (crates.percent_encode path ++ (13 ∷ 10 ∷ uri_list rest))

  unfoldable pub gnome_uris : List FilePath → Bytes
  gnome_uris [] = []
  gnome_uris (path ∷ rest) = 10 ∷ codes "file://" ++ (crates.percent_encode path ++ gnome_uris rest)

  unfoldable pub gnome_copied_files : List FilePath → Bytes
  unfolding gnome_uris
  gnome_copied_files paths = codes "copy" ++ gnome_uris paths

unfoldable pub as_text : List FilePath → Bytes
as_text [] = []
as_text (path ∷ rest) = path ++ (10 ∷ as_text rest)

-- `Path::join` on Unix: an absolute path replaces, and a separator is added where there is none.
abbrev pub ends_with_slash : Bytes → Bool
ends_with_slash [] = false
ends_with_slash (c ∷ []) = c == b'/'
ends_with_slash (c ∷ d ∷ rest) = ends_with_slash (d ∷ rest)

abbrev pub is_absolute : Bytes → Bool
is_absolute [] = false
is_absolute (c ∷ rest) = c == b'/'

unfoldable pub join : FilePath → FilePath → FilePath
join base path =
    if is_absolute path
    then path
    else if eq_list base [] || ends_with_slash base
    then base ++ path
    else base ++ (b'/' ∷ path)
