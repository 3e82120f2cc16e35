-- ===== src/Files/Manifest.antt =====
-- src/files/mod.rs: the manifest of a copy, and the checks that a peer's manifest passes.
pub mod Safety
pub mod Sorted
pub mod Paths
use yank.Prelude.{
  ℕ, ◌+◌, ◌^◌, ◌-◌, min, Ordering, ◌≡◌, Bool, true, false, not, ◌&&◌, ◌||◌, Option, none, some,
  List, [], ◌∷◌, map, ◌==◌, all, any, if◌then◌else◌, Result, ok, err, ensure, ◌>>=◌, ◌>>◌,
  unsafe_path, same_path,
}
use yank.Prelude.Bytes.{Str, codes, eq_list, compare_list, has_char, strip_prefix}
use yank.Files.Crates.{Hash}

abbrev pub max_files : ℕ
max_files = 4096

pub record FileRef : Type 0 where
  pub path : Str
  pub size : ℕ
  pub hash : Hash

-- Puts a character before the first part.
abbrev pub onto_first : ℕ → List Str → List Str
onto_first c [] = (c ∷ []) ∷ []
onto_first c (part ∷ parts) = (c ∷ part) ∷ parts

-- `str::split` at one character: at least one part.
unfoldable pub split : ℕ → Str → List Str
split sep [] = [] ∷ []
split sep (c ∷ s) = let parts = split sep s in if c == sep then [] ∷ parts else onto_first c parts

-- A part that is a plain name.
unfoldable pub is_plain : Str → Bool
is_plain part =
    not (eq_list part [] || eq_list part (codes ".") || eq_list part (codes ".."))
    && not (has_char 0 part)

-- `FileRef::is_safe`
unfoldable pub is_safe : FileRef → Bool
unfolding split is_plain
is_safe file = all is_plain (split b'/' file.path)

-- `total`: the sum, saturating.
unfoldable pub total_from : ℕ → List FileRef → ℕ
total_from sum [] = sum
total_from sum (file ∷ files) = total_from (min (sum + file.size) (2 ^ 64 - 1)) files

unfoldable pub total : List FileRef → ℕ
unfolding total_from
total files = total_from 0 files

-- `sort_unstable` of texts: which of two equal texts comes first cannot be told.
unfoldable pub insert_sorted : Str → List Str → List Str
insert_sorted p [] = p ∷ []
insert_sorted p (q ∷ qs) =
    let rest = insert_sorted p qs in
    elim (compare_list p q) [ Ordering.gt ↦ q ∷ rest | _ ↦ p ∷ q ∷ qs ]

unfoldable pub sort : List Str → List Str
unfolding insert_sorted
sort [] = []
sort (p ∷ ps) = insert_sorted p (sort ps)

abbrev pub starts_with_slash : Str → Bool
starts_with_slash [] = false
starts_with_slash (c ∷ s) = c == b'/'

-- Whether `q` lies under the path `p`, as `strip_prefix` and the `/` behind it tell.
unfoldable pub is_under : Str → Str → Bool
is_under p q = elim (strip_prefix p q) [ none ↦ false | some rest ↦ starts_with_slash rest ]

-- `windows(2).all` of the test of `validate`.
unfoldable pub no_neighbours_clash : List Str → Bool
unfolding is_under
no_neighbours_clash [] = true
no_neighbours_clash (p ∷ []) = true
no_neighbours_clash (p ∷ q ∷ rest) =
    not (eq_list p q) && not (is_under p q) && no_neighbours_clash (q ∷ rest)

abbrev pub paths_of : List FileRef → List Str
paths_of = map (λ file. file.path)

unfoldable pub validate : List FileRef → Result (Unit {0})
validate files = do
  ensure (all is_safe files) unsafe_path
  ensure (no_neighbours_clash (sort (paths_of files))) same_path
  ok tt
