-- ===== src/Files/Uri/RoundTrip.antt =====
-- src/files/mod.rs: what `uri_list` writes, `paths` reads back.
use yank.Prelude.{
  ℕ, ◌<◌, ◌≡◌, refl, sym, ap, ◌∙◌, true, false, Option, some, List, [], ◌∷◌, ◌++◌, map, ◌==◌, all,
  All, keep, arith,
}
use yank.Prelude.Bytes.{Bytes, codes, eq_list, strip_prefix}
use yank.Files.Crates.{Crates, IsUriCodec, is_uri_byte}
use yank.Files.Manifest.{split}
use yank.Files.Uri.{
  FilePath, strip_cr, is_uri_line, split_authority, encoded_path, local_path, paths, uri_list,
  is_absolute, filter_map,
}

-- A path that a file may have, as bytes: absolute, and of bytes only.
abbrev pub IsFilePath : FilePath → Type 0
IsFilePath path = (is_absolute path ≡ true) × All (λ c. c < 256) path

-- What stands before the end of the first part goes onto that part.
split_onto :
    (sep : ℕ) (b s part : Bytes) (parts : List Bytes)
    → All (λ c. (c == sep) ≡ false) b
    → split sep s ≡ part ∷ parts
    → split sep (b ++ s) ≡ (b ++ part) ∷ parts
unfolding split
split_onto sep [] s part parts h e = e
split_onto sep (c ∷ b) s part parts h e = rw h.0 (rw (split_onto sep b s part parts h.1 e) refl)

strip_cr_lem : (b : Bytes) → strip_cr (b ++ 13 ∷ []) ≡ b
unfolding strip_cr
strip_cr_lem [] = refl
strip_cr_lem (c ∷ []) = refl
strip_cr_lem (c ∷ d ∷ b) = rw (strip_cr_lem (d ∷ b)) refl

filter_map-some :
    (f : Bytes → Option FilePath) (b : Bytes) (path : FilePath) (rest : List Bytes)
    → f b ≡ some path
    → filter_map f (b ∷ rest) ≡ path ∷ filter_map f rest
filter_map-some f b path rest h = rw (h, filter_map) refl

is_uri_byte_newline : (c : ℕ) → is_uri_byte c ≡ true → (c == 10) ≡ false
unfolding is_uri_byte
is_uri_byte_newline c h = ground arith

all-newline : (b : Bytes) → all is_uri_byte b ≡ true → All (λ c. (c == 10) ≡ false) b
all-newline [] h = tt
all-newline (c ∷ b) h =
    (is_uri_byte_newline c (ground (arith, h)), all-newline b (ground (arith, h)))

module _ (crates : Crates) (codec : IsUriCodec crates) where
  local_path_lem :
      (path : FilePath)
      → IsFilePath path
      → local_path crates (codes "file://" ++ crates.percent_encode path) ≡ some path
  unfolding local_path encoded_path split_authority strip_prefix eq_list
  local_path_lem [] h = cc
  local_path_lem (c ∷ path) h =
      let slash : c ≡ 47 = ground (arith, h.0) in
      let back : crates.percent_decode (47 ∷ crates.percent_encode path) ≡ 47 ∷ path =
        ap crates.percent_decode (sym (codec.encode_slash path))
        ∙ codec.decode-encode (47 ∷ path) (omega arith, h.1.1) in
      rw slash (rw (codec.encode_slash path) (ap some back))

  line :
      (path : FilePath) (rest : List FilePath)
      → split 10 (uri_list crates (path ∷ rest))
        ≡ (codes "file://" ++ (crates.percent_encode path ++ 13 ∷ []))
          ∷ split 10 (uri_list crates rest)
  unfolding uri_list split
  line path rest =
      rw
        (split_onto 10 (crates.percent_encode path) (13 ∷ 10 ∷ uri_list crates rest) (13 ∷ [])
          (split 10 (uri_list crates rest))
          (all-newline (crates.percent_encode path) (codec.encode_plain path)) refl)
        refl

  -- Paths written as `text/uri-list` are read back as they were, whatever bytes they are of, where each
  -- is absolute and percent encoding keeps what it promises.
  pub paths-uri_list :
      (files : List FilePath) → All IsFilePath files → paths crates (uri_list crates files) ≡ files
  unfolding paths uri_list is_uri_line split
  paths-uri_list [] h = refl
  paths-uri_list (path ∷ files) h = rw (line path files) (
      rw (strip_cr_lem (codes "file://" ++ crates.percent_encode path)) (
        filter_map-some (local_path crates) (codes "file://" ++ crates.percent_encode path) path
          (keep is_uri_line (map strip_cr (split 10 (uri_list crates files))))
          (local_path_lem path h.0)
        ∙ ap (λ rest. path ∷ rest) (paths-uri_list files h.1)))
