-- ===== src/Files/Spool.antt =====
-- src/files/store.rs: the spool. A directory is its entries, a hard link the content that it was made
-- of, since nothing writes to a file under the name of its hash. The disk fails where a file is missing
-- or in the way; that it is full or broken is not modelled. `show` is how a stamp is printed.
pub mod Names
pub mod Transfer
pub mod Taking
pub mod Integrity
pub mod Sweep
pub mod Beside
pub mod Layout
pub mod Stuck
use yank.Prelude.{
  ℕ, ◌==◌, ◌≡◌, Bool, true, false, not, ◌&&◌, ◌||◌, Option, none, some, is_some, List, [], ◌∷◌,
  ◌++◌, any, leb, length, if◌then◌else◌, Result, ok, err, ensure, ◌>>=◌, ◌>>◌, cannot_read,
  cannot_spool, wrong_content, unusable_path, cannot_lay_out,
}
use yank.Prelude.Bytes.{Bytes, Str, codes, eq_list, len}
use yank.Prelude.Dir.{Dir, read, write, delete, retain}
use yank.Files.Crates.{Crates, Hash, Hex}
use yank.Files.Manifest.{FileRef, is_safe, is_under}
use yank.Clip.Stamp.{Stamp}

-- `Store`: what `blobs` and `trees` hold.
pub record Store : Type 0 where
  pub blobs : Dir Bytes
  pub trees : Dir (Dir Bytes)

-- `Incoming`: the hasher is what it has been fed.
pub record Incoming : Type 0 where
  pub hash : Hash
  pub path : Str
  pub hasher : Bytes

-- `Incoming::at`
abbrev pub at : Incoming → ℕ
at incoming = length incoming.hasher

abbrev pub eq_hash : Hash → Hash → Bool
eq_hash a b = eq_list a.bytes b.bytes

-- `PARTIAL`
abbrev pub partial_suffix : Str
partial_suffix = codes ".part"

-- `str::strip_suffix`
unfoldable pub strip_suffix : Str → Str → Option Str
strip_suffix suffix [] = if eq_list [] suffix then some [] else none
strip_suffix suffix (c ∷ s) =
    let further = strip_suffix suffix s in
    if eq_list (c ∷ s) suffix
    then some []
    else elim further [ none ↦ none | some front ↦ some (c ∷ front) ]

-- `fs::rename`
unfoldable pub rename : Str → Str → Dir Bytes → Option (Dir Bytes)
rename from to dir = elim (read from dir) [
  | none ↦ none
  | some content ↦ some (write to content (delete from dir))
]

abbrev pub unwrap_or {ℓ} : {A : Type ℓ} → Option A → A → A
unwrap_or none a = a
unwrap_or (some b) a = b

-- Whether a file of the tree stands where a link is to go, is a directory on the way to it, or lies
-- under it.
unfoldable pub occupied : Str → Dir Bytes → Bool
occupied path [] = false
occupied path ((name, content) ∷ tree) =
    eq_list name path || is_under name path || is_under path name || occupied path tree

-- Whether `Store::sweep` keeps a tree.
abbrev pub is_tree_of : (Stamp → Str) → Option Stamp → Str → Bool
is_tree_of show none name = false
is_tree_of show (some stamp) name = eq_list (show stamp) name

module _ (hex : Hex) where
  -- `Hash::file_name`, and `Store::blob` in the directory of blobs.
  unfoldable pub file_name : Hash → Str
  file_name hash = hex.encode hash.bytes

  -- `Hash::parse`
  unfoldable pub parse : Str → Option Hash
  parse name =
      if len name == 64
      then (elim (hex.decode name) [ none ↦ none | some b ↦ some (record { bytes = b }) ])
      else none

  -- `Store::partial_path`
  unfoldable pub partial_name : Hash → Str
  unfolding file_name
  partial_name hash = file_name hash ++ partial_suffix

  -- `Store::has`
  unfoldable pub has : Hash → Store → Bool
  has hash store = is_some (read (file_name hash) store.blobs)

  -- `Store::partial`
  unfoldable pub partial : Hash → ℕ → Store → Store × ℕ
  partial hash size store = elim (read (partial_name hash) store.blobs) [
    | none ↦ (store, 0)
    | some content ↦
        if leb (length content) size
        then (store, length content)
        else (record store { blobs = delete (partial_name hash) store.blobs }, 0)
  ]

  -- `Store::receive`
  unfoldable pub receive : Hash → Store → Store × Incoming
  receive hash store =
      let content = unwrap_or (read (partial_name hash) store.blobs) [] in
      (
        record store { blobs = write (partial_name hash) content store.blobs },
        record { hash = hash; path = partial_name hash; hasher = content },
      )

  -- `Incoming::write`, to the file that was opened: one that a sweep has taken away since has no name any
  -- more, and what is written to it is lost.
  unfoldable pub append : Bytes → Store × Incoming → Store × Incoming
  append bytes (store, incoming) = (
    record store {
      blobs = elim (read incoming.path store.blobs) [
        | none ↦ store.blobs
        | some content ↦ write incoming.path (content ++ bytes) store.blobs
      ];
    },
    record incoming { hasher = incoming.hasher ++ bytes },
  )

  -- The links of `Store::lay_out`, one after the other.
  unfoldable pub link_all : Dir Bytes → List FileRef → Dir Bytes → Dir Bytes × Result (Unit {0})
  link_all blobs [] tree = (tree, ok tt)
  link_all blobs (file ∷ files) tree =
      let further = λ (content : Bytes). link_all blobs files (write file.path content tree) in
      if not (is_safe file)
      then (tree, err unusable_path)
      else if occupied file.path tree
      then (tree, err cannot_lay_out)
      else elim (read (file_name file.hash) blobs) [
        | none ↦ (tree, err cannot_lay_out)
        | some content ↦ further content
      ]

  -- `Store::lay_out`, where the tree is left as far as it came.
  unfoldable pub lay_out : (Stamp → Str) → Stamp → List FileRef → Store → Store × Result (Unit {0})
  unfolding link_all
  lay_out show stamp files store =
      let (tree, outcome) = link_all store.blobs files [] in
      (record store { trees = write (show stamp) tree store.trees }, outcome)

  -- Whether `Store::sweep` keeps a blob: by the hash that its name says it is.
  unfoldable pub is_named : List Hash → Str → Bool
  unfolding parse strip_suffix
  is_named content name = elim (parse (unwrap_or (strip_suffix partial_suffix name) name)) [
    | none ↦ false
    | some hash ↦ any (eq_hash hash) content
  ]

  -- `Store::sweep`
  unfoldable pub sweep : (Stamp → Str) → Option Stamp → List Hash → Store → Store
  unfolding is_named
  sweep show live content store = record {
    trees = retain (is_tree_of show live) store.trees;
    blobs = retain (is_named content) store.blobs;
  }

  module _ (crates : Crates) where
    -- `Incoming::finish`
    unfoldable pub finish : Store × Incoming → Store × Result (Unit {0})
    finish (store, incoming) =
        if eq_hash (crates.blake3 incoming.hasher) incoming.hash
        then (elim (rename incoming.path (file_name incoming.hash) store.blobs) [
          | none ↦ (store, err cannot_spool)
          | some blobs ↦ (record store { blobs = blobs }, ok tt)
        ])
        else (record store { blobs = delete incoming.path store.blobs }, err wrong_content)

    -- `Store::take`, of a file that holds `source` where it can be read; `tmp` is the name drawn.
    unfoldable pub take : Str → Option Bytes → Store → Store × Result (Hash × ℕ)
    take tmp none store = (record store { blobs = delete tmp store.blobs }, err cannot_read)
    take tmp (some content) store =
        let hash = crates.blake3 content in
        let cloned = record store { blobs = write tmp content store.blobs } in
        if has hash cloned
        then (record store { blobs = delete tmp cloned.blobs }, ok (hash, length content))
        else elim (rename tmp (file_name hash) cloned.blobs) [
          | none ↦ (cloned, err cannot_spool)
          | some blobs ↦ (record store { blobs = blobs }, ok (hash, length content))
        ]
