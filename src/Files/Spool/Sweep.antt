-- ===== src/Files/Spool/Sweep.antt =====
-- src/files/store.rs: what a sweep keeps, and what it drops.
use yank.Prelude.{
  ◌≡◌, refl, ap, ◌∙◌, ◌++◌, true, Option, some, none, List, any, arith, Option-cases, inl, inr, ◌⊎◌,
  if◌then◌else◌,
}
use yank.Prelude.Bytes.{Bytes, Str}
use yank.Prelude.Dir.{read, read-retain}
use yank.Files.Crates.{Hash, Hex, IsHex}
use yank.Clip.Stamp.{Stamp}
use yank.Files.Spool.{
  Store, file_name, partial_name, partial_suffix, parse, strip_suffix, is_named, eq_hash, sweep,
  unwrap_or, is_tree_of,
}
use yank.Files.Spool.Names.{
  IsHash, parse-file_name, parse-eq-some, strip_suffix-file_name, strip_suffix-partial_name,
  strip_suffix-eq-some,
}

-- A sweep keeps the contents that are named and their unfinished transfers, and no other file but
-- such; and of the trees the live one.
pub record Swept (hex : Hex) (show : Stamp → Str) (live : Option Stamp) (content : List Hash)
    (old new : Store) : Type 0 where
  pub kept :
      (h : Hash)
      → IsHash h
      → read (file_name hex h) new.blobs
        ≡ (if any (eq_hash h) content then read (file_name hex h) old.blobs else none)
  pub resumable :
      (h : Hash)
      → IsHash h
      → read (partial_name hex h) new.blobs
        ≡ (if any (eq_hash h) content then read (partial_name hex h) old.blobs else none)
  pub only :
      (name : Str) (bytes : Bytes)
      → read name new.blobs ≡ some bytes
      → (h : Hash) × (any (eq_hash h) content ≡ true)
        × ((name ≡ file_name hex h) ⊎ (name ≡ partial_name hex h))
  pub trees :
      (name : Str)
      → read name new.trees ≡ (if is_tree_of show live name then read name old.trees else none)

module _ (hex : Hex) (lawful : IsHex hex) where
  is_named-file_name :
      (content : List Hash) (h : Hash)
      → IsHash h
      → is_named hex content (file_name hex h) ≡ any (eq_hash h) content
  unfolding is_named
  is_named-file_name content h good =
      ground (arith, strip_suffix-file_name hex lawful h, parse-file_name hex lawful h good)

  is_named-partial_name :
      (content : List Hash) (h : Hash)
      → IsHash h
      → is_named hex content (partial_name hex h) ≡ any (eq_hash h) content
  unfolding is_named
  is_named-partial_name content h good =
      ground (arith, strip_suffix-partial_name hex lawful h, parse-file_name hex lawful h good)

  named_name :
      (stripped : Option Str) (name : Str) (h : Hash)
      → strip_suffix partial_suffix name ≡ stripped
      → parse hex (unwrap_or stripped name) ≡ some h
      → (name ≡ file_name hex h) ⊎ (name ≡ partial_name hex h)
  unfolding partial_name
  named_name none name h e p = inl (parse-eq-some hex lawful name h p)
  named_name (some front) name h e p = inr (
      strip_suffix-eq-some partial_suffix name front e
      ∙ ap (λ f. f ++ partial_suffix) (parse-eq-some hex lawful front h p))

  is_named-eq_true :
      (content : List Hash) (name : Str)
      → is_named hex content name ≡ true
      → (h : Hash) × (any (eq_hash h) content ≡ true)
        × ((name ≡ file_name hex h) ⊎ (name ≡ partial_name hex h))
  unfolding is_named
  is_named-eq_true content name e =
      elim (Option-cases (parse hex (unwrap_or (strip_suffix partial_suffix name) name))) [
        | inl bad ↦ cc (e, bad)
        | inr (h, good) ↦ (
          h,
          ground (arith, e, good),
          named_name (strip_suffix partial_suffix name) name h refl good,
        )
      ]

  -- Whatever is in the spool, a sweep leaves the contents that are named, the transfers of those, and the
  -- live tree, as they were, and nothing else.
  pub sweep-Swept :
      (show : Stamp → Str) (live : Option Stamp) (content : List Hash) (store : Store)
      → Swept hex show live content store (sweep hex show live content store)
  unfolding sweep
  sweep-Swept show live content store = record {
    kept = λ h good.
        read-retain (is_named hex content) (file_name hex h) store.blobs
        ∙ rw (is_named-file_name content h good) refl;
    resumable = λ h good.
        read-retain (is_named hex content) (partial_name hex h) store.blobs
        ∙ rw (is_named-partial_name content h good) refl;
    only = λ name bytes e.
        is_named-eq_true content name
          (ground (arith, e, read-retain (is_named hex content) name store.blobs));
    trees = λ name. read-retain (is_tree_of show live) name store.trees;
  }
