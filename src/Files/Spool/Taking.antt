-- ===== src/Files/Spool/Taking.antt =====
-- src/files/store.rs: what taking a file in does.
use yank.Prelude.{ℕ, ◌≡◌, false, some, none, arith, length, Result, ok}
use yank.Prelude.Bytes.{Bytes, Str, eq_list, eq_list_refl, eq_list_sym}
use yank.Prelude.Dir.{read, write, delete, read-write, read-delete}
use yank.Files.Crates.{Crates, Hash, Hex}
use yank.Files.Spool.{Store, file_name, rename, unwrap_or, has, take}

-- The content is in the spool under its hash, as it was where it was there already; the name that it was
-- taken under is gone, and nothing else has changed.
pub record Taken (crates : Crates) (hex : Hex) (tmp : Str) (content : Bytes) (old : Store)
    (outcome : Store × Result (Hash × ℕ)) : Type 0 where
  pub result : outcome.1 ≡ ok (crates.blake3 content, length content)
  pub blob :
      read (file_name hex (crates.blake3 content)) outcome.0.blobs
      ≡ some (unwrap_or (read (file_name hex (crates.blake3 content)) old.blobs) content)
  pub gone : read tmp outcome.0.blobs ≡ none
  pub others :
      (other : Str)
      → eq_list (file_name hex (crates.blake3 content)) other ≡ false
      → eq_list tmp other ≡ false
      → read other outcome.0.blobs ≡ read other old.blobs

-- A file that can be read is taken in, under whatever name that is not the one of its hash.
pub take-Taken :
    (crates : Crates) (hex : Hex) (tmp : Str) (content : Bytes) (store : Store)
    → eq_list tmp (file_name hex (crates.blake3 content)) ≡ false
    → Taken crates hex tmp content store (take hex crates tmp (some content) store)
unfolding take has rename
take-Taken crates hex tmp content store apart =
    let hash = crates.blake3 content in
    let name = file_name hex hash in
    let cloned = write tmp content store.blobs in
    let there = read-write tmp name content store.blobs in
    let here = read-write tmp tmp content store.blobs in
    let self = eq_list_refl tmp in
    record {
      result = ground (arith, apart, there, here, self);
      blob = ground (
        arith,
        apart,
        there,
        here,
        self,
        read-delete tmp name cloned,
        eq_list_refl name,
        read-write name name content (delete tmp cloned),
      );
      gone = ground (
        arith,
        apart,
        there,
        here,
        self,
        eq_list_sym tmp name,
        read-delete tmp tmp cloned,
        read-write name tmp content (delete tmp cloned),
      );
      others = λ other n t. ground (
        arith,
        apart,
        n,
        t,
        there,
        here,
        self,
        read-delete tmp other cloned,
        read-write tmp other content store.blobs,
        read-write name other content (delete tmp cloned),
      );
    }
