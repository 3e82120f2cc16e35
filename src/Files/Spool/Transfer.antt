-- ===== src/Files/Spool/Transfer.antt =====
-- src/files/store.rs: how a transfer goes, and how it ends.
use yank.Prelude.{
  ◌≡◌, refl, ap, false, some, none, List, [], ◌∷◌, ◌++◌, arith, if◌then◌else◌, Result, ok, err,
  wrong_content,
}
use yank.Prelude.Bytes.{Bytes, Str, eq_list, eq_list_refl}
use yank.Prelude.Dir.{read, delete, read-write, read-delete}
use yank.Files.Crates.{Crates, Hash, Hex, IsHex}
use yank.Files.Spool.{
  Store, Incoming, file_name, partial_name, rename, unwrap_or, eq_hash, receive, append, finish,
}
use yank.Files.Spool.Names.{file_name-ne-partial_name, partial_name-ne-file_name}

-- The chunks of a transfer, as they arrive.
unfoldable pub append_all : Hex → List Bytes → Store × Incoming → Store × Incoming
append_all hex [] transfer = transfer
append_all hex (chunk ∷ chunks) transfer = append_all hex chunks (append hex chunk transfer)

abbrev pub joined : Bytes → List Bytes → Bytes
joined done [] = done
joined done (chunk ∷ chunks) = joined (done ++ chunk) chunks

-- A store whose blobs differ at one name at most.
abbrev pub SameBut : Str → Store → Store → Type 0
SameBut name old new =
    (other : Str) → eq_list name other ≡ false → read other new.blobs ≡ read other old.blobs

-- A transfer of `h` under way, which has been fed `done`: its file holds that, and nothing else in the
-- spool has changed.
pub record Going (hex : Hex) (h : Hash) (done : Bytes) (old : Store) (transfer : Store × Incoming)
    : Type 0 where
  pub hash : transfer.1.hash ≡ h
  pub path : transfer.1.path ≡ partial_name hex h
  pub hasher : transfer.1.hasher ≡ done
  pub fed : read (partial_name hex h) transfer.0.blobs ≡ some done
  pub others : SameBut (partial_name hex h) old transfer.0
  pub trees : transfer.0.trees ≡ old.trees

pub receive-Going :
    (hex : Hex) (h : Hash) (store : Store)
    → Going hex h (unwrap_or (read (partial_name hex h) store.blobs) []) store (receive hex h store)
unfolding receive
receive-Going hex h store =
    let name = partial_name hex h in
    let content = unwrap_or (read name store.blobs) [] in
    record {
      hash = refl;
      path = refl;
      hasher = refl;
      fed = ground (arith, eq_list_refl name, read-write name name content store.blobs);
      others = λ other ne. ground (arith, ne, read-write name other content store.blobs);
      trees = refl;
    }

pub append-Going :
    (hex : Hex) (h : Hash) (done chunk : Bytes) (old : Store) (transfer : Store × Incoming)
    → Going hex h done old transfer
    → Going hex h (done ++ chunk) old (append hex chunk transfer)
unfolding append
append-Going hex h done chunk old (store, incoming) g =
    let name = partial_name hex h in
    record {
      hash = g.hash;
      path = g.path;
      hasher = ap (λ d. d ++ chunk) g.hasher;
      fed = ground (
        arith,
        eq_list_refl name,
        g.path,
        g.fed,
        read-write incoming.path name (done ++ chunk) store.blobs,
      );
      others = λ other ne. ground (
        arith,
        ne,
        g.path,
        g.others other ne,
        read-write incoming.path other (done ++ chunk) store.blobs,
      );
      trees = g.trees;
    }

pub append_all-Going :
    (hex : Hex) (h : Hash) (chunks : List Bytes) (done : Bytes) (old : Store)
    (transfer : Store × Incoming)
    → Going hex h done old transfer
    → Going hex h (joined done chunks) old (append_all hex chunks transfer)
unfolding append_all
append_all-Going hex h [] done old transfer g = g
append_all-Going hex h (chunk ∷ chunks) done old transfer g =
    append_all-Going hex h chunks (done ++ chunk) old (append hex chunk transfer)
      (append-Going hex h done chunk old transfer g)

-- A transfer from where the last one left off to its end.
unfoldable pub transfer : Crates → Hex → Hash → List Bytes → Store → Store × Result (Unit {0})
unfolding append_all
transfer crates hex h chunks store = finish hex crates (append_all hex chunks (receive hex h store))

-- How a transfer ends: the content is in the spool where it is what it was named, and otherwise none of it
-- is left; either way nothing is left under the name of the transfer, and all else is as it was, the
-- trees among it.
pub record Ended (crates : Crates) (hex : Hex) (h : Hash) (content : Bytes) (old : Store)
    (outcome : Store × Result (Unit {0})) : Type 0 where
  pub result : outcome.1 ≡ (if eq_hash (crates.blake3 content) h then ok tt else err wrong_content)
  pub blob : read (file_name hex h) outcome.0.blobs ≡ (
      if eq_hash (crates.blake3 content) h then some content else read (file_name hex h) old.blobs)
  pub gone : read (partial_name hex h) outcome.0.blobs ≡ none
  pub others :
      (other : Str)
      → eq_list (file_name hex h) other ≡ false
      → eq_list (partial_name hex h) other ≡ false
      → read other outcome.0.blobs ≡ read other old.blobs
  pub trees : outcome.0.trees ≡ old.trees

module _ (crates : Crates) (hex : Hex) (lawful : IsHex hex) where
  pub finish-Ended :
      (h : Hash) (done : Bytes) (old : Store) (t : Store × Incoming)
      → Going hex h done old t
      → Ended crates hex h done old (finish hex crates t)
  unfolding finish rename
  finish-Ended h done old (store, incoming) g =
      let name = file_name hex h in
      let part = partial_name hex h in
      let apart = file_name-ne-partial_name hex lawful h h in
      let apart' = partial_name-ne-file_name hex lawful h h in
      record {
        result = ground (arith, g.hash, g.path, g.hasher, g.fed);
        blob = ground (
          arith,
          g.hash,
          g.path,
          g.hasher,
          g.fed,
          apart',
          eq_list_refl name,
          read-write name name done (delete part store.blobs),
          read-delete part name store.blobs,
          g.others name apart',
        );
        gone = ground (
          arith,
          g.hash,
          g.path,
          g.hasher,
          g.fed,
          apart,
          eq_list_refl part,
          read-write name part done (delete part store.blobs),
          read-delete part part store.blobs,
        );
        others = λ other n p. ground (
          arith,
          n,
          p,
          g.hash,
          g.path,
          g.hasher,
          g.fed,
          read-write name other done (delete part store.blobs),
          read-delete part other store.blobs,
          g.others other p,
        );
        trees = ground (arith, g.hash, g.path, g.hasher, g.fed, g.trees);
      }

  -- A transfer that is resumed and comes to its end puts the content in the spool exactly where that has the
  -- hash that it was asked for: the bytes that were here already, and then the chunks.
  pub transfer-Ended :
      (h : Hash) (chunks : List Bytes) (store : Store)
      → Ended crates hex h
          (joined (unwrap_or (read (partial_name hex h) store.blobs) []) chunks)
          store
          (transfer crates hex h chunks store)
  unfolding transfer
  transfer-Ended h chunks store =
      let done = unwrap_or (read (partial_name hex h) store.blobs) [] in
      finish-Ended h (joined done chunks) store (append_all hex chunks (receive hex h store))
        (append_all-Going hex h chunks done store (receive hex h store) (receive-Going hex h store))
