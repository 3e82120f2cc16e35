-- ===== src/Daemon/Fetch.antt =====
-- src/daemon/files.rs: how the files of a clip are brought here. A peer is what it answers to a request,
-- any bytes at all, with whether the clip is still the one that is fetched at each file; how the bytes are
-- cut into chunks leaves no trace. One transfer runs at a time, but the loop of the file service goes on
-- beside it: it sweeps the spool and takes files in. What it does stands where the fetch gives way to it,
-- each operation on the spool as a whole.
pub mod Kept
pub mod Safety
use yank.Prelude.{
  ℕ, zero, suc, ◌+◌, ◌-◌, ◌^◌, ◌==◌, Bool, true, false, not, ◌&&◌, ◌||◌, Option, none, some, List,
  [], ◌∷◌, ◌++◌, keep, any, ltb, leb, if◌then◌else◌, Result, ok, err, Error, clip_replaced,
  wrong_size, partial_moved, stopped_short, not_all_here, over_file_limit,
}
use yank.Prelude.Bytes.{Bytes, Str}
use yank.Files.Crates.{Crates, Hash, Hex}
use yank.Files.Manifest.{FileRef, total}
use yank.Files.Spool.{Store, Incoming, at, eq_hash, has, partial, receive, append, finish, lay_out}
use yank.Files.Spool.Integrity.{Op, act_all}
use yank.Clip.Stamp.{Stamp}
use yank.Net.Wire.{Postcard, read_exact, read_message}
use yank.Net.Proto.{ContentRequest, ContentReply, sending, missing, max_reply_size}

-- What is done to the spool beside the transfer of a file: before the header is read, once the file is
-- open, and once its bytes are written.
pub record Beside : Type 0 where
  pub before : List Op
  pub opened : List Op
  pub written : List Op

-- What a connected machine does during a pull, what is done beside each file, and before the next machine.
pub record Peer : Type 0 where
  pub answer : List ContentRequest → Bytes
  pub still : ℕ → Bool
  pub beside : ℕ → Beside
  pub after : List Op

-- What a fetch meets, by the attempts that are left: who is connected, whether the clip is still the one
-- that is fetched, and what is done to the spool while it waits for the next attempt; then what is done
-- before the layout, and before it is reported.
pub record Course : Type 0 where
  pub peers : ℕ → List Peer
  pub still : ℕ → Bool
  pub waiting : ℕ → List Op
  pub laying : List Op
  pub laid : List Op

-- `RETRIES`
abbrev pub retries : ℕ
retries = 6

module _ (crates : Crates) (hex : Hex) (show : Stamp → Str) (postcard : Postcard ContentReply) where
  abbrev pub alongside : List Op → Store × Incoming → Store × Incoming
  alongside ops (store, incoming) = (act_all crates hex show ops store, incoming)

  -- The bytes of a transfer: to its end, or as far as the stream goes.
  abbrev pub take_in :
      Beside → Bytes → Store × Incoming → Result (Bytes × Bytes) → Store × Result Bytes
  take_in beside stream transfer (err e) =
      ((append hex stream (alongside beside.opened transfer)).0, err stopped_short)
  take_in beside stream transfer (ok (bytes, rest)) = (
    (finish hex crates
        (alongside beside.written (append hex bytes (alongside beside.opened transfer)))).0,
    ok rest,
  )

  -- `receive`
  unfoldable pub receive_file : Beside → FileRef → ℕ → Bytes → Store → Store × Result Bytes
  receive_file beside file from stream store =
      let transfer = receive hex file.hash store in
      if at transfer.1 == from
      then take_in beside stream transfer (read_exact (file.size - from) stream)
      else (transfer.0, err partial_moved)

  -- What follows a header.
  abbrev pub on_reply :
      Beside → FileRef → ℕ → Store → Result (ContentReply × Bytes) → Store × Result Bytes
  on_reply beside file from store (err e) = (store, err e)
  on_reply beside file from store (ok (missing, stream)) = (store, ok stream)
  on_reply beside file from store (ok (sending size, stream)) =
      if ltb (from + size) (2 ^ 64) && (from + size == file.size)
      then receive_file beside file from stream store
      else (store, err wrong_size)

  -- One round of the loop of `pull`.
  unfoldable pub pull_file : Bool → Beside → FileRef → ℕ → Bytes → Store → Store × Result Bytes
  unfolding receive_file
  pull_file still beside file from stream store =
      let store' = act_all crates hex show beside.before store in
      if still
      then on_reply beside file from store' (read_message postcard max_reply_size stream)
      else (store', err clip_replaced)

  abbrev pub and_then :
      Store × Result Bytes → (Bytes → Store → Store × Result (Unit {0})) → Store × Result (Unit {0})
  and_then (store, err e) next = (store, err e)
  and_then (store, ok stream) next = next stream store

  unfoldable pub pull_files :
      Peer → ℕ → List (FileRef × ℕ) → Bytes → Store → Store × Result (Unit {0})
  pull_files peer i [] stream store = (store, ok tt)
  pull_files peer i ((file, from) ∷ files) stream store =
      and_then (pull_file (peer.still i) (peer.beside i) file from stream store)
        (pull_files peer (i + 1) files)

  -- How much of each file is here already.
  unfoldable pub partial_all : List FileRef → Store → Store × List (FileRef × ℕ)
  partial_all [] store = (store, [])
  partial_all (file ∷ files) store =
      let (store', from) = partial hex file.hash file.size store in
      let (store'', rest) = partial_all files store' in (store'', (file, from) ∷ rest)

  abbrev pub requests_of : List (FileRef × ℕ) → List ContentRequest
  requests_of [] = []
  requests_of ((file, from) ∷ files) = record { hash = file.hash; at = from } ∷ requests_of files

  -- `pull`
  unfoldable pub pull : Peer → List FileRef → Store → Store × Result (Unit {0})
  unfolding pull_files
  pull peer files store =
      let (store', asked) = partial_all files store in
      let pulled = pull_files peer 0 asked (peer.answer (requests_of asked)) store' in
      (act_all crates hex show peer.after pulled.0, pulled.1)

  -- The files that are not here, each content once.
  unfoldable pub missing_of : List Hash → Store → List FileRef → List FileRef
  missing_of seen store [] = []
  missing_of seen store (file ∷ files) =
      let same = missing_of seen store files in
      let further = missing_of (file.hash ∷ seen) store files in
      if has hex file.hash store
      then same
      else if any (eq_hash file.hash) seen
      then same
      else file ∷ further

  abbrev pub is_empty {ℓ} : {A : Type ℓ} → List A → Bool
  is_empty [] = true
  is_empty (x ∷ xs) = false

  -- The loop of `pull_all`: what is still missing when the peers are through.
  unfoldable pub pull_peers : List Peer → List FileRef → Store → Store × List FileRef
  pull_peers [] files store = (store, files)
  pull_peers (peer ∷ peers) files store =
      let store' = (pull peer files store).0 in
      let further = pull_peers peers (keep (λ file. not (has hex file.hash store')) files) store' in
      if is_empty files then (store, files) else further

  -- `pull_all`
  unfoldable pub pull_all : List Peer → List FileRef → Store → Store × Result (Unit {0})
  unfolding pull_peers missing_of
  pull_all peers files store =
      let (store', left) = pull_peers peers (missing_of [] store files) store in
      (store', if is_empty left then ok tt else err not_all_here)

  -- Whether an attempt is followed by another: it failed, it was not the last, and the clip is still
  -- the one.
  abbrev pub retry :
      ℕ
      → Bool
      → List Op
      → (Store → Store × Result (Unit {0}))
      → Store × Result (Unit {0})
      → Store × Result (Unit {0})
  retry left still waiting again (store, ok done) = (store, ok done)
  retry zero still waiting again (store, err e) = (store, err e)
  retry (suc left) still waiting again (store, err e) =
      let further = again (act_all crates hex show waiting store) in
      if still then further else (store, err e)

  -- The loop of `materialize`.
  unfoldable pub attempts : Course → ℕ → List FileRef → Store → Store × Result (Unit {0})
  attempts course zero files store = (store, ok tt)
  attempts course (suc left) files store =
      retry left (course.still left) (course.waiting left) (attempts course left files)
        (pull_all (course.peers left) files store)

  -- What is laid out when the contents are here.
  abbrev pub then_lay_out :
      List Op → Stamp → List FileRef → Store × Result (Unit {0}) → Store × Result (Unit {0})
  then_lay_out laying stamp files (store, err e) = (store, err e)
  then_lay_out laying stamp files (store, ok done) =
      lay_out hex show stamp files (act_all crates hex show laying store)

  -- What is reported of it.
  abbrev pub told : List Op → Store × Result (Unit {0}) → Store × Result Bool
  told laid (store, err e) = (store, err e)
  told laid (store, ok _) = (act_all crates hex show laid store, ok true)

  -- `materialize`, of the files that are wanted, up to telling the clipboard.
  unfoldable pub materialize :
      (max_file_size : ℕ) → Course → Stamp → List FileRef → Store → Store × Result Bool
  unfolding attempts
  materialize max_file_size course stamp [] store = (store, ok false)
  materialize max_file_size course stamp (file ∷ files) store =
      if leb (total (file ∷ files)) max_file_size
      then told course.laid (
          then_lay_out course.laying stamp (file ∷ files)
            (attempts course retries (file ∷ files) store))
      else (store, err over_file_limit)
