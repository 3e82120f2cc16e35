-- ===== src/Daemon/Fetch/Kept.antt =====
-- src/daemon/files.rs: whatever the peers send, and whatever is swept or taken in beside it, a pull leaves
-- the spool true.
use yank.Prelude.{
  ℕ, zero, suc, ◌+◌, ◌-◌, ◌^◌, ◌==◌, keep, any, false, Bool, true, ◌&&◌, List, [], ◌∷◌, All,
  if-elim, Result, ok, err, ltb,
}
use yank.Prelude.Bytes.{Bytes, Str}
use yank.Clip.Stamp.{Stamp}
use yank.Prelude.Dir.{read}
use yank.Files.Crates.{Crates, Hash, Hex, IsHex}
use yank.Files.Manifest.{FileRef}
use yank.Files.Spool.{
  has, eq_hash, Store, Incoming, partial_name, at, unwrap_or, partial, receive, append,
}
use yank.Files.Spool.Names.{IsHash, IsDigest}
use yank.Files.Spool.Beside.{
  IsBeside, Fed, Going-Fed, append-Fed, finish-Fed, act_all-Beside, act_all-Fed,
}
use yank.Files.Spool.Transfer.{receive-Going}
use yank.Files.Spool.Integrity.{IsTrue, Going-IsTrue, partial-IsTrue, Op, act_all}
use yank.Net.Wire.{Postcard, read_exact, read_message}
use yank.Net.Proto.{ContentReply, sending, missing, max_reply_size}
use yank.Daemon.Fetch.{
  Beside, Peer, Course, take_in, receive_file, on_reply, pull_file, and_then, pull_files,
  partial_all, requests_of, pull, missing_of, is_empty, pull_peers, pull_all, retry, attempts,
}

-- The hashes of a manifest are hashes.
abbrev pub IsManifest : List FileRef → Type 0
IsManifest = All (λ file. IsHash file.hash)

abbrev IsAsked : List (FileRef × ℕ) → Type 0
IsAsked = All (λ entry. IsHash entry.0.hash)

All-keep {ℓ κ} :
    {A : Type ℓ} (P : A → Type κ) (test : A → Bool) (xs : List A) → All P xs → All P (keep test xs)
All-keep P test [] h = tt
All-keep P test (x ∷ xs) h =
    if-elim (All P) (test x) (λ _. (h.0, All-keep P test xs h.1)) (λ _. All-keep P test xs h.1)

-- Nothing is done beside a transfer but sweeps and taking files in.
pub record IsFair (hex : Hex) (beside : Beside) : Type 0 where
  pub before : All (IsBeside hex) beside.before
  pub opened : All (IsBeside hex) beside.opened
  pub written : All (IsBeside hex) beside.written

pub record IsFairPeer (hex : Hex) (peer : Peer) : Type 0 where
  pub beside : (i : ℕ) → IsFair hex (peer.beside i)
  pub after : All (IsBeside hex) peer.after

module _ (crates : Crates) (hex : Hex) (show : Stamp → Str) (lawful : IsHex hex)
    (digest : IsDigest crates) (postcard : Postcard ContentReply) where
  -- What is written to a file that was opened, whatever was done in between.
  written-IsTrue :
      (ops : List Op) (h : Hash) (chunk : Bytes) (t : Store × Incoming)
      → All (IsBeside hex) ops
      → Fed hex h t
      → IsTrue crates hex t.0
      → let written = append hex chunk (act_all crates hex show ops t.0, t.1) in
        Fed hex h written × IsTrue crates hex written.0
  written-IsTrue ops h chunk t fair fed held =
      append-Fed crates hex show lawful digest h chunk (act_all crates hex show ops t.0, t.1)
        (act_all-Fed crates hex show lawful digest ops h t fair fed)
        (act_all-Beside crates hex show lawful digest ops t.0 fair held)

  take_in-IsTrue :
      (beside : Beside) (h : Hash) (t : Store × Incoming) (stream : Bytes)
      (r : Result (Bytes × Bytes))
      → IsFair hex beside
      → IsHash h
      → Fed hex h t
      → IsTrue crates hex t.0
      → IsTrue crates hex (take_in crates hex show postcard beside stream t r).0
  take_in-IsTrue beside h t stream (err e) fair good fed held =
      (written-IsTrue beside.opened h stream t fair.opened fed held).1
  take_in-IsTrue beside h t stream (ok (bytes, rest)) fair good fed held =
      let (fed', held') = written-IsTrue beside.opened h bytes t fair.opened fed held in
      let written = append hex bytes (act_all crates hex show beside.opened t.0, t.1) in
      finish-Fed crates hex show lawful digest h
        (act_all crates hex show beside.written written.0, written.1) good
        (act_all-Fed crates hex show lawful digest beside.written h written fair.written fed')
        (act_all-Beside crates hex show lawful digest beside.written written.0 fair.written held')

  receive_file-IsTrue :
      (beside : Beside) (file : FileRef) (from : ℕ) (stream : Bytes) (store : Store)
      → IsFair hex beside
      → IsHash file.hash
      → IsTrue crates hex store
      → IsTrue crates hex (receive_file crates hex show postcard beside file from stream store).0
  unfolding receive_file
  receive_file-IsTrue beside file from stream store fair good held =
      let t = receive hex file.hash store in
      let done = unwrap_or (read (partial_name hex file.hash) store.blobs) [] in
      let going = receive-Going hex file.hash store in
      let opened = Going-IsTrue crates hex lawful file.hash done store t held going in
      if-elim {A = Store × Result Bytes} (λ r. IsTrue crates hex r.0) (at t.1 == from)
        (λ _.
          take_in-IsTrue beside file.hash t stream (read_exact (file.size - from) stream) fair good
            (Going-Fed hex file.hash done store t going) opened)
        (λ _. opened)

  on_reply-IsTrue :
      (beside : Beside) (file : FileRef) (from : ℕ) (store : Store)
      (r : Result (ContentReply × Bytes))
      → IsFair hex beside
      → IsHash file.hash
      → IsTrue crates hex store
      → IsTrue crates hex (on_reply crates hex show postcard beside file from store r).0
  on_reply-IsTrue beside file from store (err e) fair good held = held
  on_reply-IsTrue beside file from store (ok (missing, stream)) fair good held = held
  on_reply-IsTrue beside file from store (ok (sending size, stream)) fair good held =
      if-elim {A = Store × Result Bytes} (λ r. IsTrue crates hex r.0)
        (ltb (from + size) (2 ^ 64) && (from + size == file.size))
        (λ _. receive_file-IsTrue beside file from stream store fair good held) (λ _. held)

  pull_file-IsTrue :
      (still : Bool) (beside : Beside) (file : FileRef) (from : ℕ) (stream : Bytes) (store : Store)
      → IsFair hex beside
      → IsHash file.hash
      → IsTrue crates hex store
      → IsTrue crates hex (pull_file crates hex show postcard still beside file from stream store).0
  unfolding pull_file
  pull_file-IsTrue true beside file from stream store fair good held =
      on_reply-IsTrue beside file from (act_all crates hex show beside.before store)
        (read_message postcard max_reply_size stream) fair good
        (act_all-Beside crates hex show lawful digest beside.before store fair.before held)
  pull_file-IsTrue false beside file from stream store fair good held =
      act_all-Beside crates hex show lawful digest beside.before store fair.before held

  and_then-IsTrue :
      (r : Store × Result Bytes) (next : Bytes → Store → Store × Result (Unit {0}))
      → IsTrue crates hex r.0
      → ((stream : Bytes) (store : Store)
          → IsTrue crates hex store
          → IsTrue crates hex (next stream store).0)
      → IsTrue crates hex (and_then crates hex show postcard r next).0
  and_then-IsTrue (store, err e) next held keeps = held
  and_then-IsTrue (store, ok stream) next held keeps = keeps stream store held

  pull_files-IsTrue :
      (peer : Peer) (i : ℕ) (files : List (FileRef × ℕ)) (stream : Bytes) (store : Store)
      → IsFairPeer hex peer
      → IsAsked files
      → IsTrue crates hex store
      → IsTrue crates hex (pull_files crates hex show postcard peer i files stream store).0
  unfolding pull_files
  pull_files-IsTrue peer i [] stream store fair good held = held
  pull_files-IsTrue peer i ((file, from) ∷ files) stream store fair good held =
      and_then-IsTrue
        (pull_file crates hex show postcard (peer.still i) (peer.beside i) file from stream store) _
        (pull_file-IsTrue (peer.still i) (peer.beside i) file from stream store (fair.beside i)
          good.0 held)
        (λ rest next keeps. pull_files-IsTrue peer (i + 1) files rest next fair good.1 keeps)

  partial_all-IsTrue :
      (files : List FileRef) (store : Store)
      → IsManifest files
      → IsTrue crates hex store
      → IsTrue crates hex (partial_all crates hex show postcard files store).0
        × IsAsked (partial_all crates hex show postcard files store).1
  unfolding partial_all
  partial_all-IsTrue [] store good held = (held, tt)
  partial_all-IsTrue (file ∷ files) store good held =
      let first = partial-IsTrue crates hex lawful file.hash file.size store held in
      let rest = partial_all-IsTrue files (partial hex file.hash file.size store).0 good.1 first in
      (rest.0, (good.0, rest.1))

  pull-IsTrue :
      (peer : Peer) (files : List FileRef) (store : Store)
      → IsFairPeer hex peer
      → IsManifest files
      → IsTrue crates hex store
      → IsTrue crates hex (pull crates hex show postcard peer files store).0
  unfolding pull
  pull-IsTrue peer files store fair good held =
      let asked = partial_all crates hex show postcard files store in
      let (true_, proper) = partial_all-IsTrue files store good held in
      act_all-Beside crates hex show lawful digest peer.after _ fair.after (
        pull_files-IsTrue peer 0 asked.1
          (peer.answer (requests_of crates hex show postcard asked.1)) asked.0 fair proper true_)

  missing_of-IsManifest :
      (seen : List Hash) (store : Store) (files : List FileRef)
      → IsManifest files
      → IsManifest (missing_of crates hex show postcard seen store files)
  unfolding missing_of
  missing_of-IsManifest seen store [] good = tt
  missing_of-IsManifest seen store (file ∷ files) good =
      if-elim IsManifest (has hex file.hash store)
        (λ _. missing_of-IsManifest seen store files good.1)
        (λ _.
          if-elim IsManifest (any (eq_hash file.hash) seen)
            (λ _. missing_of-IsManifest seen store files good.1)
            (λ _. (good.0, missing_of-IsManifest (file.hash ∷ seen) store files good.1)))

  pull_peers-IsTrue :
      (peers : List Peer) (files : List FileRef) (store : Store)
      → All (IsFairPeer hex) peers
      → IsManifest files
      → IsTrue crates hex store
      → IsTrue crates hex (pull_peers crates hex show postcard peers files store).0
  unfolding pull_peers
  pull_peers-IsTrue [] files store fair good held = held
  pull_peers-IsTrue (peer ∷ peers) files store fair good held =
      if-elim {A = Store × List FileRef} (λ r. IsTrue crates hex r.0)
        (is_empty crates hex show postcard files) (λ _. held)
        (λ _.
          pull_peers-IsTrue peers _ (pull crates hex show postcard peer files store).0 fair.1
            (All-keep (λ file. IsHash file.hash) _ files good)
            (pull-IsTrue peer files store fair.0 good held))

  pull_all-IsTrue :
      (peers : List Peer) (files : List FileRef) (store : Store)
      → All (IsFairPeer hex) peers
      → IsManifest files
      → IsTrue crates hex store
      → IsTrue crates hex (pull_all crates hex show postcard peers files store).0
  unfolding pull_all
  pull_all-IsTrue peers files store fair good held =
      pull_peers-IsTrue peers (missing_of crates hex show postcard [] store files) store fair
        (missing_of-IsManifest [] store files good) held

  retry-IsTrue :
      (left : ℕ) (still : Bool) (waiting : List Op) (again : Store → Store × Result (Unit {0}))
      (r : Store × Result (Unit {0}))
      → ((store : Store) → IsTrue crates hex store → IsTrue crates hex (again store).0)
      → All (IsBeside hex) waiting
      → IsTrue crates hex r.0
      → IsTrue crates hex (retry crates hex show postcard left still waiting again r).0
  retry-IsTrue left still waiting again (store, ok done) keeps fair held = held
  retry-IsTrue zero still waiting again (store, err e) keeps fair held = held
  retry-IsTrue (suc left) true waiting again (store, err e) keeps fair held =
      keeps _ (act_all-Beside crates hex show lawful digest waiting store fair held)
  retry-IsTrue (suc left) false waiting again (store, err e) keeps fair held = held

  pub attempts-IsTrue :
      (course : Course) (left : ℕ) (files : List FileRef) (store : Store)
      → ((n : ℕ) → All (IsFairPeer hex) (course.peers n) × All (IsBeside hex) (course.waiting n))
      → IsManifest files
      → IsTrue crates hex store
      → IsTrue crates hex (attempts crates hex show postcard course left files store).0
  unfolding attempts
  attempts-IsTrue course zero files store fair good held = held
  attempts-IsTrue course (suc left) files store fair good held =
      retry-IsTrue left (course.still left) (course.waiting left)
        (attempts crates hex show postcard course left files)
        (pull_all crates hex show postcard (course.peers left) files store)
        (λ next keeps. attempts-IsTrue course left files next fair good keeps) (fair left).1
        (pull_all-IsTrue (course.peers left) files store (fair left).0 good held)
