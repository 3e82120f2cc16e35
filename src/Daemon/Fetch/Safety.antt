-- ===== src/Daemon/Fetch/Safety.antt =====
-- src/daemon/files.rs: whatever the peers send, what is laid out is what the manifest names.
use yank.Prelude.{ℕ, ◌≡◌, some, List, All}
use yank.Prelude.Bytes.{Bytes, Str}
use yank.Prelude.Dir.{Dir, read}
use yank.Files.Crates.{Crates, Hex}
use yank.Files.Manifest.{FileRef}
use yank.Files.Spool.{Store}
use yank.Files.Spool.Beside.{IsBeside, IsFor}
use yank.Clip.Stamp.{Stamp}
use yank.Daemon.Fetch.{Course}
use yank.Daemon.Fetch.Kept.{IsFairPeer}

-- What a fetch leaves on the disk: the tree of the clip has every file, with the content that the hash
-- names.
pub record Delivered (crates : Crates) (name : Str) (files : List FileRef) (store : Store)
    : Type 0 where
  pub tree : Dir Bytes
  pub stands : read name store.trees ≡ some tree
  pub holds :
      All
        (λ file.
          (content : Bytes) × (read file.path tree ≡ some content)
          × (crates.blake3 content ≡ file.hash))
        files

-- What is done to the spool during a fetch for the clip of `stamp`: sweeps for any clip, and files taken in;
-- once the files are laid out, no sweep for another clip.
pub record IsFairCourse (hex : Hex) (stamp : Stamp) (course : Course) : Type 0 where
  pub pulling :
      (n : ℕ) → All (IsFairPeer hex) (course.peers n) × All (IsBeside hex) (course.waiting n)
  pub laying : All (IsBeside hex) course.laying
  pub laid : All (IsFor stamp) course.laid
