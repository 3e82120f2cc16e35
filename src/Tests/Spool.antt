-- ===== src/Tests/Spool.antt =====
-- The spool, the walk and the fetch at concrete inputs.
use yank.Prelude.{◌≡◌, ◌↔◌, refl, true, false, Option, some, List, [], ◌∷◌, all, arith, ok, ◌++◌}
use yank.Prelude.Bytes.{Bytes, Str, codes, eq_list, compare_list, strip_prefix}
use yank.Prelude.Dir.{read, write, delete}
use yank.Files.Crates.{Hash}
use yank.Files.Manifest.{FileRef, is_safe, split, is_plain, is_under, paths_of}
use yank.Clip.Stamp.{Stamp}
use yank.Files.Spool.{Store, file_name, partial_name, lay_out, link_all, occupied, sweep, unwrap_or}
use yank.Files.Spool.Transfer.{Ended, transfer, joined, transfer-Ended}
use yank.Files.Spool.Integrity.{
  IsTrue, Op, takes, asks, stops, ends, lays, sweeps, act_all, act_all-IsTrue,
}
use yank.Files.Spool.Sweep.{Swept, sweep-Swept}
use yank.Files.Spool.Layout.{Clear, is_here, Laid, lay_out_iff, lay_out-Laid}
use yank.Files.Walk.{
  Source, DirEntry, FileType, walk, visit_roots, visit_all, visit, add_file, sort_sources,
  insert_source,
}
use yank.Files.Walk.Found.{Walked, walk-Walked}
use yank.Files.Uri.{FilePath}
use yank.Tests.HexDigits.{hex, encode, hex-IsHex, crates, digest, crates-IsDigest}
use yank.Files.Manifest.Sorted.{no_equal_neighbours}
use yank.Tests.Data.{stamp_of}

abbrev pub show : Stamp → Str
show stamp = stamp.millis ∷ []

abbrev five : Hash
five = digest (5 ∷ [])

abbrev file : Str → FileRef
file path = record { path = path; size = 2; hash = five }

abbrev pub empty : Store
empty = record { blobs = []; trees = [] }

-- A spool with one content, an unfinished transfer and an old tree.
abbrev pub spool : Store
spool = record {
  blobs = (file_name hex five, 5 ∷ 6 ∷ []) ∷ (partial_name hex (digest (7 ∷ [])), 7 ∷ []) ∷ [];
  trees = (1 ∷ [], []) ∷ [];
}

pub empty-IsTrue : IsTrue crates hex empty
unfolding read
empty-IsTrue h good content e = cc

abbrev tmp : Str
tmp = codes ".tmpA"

apart_encode : (b : Bytes) → eq_list tmp (encode b) ≡ false
unfolding eq_list encode
apart_encode [] = refl
apart_encode (c ∷ b) = ground arith

apart : (h : Hash) → eq_list tmp (file_name hex h) ≡ false
unfolding file_name
apart h = apart_encode h.bytes

abbrev history : List Op
history =
    stops five ((5 ∷ []) ∷ [])
    ∷ asks five 2
    ∷ ends five ((6 ∷ []) ∷ [])
    ∷ takes tmp (some (9 ∷ 9 ∷ []))
    ∷ lays (stamp_of 3 1) (file (codes "a") ∷ [])
    ∷ sweeps (some (stamp_of 3 1)) (five ∷ [])
    ∷ []

act_all-IsTrue_example : IsTrue crates hex (act_all crates hex show history empty)
act_all-IsTrue_example =
    act_all-IsTrue crates hex show hex-IsHex crates-IsDigest history empty
      (tt, (tt, (crates-IsDigest (5 ∷ []), (apart, (tt, (tt, tt)))))) empty-IsTrue

transfer-Ended_example :
    Ended crates hex
      (digest (7 ∷ []))
      (joined
        (unwrap_or (read (partial_name hex (digest (7 ∷ []))) spool.blobs) [])
        ((8 ∷ []) ∷ []))
      spool
      (transfer crates hex (digest (7 ∷ [])) ((8 ∷ []) ∷ []) spool)
transfer-Ended_example = transfer-Ended crates hex hex-IsHex (digest (7 ∷ [])) ((8 ∷ []) ∷ []) spool

sweep-Swept_example :
    Swept hex show
      (some (stamp_of 3 1))
      (five ∷ [])
      spool
      (sweep hex show (some (stamp_of 3 1)) (five ∷ []) spool)
sweep-Swept_example = sweep-Swept hex hex-IsHex show (some (stamp_of 3 1)) (five ∷ []) spool

abbrev pair : List FileRef
pair = file (codes "d/a") ∷ file (codes "d/b") ∷ []

pair-ok : (lay_out hex show (stamp_of 3 1) pair spool).1 ≡ ok tt
unfolding lay_out link_all is_safe split is_plain eq_list occupied is_under read write delete
    file_name partial_name encode strip_prefix
pair-ok = refl

lay_out_iff_example : ((lay_out hex show (stamp_of 3 1) pair spool).1 ≡ ok tt) ↔ (
    (all is_safe pair ≡ true) × (all (is_here hex spool.blobs) pair ≡ true) × Clear (paths_of pair))
lay_out_iff_example = lay_out_iff hex show (stamp_of 3 1) pair spool

lay_out-Laid_example :
    Laid hex (show (stamp_of 3 1)) pair spool (lay_out hex show (stamp_of 3 1) pair spool).0
lay_out-Laid_example = lay_out-Laid hex show (stamp_of 3 1) pair spool pair-ok

abbrev entry : FileType → Str → Option (DirEntry)
entry type_ name =
    some (record {
      file_type = type_;
      path = codes "/home/" ++ name;
      name = some name;
      size = some 10;
    })

abbrev listing : FilePath → List (Option DirEntry)
listing root =
    entry FileType.dir (codes "d")
    ∷ entry FileType.file (codes "d/b")
    ∷ entry FileType.file (codes "d/a")
    ∷ []

abbrev found : List Source
found =
    record { from = codes "/home/d/a"; path = codes "d/a" }
    ∷ record { from = codes "/home/d/b"; path = codes "d/b" }
    ∷ []

walk-ok : walk listing (codes "/home/d" ∷ []) 16 100 ≡ ok found
unfolding walk visit_roots visit_all visit add_file sort_sources insert_source compare_list eq_list
    no_equal_neighbours
walk-ok = refl

walk-Walked_example : Walked listing (codes "/home/d" ∷ []) 16 100 found
walk-Walked_example = walk-Walked listing (codes "/home/d" ∷ []) 16 100 found walk-ok
