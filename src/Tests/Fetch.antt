-- ===== src/Tests/Fetch.antt =====
-- A fetch of two files from two machines, at concrete inputs.
use yank.Prelude.{ℕ, true, Option, none, some, List, [], ◌∷◌}
use yank.Prelude.Bytes.{Bytes, Str, codes}
use yank.Files.Manifest.{FileRef}
use yank.Net.Proto.{ContentReply, sending, missing}
use yank.Net.Wire.{Postcard}
use yank.Files.Spool.Integrity.{Op, takes, sweeps}
use yank.Daemon.Fetch.{Beside, Peer, Course}
use yank.Tests.HexDigits.{digest}
use yank.Tests.Data.{stamp_of}

abbrev decode_reply : Bytes → Option (ContentReply × Bytes)
decode_reply [] = none
decode_reply (n ∷ []) = some (missing, [])
decode_reply (n ∷ size ∷ rest) = some (sending size, rest)

abbrev encode_reply : ContentReply → Bytes
encode_reply missing = 0 ∷ []
encode_reply (sending size) = 1 ∷ size ∷ []

abbrev postcard : Postcard ContentReply
postcard = record { to_stdvec = encode_reply; take_from_bytes = decode_reply }

abbrev wanted_files : List FileRef
wanted_files =
    record { path = codes "d/a"; size = 2; hash = digest (5 ∷ []) }
    ∷ record { path = codes "d/b"; size = 1; hash = digest (7 ∷ []) }
    ∷ []

abbrev quiet : Beside
quiet = record { before = []; opened = []; written = [] }

abbrev this_clip : Op
this_clip = sweeps (some (stamp_of 3 1)) (digest (5 ∷ []) ∷ digest (7 ∷ []) ∷ [])

abbrev drawn : Str
drawn = codes ".tmpA"

-- A file that is taken in and a sweep for the clip while the content of the second machine arrives.
abbrev busy : Beside
busy = record {
  before = [];
  opened = takes drawn (some (9 ∷ [])) ∷ this_clip ∷ [];
  written = this_clip ∷ [];
}

-- The first machine has the first file only, the second sends what is left.
abbrev machines : ℕ → List Peer
machines n =
    record {
      answer = λ asked. 2 ∷ 0 ∷ 0 ∷ 0 ∷ 1 ∷ 2 ∷ 5 ∷ 6 ∷ 1 ∷ 0 ∷ 0 ∷ 0 ∷ 0 ∷ [];
      still = λ i. true;
      beside = λ i. quiet;
      after = [];
    }
    ∷ record {
      answer = λ asked. 2 ∷ 0 ∷ 0 ∷ 0 ∷ 1 ∷ 1 ∷ 7 ∷ [];
      still = λ i. true;
      beside = λ i. busy;
      after = [];
    }
    ∷ []

abbrev course : Course
course = record {
  peers = machines;
  still = λ n. true;
  waiting = λ n. [];
  laying = [];
  laid = this_clip ∷ [];
}
