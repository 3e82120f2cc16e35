-- ===== src/Clip/State/Calls.antt =====
-- The mutations of src/clip/state.rs as one step: a call that is refused asks for nothing.
use yank.Prelude.{Bool, Option, List, [], ◌∷◌, ◌++◌, Result, ok, err}
use yank.Files.Crates.{Crates}
use yank.Files.Manifest.{FileRef}
use yank.Files.Uri.{FilePath}
use yank.Clip.Time.{SystemTime, Duration}
use yank.Clip.Stamp.{Stamp}
use yank.Clip.Copy.{Selection, Clip}
use yank.Clip.State.{Clipboard, copy, captured, accept, clear, expire, materialized}
use yank.Clip.State.Effects.{Effect, Captured}

pub data Call : Type 0 where
  copies :
      (stamp_now set_now : SystemTime) → Selection → List FileRef → Bool → Option Duration → Call
  captures : (stamp_now set_now : SystemTime) → Captured → List FileRef → Call
  accepts : (wall_now set_now lapse_now : SystemTime) → Clip → Call
  clears : (stamp_now set_now : SystemTime) → Call
  expires : SystemTime → Call
  materializes : Stamp → FilePath → Call

-- What a mutation that can refuse leaves, and what it asks for.
abbrev pub asked : Clipboard × Result (List Effect) → Clipboard × List Effect
asked (board, ok effects) = (board, effects)
asked (board, err e) = (board, [])

unfoldable pub step : Crates → Call → Clipboard → Clipboard × List Effect
step crates (copies stamp_now set_now selection files secret ttl) board =
    asked (copy crates stamp_now set_now selection files secret ttl board)
step crates (captures stamp_now set_now c files) board =
    captured crates stamp_now set_now c files board
step crates (accepts wall_now set_now lapse_now clip) board =
    asked (accept crates wall_now set_now lapse_now clip board)
step crates (clears stamp_now set_now) board = clear crates stamp_now set_now board
step crates (expires now) board = expire crates now board
step crates (materializes stamp tree) board = materialized crates stamp tree board

-- A history: the clipboard after it, and everything that it asked for.
unfoldable pub run : Crates → List Call → Clipboard → Clipboard × List Effect
run crates [] board = (board, [])
run crates (call ∷ calls) board =
    let (board', effects) = step crates call board in
    let (board'', more) = run crates calls board' in (board'', effects ++ more)
