-- ===== src/Tests/Exchange.antt =====
-- A pull from one machine by another, at a concrete clip.
use yank.Prelude.{ℕ, ◌≡◌, refl, true, false, Option, none, some, [], ◌∷◌, ok}
use yank.Prelude.Bytes.{Bytes, eq_list, eq_ignore_ascii_case, strip_prefix}
use yank.Clip.Copy.{Clip, check, is_usable, is_files, selection_size}
use yank.Files.Manifest.{validate, sort, no_neighbours_clash}
use yank.Clip.Mime.{is_text, is_local, is_content}
use yank.Clip.Time.{unix_epoch}
use yank.Clip.Stamp.{le_option, cmp_option, cmp, is_plausible}
use yank.Clip.State.{head}
use yank.Clip.State.Converge.{Delivery, IsGood}
use yank.Net.Wire.{
  write_message, write_encoded, to_le_bytes, read_message, read_exact, from_le_bytes,
}
use yank.Net.Proto.{Ask, missing, validate_ask}
use yank.Daemon.Service.{Service}
use yank.Daemon.Exchange.{Codecs, fetch_ask, serve_ask, fetch_round}
use yank.Daemon.Exchange.Caught.{fetch_round-caught}
use yank.Tests.HexDigits.{hex}
use yank.Tests.Data.{crates, at, clip_of, board_of, stamp_of}

-- A clip is written as its stamp; what it holds is always the plain copy.
abbrev encode_clip : Option Clip → Bytes
encode_clip none = []
encode_clip (some held) = held.stamp.millis ∷ held.stamp.origin ∷ []

abbrev decode_clip : Bytes → Option (Option Clip × Bytes)
decode_clip [] = some (none, [])
decode_clip (millis ∷ []) = none
decode_clip (millis ∷ origin ∷ rest) = some (some (clip_of millis origin), rest)

abbrev codecs : Codecs
codecs = record {
  ask = record { to_stdvec = λ a. 0 ∷ []; take_from_bytes = λ b. some (Ask.clip, []) };
  reply = record { to_stdvec = λ r. []; take_from_bytes = λ b. some (missing, b) };
  clip = record { to_stdvec = encode_clip; take_from_bytes = decode_clip };
}

abbrev service_of : ℕ → Option Clip → Service
service_of origin clip = record {
  board = record (board_of origin) { clip = clip };
  head = none;
  disk = none;
  jobs = [];
  commands = [];
  has_backend = false;
}

abbrev delivered : Delivery
delivered = record {
  clip = clip_of 1000 3;
  wall_now = at 2000;
  set_now = at 2000;
  lapse_now = at 2000;
}

abbrev ask_frame : Bytes
ask_frame = 1 ∷ 0 ∷ 0 ∷ 0 ∷ 0 ∷ []

abbrev answer_frame : Bytes
answer_frame = 2 ∷ 0 ∷ 0 ∷ 0 ∷ 1000 ∷ 3 ∷ []

asked : fetch_ask hex codecs ≡ ok ask_frame
unfolding write_message write_encoded to_le_bytes
asked = refl

answered :
    serve_ask hex codecs (service_of 3 (some (clip_of 1000 3))) [] ask_frame ≡ ok answer_frame
unfolding serve_ask read_message read_exact from_le_bytes validate_ask write_encoded to_le_bytes
answered = refl

delivered-IsGood : IsGood crates 1 delivered
unfolding unix_epoch is_plausible check is_usable eq_list eq_ignore_ascii_case strip_prefix is_text
    is_local is_content is_files selection_size validate sort no_neighbours_clash
delivered-IsGood = record { foreign = refl; plausible = refl; sound = refl }

newer_enough : le_option (some (stamp_of 1000 3)) (some (stamp_of 1000 3)) ≡ true
unfolding le_option cmp_option cmp
newer_enough = refl

fetch_round-caught_example :
    le_option (some (stamp_of 1000 3)) (
      head
        (fetch_round hex codecs crates true
          (at 2000)
          (at 2000)
          (at 2000)
          (stamp_of 1000 3)
          answer_frame
          (service_of 1 none)).board)
    ≡ true
fetch_round-caught_example =
    fetch_round-caught hex codecs crates true delivered (service_of 3 (some (clip_of 1000 3)))
      (service_of 1 none) (stamp_of 1000 3) [] ask_frame answer_frame refl refl asked answered refl
      delivered-IsGood newer_enough
