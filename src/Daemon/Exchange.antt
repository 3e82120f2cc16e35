-- ===== src/Daemon/Exchange.antt =====
-- src/daemon/peers.rs: how a machine answers what it is asked, and how one pulls the clip of another. A
-- stream is what one side writes before it finishes.
pub mod Caught
use yank.Prelude.{
  ℕ, Bool, ◌++◌, Option, none, some, List, [], ◌∷◌, Result, ok, err, ◌>>=◌, ◌>>◌, if◌then◌else◌,
}
use yank.Prelude.Bytes.{Bytes}
use yank.Prelude.Dir.{Dir}
use yank.Files.Crates.{Crates, Hex}
use yank.Clip.Time.{SystemTime}
use yank.Clip.Stamp.{Stamp, le_option, cmp_option, is_plausible}
use yank.Prelude.{Ordering}
use yank.Clip.Copy.{Clip}
use yank.Clip.State.{head}
use yank.Config.Mesh.{MeshState}
use yank.Net.Wire.{Postcard, write_encoded, write_message, read_message}
use yank.Net.Proto.{
  Ask, clip, contents, ContentReply, UniMessage, membership, head_of_clip, max_request_size,
  max_clip_size, validate_ask,
}
use yank.Net.Contents.{send_contents}
use yank.Daemon.Service.{Service, accept_clip}

-- What the messages of the exchange are encoded with.
pub record Codecs : Type 0 where
  pub ask : Postcard Ask
  pub reply : Postcard ContentReply
  pub clip : Postcard (Option Clip)

module _ (hex : Hex) (codecs : Codecs) where
  -- `ClipService::encoded`, whose cache holds the encoding of the clip or nothing.
  abbrev pub encoded : Service → Bytes
  encoded service = codecs.clip.to_stdvec service.board.clip

  -- `send_clip`
  abbrev pub send_clip : Bytes → Result Bytes
  send_clip bytes = write_encoded bytes max_clip_size

  abbrev pub served : Service → Dir Bytes → Ask → Result Bytes
  served service blobs clip = send_clip (encoded service)
  served service blobs (contents requests) = send_contents hex codecs.reply blobs requests

  -- `PeerTask::serve_ask`
  unfoldable pub serve_ask : Service → Dir Bytes → Bytes → Result Bytes
  serve_ask service blobs stream = do
    ask ← read_message codecs.ask max_request_size stream
    validate_ask ask.0
    served service blobs ask.0

  -- `fetch`: what is asked, and what is read of the answer.
  abbrev pub fetch_ask : Result Bytes
  fetch_ask = write_message codecs.ask clip max_request_size

  abbrev pub fetch_answer : Bytes → Result (Option Clip × Bytes)
  fetch_answer stream = read_message codecs.clip max_clip_size stream

  module _ (crates : Crates) (written : Bool) where
    abbrev pub on_pulled :
        (wall_now set_now lapse_now : SystemTime) → Result (Option Clip × Bytes) → Service → Service
    on_pulled wall_now set_now lapse_now (err e) service = service
    on_pulled wall_now set_now lapse_now (ok (none, rest)) service = service
    on_pulled wall_now set_now lapse_now (ok (some pulled, rest)) service =
        (accept_clip crates written wall_now set_now lapse_now pulled service).0

    -- One round of the loop of `run_fetcher`, once the pull is claimed.
    unfoldable pub fetch_round :
        (wall_now set_now lapse_now : SystemTime) → Stamp → Bytes → Service → Service
    fetch_round wall_now set_now lapse_now announced stream service =
        if le_option (some announced) (head service.board)
        then service
        else on_pulled wall_now set_now lapse_now (fetch_answer stream) service

-- `Option::max` of what is held and what is heard: the second of two that compare equal.
abbrev pub newest_of : Option Stamp → Option Stamp → Option Stamp
newest_of a b = elim (cmp_option a b) [ Ordering.gt ↦ a | _ ↦ b ]

-- `PeerTask::serve_uni`, of one message that was read: the newest head announced, and the mesh states that
-- wait for the store, where there is room for them.
unfoldable pub hear :
    SystemTime
    → (has_room : Bool) → UniMessage
    → Option Stamp × List MeshState
    → Option Stamp × List MeshState
hear wall_now has_room (membership state) (held, gossip) =
    (held, if has_room then gossip ++ state ∷ [] else gossip)
hear wall_now has_room (head_of_clip stamp) (held, gossip) =
    if is_plausible wall_now stamp then (newest_of held (some stamp), gossip) else (held, gossip)

unfoldable pub hear_all :
    List (SystemTime × Bool × UniMessage)
    → Option Stamp × List MeshState
    → Option Stamp × List MeshState
unfolding hear
hear_all [] state = state
hear_all ((wall_now, has_room, message) ∷ messages) state =
    hear_all messages (hear wall_now has_room message state)
