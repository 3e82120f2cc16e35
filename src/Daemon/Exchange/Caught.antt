-- ===== src/Daemon/Exchange/Caught.antt =====
-- src/daemon/peers.rs: what one machine asks and another answers, and that a pull catches up.
use yank.Prelude.{
  ◌≡◌, refl, sym, ap, ◌∙◌, true, Bool, some, List, [], ◌∷◌, ◌++◌, Result, ok, err, if-elim,
}
use yank.Prelude.Bytes.{Bytes}
use yank.Prelude.Dir.{Dir}
use yank.Files.Crates.{Crates, Hex}
use yank.Clip.Stamp.{Stamp, le_option}
use yank.Clip.Stamp.Order.{le_option_trans}
use yank.Clip.State.{Clipboard, head, accept}
use yank.Clip.State.Effects.{Effect}
use yank.Clip.State.Converge.{Delivery, IsGood, take_in, newer, newer-le_new, head-take_in}
use yank.Net.Wire.{write_message, read_message}
use yank.Net.Wire.RoundTrip.{Decodes, read_message-write_message_of}
use yank.Net.Proto.{clip, max_request_size, max_clip_size, validate_ask}
use yank.Daemon.Service.{Service, finish, settle, try_change, accept_clip}
use yank.Daemon.Service.InStep.{board-perform_all}
use yank.Daemon.Exchange.{Codecs, serve_ask, fetch_ask, fetch_answer, fetch_round}

append_nil : (a : Bytes) → a ++ [] ≡ a
append_nil [] = refl
append_nil (x ∷ a) = ap (λ t. x ∷ t) (append_nil a)

board-finish :
    (written : Bool) (change : Clipboard × List Effect) (service : Service)
    → (finish written change service).board ≡ change.0
unfolding finish
board-finish written (board, []) service = refl
board-finish written (board, effect ∷ effects) service =
    board-perform_all written (effect ∷ effects) (record service { board = board })

board-settle :
    (written : Bool) (service : Service) (r : Clipboard × Result (List Effect))
    → (settle written service r).0.board ≡ r.0
board-settle written service (board, err e) = refl
board-settle written service (board, ok effects) = board-finish written (board, effects) service

board-accept_clip :
    (crates : Crates) (written : Bool) (d : Delivery) (service : Service)
    → (accept_clip crates written d.wall_now d.set_now d.lapse_now d.clip service).0.board
      ≡ take_in crates d service.board
unfolding accept_clip try_change take_in
board-accept_clip crates written d service =
    board-settle written service
      (accept crates d.wall_now d.set_now d.lapse_now d.clip service.board)

module _ (hex : Hex) (codecs : Codecs) where
  -- A machine that is asked for its clip answers with the one that it holds, where both messages fit.
  pub fetch_answer-serve_ask :
      (peer : Service) (blobs : Dir Bytes) (ask answer : Bytes)
      → Decodes codecs.ask clip
      → Decodes codecs.clip peer.board.clip
      → fetch_ask hex codecs ≡ ok ask
      → serve_ask hex codecs peer blobs ask ≡ ok answer
      → fetch_answer hex codecs answer ≡ ok (peer.board.clip, [])
  unfolding serve_ask write_message validate_ask
  fetch_answer-serve_ask peer blobs ask answer good_ask good_clip asked answered =
      let heard =
        ap (read_message codecs.ask max_request_size) (sym (append_nil ask))
        ∙ read_message-write_message_of codecs.ask clip max_request_size ask [] good_ask asked in
      let sent : write_message codecs.clip peer.board.clip max_clip_size ≡ ok answer =
        rw heard at answered in
      ap (read_message codecs.clip max_clip_size) (sym (append_nil answer))
      ∙ read_message-write_message_of codecs.clip peer.board.clip max_clip_size answer [] good_clip
          sent

  -- A pull from a machine that answers catches up with what it announced, whatever was held before: a clip
  -- that is not refused, and is no older than the announcement, leaves the head no older than it, where both
  -- messages fit and decode.
  pub fetch_round-caught :
      (crates : Crates) (written : Bool) (d : Delivery) (peer service : Service) (announced : Stamp)
      (blobs : Dir Bytes) (ask answer : Bytes)
      → Decodes codecs.ask clip
      → Decodes codecs.clip peer.board.clip
      → fetch_ask hex codecs ≡ ok ask
      → serve_ask hex codecs peer blobs ask ≡ ok answer
      → peer.board.clip ≡ some d.clip
      → IsGood crates service.board.origin d
      → le_option (some announced) (some d.clip.stamp) ≡ true
      → le_option (some announced) (
          head
            (fetch_round hex codecs crates written d.wall_now d.set_now d.lapse_now announced answer
              service).board)
        ≡ true
  unfolding fetch_round
  fetch_round-caught crates written d peer service announced blobs ask answer good_ask good_clip
        asked answered holds good older =
      if-elim {A = Service} (λ s. le_option (some announced) (head s.board) ≡ true)
        (le_option (some announced) (head service.board)) (λ known. known)
        (λ _.
          rw (fetch_answer-serve_ask peer blobs ask answer good_ask good_clip asked answered, holds)
            (rw
              (board-accept_clip crates written d service, head-take_in crates d service.board good)
              (le_option_trans (some announced) (some d.clip.stamp)
                (newer (head service.board) d.clip.stamp) older
                (newer-le_new (head service.board) d.clip.stamp))))
