-- ===== src/Net/Contents.antt =====
-- src/daemon/peers.rs: `send_contents`, what a machine answers to a request for contents. A file is what
-- it holds when it is opened; one that shrinks while it is sent ends the stream.
use yank.Prelude.{
  ℕ, zero, suc, min, Option, none, some, List, [], ◌∷◌, ◌++◌, length, Result, ok, ◌>>=◌,
}
use yank.Prelude.Bytes.{Bytes}
use yank.Prelude.Dir.{Dir, read}
use yank.Files.Crates.{Hex}
use yank.Files.Spool.{file_name}
use yank.Net.Wire.{Postcard, write_message}
use yank.Net.Proto.{ContentRequest, ContentReply, sending, missing, max_reply_size}

abbrev pub drop : ℕ → Bytes → Bytes
drop zero bytes = bytes
drop (suc n) [] = []
drop (suc n) (b ∷ bytes) = drop n bytes

module _ (hex : Hex) (postcard : Postcard ContentReply) where
  -- The header of one content, and its bytes from the offset on.
  abbrev pub send_content : ℕ → Option Bytes → Result Bytes
  send_content at none = write_message postcard missing max_reply_size
  send_content at (some content) = do
    let rest = drop (min at (length content)) content
    header ← write_message postcard (sending (length rest)) max_reply_size
    ok (header ++ rest)

  unfoldable pub send_contents : Dir Bytes → List ContentRequest → Result Bytes
  send_contents blobs [] = ok []
  send_contents blobs (request ∷ requests) = do
    sent ← send_content request.at (read (file_name hex request.hash) blobs)
    more ← send_contents blobs requests
    ok (sent ++ more)
