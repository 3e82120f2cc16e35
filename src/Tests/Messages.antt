-- ===== src/Tests/Messages.antt =====
-- Framing and requests at concrete inputs.
use yank.Prelude.{ℕ, ◌≡◌, refl, some, [], ◌∷◌, ◌++◌, ok}
use yank.Prelude.Bytes.{Bytes, eq_list}
use yank.Net.Wire.{Postcard, IsCodec, write_message, write_encoded, to_le_bytes, read_message}
use yank.Net.Wire.RoundTrip.{read_message-write_message}
use yank.Net.Proto.{ContentRequest, contents, all_new, validate_ask}

-- Bytes that encode themselves.
abbrev raw : Postcard Bytes
raw = record { to_stdvec = λ b. b; take_from_bytes = λ b. some (b, []) }

raw-IsCodec : IsCodec raw
raw-IsCodec = record { decode-encode = λ b. refl }

abbrev frame : Bytes
frame = 3 ∷ 0 ∷ 0 ∷ 0 ∷ 7 ∷ 8 ∷ 9 ∷ []

frame-ok : write_message raw (7 ∷ 8 ∷ 9 ∷ []) 16 ≡ ok frame
unfolding write_message write_encoded to_le_bytes
frame-ok = refl

read_message-write_message_example :
    read_message raw 16 (frame ++ (1 ∷ 2 ∷ [])) ≡ ok (7 ∷ 8 ∷ 9 ∷ [], 1 ∷ 2 ∷ [])
read_message-write_message_example =
    read_message-write_message raw raw-IsCodec (7 ∷ 8 ∷ 9 ∷ []) 16 frame (1 ∷ 2 ∷ []) frame-ok

abbrev request : ℕ → ContentRequest
request n = record { hash = record { bytes = n ∷ [] }; at = 0 }

request-ok : validate_ask (contents (request 1 ∷ request 2 ∷ [])) ≡ ok tt
unfolding validate_ask all_new eq_list
request-ok = refl
