-- ===== src/Net/Wire.antt =====
-- src/net/wire.rs: length-prefixed framing. A stream is the bytes that are left to read; what one side
-- writes is appended to it. The encoding of a message is postcard's, a parameter.
pub mod RoundTrip
use yank.Prelude.{
  ℕ, zero, suc, ◌+◌, ◌*◌, ◌/◌, ◌%◌, ◌^◌, ◌≡◌, Bool, true, false, Option, none, some, List, [], ◌∷◌,
  ◌++◌, leb, ltb, length, Result, ok, err, ensure, ◌>>=◌, ◌>>◌, message_too_large, stream_ended,
  cannot_decode, trailing_bytes,
}
use yank.Prelude.Bytes.{Bytes}

-- `postcard::to_stdvec` and `postcard::take_from_bytes`, for the messages of one type.
pub record Postcard {ℓ} (M : Type ℓ) : Type ℓ where
  pub to_stdvec : M → Bytes
  pub take_from_bytes : Bytes → Option (M × Bytes)

-- Decoding what was encoded gives the message, and leaves nothing.
pub record IsCodec {ℓ} {M : Type ℓ} (postcard : Postcard M) : Type ℓ where
  pub decode-encode :
      (message : M) → postcard.take_from_bytes (postcard.to_stdvec message) ≡ some (message, [])

-- `u32::to_le_bytes` and `u32::from_le_bytes`
unfoldable pub to_le_bytes : ℕ → Bytes
to_le_bytes n = n % 256 ∷ n / 256 % 256 ∷ n / 65_536 % 256 ∷ n / 16_777_216 % 256 ∷ []

unfoldable pub from_le_bytes : Bytes → ℕ
from_le_bytes [] = 0
from_le_bytes (b ∷ bytes) = b + 256 * from_le_bytes bytes

-- `read_exact`: that many bytes, and what is left.
unfoldable pub read_exact : ℕ → Bytes → Result (Bytes × Bytes)
read_exact zero stream = ok ([], stream)
read_exact (suc n) [] = err stream_ended
read_exact (suc n) (b ∷ stream) = do more ← read_exact n stream; ok (b ∷ more.0, more.1)

-- `write_encoded`: what is written.
unfoldable pub write_encoded : Bytes → ℕ → Result Bytes
unfolding to_le_bytes
write_encoded bytes max_size = do
  ensure (ltb (length bytes) (2 ^ 32)) message_too_large
  ensure (leb (length bytes) max_size) message_too_large
  ok (to_le_bytes (length bytes) ++ bytes)

abbrev pub of_option {ℓ} : {A : Type ℓ} → Option A → Result A
of_option none = err cannot_decode
of_option (some a) = ok a

abbrev pub is_empty : Bytes → Bool
is_empty [] = true
is_empty (b ∷ bytes) = false

module _ {ℓ} {M : Type ℓ} (postcard : Postcard M) where
  -- `write_message`
  unfoldable pub write_message : M → ℕ → Result Bytes
  write_message message max_size = write_encoded (postcard.to_stdvec message) max_size

  -- `read_message`: the message, and what is left of the stream.
  unfoldable pub read_message : ℕ → Bytes → Result (M × Bytes)
  read_message max_size stream = do
    prefix ← read_exact 4 stream
    ensure (leb (from_le_bytes prefix.0) max_size) message_too_large
    body ← read_exact (from_le_bytes prefix.0) prefix.1
    decoded ← of_option (postcard.take_from_bytes body.0)
    ensure (is_empty decoded.1) trailing_bytes
    ok (decoded.0, body.1)
