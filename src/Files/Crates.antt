-- ===== src/Files/Crates.antt =====
-- What the code takes from other packages: the blake3 hash of a buffer, and percent encoding with the
-- set that src/files/mod.rs hands it. The operations are parameters of the model; `IsUriCodec` states
-- what the documentation of `percent_encoding` promises of them.
use yank.Prelude.{
  ℕ, ◌*◌, length, Option, some, ◌<◌, All, ◌≡◌, Bool, true, false, ◌&&◌, ◌||◌, ◌∷◌, leb, ◌==◌, all,
}
use yank.Prelude.Bytes.{Bytes, Str, len, has_char}

-- `Hash([u8; 32])`
pub record Hash : Type 0 where
  pub bytes : Bytes

pub record Crates : Type 0 where
  pub blake3 : Bytes → Hash
  pub percent_encode : Bytes → Bytes
  pub percent_decode : Bytes → Bytes

is_alphanumeric : ℕ → Bool
is_alphanumeric c = leb b'0' c && leb c b'9' || leb b'A' c && leb c b'Z' || leb b'a' c && leb c b'z'

-- What may stand in an encoded path: `UNRESERVED` leaves these bytes alone, and an escape is a percent
-- sign and two digits.
unfoldable pub is_uri_byte : ℕ → Bool
unfolding is_alphanumeric
is_uri_byte c =
    is_alphanumeric c || c == b'-' || c == b'.' || c == b'_' || c == b'~' || c == b'/' || c == b'%'

-- Decoding undoes encoding, the separator is left alone, and what comes out is unreserved.
pub record IsUriCodec (crates : Crates) : Type 0 where
  pub decode-encode :
      (p : Bytes) → All (λ c. c < 256) p → crates.percent_decode (crates.percent_encode p) ≡ p
  pub encode_slash : (p : Bytes) → crates.percent_encode (b'/' ∷ p) ≡ b'/' ∷ crates.percent_encode p
  pub encode_plain : (p : Bytes) → all is_uri_byte (crates.percent_encode p) ≡ true

-- `data_encoding::HEXLOWER`
pub record Hex : Type 0 where
  pub encode : Bytes → Str
  pub decode : Str → Option Bytes

-- Decoding undoes encoding, nothing but an encoding decodes, each byte is two digits, and no digit is
-- a dot.
pub record IsHex (hex : Hex) : Type 0 where
  pub decode-encode : (b : Bytes) → All (λ c. c < 256) b → hex.decode (hex.encode b) ≡ some b
  pub encode-decode : (name : Str) (b : Bytes) → hex.decode name ≡ some b → hex.encode b ≡ name
  pub len-encode : (b : Bytes) → len (hex.encode b) ≡ 2 * length b
  pub no_dot : (b : Bytes) → has_char b'.' (hex.encode b) ≡ false
