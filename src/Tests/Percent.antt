-- ===== src/Tests/Percent.antt =====
-- Percent encoding, as the codec of the runs: it keeps what `IsUriCodec` asks for.
use yank.Prelude.{
  ℕ, ◌+◌, ◌-◌, ◌*◌, ◌/◌, ◌%◌, ◌<◌, ◌≡◌, refl, ap, ◌∙◌, true, false, ◌&&◌, [], ◌∷◌, leb, ltb, ◌==◌,
  all, All, arith, if◌then◌else◌, if-elim, not,
}
use yank.Prelude.Bytes.{Bytes}
use yank.Files.Crates.{Crates, IsUriCodec, is_uri_byte}

abbrev hex : ℕ → ℕ
hex d = if ltb d 10 then 48 + d else 55 + d

abbrev unhex : ℕ → ℕ
unhex x = if leb x 57 then x - 48 else x - 55

abbrev encode_byte : ℕ → Bytes → Bytes
encode_byte c rest =
    if is_uri_byte c && not (c == b'%')
    then c ∷ rest
    else b'%' ∷ hex (c / 16 % 16) ∷ hex (c % 16) ∷ rest

pub encode : Bytes → Bytes
encode [] = []
encode (c ∷ p) = encode_byte c (encode p)

pub decode : Bytes → Bytes
decode [] = []
decode (c ∷ []) = c ∷ []
decode (c ∷ d ∷ []) = c ∷ d ∷ []
decode (c ∷ d ∷ e ∷ p) =
    let further = decode p in
    let plain = decode (d ∷ e ∷ p) in
    if c == b'%' then (unhex d * 16 + unhex e) ∷ further else c ∷ plain

abbrev pub codec : Crates
codec = record {
  blake3 = λ b. record { bytes = b };
  percent_encode = encode;
  percent_decode = decode;
}

decode_plain : (c : ℕ) (p : Bytes) → (c == b'%') ≡ false → decode (c ∷ p) ≡ c ∷ decode p
unfolding decode
decode_plain c [] h = refl
decode_plain c (d ∷ []) h = refl
decode_plain c (d ∷ e ∷ p) h = ground (arith, h)

unhex-hex : (d : ℕ) → d < 16 → unhex (hex d) ≡ d
unhex-hex d h = ground arith

decode_escape :
    (c : ℕ) (p : Bytes)
    → c < 256
    → decode (b'%' ∷ hex (c / 16 % 16) ∷ hex (c % 16) ∷ p) ≡ c ∷ decode p
unfolding decode
decode_escape c p h =
    let high : unhex (hex (c / 16 % 16)) ≡ c / 16 % 16 = unhex-hex (c / 16 % 16) (omega arith) in
    let low : unhex (hex (c % 16)) ≡ c % 16 = unhex-hex (c % 16) (omega arith) in
    let whole : c / 16 % 16 * 16 + c % 16 ≡ c = omega arith in rw high (rw low (rw whole refl))

decode-encode : (p : Bytes) → All (λ c. c < 256) p → decode (encode p) ≡ p
unfolding encode decode
decode-encode [] h = refl
decode-encode (c ∷ p) h =
    if-elim (λ b. decode b ≡ c ∷ p) (is_uri_byte c && not (c == b'%'))
      (λ plain.
        decode_plain c (encode p) (ground (arith, plain)) ∙ ap (λ q. c ∷ q) (decode-encode p h.1))
      (λ _. decode_escape c (encode p) h.0 ∙ ap (λ q. c ∷ q) (decode-encode p h.1))

hex-is_uri_byte : (d : ℕ) → d < 16 → is_uri_byte (hex d) ≡ true
unfolding is_uri_byte
hex-is_uri_byte d h = ground arith

is_uri_byte_percent : is_uri_byte b'%' ≡ true
unfolding is_uri_byte
is_uri_byte_percent = refl

encode_plain : (p : Bytes) → all is_uri_byte (encode p) ≡ true
unfolding encode
encode_plain [] = refl
encode_plain (c ∷ p) =
    if-elim (λ b. all is_uri_byte b ≡ true) (is_uri_byte c && not (c == b'%'))
      (λ plain. ground (arith, plain, encode_plain p))
      (λ _. ground (
        arith,
        is_uri_byte_percent,
        encode_plain p,
        hex-is_uri_byte (c / 16 % 16) (omega arith),
        hex-is_uri_byte (c % 16) (omega arith),
      ))

encode_slash : (p : Bytes) → encode (b'/' ∷ p) ≡ b'/' ∷ encode p
unfolding encode is_uri_byte
encode_slash p = refl

pub codec-IsUriCodec : IsUriCodec codec
codec-IsUriCodec = record {
  decode-encode = decode-encode;
  encode_slash = encode_slash;
  encode_plain = encode_plain;
}
