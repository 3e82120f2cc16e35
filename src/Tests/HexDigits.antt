-- ===== src/Tests/HexDigits.antt =====
-- Two digits a byte, as the hex encoding of the runs, and a digest of 32 bytes.
use yank.Prelude.{
  ℕ, ◌+◌, ◌-◌, ◌*◌, ◌/◌, ◌%◌, ◌<◌, ◌≡◌, refl, sym, ap, ◌∙◌, false, ◌&&◌, Option, none, some, [],
  ◌∷◌, leb, ltb, length, All, arith, if◌then◌else◌,
}
use yank.Prelude.Bytes.{Bytes, Str, len, has_char}
use yank.Files.Crates.{Crates, Hash, Hex, IsHex}
use yank.Files.Spool.Names.{IsDigest}

abbrev digit : ℕ → ℕ
digit d = if ltb d 10 then 48 + d else 87 + d

abbrev undigit : ℕ → Option ℕ
undigit c =
    if leb 48 c && leb c 57
    then some (c - 48)
    else if leb 97 c && leb c 102
    then some (c - 87)
    else none

abbrev joined : Option ℕ → Option ℕ → Option Bytes → Option Bytes
joined (some h) (some l) (some b) = some ((h * 16 + l) ∷ b)
joined (some h) (some l) none = none
joined (some h) none b = none
joined none l b = none

unfoldable pub encode : Bytes → Str
encode [] = []
encode (c ∷ b) = digit (c / 16 % 16) ∷ digit (c % 16) ∷ encode b

unfoldable pub decode : Str → Option Bytes
decode [] = some []
decode (h ∷ []) = none
decode (h ∷ l ∷ name) = joined (undigit h) (undigit l) (decode name)

abbrev pub hex : Hex
hex = record { encode = encode; decode = decode }

undigit-digit : (d : ℕ) → d < 16 → undigit (digit d) ≡ some d
undigit-digit d h = ground arith

digit-undigit : (c d : ℕ) → undigit c ≡ some d → (digit d ≡ c) × (d < 16)
digit-undigit c d e = (ground (arith, e), ground (arith, e))

decode-encode : (b : Bytes) → All (λ c. c < 256) b → decode (encode b) ≡ some b
unfolding encode decode
decode-encode [] h = refl
decode-encode (c ∷ b) h =
    let high : undigit (digit (c / 16 % 16)) ≡ some (c / 16 % 16) =
      undigit-digit (c / 16 % 16) (omega arith) in
    let low : undigit (digit (c % 16)) ≡ some (c % 16) = undigit-digit (c % 16) (omega arith) in
    let whole : c / 16 % 16 * 16 + c % 16 ≡ c = omega (arith, h.0) in
    rw (high, low, decode-encode b h.1, whole) refl

joined-eq-some :
    (h l : Option ℕ) (b : Option Bytes) (result : Bytes)
    → joined h l b ≡ some result
    → (x : ℕ) × (y : ℕ) × (more : Bytes) × (h ≡ some x)
      × (l ≡ some y)
      × (b ≡ some more)
      × ((x * 16 + y) ∷ more ≡ result)
joined-eq-some (some x) (some y) (some more) result e = (x, y, more, refl, refl, refl, cc)
joined-eq-some (some x) (some y) none result e = cc
joined-eq-some (some x) none b result e = cc
joined-eq-some none l b result e = cc

some-inj : {a b : Bytes} → some a ≡ some b → a ≡ b
some-inj e = cc

encode-decode : (name : Str) (b : Bytes) → decode name ≡ some b → encode b ≡ name
unfolding encode decode
encode-decode [] b e = ap encode (sym (some-inj e))
encode-decode (h ∷ []) b e = cc
encode-decode (h ∷ l ∷ name) b e =
    let (x, y, more, high, low, rest, whole) =
      joined-eq-some (undigit h) (undigit l) (decode name) b e in
    let (is_h, small) = digit-undigit h x high in
    let (is_l, small') = digit-undigit l y low in
    let upper : (x * 16 + y) / 16 % 16 ≡ x = omega arith in
    let lower : (x * 16 + y) % 16 ≡ y = omega arith in
    let more_eq = encode-decode name more rest in
    ap encode (sym whole) ∙ rw (upper, lower, is_h, is_l, more_eq) refl

len-encode : (b : Bytes) → len (encode b) ≡ 2 * length b
unfolding encode
len-encode [] = refl
len-encode (c ∷ b) = ground (arith, len-encode b)

no_dot : (b : Bytes) → has_char b'.' (encode b) ≡ false
unfolding encode
no_dot [] = refl
no_dot (c ∷ b) = ground (arith, no_dot b)

pub hex-IsHex : IsHex hex
hex-IsHex = record {
  decode-encode = decode-encode;
  encode-decode = encode-decode;
  len-encode = len-encode;
  no_dot = no_dot;
}

-- The first byte of the content, or nothing, and 31 zeros.
abbrev zeros : Bytes
zeros =
    0 ∷ 0 ∷ 0 ∷ 0 ∷ 0 ∷ 0 ∷ 0 ∷ 0 ∷ 0 ∷ 0 ∷ 0 ∷ 0 ∷ 0 ∷ 0 ∷ 0 ∷ 0 ∷ 0 ∷ 0 ∷ 0 ∷ 0 ∷ 0 ∷ 0 ∷ 0 ∷ 0
    ∷ 0 ∷ 0 ∷ 0 ∷ 0 ∷ 0 ∷ 0 ∷ 0 ∷ []

abbrev pub digest : Bytes → Hash
digest [] = record { bytes = 255 ∷ zeros }
digest (c ∷ b) = record { bytes = c % 256 ∷ zeros }

abbrev pub crates : Crates
crates = record { blake3 = digest; percent_encode = λ b. b; percent_decode = λ b. b }

pub crates-IsDigest : IsDigest crates
crates-IsDigest [] = record { size = refl; bytes = ground arith }
crates-IsDigest (c ∷ b) = record { size = refl; bytes = ground arith }
