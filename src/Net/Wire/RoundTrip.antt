-- ===== src/Net/Wire/RoundTrip.antt =====
-- src/net/wire.rs: a message that is written is read.
use yank.Prelude.{
  some, ℕ, ◌^◌, ◌<◌, ◌≤◌, ◌≡◌, refl, subst, [], ◌∷◌, ◌++◌, ltb, leb, length, ok, ensure, arith,
  >>-eq-ok, ensure-eq-ok, ltb→lt, leb→le, le→leb, message_too_large,
}
use yank.Prelude.Bytes.{Bytes}
use yank.Net.Wire.{
  Postcard, IsCodec, to_le_bytes, from_le_bytes, read_exact, write_encoded, write_message,
  read_message,
}

from_le_bytes-to_le_bytes : (n : ℕ) → n < 2 ^ 32 → from_le_bytes (to_le_bytes n) ≡ n
unfolding from_le_bytes to_le_bytes
from_le_bytes-to_le_bytes n h = omega arith

read_exact-append :
    (bytes more : Bytes) → read_exact (length bytes) (bytes ++ more) ≡ ok (bytes, more)
unfolding read_exact
read_exact-append [] more = refl
read_exact-append (b ∷ bytes) more = rw (read_exact-append bytes more) refl

-- Decoding undoes the encoding of this message.
abbrev pub Decodes {ℓ} : {M : Type ℓ} → Postcard M → M → Type ℓ
Decodes postcard message =
    postcard.take_from_bytes (postcard.to_stdvec message) ≡ some (message, [])

read_frame {ℓ} :
    {M : Type ℓ} (postcard : Postcard M) (message : M) (decodes : Decodes postcard message)
    (max_size : ℕ) (more : Bytes)
    → length (postcard.to_stdvec message) < 2 ^ 32
    → length (postcard.to_stdvec message) ≤ max_size
    → read_message postcard max_size
        ((to_le_bytes (length (postcard.to_stdvec message)) ++ postcard.to_stdvec message) ++ more)
      ≡ ok (message, more)
unfolding read_message read_exact to_le_bytes
read_frame postcard message decodes max_size more fits small =
    let bytes = postcard.to_stdvec message in
    rw (from_le_bytes-to_le_bytes (length bytes) fits) (
      rw (le→leb (length bytes) max_size small)
        (rw (read_exact-append bytes more) (rw decodes refl)))

ok-eq_inj {ℓ} : {A : Type ℓ} {a b : A} → ok a ≡ ok b → a ≡ b
ok-eq_inj e = cc

-- A message that is written within a cap is read back, where decoding undoes its encoding.
pub read_message-write_message_of {ℓ} :
    {M : Type ℓ} (postcard : Postcard M) (message : M) (max_size : ℕ) (frame more : Bytes)
    → Decodes postcard message
    → write_message postcard message max_size ≡ ok frame
    → read_message postcard max_size (frame ++ more) ≡ ok (message, more)
unfolding write_message write_encoded
read_message-write_message_of postcard message max_size frame more decodes h =
    let bytes = postcard.to_stdvec message in
    let (fits, h1) = >>-eq-ok (ensure (ltb (length bytes) (2 ^ 32)) message_too_large) _ h in
    let (small, h2) = >>-eq-ok (ensure (leb (length bytes) max_size) message_too_large) _ h1 in
    subst (λ f. read_message postcard max_size (f ++ more) ≡ ok (message, more)) (ok-eq_inj h2)
      (read_frame postcard message decodes max_size more (ltb→lt _ _ (ensure-eq-ok _ _ fits))
        (leb→le _ _ (ensure-eq-ok _ _ small)))

-- A message that is written within a cap is read back under the same cap, and what follows it on the
-- stream is left there, where decoding undoes encoding.
pub read_message-write_message {ℓ} :
    {M : Type ℓ} (postcard : Postcard M) (codec : IsCodec postcard) (message : M) (max_size : ℕ)
    (frame more : Bytes)
    → write_message postcard message max_size ≡ ok frame
    → read_message postcard max_size (frame ++ more) ≡ ok (message, more)
read_message-write_message postcard codec message max_size frame more h =
    read_message-write_message_of postcard message max_size frame more (codec.decode-encode message)
      h
