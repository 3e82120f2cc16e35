-- ===== src/Net/Ticket/RoundTrip.antt =====
-- src/net/pair.rs: a ticket that is printed is read back, with whatever blanks it is pasted between.
use yank.Prelude.{
  ℕ, ◌<◌, All, ◌≡◌, refl, ap, ◌&&◌, ◌||◌, not, Bool, true, false, some, [], ◌∷◌, ◌++◌, map, all,
  leb, ok, arith,
}
use yank.Prelude.Bytes.{Bytes, Str, strip_prefix}
use yank.Net.Wire.{Postcard}
use yank.Net.Wire.RoundTrip.{Decodes}
use yank.Net.Pair.{PairTicket}
use yank.Net.Ticket.{
  Base32, ticket_prefix, lower, upper, is_whitespace, trim_start, before_end, trim_end, show_ticket,
  parse_ticket,
}

-- A digit of the encoding.
abbrev pub is_digit32 : ℕ → Bool
is_digit32 c = leb b'A' c && leb c b'Z' || leb b'2' c && leb c b'7'

-- Decoding undoes encoding, and an encoding is letters and digits.
pub record IsBase32 (base32 : Base32) : Type 0 where
  pub decode-encode : (b : Bytes) → All (λ c. c < 256) b → base32.decode (base32.encode b) ≡ some b
  pub digits : (b : Bytes) → all is_digit32 (base32.encode b) ≡ true

abbrev no_blank : Str → Bool
no_blank = all (λ c. not (is_whitespace c))

trim_start-append :
    (blanks s : Str) → all is_whitespace blanks ≡ true → trim_start (blanks ++ s) ≡ trim_start s
unfolding trim_start
trim_start-append [] s h = refl
trim_start-append (c ∷ blanks) s h = ground (arith, h, trim_start-append blanks s)

trim_end-blanks : (blanks : Str) → all is_whitespace blanks ≡ true → trim_end blanks ≡ []
unfolding trim_end
trim_end-blanks [] h = refl
trim_end-blanks (c ∷ blanks) h =
    let rest = trim_end-blanks blanks (ground (arith, h)) in rw rest (ground (arith, h))

trim_end-append :
    (s blanks : Str) → all is_whitespace blanks ≡ true → trim_end (s ++ blanks) ≡ trim_end s
unfolding trim_end
trim_end-append [] blanks h = trim_end-blanks blanks h
trim_end-append (c ∷ s) blanks h = ap (before_end c) (trim_end-append s blanks h)

trim_end-no_blank : (s : Str) → no_blank s ≡ true → trim_end s ≡ s
unfolding trim_end
trim_end-no_blank [] h = refl
trim_end-no_blank (c ∷ []) h = ground (arith, h)
trim_end-no_blank (c ∷ d ∷ s) h = ap (before_end c) (trim_end-no_blank (d ∷ s) (ground (arith, h)))

is_whitespace-lower : (c : ℕ) → is_digit32 c ≡ true → is_whitespace (lower c) ≡ false
unfolding is_whitespace
is_whitespace-lower c h = ground (arith, h)

no_blank-prefix : no_blank ticket_prefix ≡ true
unfolding is_whitespace
no_blank-prefix = refl

starts_clear : (s : Str) → trim_start (ticket_prefix ++ s) ≡ ticket_prefix ++ s
unfolding trim_start is_whitespace
starts_clear s = refl

no_blank-lower : (s : Str) → all is_digit32 s ≡ true → no_blank (map lower s) ≡ true
no_blank-lower [] h = refl
no_blank-lower (c ∷ s) h = ground (arith, h, no_blank-lower s, is_whitespace-lower c)

upper-lower : (s : Str) → all is_digit32 s ≡ true → map upper (map lower s) ≡ s
upper-lower [] h = refl
upper-lower (c ∷ s) h = ground (arith, h, upper-lower s)

strip_prefix-append : (p s : Str) → strip_prefix p (p ++ s) ≡ some s
unfolding strip_prefix
strip_prefix-append [] s = refl
strip_prefix-append (c ∷ p) s = ground (arith, strip_prefix-append p s)

all-append :
    (test : ℕ → Bool) (a b : Str) → all test a ≡ true → all test b ≡ true → all test (a ++ b) ≡ true
all-append test [] b h k = k
all-append test (c ∷ a) b h k = ground (arith, h, all-append test a b)

append_assoc : (a b c : Str) → (a ++ b) ++ c ≡ a ++ (b ++ c)
append_assoc [] b c = refl
append_assoc (x ∷ a) b c = ap (λ t. x ∷ t) (append_assoc a b c)

module _ (base32 : Base32) (postcard : Postcard PairTicket) (lawful : IsBase32 base32) where
  -- A ticket that is printed is read back as it was, pasted between any blanks, where it decodes.
  pub parse_ticket-show_ticket :
      (ticket : PairTicket) (before after : Str)
      → All (λ c. c < 256) (postcard.to_stdvec ticket)
      → Decodes postcard ticket
      → all is_whitespace before ≡ true
      → all is_whitespace after ≡ true
      → parse_ticket base32 postcard (before ++ (show_ticket base32 postcard ticket ++ after))
        ≡ ok ticket
  unfolding show_ticket parse_ticket
  parse_ticket-show_ticket ticket before after octets decodes blank blank' =
      let bytes = postcard.to_stdvec ticket in
      let digits = lawful.digits bytes in
      let text = ticket_prefix ++ map lower (base32.encode bytes) in
      let clear =
        all-append (λ c. not (is_whitespace c)) ticket_prefix (map lower (base32.encode bytes))
          no_blank-prefix (no_blank-lower (base32.encode bytes) digits) in
      rw
        (
          trim_start-append before (text ++ after) blank,
          starts_clear (map lower (base32.encode bytes) ++ after),
          trim_end-append text after blank',
          trim_end-no_blank text clear,
          strip_prefix-append ticket_prefix (map lower (base32.encode bytes)),
          upper-lower (base32.encode bytes) digits,
          lawful.decode-encode bytes octets,
          decodes,
        )
        refl
