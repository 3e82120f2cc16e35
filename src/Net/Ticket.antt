-- ===== src/Net/Ticket.antt =====
-- src/net/pair.rs: how a ticket is printed and read. `Base32` is what the code takes of data_encoding, and
-- the encoding of a ticket is postcard's.
pub mod RoundTrip
use yank.Prelude.{
  ℕ, ◌+◌, ◌-◌, ◌==◌, ◌&&◌, ◌||◌, Bool, true, false, Option, none, some, List, [], ◌∷◌, ◌++◌, map,
  leb, if◌then◌else◌, Result, ok, err, ensure, ◌>>=◌, ◌>>◌, not_a_ticket, bad_ticket,
}
use yank.Prelude.Bytes.{Bytes, Str, codes, strip_prefix}
use yank.Net.Wire.{Postcard}
use yank.Net.Pair.{PairTicket}

-- `data_encoding::BASE32_NOPAD`
pub record Base32 : Type 0 where
  pub encode : Bytes → Str
  pub decode : Str → Option Bytes

-- `TICKET_PREFIX`
abbrev pub ticket_prefix : Str
ticket_prefix = codes "yank-pair-"

-- `char::to_ascii_lowercase` and `char::to_ascii_uppercase`
abbrev pub lower : ℕ → ℕ
lower c = if leb b'A' c && leb c b'Z' then c + 32 else c

abbrev pub upper : ℕ → ℕ
upper c = if leb b'a' c && leb c b'z' then c - 32 else c

-- `char::is_whitespace`
unfoldable pub is_whitespace : ℕ → Bool
is_whitespace c =
    leb 0x9 c && leb c 0xd
    || c == 0x20
    || c == 0x85
    || c == 0xa0
    || c == 0x1680
    || leb 0x2000 c && leb c 0x200a
    || c == 0x2028
    || c == 0x2029
    || c == 0x202f
    || c == 0x205f
    || c == 0x3000

-- `str::trim`
unfoldable pub trim_start : Str → Str
trim_start [] = []
trim_start (c ∷ s) = let rest = trim_start s in if is_whitespace c then rest else c ∷ s

-- What is kept in front of a text that has been trimmed at its end.
abbrev pub before_end : ℕ → Str → Str
before_end c [] = if is_whitespace c then [] else c ∷ []
before_end c (d ∷ s) = c ∷ d ∷ s

unfoldable pub trim_end : Str → Str
trim_end [] = []
trim_end (c ∷ s) = before_end c (trim_end s)

abbrev pub trim : Str → Str
trim s = trim_end (trim_start s)

abbrev pub of_option {ℓ} : {A : Type ℓ} → Option A → Result A → Result A
of_option none otherwise = otherwise
of_option (some a) otherwise = ok a

abbrev pub nothing_left : Bytes → Bool
nothing_left [] = true
nothing_left (b ∷ bytes) = false

module _ (base32 : Base32) (postcard : Postcard PairTicket) where
  -- `PairTicket`, `Display`
  unfoldable pub show_ticket : PairTicket → Str
  show_ticket ticket = ticket_prefix ++ map lower (base32.encode (postcard.to_stdvec ticket))

  -- `PairTicket::from_str`
  unfoldable pub parse_ticket : Str → Result PairTicket
  unfolding trim_start trim_end
  parse_ticket s = do
    encoded ← of_option (strip_prefix ticket_prefix (trim s)) (err not_a_ticket)
    bytes ← of_option (base32.decode (map upper encoded)) (err bad_ticket)
    decoded ← of_option (postcard.take_from_bytes bytes) (err bad_ticket)
    ensure (nothing_left decoded.1) bad_ticket
    ok decoded.0
