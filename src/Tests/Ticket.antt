-- ===== src/Tests/Ticket.antt =====
-- A ticket that is printed and read, with two letters a byte for the encoding.
use yank.Prelude.{
  ℕ, ◌+◌, ◌-◌, ◌*◌, ◌/◌, ◌%◌, ◌<◌, All, all, ◌≡◌, refl, true, Option, none, some, [], ◌∷◌, ◌++◌,
  arith, ok,
}
use yank.Prelude.Bytes.{Bytes, Str}
use yank.Net.Wire.{Postcard}
use yank.Net.Pair.{PairTicket}
use yank.Net.Ticket.{Base32, show_ticket, parse_ticket, is_whitespace}
use yank.Net.Ticket.RoundTrip.{IsBase32, is_digit32, parse_ticket-show_ticket}

encode : Bytes → Str
encode [] = []
encode (c ∷ b) = (65 + c / 16 % 16) ∷ (65 + c % 16) ∷ encode b

abbrev cons : ℕ → Option Bytes → Option Bytes
cons c none = none
cons c (some b) = some (c ∷ b)

decode : Str → Option Bytes
decode [] = some []
decode (h ∷ []) = none
decode (h ∷ l ∷ s) = cons ((h - 65) * 16 + (l - 65)) (decode s)

decode-encode : (b : Bytes) → All (λ c. c < 256) b → decode (encode b) ≡ some b
unfolding encode decode
decode-encode [] h = refl
decode-encode (c ∷ b) h =
    let whole : (65 + c / 16 % 16 - 65) * 16 + (65 + c % 16 - 65) ≡ c = omega (arith, h.0) in
    rw (decode-encode b h.1, whole) refl

digits : (b : Bytes) → all is_digit32 (encode b) ≡ true
unfolding encode
digits [] = refl
digits (c ∷ b) = ground (arith, digits b)

abbrev letters : Base32
letters = record { encode = encode; decode = decode }

letters-IsBase32 : IsBase32 letters
letters-IsBase32 = record { decode-encode = decode-encode; digits = digits }

abbrev decode_ticket : Bytes → Option (PairTicket × Bytes)
decode_ticket [] = none
decode_ticket (addr ∷ secret) = some (record { addr = addr; secret = secret }, [])

abbrev postcard : Postcard PairTicket
postcard = record { to_stdvec = λ t. t.addr ∷ t.secret; take_from_bytes = decode_ticket }

abbrev ticket : PairTicket
ticket = record { addr = 9; secret = 7 ∷ 255 ∷ [] }

ticket-octets : All (λ c. c < 256) (9 ∷ 7 ∷ 255 ∷ [])
ticket-octets = ground arith

blanks : all is_whitespace (32 ∷ 10 ∷ []) ≡ true
unfolding is_whitespace
blanks = refl

parse_ticket-show_ticket_example :
    parse_ticket letters postcard
      ((32 ∷ 10 ∷ []) ++ (show_ticket letters postcard ticket ++ (32 ∷ 10 ∷ [])))
    ≡ ok ticket
parse_ticket-show_ticket_example =
    parse_ticket-show_ticket letters postcard letters-IsBase32 ticket (32 ∷ 10 ∷ []) (32 ∷ 10 ∷ [])
      ticket-octets refl blanks blanks
