-- ===== src/Daemon/Pairing/Once.antt =====
-- src/daemon/pairing.rs: a ticket is redeemed at most once.
use yank.Prelude.{
  ℕ, ◌+◌, ◌≤◌, ◌≡◌, ap, Bool, true, false, ◌&&◌, Option, none, some, is_some, List, [], ◌∷◌, arith,
  leb, if-elim, Result,
}
use yank.Prelude.Bytes.{Bytes, eq_list, eq_list→eq}
use yank.Net.Pair.{PairTicket}
use yank.Daemon.Pairing.{
  IssuedTicket, Pairing, host, outstanding, redeem, unexpired, is_live, Event, hosts, looks,
  redeems, step,
}

-- Whether an event hands out the secret, and whether it registers a machine for it.
abbrev pub one : Bool → ℕ
one true = 1
one false = 0

abbrev pub issues : Bytes → Event → Bool
issues secret (hosts online ticket local_name now) = online && eq_list ticket.secret secret
issues secret (looks now) = false
issues secret (redeems written ticket peer now) = false

abbrev pub registers : Bytes → Event → Pairing → Bool
registers secret (hosts online ticket local_name now) pairing = false
registers secret (looks now) pairing = false
registers secret (redeems written ticket peer now) pairing =
    is_some (redeem written ticket peer now pairing).1 && eq_list ticket.secret secret

unfoldable pub issued_times : Bytes → List Event → ℕ
issued_times secret [] = 0
issued_times secret (event ∷ events) = one (issues secret event) + issued_times secret events

unfoldable pub redeemed_times : Bytes → List Event → Pairing → ℕ
redeemed_times secret [] pairing = 0
redeemed_times secret (event ∷ events) pairing =
    one (registers secret event pairing) + redeemed_times secret events (step event pairing)

-- Whether the secret is outstanding.
abbrev holds_secret : Bytes → Option IssuedTicket → Bool
holds_secret secret none = false
holds_secret secret (some held) = eq_list held.ticket.secret secret

eq_list_trans : (a b c : Bytes) → eq_list a b ≡ true → eq_list a c ≡ eq_list b c
eq_list_trans a b c e = ap (λ x. eq_list x c) (eq_list→eq a b e)

live-holds_secret :
    (secret : Bytes) (ticket : PairTicket) (now : ℕ) (issued : Option IssuedTicket)
    → is_live ticket now issued ≡ true
    → holds_secret secret issued ≡ eq_list ticket.secret secret
live-holds_secret secret ticket now none live = cc
live-holds_secret secret ticket now (some held) live =
    eq_list_trans held.ticket.secret ticket.secret secret (ground (arith, live))

looked :
    (secret : Bytes) (now : ℕ) (issued : Option IssuedTicket)
    → one (holds_secret secret (unexpired now issued)) ≤ one (holds_secret secret issued)
looked secret now none = omega arith
looked secret now (some held) =
    if-elim (λ o. one (holds_secret secret o) ≤ one (eq_list held.ticket.secret secret))
      (leb held.expires now) (λ _. omega arith) (λ _. omega arith)

-- An event registers no more than is outstanding, or handed out by it.
step_bound :
    (secret : Bytes) (event : Event) (pairing : Pairing)
    → one (registers secret event pairing) + one (holds_secret secret (step event pairing).issued)
      ≤ one (issues secret event) + one (holds_secret secret pairing.issued)
unfolding step host outstanding redeem
step_bound secret (hosts true ticket local_name now) pairing = omega arith
step_bound secret (hosts false ticket local_name now) pairing = omega arith
step_bound secret (looks now) pairing = omega (arith, looked secret now pairing.issued)
step_bound secret (redeems written ticket peer now) pairing =
    if-elim {A = Pairing × Option (Result (Unit {0}))}
      (λ r.
        one (is_some r.1 && eq_list ticket.secret secret) + one (holds_secret secret r.0.issued)
        ≤ 0 + one (holds_secret secret pairing.issued))
      (is_live ticket now pairing.issued)
      (λ live. omega (arith, ap one (live-holds_secret secret ticket now pairing.issued live)))
      (λ _. omega arith)

times_bound :
    (secret : Bytes) (events : List Event) (pairing : Pairing)
    → redeemed_times secret events pairing
      ≤ issued_times secret events + one (holds_secret secret pairing.issued)
unfolding redeemed_times issued_times
times_bound secret [] pairing = omega arith
times_bound secret (event ∷ events) pairing =
    omega (arith, times_bound secret events (step event pairing), step_bound secret event pairing)

-- Whatever connections come in, however exchanges overlap, and however often a ticket is issued, revoked or
-- left to expire: with no ticket outstanding at first, a secret registers machines at most as often
-- as it was issued, so that a secret that is issued once is redeemed at most once.
pub redeemed_times-le :
    (secret : Bytes) (events : List Event) (pairing : Pairing)
    → pairing.issued ≡ none
    → redeemed_times secret events pairing ≤ issued_times secret events
redeemed_times-le secret events pairing fresh =
    omega (arith, times_bound secret events pairing, ap (λ o. one (holds_secret secret o)) fresh)
