-- ===== src/Daemon/Pairing.antt =====
-- src/daemon/pairing.rs: the outstanding ticket. Each step that holds the lock is one step here; `now` is
-- the clock, in nanoseconds.
pub mod Once
use yank.Prelude.{
  ℕ, ◌+◌, ◌*◌, Bool, true, false, ◌&&◌, Option, none, some, List, [], ◌∷◌, ltb, leb, if◌then◌else◌,
  Result, ok, err, no_relay, is_ok,
}
use yank.Prelude.Bytes.{Bytes, Str}
use yank.Net.Pair.{PairTicket, PairedPeer, verify}
use yank.Daemon.Store.{MeshStore, add_paired}

-- `PAIR_TICKET_TTL`, of src/daemon/control/protocol.rs.
abbrev pub pair_ticket_ttl : ℕ
pair_ticket_ttl = 3 * 60 * 1_000_000_000

-- `IssuedTicket`
pub record IssuedTicket : Type 0 where
  pub ticket : PairTicket
  pub expires : ℕ
  pub local_name : Str

-- `Pairing`, with the store that it registers machines in.
pub record Pairing : Type 0 where
  pub issued : Option IssuedTicket
  pub store : MeshStore

-- `Pairing::host`: `online` is whether a relay is reached, or none is used, and `ticket` the one generated.
unfoldable pub host :
    (online : Bool) → PairTicket → Str → (now : ℕ) → Pairing → Pairing × Result PairTicket
host online ticket local_name now pairing =
    if online
    then (
      record pairing {
        issued =
            some (record {
              ticket = ticket;
              expires = now + pair_ticket_ttl;
              local_name = local_name;
            });
      },
      ok ticket,
    )
    else (record pairing { issued = none }, err no_relay)

abbrev pub unexpired : ℕ → Option IssuedTicket → Option IssuedTicket
unexpired now none = none
unexpired now (some held) = if leb held.expires now then none else some held

-- `Pairing::outstanding`
unfoldable pub outstanding : (now : ℕ) → Pairing → Pairing × Option IssuedTicket
outstanding now pairing =
    (record pairing { issued = unexpired now pairing.issued }, unexpired now pairing.issued)

abbrev pub is_live : PairTicket → ℕ → Option IssuedTicket → Bool
is_live ticket now none = false
is_live ticket now (some held) = verify held.ticket.secret ticket.secret && ltb now held.expires

-- The end of `Pairing::serve_inbound`, under the lock: none where the ticket is no longer valid.
unfoldable pub redeem :
    (written : Bool)
    → PairTicket
    → PairedPeer
    → (now : ℕ) → Pairing
    → Pairing × Option (Result (Unit {0}))
redeem written ticket peer now pairing =
    if is_live ticket now pairing.issued
    then (let (store, saved) = add_paired written peer pairing.store in
        (record { issued = none; store = store }, some saved))
    else (pairing, none)

-- What can happen to it, in any order.
pub data Event : Type 0 where
  hosts : (online : Bool) → PairTicket → Str → (now : ℕ) → Event
  looks : (now : ℕ) → Event
  redeems : (written : Bool) → PairTicket → PairedPeer → (now : ℕ) → Event

unfoldable pub step : Event → Pairing → Pairing
unfolding host outstanding redeem
step (hosts online ticket local_name now) pairing = (host online ticket local_name now pairing).0
step (looks now) pairing = (outstanding now pairing).0
step (redeems written ticket peer now) pairing = (redeem written ticket peer now pairing).0
