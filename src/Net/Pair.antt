-- ===== src/Net/Pair.antt =====
-- src/net/pair.rs: the pairing exchange. What the other side and the connection do is an argument: how the
-- stream opens, whether a write gets through, what is read, and how the connection is closed.
-- `show_error` is how an error is printed for the refusal.
pub mod Agreement
use yank.Prelude.{
  ℕ, ◌==◌, Bool, true, false, not, Option, none, some, List, [], ◌∷◌, ◌++◌, if◌then◌else◌, Result,
  ok, err, Error, ensure, ◌>>=◌, ◌>>◌, pairs_itself, cannot_reach, pairing_refused,
  unexpected_message, dropped_early,
}
use yank.Prelude.Bytes.{Bytes, Str, codes, eq_list}
use yank.Config.Mesh.{EndpointId, MeshState, peer_name, validate_new_peer}

-- `PairTicket`; of the address, the id that the handshake proves.
pub record PairTicket : Type 0 where
  pub addr : EndpointId
  pub secret : Bytes

-- `PairTicket::matches`, and `PairSecret::verify`.
abbrev pub verify : Bytes → Bytes → Bool
verify secret candidate = eq_list secret candidate

-- `PairedPeer`
pub record PairedPeer : Type 0 where
  pub endpoint : EndpointId
  pub name : Str

-- `Message`
pub data Message : Type 0 where
  hello : (secret : Bytes) → (name : Str) → Message
  welcome : (name : Str) → Message
  done : Message
  reject : (reason : Str) → Message

-- `Outcome`
pub data Outcome : Type 0 where
  paired : PairedPeer → Outcome
  dismissed : Outcome

-- How the host's wait for a `Hello` ends.
pub data Opening : Type 0 where
  lost : Opening
  timed_out : Opening
  opened : Result Message → Opening

pub data CloseReason : Type 0 where
  timeout rejected : CloseReason

-- What one side has done by the end: what it sent, how it closed the connection, and what it returns.
pub record Ended {ℓ} (A : Type ℓ) : Type ℓ where
  pub sent : List Message
  pub closed : Option CloseReason
  pub result : Result A

-- `resolve_peer_name`, up to the refusal that it sends.
unfoldable pub resolve_peer_name : Str → EndpointId → MeshState → Result Str
resolve_peer_name announced endpoint state = elim (peer_name endpoint state) [
  | some existing ↦ ok existing
  | none ↦ do validate_new_peer announced endpoint state; ok announced
]

-- What the host makes of the answer to its `Welcome`.
abbrev pub on_answer : PairedPeer → Result Message → Result Outcome
on_answer peer (ok done) = ok (paired peer)
on_answer peer (ok (reject reason)) = err pairing_refused
on_answer peer (ok (hello secret name)) = err unexpected_message
on_answer peer (ok (welcome name)) = err unexpected_message
on_answer peer (err e) = ok dismissed

-- `send_reject`, and what is returned.
abbrev pub refuse {ℓ} : {A : Type ℓ} → List Message → Str → Result A → Ended A
refuse before reason result = record {
  sent = before ++ reject reason ∷ [];
  closed = some rejected;
  result = result;
}

module _ (show_error : Error → Str) where
  abbrev pub greet :
      (local_name : Str)
      → EndpointId
      → (welcome_sent : Bool) → Result Message
      → Result Str
      → Ended Outcome
  greet local_name remote welcome_sent answer (err e) = refuse [] (show_error e) (err e)
  greet local_name remote welcome_sent answer (ok name) =
      if welcome_sent
      then record {
        sent = welcome local_name ∷ [];
        closed = none;
        result = on_answer (record { name = name; endpoint = remote }) answer;
      }
      else record { sent = []; closed = none; result = ok dismissed }

  abbrev pub on_hello :
      PairTicket
      → Str
      → MeshState
      → EndpointId
      → (welcome_sent : Bool) → Result Message
      → Result Message
      → Ended Outcome
  on_hello ticket local_name state remote welcome_sent answer (ok (hello secret name)) =
      if verify ticket.secret secret
      then greet local_name remote welcome_sent answer (resolve_peer_name name remote state)
      else refuse [] (codes "invalid pairing ticket") (ok dismissed)
  on_hello ticket local_name state remote welcome_sent answer _ =
      refuse [] (codes "invalid pairing ticket") (ok dismissed)

  -- `pair_with`
  unfoldable pub pair_with :
      PairTicket
      → Str
      → MeshState
      → EndpointId
      → Opening
      → (welcome_sent : Bool) → Result Message
      → Ended Outcome
  pair_with ticket local_name state remote lost welcome_sent answer = record {
    sent = [];
    closed = none;
    result = ok dismissed;
  }
  pair_with ticket local_name state remote timed_out welcome_sent answer = record {
    sent = [];
    closed = some timeout;
    result = ok dismissed;
  }
  pair_with ticket local_name state remote (opened first) welcome_sent answer =
      on_hello ticket local_name state remote welcome_sent answer first

  abbrev pub confirm : List Message → PairedPeer → (confirmed : Bool) → Ended PairedPeer
  confirm sent peer confirmed = record {
    sent = sent;
    closed = none;
    result = if confirmed then ok peer else err dropped_early;
  }

  abbrev pub accept_welcome :
      Message → EndpointId → (confirmed : Bool) → Result Str → Ended PairedPeer
  accept_welcome first host confirmed (err e) = refuse (first ∷ []) (show_error e) (err e)
  accept_welcome first host confirmed (ok name) =
      confirm (first ∷ done ∷ []) (record { name = name; endpoint = host }) confirmed

  abbrev pub on_reply :
      Message → EndpointId → MeshState → (confirmed : Bool) → Result Message → Ended PairedPeer
  on_reply first host state confirmed (ok (welcome name)) =
      accept_welcome first host confirmed (resolve_peer_name name host state)
  on_reply first host state confirmed (ok (reject reason)) = record {
    sent = first ∷ [];
    closed = some rejected;
    result = err pairing_refused;
  }
  on_reply first host state confirmed (ok (hello secret name)) = record {
    sent = first ∷ [];
    closed = none;
    result = err unexpected_message;
  }
  on_reply first host state confirmed (ok done) = record {
    sent = first ∷ [];
    closed = none;
    result = err unexpected_message;
  }
  on_reply first host state confirmed (err e) = record {
    sent = first ∷ [];
    closed = none;
    result = err e;
  }

  -- `join`, over a connection whose writes get through; `reached` is whether there is one.
  unfoldable pub join :
      (local : EndpointId)
      → PairTicket
      → Str
      → MeshState
      → (reached : Bool) → Result Message
      → (confirmed : Bool) → Ended PairedPeer
  join local ticket local_name state reached reply confirmed =
      if ticket.addr == local
      then record { sent = []; closed = none; result = err pairs_itself }
      else if not reached
      then record { sent = []; closed = none; result = err cannot_reach }
      else on_reply (hello ticket.secret local_name) ticket.addr state confirmed reply
