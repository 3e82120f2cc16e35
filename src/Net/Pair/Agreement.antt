-- ===== src/Net/Pair/Agreement.antt =====
-- src/net/pair.rs: the two sides of a pairing agree.
use yank.Prelude.{
  ◌≡◌, refl, sym, ap, subst, Bool, true, false, is_ok, List, [], ◌∷◌, Result, ok, err, Error, ◌==◌,
  dropped_early, if-elim,
}
use yank.Prelude.Bytes.{Str}
use yank.Config.Mesh.{EndpointId, MeshState}
use yank.Net.Pair.{
  PairTicket, PairedPeer, verify, Message, hello, welcome, reject, Outcome, paired, dismissed,
  opened, Ended, resolve_peer_name, on_answer, greet, pair_with, accept_welcome, on_reply, join,
}

-- What the host reads after its reply: the joiner's second message, or the end of the connection.
abbrev pub second : List Message → Result Message
second [] = err dropped_early
second (first ∷ []) = err dropped_early
second (first ∷ message ∷ rest) = ok message

abbrev pub is_paired : Result Outcome → Bool
is_paired (ok (paired peer)) = true
is_paired (ok dismissed) = false
is_paired (err e) = false

module _ (show_error : Error → Str) (ticket held : PairTicket) (joiner : EndpointId)
    (host_name joiner_name : Str) (host_state joiner_state : MeshState) where
  -- The host's side, on what the joiner sends and with the answer that it reads.
  abbrev pub host_side : Result Message → Ended Outcome
  host_side answer =
      pair_with show_error ticket host_name host_state joiner
        (opened (ok (hello held.secret joiner_name))) true answer

  -- The joiner's, on what the host sends, where the host confirms.
  abbrev pub joiner_side : Message → Ended PairedPeer
  joiner_side reply = join show_error joiner held joiner_name joiner_state true (ok reply) true

  joined :
      (reply : Message)
      → (held.addr == joiner) ≡ false
      → joiner_side reply
        ≡ on_reply show_error (hello held.secret joiner_name) held.addr joiner_state true (ok reply)
  unfolding join
  joined reply apart = rw apart refl

  first-eq : (a b : Message) → a ∷ [] ≡ b ∷ [] → a ≡ b
  first-eq a b e = cc

  -- A joiner that reads a refusal does not pair.
  refused :
      (reason : Str) (reply : Message)
      → (held.addr == joiner) ≡ false
      → reject reason ≡ reply
      → false ≡ is_ok (joiner_side reply).result
  refused reason reply apart e =
      subst (λ m. false ≡ is_ok (joiner_side m).result) e
        (sym (ap (λ (j : Ended PairedPeer). is_ok j.result) (joined (reject reason) apart)))

  -- One that reads a welcome sends what it decides.
  decided :
      (peer : PairedPeer) (r : Result Str)
      → is_paired (
          on_answer peer (
            second
              (accept_welcome show_error (hello held.secret joiner_name) held.addr true r).sent))
        ≡ is_ok (accept_welcome show_error (hello held.secret joiner_name) held.addr true r).result
  decided peer (err e) = refl
  decided peer (ok name) = refl

  welcomed :
      (peer : PairedPeer) (reply : Message)
      → (held.addr == joiner) ≡ false
      → welcome host_name ≡ reply
      → is_paired (on_answer peer (second (joiner_side reply).sent))
        ≡ is_ok (joiner_side reply).result
  welcomed peer reply apart e =
      subst
        (λ m.
          is_paired (on_answer peer (second (joiner_side m).sent)) ≡ is_ok (joiner_side m).result)
        e
        (rw (joined (welcome host_name) apart)
          (decided peer (resolve_peer_name host_name held.addr joiner_state)))

  greeted :
      (r : Result Str) (reply : Message)
      → (held.addr == joiner) ≡ false
      → (greet show_error host_name joiner true (second (joiner_side reply).sent) r).sent
        ≡ reply ∷ []
      → is_paired
          (greet show_error host_name joiner true (second (joiner_side reply).sent) r).result
        ≡ is_ok (joiner_side reply).result
  greeted (err e) reply apart sent = refused (show_error e) reply apart (first-eq _ reply sent)
  greeted (ok name) reply apart sent = welcomed _ reply apart (first-eq _ reply sent)

  -- Where a joiner holds a ticket of another machine and no connection breaks, the host takes the joiner for
  -- paired exactly where the joiner, on being confirmed, takes the host for paired: whichever side
  -- refuses, neither holds the other.
  pub is_paired-join :
      (reply : Message)
      → (held.addr == joiner) ≡ false
      → (host_side (second (joiner_side reply).sent)).sent ≡ reply ∷ []
      → is_paired (host_side (second (joiner_side reply).sent)).result
        ≡ is_ok (joiner_side reply).result
  unfolding pair_with
  is_paired-join reply apart =
      if-elim {A = Ended Outcome}
        (λ r. r.sent ≡ reply ∷ [] → is_paired r.result ≡ is_ok (joiner_side reply).result)
        (verify ticket.secret held.secret)
        (λ _ sent. greeted (resolve_peer_name joiner_name joiner host_state) reply apart sent)
        (λ _ sent. refused _ reply apart (first-eq _ reply sent))
