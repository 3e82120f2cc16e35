-- ===== src/Daemon/Peers/Link.antt =====
-- src/daemon/peers.rs: which of two connections between a pair of machines is kept. `dial` is what the
-- dial gives, `landed` a connection that comes in before that.
use yank.Prelude.{
  ◌<◌, ◌≡◌, refl, sym, ap, ◌∙◌, Bool, true, false, ◌&&◌, Option, none, some, List, [], ◌∷◌, ◌++◌,
  map, ltb, if◌then◌else◌, arith,
}
use yank.Config.Mesh.{EndpointId}
use yank.Daemon.Peers.{Connection, Effect, closes, duplicate}

-- The connection that is served, and whether this machine dialed it.
pub record Served : Type 0 where
  pub conn : Connection
  pub outbound : Bool

abbrev pub dialed : Option Connection → Option Served
dialed none = none
dialed (some conn) = some (record { conn = conn; outbound = true })

abbrev pub first_of : Option Connection → Option Connection → Option Served
first_of dial none = dialed dial
first_of dial (some conn) = some (record { conn = conn; outbound = false })

-- `PeerTask::establish`
unfoldable pub establish :
    (local peer : EndpointId) → (dial landed : Option Connection) → Option Served
establish local peer dial landed = if ltb local peer then dialed dial else first_of dial landed

-- The branch of `PeerTask::serve` for another connection of the peer.
unfoldable pub serve_inbound :
    (local peer : EndpointId) → Connection → Served → Served × List Effect
serve_inbound local peer new served =
    if served.outbound && ltb local peer
    then (served, closes new duplicate ∷ [])
    else (record { conn = new; outbound = false }, closes served.conn duplicate ∷ [])

unfoldable pub serve_all :
    (local peer : EndpointId) → List Connection → Served → Served × List Effect
unfolding serve_inbound
serve_all local peer [] served = (served, [])
serve_all local peer (new ∷ inbound) served =
    let (served', closed) = serve_inbound local peer new served in
    let (last, rest) = serve_all local peer inbound served' in (last, closed ++ rest)

abbrev pub closed_all : List Connection → List Effect
closed_all = map (λ conn. closes conn duplicate)

serve_all-lower :
    (a b : EndpointId) (inbound : List Connection) (conn : Connection)
    → a < b
    → serve_all a b inbound (record { conn = conn; outbound = true })
      ≡ (record { conn = conn; outbound = true }, closed_all inbound)
unfolding serve_all
serve_all-lower a b [] conn h = refl
serve_all-lower a b (new ∷ inbound) conn h = ground (arith, serve_all-lower a b inbound conn h)

serve_all-higher :
    (a b : EndpointId) (inbound : List Connection) (last : Connection) (served : Served)
    → a < b
    → serve_all b a (inbound ++ last ∷ []) served
      ≡ (record { conn = last; outbound = false }, closed_all (served.conn ∷ inbound))
unfolding serve_all
serve_all-higher a b [] last served h = ground arith
serve_all-higher a b (new ∷ inbound) last served h =
    ground (arith, serve_all-higher a b inbound last (record { conn = new; outbound = false }) h)

-- Two machines that reach one another settle on the connection that the one with the lower id dialed,
-- whatever else came in on either side before and wherever the other started from: each serves that one,
-- each has closed all others, and neither has closed it.
pub serve_all-settles :
    (a b : EndpointId) (conn : Connection) (landed : Option Connection)
    (others before : List Connection) (start served : Served)
    → a < b
    → establish a b (some conn) landed ≡ some start
    → (serve_all a b others start ≡ (record { conn = conn; outbound = true }, closed_all others))
      × (serve_all b a (before ++ conn ∷ []) served
          ≡ (record { conn = conn; outbound = false }, closed_all (served.conn ∷ before)))
unfolding establish
serve_all-settles a b conn landed others before start served h e =
    let own : record { conn = conn; outbound = true } ≡ start = ground (arith, e) in
    (
      ap (serve_all a b others) (sym own) ∙ serve_all-lower a b others conn h,
      serve_all-higher a b before conn served h,
    )
