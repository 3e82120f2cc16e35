-- ===== src/Tests/Peers.antt =====
-- Connections, pulls, pairing and delays at concrete inputs.
use yank.Prelude.{
  ℕ, ◌*◌, ◌^◌, ◌≤◌, ◌≡◌, refl, min, true, false, none, some, is_ok, List, [], ◌∷◌, ◌++◌, arith,
  Error,
}
use yank.Prelude.Bytes.{Str, codes, eq_list}
use yank.Prelude.Map.{IsSorted, lookup}
use yank.Clip.Stamp.{Stamp}
use yank.Config.Mesh.{MeshState, alive, peer_name, validate_new_peer}
use yank.Config.Name.{validate_name, is_confusable}
use yank.Daemon.Peers.{Connection, PeerSet, connected, sync}
use yank.Daemon.Peers.Synced.{Synced, sync-Synced}
use yank.Daemon.Peers.Link.{Served, establish, serve_all, closed_all, serve_all-settles}
use yank.Daemon.Peers.Pulls.{Pulls, no_pulls, pulling, claim, Reached, start, claims}
use yank.Daemon.Peers.Pulls.Exclusive.{IsExclusive, Reached-IsExclusive}
use yank.Daemon.Backoff.{Backoff, next_delay, delays, reset}
use yank.Daemon.Backoff.Delays.{delays-reset}
use yank.Net.Pair.{PairTicket, PairedPeer, welcome, pair_with, join, resolve_peer_name}
use yank.Net.Pair.Agreement.{second, is_paired, host_side, joiner_side, is_paired-join}
use yank.Daemon.Store.{new_store}
use yank.Daemon.Pairing.{Pairing, Event, hosts, redeems}
use yank.Daemon.Pairing.Once.{issued_times, redeemed_times, redeemed_times-le}
use yank.Tests.Data.{stamp_of}

abbrev conn : ℕ → ℕ → Connection
conn id remote = record { id = id; remote_id = remote }

abbrev mesh : MeshState
mesh =
    (1, record { version = 1; status = alive (codes "desk") })
    ∷ (3, record { version = 1; status = alive (codes "lap") })
    ∷ []

abbrev handles : PeerSet
handles =
    (1, record { name = codes "old"; state = connected (conn 10 1); inbound = [] })
    ∷ (2, record { name = codes "gone"; state = connected (conn 20 2); inbound = [] })
    ∷ []

mesh-IsSorted : IsSorted mesh
mesh-IsSorted = (omega arith, (omega arith, tt))

handles-IsSorted : IsSorted handles
handles-IsSorted = (omega arith, (omega arith, tt))

sync-Synced_example : Synced mesh handles (sync mesh handles).0 (sync mesh handles).1
sync-Synced_example = sync-Synced mesh handles mesh-IsSorted handles-IsSorted

abbrev own_dial : Served
own_dial = record { conn = conn 1 2; outbound = true }

established : establish 1 2 (some (conn 1 2)) (some (conn 2 2)) ≡ some own_dial
unfolding establish
established = refl

serve_all-settles_example :
    (serve_all 1 2 (conn 2 2 ∷ []) own_dial ≡ (own_dial, closed_all (conn 2 2 ∷ [])))
    × (serve_all 2 1 ([] ++ conn 1 2 ∷ []) (record { conn = conn 2 1; outbound = true })
        ≡ (record { conn = conn 1 2; outbound = false }, closed_all (conn 2 1 ∷ [])))
serve_all-settles_example =
    serve_all-settles 1 2 (conn 1 2) (some (conn 2 2)) (conn 2 2 ∷ []) [] own_dial
      (record { conn = conn 2 1; outbound = true }) (omega arith) established

abbrev two_claims : Pulls
two_claims = claim 1 (stamp_of 5 9) (claim 0 (stamp_of 5 9) no_pulls)

free_at_first : (t : ℕ) (other : Stamp) → no_pulls.task t ≡ pulling other → ⊥
free_at_first t other e = cc

free_after : (other : Stamp) → (claim 0 (stamp_of 5 9) no_pulls).task 1 ≡ pulling other → ⊥
unfolding claim
free_after other e = cc

two_claims-Reached : Reached two_claims
two_claims-Reached =
    claims 1 (stamp_of 5 9) (claim 0 (stamp_of 5 9) no_pulls) free_after
      (claims 0 (stamp_of 5 9) no_pulls (free_at_first 0) start)

Reached-IsExclusive_example : IsExclusive two_claims
Reached-IsExclusive_example = Reached-IsExclusive two_claims two_claims-Reached

abbrev redial : Backoff
redial = record { floor = 1; ceiling = 600; current = 64 }

delays-reset_example :
    (next_delay (λ d. d) (delays (λ d. d) 3 (reset redial))).1 ≡ min (1 * 2 ^ 3) 600
delays-reset_example = delays-reset (λ d. d) 3 redial (omega arith)

abbrev ticket : PairTicket
ticket = record { addr = 1; secret = 7 ∷ 7 ∷ [] }

abbrev silent : Error → Str
silent e = []

welcomed :
    (host_side silent ticket ticket 2 (codes "desk") (codes "lap") [] [] (
      second
        (joiner_side silent ticket ticket 2
          (codes "desk")
          (codes "lap")
          []
          []
          (welcome (codes "desk"))).sent)).sent
    ≡ welcome (codes "desk") ∷ []
unfolding pair_with join resolve_peer_name validate_new_peer validate_name is_confusable peer_name
    lookup eq_list
welcomed = refl

is_paired-join_example :
    is_paired
      (host_side silent ticket ticket 2 (codes "desk") (codes "lap") [] [] (
        second
          (joiner_side silent ticket ticket 2
            (codes "desk")
            (codes "lap")
            []
            []
            (welcome (codes "desk"))).sent)).result
    ≡ is_ok
        (joiner_side silent ticket ticket 2
          (codes "desk")
          (codes "lap")
          []
          []
          (welcome (codes "desk"))).result
is_paired-join_example =
    is_paired-join silent ticket ticket 2 (codes "desk") (codes "lap") [] []
      (welcome (codes "desk")) refl welcomed

abbrev guest : PairedPeer
guest = record { endpoint = 2; name = codes "lap" }

abbrev evening : List Event
evening =
    hosts true ticket (codes "desk") 0
    ∷ redeems true ticket guest 5
    ∷ redeems true ticket guest 6
    ∷ []

abbrev unpaired : Pairing
unpaired = record { issued = none; store = new_store 1 [] }

redeemed_times-le_example :
    redeemed_times (7 ∷ 7 ∷ []) evening unpaired ≤ issued_times (7 ∷ 7 ∷ []) evening
redeemed_times-le_example = redeemed_times-le (7 ∷ 7 ∷ []) evening unpaired refl
