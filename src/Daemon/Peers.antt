-- ===== src/Daemon/Peers.antt =====
-- src/daemon/peers.rs: `PeerSet`. A task is what it was started for; what the set asks of tasks and of
-- connections is returned as effects, in order. A queue holds the connections that wait in it.
pub mod Handles
pub mod Asked
pub mod Synced
pub mod Link
pub mod Pulls
use yank.Prelude.{
  ℕ, ◌==◌, Bool, true, false, not, Option, none, some, is_some, List, [], ◌∷◌, ◌++◌, ltb, length,
  if◌then◌else◌,
}
use yank.Prelude.Bytes.{Str, eq_list}
use yank.Prelude.Map.{lookup, insert}
use yank.Prelude.Map.Removal.{remove, map_values}
use yank.Config.Mesh.{EndpointId, MeshState, alive_peers}

-- A connection: which one it is, and `remote_id`.
pub record Connection : Type 0 where
  pub id : ℕ
  pub remote_id : EndpointId

-- `PeerState`; when a connection began and when a wait ends are left out.
pub data PeerState : Type 0 where
  connecting : PeerState
  connected : Connection → PeerState
  backoff : PeerState

-- `PeerHandle`
pub record PeerHandle : Type 0 where
  pub name : Str
  pub state : PeerState
  pub inbound : List Connection

-- What a connection is closed for.
pub data Reason : Type 0 where
  unauthorized busy machine_removed duplicate : Reason

pub data Effect : Type 0 where
  closes : Connection → Reason → Effect
  spawns : EndpointId → Str → Effect
  aborts : EndpointId → Effect

-- `PeerSet`: the map of the handles.
abbrev pub PeerSet : Type 0
PeerSet = List (EndpointId × PeerHandle)

-- The capacity of a queue of inbound connections.
abbrev pub inbound_capacity : ℕ
inbound_capacity = 4

-- `PeerHandle::shutdown`
abbrev pub shutdown_state : PeerState → List Effect
shutdown_state connecting = []
shutdown_state (connected conn) = closes conn machine_removed ∷ []
shutdown_state backoff = []

abbrev pub shutdown : EndpointId → PeerHandle → List Effect
shutdown id handle = aborts id ∷ shutdown_state handle.state

-- `PeerSet::spawn`
abbrev pub spawn : Str → PeerHandle
spawn name = record { name = name; state = connecting; inbound = [] }

-- The first loop of `PeerSet::sync`, which collects the ids of the machines that left.
unfoldable pub removed_ids : List (EndpointId × Str) → PeerSet → List EndpointId
removed_ids desired [] = []
removed_ids desired ((id, handle) ∷ peers) =
    let rest = removed_ids desired peers in if is_some (lookup id desired) then rest else id ∷ rest

abbrev pub shutdown_found : EndpointId → Option PeerHandle → List Effect
shutdown_found id none = []
shutdown_found id (some handle) = shutdown id handle

-- The second, which drops them.
unfoldable pub remove_all : List EndpointId → PeerSet → PeerSet × List Effect
remove_all [] peers = (peers, [])
remove_all (id ∷ ids) peers =
    let (peers', effects) = remove_all ids (remove id peers) in
    (peers', shutdown_found id (lookup id peers) ++ effects)

-- The third, where a name is written when it differs.
abbrev pub renamed : Option Str → PeerHandle → PeerHandle
renamed none handle = handle
renamed (some name) handle =
    if not (eq_list handle.name name) then record handle { name = name } else handle

abbrev pub rename_all : List (EndpointId × Str) → PeerSet → PeerSet
rename_all desired peers = map_values (λ id handle. renamed (lookup id desired) handle) peers

-- The last, which starts what is missing.
unfoldable pub spawn_all : List (EndpointId × Str) → PeerSet → PeerSet × List Effect
spawn_all [] peers = (peers, [])
spawn_all ((id, name) ∷ desired) peers =
    let same = spawn_all desired peers in
    let (peers', effects) = spawn_all desired (insert id (spawn name) peers) in
    if is_some (lookup id peers) then same else (peers', spawns id name ∷ effects)

-- `PeerSet::sync`; the machines of a mesh state come in the order of their ids.
unfoldable pub sync : MeshState → PeerSet → PeerSet × List Effect
unfolding removed_ids remove_all spawn_all
sync state peers =
    let desired = alive_peers state in
    let (kept, closed) = remove_all (removed_ids desired peers) peers in
    let (peers', spawned) = spawn_all desired (rename_all desired kept) in
    (peers', closed ++ spawned)

abbrev pub route_to : Connection → Option PeerHandle → PeerSet → PeerSet × List Effect
route_to conn none peers = (peers, closes conn unauthorized ∷ [])
route_to conn (some handle) peers =
    if ltb (length handle.inbound) inbound_capacity
    then (insert conn.remote_id (record handle { inbound = handle.inbound ++ conn ∷ [] }) peers, [])
    else (peers, closes conn busy ∷ [])

-- `PeerSet::route_inbound`
unfoldable pub route_inbound : Connection → PeerSet → PeerSet × List Effect
route_inbound conn peers = route_to conn (lookup conn.remote_id peers) peers

-- `PeerSet::connected`: in the order of the ids, but for `first`.
abbrev pub is_connected : PeerState → Option Connection
is_connected connecting = none
is_connected (connected conn) = some conn
is_connected backoff = none

unfoldable pub reachable : PeerSet → List (EndpointId × Connection)
reachable [] = []
reachable ((id, handle) ∷ peers) = elim (is_connected handle.state) [
  | none ↦ reachable peers
  | some conn ↦ (id, conn) ∷ reachable peers
]

-- `sort_by_key` with a key that is false for `first` alone: those come first, in their order.
unfoldable pub those :
    (EndpointId → Bool) → List (EndpointId × Connection) → List (EndpointId × Connection)
those test [] = []
those test ((id, conn) ∷ rest) =
    let further = those test rest in if test id then (id, conn) ∷ further else further

unfoldable pub connected_peers : EndpointId → PeerSet → List (EndpointId × Connection)
unfolding reachable those
connected_peers first peers =
    those (λ id. id == first) (reachable peers) ++ those (λ id. not (id == first)) (reachable peers)
