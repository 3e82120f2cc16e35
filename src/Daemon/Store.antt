-- ===== src/Daemon/Store.antt =====
-- src/daemon/store.rs: the owner of the mesh state. `disk` is the file, which a write that fails leaves
-- as it was, `synced` the state that the peer set was last aligned with, and `writes` counts the
-- writes. Changes hold a lock from start to finish, so they are steps one after the other.
pub mod Aligned
use yank.Prelude.{
  ℕ, ◌+◌, Bool, true, false, ◌&&◌, Option, none, some, is_some, List, [], ◌∷◌, ◌==◌, if◌then◌else◌,
  Result, ok, err, cannot_save,
}
use yank.Prelude.Bytes.{Str, eq_list}
use yank.Config.Mesh.{
  EndpointId, MeshState, Peer, PeerStatus, alive, removed, peer_name, add_peer, merge,
}
use yank.Net.Pair.{PairedPeer}

pub record MeshStore : Type 0 where
  pub local : EndpointId
  pub state : MeshState
  pub disk : MeshState
  pub synced : MeshState
  pub writes : ℕ

-- `==` of mesh states.
abbrev pub eq_status : PeerStatus → PeerStatus → Bool
eq_status (alive a) (alive b) = eq_list a b
eq_status (alive a) removed = false
eq_status removed (alive b) = false
eq_status removed removed = true

unfoldable pub eq_state : MeshState → MeshState → Bool
eq_state [] [] = true
eq_state [] (b ∷ ys) = false
eq_state (a ∷ xs) [] = false
eq_state ((i, a) ∷ xs) ((j, b) ∷ ys) =
    i == j && a.version == b.version && eq_status a.status b.status && eq_state xs ys

-- `MeshStore::new`, of the state that was loaded.
unfoldable pub new_store : EndpointId → MeshState → MeshStore
new_store local state = record {
  local = local;
  state = state;
  disk = state;
  synced = state;
  writes = 0;
}

-- `MeshStore::update` from where the change has been made.
abbrev pub commit : Bool → MeshStore → Result MeshState → MeshStore × Result (Unit {0})
commit written store (err e) = (store, err e)
commit written store (ok next) =
    if eq_state next store.state
    then (store, ok tt)
    else if written
    then (
      record store { state = next; disk = next; synced = next; writes = store.writes + 1 },
      ok tt,
    )
    else (store, err cannot_save)

-- `MeshStore::update`
unfoldable pub update :
    Bool → (MeshState → Result MeshState) → MeshStore → MeshStore × Result (Unit {0})
update written mutate store = commit written store (mutate store.state)

-- `MeshStore::add_paired`
unfoldable pub add_paired : Bool → PairedPeer → MeshStore → MeshStore × Result (Unit {0})
add_paired written peer = update written (λ state.
    if is_some (peer_name peer.endpoint state)
    then ok state
    else add_peer peer.endpoint peer.name state)

-- One round of the loop of `MeshStore::merge_gossip`.
unfoldable pub merge_gossip : Bool → MeshState → MeshStore → MeshStore
merge_gossip written remote store =
    (update written (λ state. ok (merge store.local remote state)) store).0
