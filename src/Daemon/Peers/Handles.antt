-- ===== src/Daemon/Peers/Handles.antt =====
-- src/daemon/peers.rs: what each loop of `PeerSet::sync` does to the handle of one machine.
use yank.Prelude.{
  ℕ, suc, ◌==◌, ◌≤◌, ◌<◌, ◌≡◌, refl, ◌∙◌, false, Option, none, some, is_some, List, [], ◌∷◌, any,
  if◌then◌else◌, arith, if-elim,
}
use yank.Prelude.Bytes.{Str}
use yank.Prelude.Map.{
  lookup, insert, Above, Above-mono, IsSorted, insert-IsSorted, lookup-insert, lookup_below,
}
use yank.Prelude.Map.Removal.{remove, remove-Above, lookup-remove}
use yank.Config.Mesh.{EndpointId, MeshState, name, peer_name, alive_peers}
use yank.Daemon.Peers.{PeerHandle, PeerSet, Effect, spawn, removed_ids, remove_all, spawn_all}

entry-Above :
    (n id : ℕ) (o : Option Str) (rest : List (ℕ × Str))
    → n ≤ id
    → Above (suc id) rest
    → Above n (elim o [ none ↦ rest | some text ↦ (id, text) ∷ rest ])
entry-Above n id none rest h s = Above-mono {a = n} {b = suc id} rest (omega (arith, h)) s
entry-Above n id (some text) rest h s = (h, s)

pub alive_peers-Above : (n : ℕ) (state : MeshState) → Above n state → Above n (alive_peers state)
unfolding alive_peers
alive_peers-Above n [] s = tt
alive_peers-Above n ((id, peer) ∷ state) s =
    entry-Above n id (name peer) (alive_peers state) s.0 (alive_peers-Above (suc id) state s.1)

pub lookup-alive_peers :
    (n id : ℕ) (state : MeshState)
    → Above n state
    → lookup id (alive_peers state) ≡ peer_name id state
unfolding alive_peers lookup peer_name
lookup-alive_peers n id [] s = refl
lookup-alive_peers n id ((j, peer) ∷ state) s =
    let below = λ (h : id < suc j).
      lookup_below id (suc j) (alive_peers state) h (alive_peers-Above (suc j) state s.1) in
    ground (arith, lookup-alive_peers (suc j) id state s.1, below)

pub remove_all-IsSorted :
    (ids : List EndpointId) (peers : PeerSet) → IsSorted peers → IsSorted (remove_all ids peers).0
unfolding remove_all
remove_all-IsSorted [] peers s = s
remove_all-IsSorted (id ∷ ids) peers s =
    remove_all-IsSorted ids (remove id peers) (remove-Above 0 id peers s)

pub lookup-remove_all :
    (ids : List EndpointId) (peers : PeerSet) (k : EndpointId)
    → IsSorted peers
    → lookup k (remove_all ids peers).0 ≡ (if any (λ id. id == k) ids then none else lookup k peers)
unfolding remove_all
lookup-remove_all [] peers k s = refl
lookup-remove_all (id ∷ ids) peers k s =
    lookup-remove_all ids (remove id peers) k (remove-Above 0 id peers s)
    ∙ ground (arith, lookup-remove 0 id k peers s)

pub any-removed_ids :
    (desired : List (EndpointId × Str)) (n : ℕ) (peers : PeerSet) (k : EndpointId)
    → Above n peers
    → any (λ id. id == k) (removed_ids desired peers)
      ≡ (if is_some (lookup k desired) then false else is_some (lookup k peers))
unfolding removed_ids lookup
any-removed_ids desired n [] k s = ground arith
any-removed_ids desired n ((j, handle) ∷ peers) k s =
    ground (arith, any-removed_ids desired (suc j) peers k s.1)

pub spawn_all-IsSorted :
    (desired : List (EndpointId × Str)) (peers : PeerSet)
    → IsSorted peers
    → IsSorted (spawn_all desired peers).0
unfolding spawn_all
spawn_all-IsSorted [] peers s = s
spawn_all-IsSorted ((id, text) ∷ desired) peers s =
    if-elim {A = PeerSet × List Effect} (λ r. IsSorted r.0) (is_some (lookup id peers))
      (λ _. spawn_all-IsSorted desired peers s)
      (λ _.
        spawn_all-IsSorted desired (insert id (spawn text) peers)
          (insert-IsSorted id (spawn text) peers s))

-- A machine that has a task keeps it, and one that is missing gets one.
abbrev pub or_spawn : Option Str → Option PeerHandle → Option PeerHandle
or_spawn text (some handle) = some handle
or_spawn none none = none
or_spawn (some text) none = some (spawn text)

pub lookup-spawn_all :
    (n : ℕ) (desired : List (EndpointId × Str)) (peers : PeerSet) (k : EndpointId)
    → Above n desired
    → IsSorted peers
    → lookup k (spawn_all desired peers).0 ≡ or_spawn (lookup k desired) (lookup k peers)
unfolding spawn_all lookup
lookup-spawn_all n [] peers k d s = ground arith
lookup-spawn_all n ((id, text) ∷ desired) peers k d s =
    let below = λ (h : k < suc id). lookup_below k (suc id) desired h d.1 in
    ground (
      arith,
      below,
      lookup-spawn_all (suc id) desired peers k d.1 s,
      lookup-spawn_all (suc id) desired (insert id (spawn text) peers) k d.1
          (insert-IsSorted id (spawn text) peers s),
      lookup-insert id k (spawn text) peers s,
    )
