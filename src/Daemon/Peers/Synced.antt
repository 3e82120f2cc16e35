-- ===== src/Daemon/Peers/Synced.antt =====
-- src/daemon/peers.rs: what `PeerSet::sync` does with each machine.
use yank.Prelude.{
  ◌==◌, ◌≡◌, refl, ap, ◌∙◌, true, false, not, Option, none, some, is_some, List, any, ◌&&◌,
  if◌then◌else◌, arith, inl, inr, Bool-cases,
}
use yank.Prelude.Bytes.{Str, eq_list, eq_list→eq}
use yank.Prelude.Map.{lookup, IsSorted}
use yank.Prelude.Map.Removal.{map_values-Above, lookup-map_values, map_option}
use yank.Config.Mesh.{EndpointId, MeshState, peer_name, alive_peers}
use yank.Daemon.Peers.{
  Connection, connected, PeerHandle, PeerSet, Effect, spawn, removed_ids, remove_all, renamed,
  rename_all, spawn_all, sync, shutdown,
}
use yank.Daemon.Peers.Asked.{
  is_abort, is_spawn, is_close, any-append, abort-remove_all, abort-spawn_all, spawn-remove_all,
  spawn-spawn_all, closes-remove_all,
}
use yank.Daemon.Peers.Handles.{
  alive_peers-Above, lookup-alive_peers, remove_all-IsSorted, lookup-remove_all, any-removed_ids,
  spawn_all-IsSorted, or_spawn, lookup-spawn_all,
}

-- What is to become of a handle.
abbrev pub handled : Option Str → Option PeerHandle → Option PeerHandle
handled none handle = none
handled (some text) none = some (spawn text)
handled (some text) (some handle) = some (record handle { name = text })

renamed-eq :
    (text : Str) (handle : PeerHandle) → renamed (some text) handle ≡ record handle { name = text }
renamed-eq text handle = elim (Bool-cases (eq_list handle.name text)) [
  | inl same ↦ rw same (
      ap (λ (t : Str). (let h : PeerHandle = record handle { name = t } in h))
        (eq_list→eq handle.name text same))
  | inr other ↦ rw other refl
]

settled :
    (o : Option Str) (h : Option PeerHandle)
    → or_spawn o (map_option (renamed o) (if is_some o then h else none)) ≡ handled o h
settled none h = refl
settled (some text) none = refl
settled (some text) (some handle) = ap some (renamed-eq text handle)

-- The set of connections after it is brought in line: a task for each machine that is in the mesh, under
-- its name and with its connection, and none for another. A task is started for exactly those that had
-- none, stopped for exactly those that left, and then its connection is closed.
pub record Synced (state : MeshState) (old new : PeerSet) (effects : List Effect) : Type 0 where
  pub sorted : IsSorted new
  pub tasks : (id : EndpointId) → lookup id new ≡ handled (peer_name id state) (lookup id old)
  pub started :
      (id : EndpointId)
      → any (is_spawn id) effects ≡ (is_some (peer_name id state) && not (is_some (lookup id old)))
  pub stopped :
      (id : EndpointId)
      → any (is_abort id) effects ≡ (not (is_some (peer_name id state)) && is_some (lookup id old))
  pub closed :
      (id : EndpointId) (handle : PeerHandle) (conn : Connection)
      → lookup id old ≡ some handle
      → handle.state ≡ connected conn
      → peer_name id state ≡ none
      → any (is_close conn.id) effects ≡ true

is_some-map_option :
    (o : Option Str) (h : Option PeerHandle)
    → is_some (map_option (renamed o) (if is_some o then h else none)) ≡ (is_some o && is_some h)
is_some-map_option none h = refl
is_some-map_option (some text) none = refl
is_some-map_option (some text) (some handle) = refl

close-shutdown :
    (id : EndpointId) (handle : PeerHandle) (conn : Connection)
    → handle.state ≡ connected conn
    → any (is_close conn.id) (shutdown id handle) ≡ true
close-shutdown id handle conn there = rw there (ground arith)

module _ (state : MeshState) (peers : PeerSet) (known : IsSorted state)
    (sorted : IsSorted peers) where
  abbrev desired : List (EndpointId × Str)
  desired = alive_peers state

  abbrev kept : PeerSet
  kept = rename_all desired (remove_all (removed_ids desired peers) peers).0

  kept-IsSorted : IsSorted kept
  kept-IsSorted =
      map_values-Above (λ id handle. renamed (lookup id desired) handle) 0
        (remove_all (removed_ids desired peers) peers).0
        (remove_all-IsSorted (removed_ids desired peers) peers sorted)

  lookup-kept :
      (id : EndpointId)
      → lookup id kept
        ≡ map_option
            (renamed (lookup id desired))
            (if is_some (lookup id desired) then lookup id peers else none)
  lookup-kept id =
      lookup-map_values (λ k handle. renamed (lookup k desired) handle) id
        (remove_all (removed_ids desired peers) peers).0
      ∙ ap (map_option (renamed (lookup id desired))) (
          lookup-remove_all (removed_ids desired peers) peers id sorted
          ∙ ground (arith, any-removed_ids desired 0 peers id sorted))

  lookup-desired : (id : EndpointId) → lookup id desired ≡ peer_name id state
  lookup-desired id = lookup-alive_peers 0 id state known

  removed-desired :
      (id : EndpointId)
      → any (λ k. k == id) (removed_ids desired peers)
        ≡ (if is_some (lookup id desired) then false else is_some (lookup id peers))
  removed-desired id = any-removed_ids desired 0 peers id sorted

  is_some-kept :
      (id : EndpointId)
      → is_some (lookup id kept) ≡ (is_some (lookup id desired) && is_some (lookup id peers))
  is_some-kept id =
      ap is_some (lookup-kept id) ∙ is_some-map_option (lookup id desired) (lookup id peers)

  -- However the connections stand, `sync` brings them in line with the mesh state, in one pass.
  pub sync-Synced : Synced state peers (sync state peers).0 (sync state peers).1
  unfolding sync
  sync-Synced =
      let closing = (remove_all (removed_ids desired peers) peers).1 in
      let starting = (spawn_all desired kept).1 in
      record {
        sorted = spawn_all-IsSorted desired kept kept-IsSorted;
        tasks = λ id.
            lookup-spawn_all 0 desired kept id (alive_peers-Above 0 state known) kept-IsSorted
            ∙ ap (or_spawn (lookup id desired)) (lookup-kept id)
            ∙ settled (lookup id desired) (lookup id peers)
            ∙ ap (λ o. handled o (lookup id peers)) (lookup-desired id);
        started = λ id.
            any-append (is_spawn id) closing starting
            ∙ ground (
              arith,
              spawn-remove_all (removed_ids desired peers) peers id,
              spawn-spawn_all 0 desired kept id (alive_peers-Above 0 state known) kept-IsSorted,
              is_some-kept id,
              lookup-desired id,
            );
        stopped = λ id.
            any-append (is_abort id) closing starting
            ∙ ground (
              arith,
              abort-spawn_all desired kept id,
              abort-remove_all (removed_ids desired peers) peers id sorted,
              removed-desired id,
              lookup-desired id,
            );
        closed = λ id handle conn found there gone.
            any-append (is_close conn.id) closing starting
            ∙ ground (
              arith,
              closes-remove_all (is_close conn.id) (removed_ids desired peers) peers id handle
                  sorted found (ground (arith, removed-desired id, lookup-desired id, gone, found))
                  (close-shutdown id handle conn there),
            );
      }
