-- ===== src/Config/Mesh/Local.antt =====
-- src/config/mesh.rs: the changes that a machine makes itself, and how they spread.
use yank.Prelude.{
  ℕ, ◌+◌, ◌-◌, ◌≤◌, ◌<◌, ◌≡◌, ◌≢◌, refl, ◌∙◌, ap, subst, unknown_machine, >>=-eq-ok, ◌⊎◌, inr, Bool,
  true, false, ◌||◌, Option, none, some, arith, ltb, length, is_some, ok, err, record_corrupt,
  ltb→lt, ensure-eq-ok, >>-eq-ok, ensure,
}
use yank.Prelude.Bytes.{Str}
use yank.Prelude.Map.{lookup, insert, IsSorted, insert-IsSorted, lookup-insert, length-insert}
use yank.Config.Name.{validate_name}
use yank.Config.Mesh.{
  EndpointId, Peer, PeerStatus, alive, removed, MeshState, max_mesh_peers, max_record_version,
  is_valid, merge, peer_name, version_of, next_version, add_peer, remove_peer, validate_new_peer,
}
use yank.Config.Mesh.Rank.{outranks_of_version}
use yank.Config.Mesh.Exchange.{pick, lookup-merge}

room_cases :
    (n : ℕ) (b : Bool) → (ltb n max_mesh_peers || b) ≡ true → (n < max_mesh_peers) ⊎ (b ≡ true)
room_cases n b h = ground arith

known_of :
    (id : EndpointId) (state : MeshState)
    → is_some (peer_name id state) ≡ true
    → is_some (lookup id state) ≡ true
unfolding peer_name
known_of id state h = ground arith

pick_tombstone :
    (there id : EndpointId) (tombstone : Peer) (held : Option Peer)
    → id ≢ there
    → tombstone.status ≡ removed
    → tombstone.version ≤ max_record_version
    → version_of held < tombstone.version
    → pick there id (some tombstone) held ≡ some tombstone
unfolding pick is_valid
pick_tombstone there id tombstone none other gone low newer = ground arith
pick_tombstone there id tombstone (some held) other gone low newer =
    ground (arith, outranks_of_version tombstone held)

-- A change of one machine's record: one version up, and nothing else is touched.
pub record Bumped (id : EndpointId) (status : PeerStatus) (old new : MeshState) : Type 0 where
  pub written :
      lookup id new ≡ some (record { version = version_of (lookup id old) + 1; status = status })
  pub others : (j : EndpointId) → j ≢ id → lookup j new ≡ lookup j old
  pub sorted : IsSorted new
  pub below : version_of (lookup id old) < max_record_version
  pub bounded : length new ≤ max_mesh_peers

insert-Bumped :
    (id : EndpointId) (status : PeerStatus) (state : MeshState)
    → IsSorted state
    → length state ≤ max_mesh_peers
    → version_of (lookup id state) < max_record_version
    → (length state < max_mesh_peers) ⊎ (is_some (lookup id state) ≡ true)
    → Bumped id status state
        (insert id (record { version = version_of (lookup id state) + 1; status = status }) state)
insert-Bumped id status state s small low room =
    let peer : Peer = record { version = version_of (lookup id state) + 1; status = status } in
    record {
      written = ground (arith, lookup-insert id id peer state s);
      others = λ j other. ground (arith, lookup-insert id j peer state s, other);
      sorted = insert-IsSorted id peer state s;
      below = low;
      bounded = ground (arith, length-insert id peer state s, room);
    }

next_version-eq-ok :
    (id : EndpointId) (state : MeshState) {v : ℕ}
    → next_version id state ≡ ok v
    → (version_of (lookup id state) < max_record_version) × (v ≡ version_of (lookup id state) + 1)
unfolding next_version
next_version-eq-ok id state e =
    let (passed, same) = >>-eq-ok _ _ e in (ltb→lt _ _ (ensure-eq-ok _ _ passed), cc same)

room_of :
    (name : Str) (id : EndpointId) (state : MeshState)
    → validate_new_peer name id state ≡ ok tt
    → (length state < max_mesh_peers) ⊎ (is_some (lookup id state) ≡ true)
unfolding validate_new_peer
room_of name id state e =
    room_cases (length state) (is_some (lookup id state)) (ensure-eq-ok _ _ (>>-eq-ok _ _ e).1)

module _ (id : EndpointId) (state : MeshState) (s : IsSorted state)
    (small : length state ≤ max_mesh_peers) where
  -- A registration that is not refused writes the name one version above what was held, touches no
  -- other record, and keeps the state sorted and within its cap.
  pub add_peer-Bumped :
      (name : Str) {new : MeshState}
      → add_peer id name state ≡ ok new
      → Bumped id (alive name) state new
  unfolding add_peer
  add_peer-Bumped name e =
      let (valid, rest) = >>-eq-ok (validate_new_peer name id state) _ e in
      let (v, version, written) = >>=-eq-ok (next_version id state) _ rest in
      let (low, up) = next_version-eq-ok id state version in
      let bumped = insert-Bumped id (alive name) state s small low (room_of name id state valid) in
      subst (Bumped id (alive name) state) (cc (written, up)) bumped

  -- A removal that is not refused does the same with a tombstone, of a machine that was there.
  pub remove_peer-Bumped :
      {new : MeshState}
      → remove_peer id state ≡ ok new
      → Bumped id removed state new × (is_some (peer_name id state) ≡ true)
  unfolding remove_peer
  remove_peer-Bumped e =
      let (known, rest) = >>-eq-ok (ensure (is_some (peer_name id state)) unknown_machine) _ e in
      let (v, version, written) = >>=-eq-ok (next_version id state) _ rest in
      let (low, up) = next_version-eq-ok id state version in
      let there = ensure-eq-ok _ _ known in
      let bumped = insert-Bumped id removed state s small low (inr (known_of id state there)) in
      (subst (Bumped id removed state) (cc (written, up)) bumped, there)

  -- A removal spreads: a third machine that holds no higher version than this one did, and has room
  -- for what it is sent, holds the tombstone after it merges, and no name for the machine.
  pub remove_peer-merge :
      (there : EndpointId) (theirs : MeshState) {new : MeshState}
      → remove_peer id state ≡ ok new
      → id ≢ there
      → IsSorted theirs
      → length theirs + length new ≤ max_mesh_peers
      → version_of (lookup id theirs) ≤ version_of (lookup id state)
      → (lookup id (merge there new theirs)
          ≡ some (record { version = version_of (lookup id state) + 1; status = removed }))
        × (peer_name id (merge there new theirs) ≡ none)
  unfolding peer_name
  remove_peer-merge there theirs {new} e other sorted room older =
      let bumped = (remove_peer-Bumped e).0 in
      let tombstone : Peer = record {
        version = version_of (lookup id state) + 1;
        status = removed;
      } in
      let found : lookup id (merge there new theirs) ≡ some tombstone =
        lookup-merge there id new theirs sorted bumped.sorted room
        ∙ ap (λ p. pick there id p (lookup id theirs)) bumped.written
        ∙ pick_tombstone there id tombstone (lookup id theirs) other refl
            (omega (arith, bumped.below)) (omega arith) in
      (found, ground (arith, found))

-- The ceiling: a machine that is registered over a tombstone just under it gets a record that no other
-- machine takes and that this one can never remove again.
pub add_peer_ceiling :
    (id : EndpointId) (name : Str) (state : MeshState)
    → IsSorted state
    → lookup id state ≡ some (record { version = max_record_version - 1; status = removed })
    → validate_name name ≡ ok tt
    → (new : MeshState) × (stuck : Peer) × (add_peer id name state ≡ ok new)
      × (lookup id new ≡ some stuck)
      × (is_valid stuck ≡ false)
      × (remove_peer id new ≡ err record_corrupt)
unfolding add_peer next_version validate_new_peer remove_peer peer_name is_valid
add_peer_ceiling id name state s e valid =
    let stuck : Peer = record { version = max_record_version; status = alive name } in
    let new : MeshState = insert id stuck state in
    let found : lookup id new ≡ some stuck = ground (arith, lookup-insert id id stuck state s) in
    (new, stuck, ground (arith, e, valid), found, refl, ground (arith, found))
