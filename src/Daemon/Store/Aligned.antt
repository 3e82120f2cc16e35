-- ===== src/Daemon/Store/Aligned.antt =====
-- src/daemon/store.rs: the file, the connections and the state agree, and what is repeated is idle.
use yank.Prelude.{
  ℕ, ◌+◌, ◌≤◌, ◌≡◌, refl, sym, ap, subst, ◌∙◌, Bool, true, false, [], ◌∷◌, length, is_some, arith,
  if-elim, if◌then◌else◌, Result, ok, err, cannot_save, inl, inr, ◌⊎◌,
}
use yank.Prelude.Bytes.{Str, eq_list→eq, eq_list_refl}
use yank.Prelude.Map.{IsSorted}
use yank.Config.Mesh.{
  MeshState, PeerStatus, alive, removed, peer_name, add_peer, merge, max_mesh_peers,
}
use yank.Config.Mesh.Agree.{merge-merge}
use yank.Config.Mesh.Local.{add_peer-Bumped}
use yank.Daemon.Store.{MeshStore, eq_status, eq_state, commit, update, add_paired, merge_gossip}
use yank.Net.Pair.{PairedPeer}

-- The file holds the state, and the connections are to the machines in it.
pub record IsAligned (store : MeshStore) : Type 0 where
  pub on_disk : store.disk ≡ store.state
  pub connected : store.synced ≡ store.state

-- What a change leaves: it is aligned, a change that is not refused has been made, and one that is
-- refused has left everything xs it was.
pub record Updated (old : MeshStore) (change : Result MeshState)
    (outcome : MeshStore × Result (Unit {0})) : Type 0 where
  pub aligned : IsAligned outcome.0
  pub local : outcome.0.local ≡ old.local
  pub made : outcome.1 ≡ ok tt → (next : MeshState) × (change ≡ ok next) × (outcome.0.state ≡ next)
  pub refused : (outcome.1 ≡ ok tt) ⊎ (outcome.0 ≡ old)

eq_status→eq : (a b : PeerStatus) → eq_status a b ≡ true → a ≡ b
eq_status→eq (alive a) (alive b) h = ap alive (eq_list→eq a b h)
eq_status→eq (alive a) removed h = cc
eq_status→eq removed (alive b) h = cc
eq_status→eq removed removed h = refl

eq_status_refl : (a : PeerStatus) → eq_status a a ≡ true
eq_status_refl (alive a) = eq_list_refl a
eq_status_refl removed = refl

eq_state→eq : (xs ys : MeshState) → eq_state xs ys ≡ true → xs ≡ ys
unfolding eq_state
eq_state→eq [] [] h = refl
eq_state→eq [] (b ∷ ys) h = cc
eq_state→eq (a ∷ xs) [] h = cc
eq_state→eq ((i, a) ∷ xs) ((j, b) ∷ ys) h =
    ground (arith, h, eq_status→eq a.status b.status, eq_state→eq xs ys)

eq_state_refl : (xs : MeshState) → eq_state xs xs ≡ true
unfolding eq_state
eq_state_refl [] = refl
eq_state_refl ((i, a) ∷ xs) = ground (arith, eq_status_refl a.status, eq_state_refl xs)

-- The write itself: everything follows it, or nothing does.
commit-Updated_write :
    (written : Bool) (store : MeshStore) (next : MeshState)
    → IsAligned store
    → Updated store (ok next) (
        if written
        then (
          record store { state = next; disk = next; synced = next; writes = store.writes + 1 },
          ok tt,
        )
        else (store, err cannot_save))
commit-Updated_write true store next h = record {
  aligned = record { on_disk = refl; connected = refl };
  local = refl;
  made = λ _. (next, refl, refl);
  refused = inl refl;
}
commit-Updated_write false store next h = record {
  aligned = h;
  local = refl;
  made = λ e. cc;
  refused = inr refl;
}

commit-Updated :
    (written : Bool) (store : MeshStore) (change : Result MeshState)
    → IsAligned store
    → Updated store change (commit written store change)
commit-Updated written store (err e) h = record {
  aligned = h;
  local = refl;
  made = λ e. cc;
  refused = inr refl;
}
commit-Updated written store (ok next) h =
    if-elim (Updated store (ok next)) (eq_state next store.state)
      (λ same. record {
        aligned = h;
        local = refl;
        made = λ _. (next, refl, sym (eq_state→eq next store.state same));
        refused = inl refl;
      })
      (λ _. commit-Updated_write written store next h)

-- From an aligned store, and whether or not the write succeeds, a change leaves an aligned store; where
-- it reports success its state is the store's, and otherwise the store is as it was.
pub update-Updated :
    (written : Bool) (mutate : MeshState → Result MeshState) (store : MeshStore)
    → IsAligned store
    → Updated store (mutate store.state) (update written mutate store)
unfolding update
update-Updated written mutate store h = commit-Updated written store (mutate store.state) h

commit-idle :
    (written : Bool) (store : MeshStore) (next : MeshState)
    → next ≡ store.state
    → commit written store (ok next) ≡ (store, ok tt)
commit-idle written store next e =
    let same : eq_state next store.state ≡ true =
      subst (λ s. eq_state s store.state ≡ true) (sym e) (eq_state_refl store.state) in
    rw same refl

peer_name-add_peer :
    (id : ℕ) (name : Str) (state : MeshState) {new : MeshState}
    → IsSorted state
    → length state ≤ max_mesh_peers
    → add_peer id name state ≡ ok new
    → is_some (peer_name id new) ≡ true
unfolding peer_name
peer_name-add_peer id name state s small e =
    let bumped = add_peer-Bumped id state s small name e in rw bumped.written refl

ok-inj : {a b : MeshState} → ok a ≡ ok b → a ≡ b
ok-inj e = cc

peer_name-registered :
    (id : ℕ) (name : Str) (state next : MeshState)
    → IsSorted state
    → length state ≤ max_mesh_peers
    → (if is_some (peer_name id state) then ok state else add_peer id name state) ≡ ok next
    → is_some (peer_name id next) ≡ true
peer_name-registered id name state next s small =
    if-elim {A = Result MeshState} (λ r. r ≡ ok next → is_some (peer_name id next) ≡ true)
      (is_some (peer_name id state))
      (λ known e. subst (λ st. is_some (peer_name id st) ≡ true) (ok-inj e) known)
      (λ _ e. peer_name-add_peer id name state s small e)

add_paired_idle :
    (again : Bool) (peer : PairedPeer) (store : MeshStore)
    → is_some (peer_name peer.endpoint store.state) ≡ true
    → add_paired again peer store ≡ (store, ok tt)
unfolding add_paired update
add_paired_idle again peer store known = rw known (commit-idle again store store.state refl)

merge_gossip_idle :
    (again : Bool) (remote : MeshState) (store : MeshStore)
    → merge store.local remote store.state ≡ store.state
    → merge_gossip again remote store ≡ store
unfolding merge_gossip update
merge_gossip_idle again remote store e =
    ap (λ r. r.0) (commit-idle again store (merge store.local remote store.state) e)

state-commit : (store : MeshStore) (next : MeshState) → (commit true store (ok next)).0.state ≡ next
state-commit store next =
    if-elim {A = MeshStore × Result (Unit {0})} (λ r. r.0.state ≡ next) (eq_state next store.state)
      (λ same. sym (eq_state→eq next store.state same)) (λ _. refl)

-- Where a pairing was registered, doing it again changes nothing, whether or not the file can be
-- written then.
pub add_paired_again :
    (again : Bool) (peer : PairedPeer) (store : MeshStore)
    → IsSorted store.state
    → length store.state ≤ max_mesh_peers
    → IsAligned store
    → (add_paired true peer store).1 ≡ ok tt
    → add_paired again peer (add_paired true peer store).0 ≡ ((add_paired true peer store).0, ok tt)
unfolding add_paired update
add_paired_again again peer store s small h e =
    let registered : Result MeshState =
      if is_some (peer_name peer.endpoint store.state)
      then ok store.state
      else add_peer peer.endpoint peer.name store.state in
    let first = commit-Updated true store registered h in
    let (next, change, is_next) = first.made e in
    let known = peer_name-registered peer.endpoint peer.name store.state next s small change in
    add_paired_idle again peer (add_paired true peer store).0
      (subst (λ st. is_some (peer_name peer.endpoint st) ≡ true) (sym is_next) known)

-- Gossip that is heard again, once it was taken in and written, changes nothing and writes nothing.
pub merge_gossip_again :
    (again : Bool) (remote : MeshState) (store : MeshStore)
    → IsSorted store.state
    → IsAligned store
    → merge_gossip again remote (merge_gossip true remote store) ≡ merge_gossip true remote store
unfolding merge_gossip update
merge_gossip_again again remote store s h =
    let merged = merge store.local remote store.state in
    let first = commit-Updated true store (ok merged) h in
    let held : (merge_gossip true remote store).state ≡ merged = state-commit store merged in
    merge_gossip_idle again remote (merge_gossip true remote store) (
      ap (λ id. merge id remote (merge_gossip true remote store).state) first.local
      ∙ ap (merge store.local remote) held
      ∙ merge-merge store.local remote store.state s
      ∙ sym held)
