-- ===== src/Config/Mesh/Merge.antt =====
-- src/config/mesh.rs: what `merge` keeps, takes and bounds.
use yank.Prelude.{
  suc, ◌≤◌, ◌<◌, ◌≡◌, ◌≢◌, refl, ◌∙◌, ◌⊎◌, inl, inr, Bool, true, false, not, ◌||◌, Option, none,
  some, [], ◌∷◌, arith, ◌==◌, length, is_some, Option-cases, if◌then◌else◌, if-elim,
}
use yank.Prelude.Map.{lookup, insert, IsSorted, insert-IsSorted, lookup-insert, length-insert}
use yank.Config.Mesh.{
  EndpointId, Peer, MeshState, max_mesh_peers, outranks, is_valid, adopts, merge_one, merge,
}
use yank.Config.Mesh.Rank.{outranks_trans}

-- The test under which a round of `merge` inserts the record.
unfoldable pub takes : EndpointId → EndpointId → Peer → MeshState → Bool
takes local id theirs state =
    if id == local || not (is_valid theirs)
    then false
    else adopts theirs (lookup id state) (length state)

pub merge_one-takes :
    (local id : EndpointId) (theirs : Peer) (state : MeshState)
    → merge_one local id theirs state
      ≡ (if takes local id theirs state then insert id theirs state else state)
unfolding merge_one takes
merge_one-takes local id theirs state = ground arith

pub merge_one-IsSorted :
    (local id : EndpointId) (theirs : Peer) (state : MeshState)
    → IsSorted state
    → IsSorted (merge_one local id theirs state)
merge_one-IsSorted local id theirs state s = rw (merge_one-takes local id theirs state) (
    if-elim IsSorted (takes local id theirs state) (λ _. insert-IsSorted id theirs state s)
      (λ _. s))

pub merge-IsSorted :
    (local : EndpointId) (remote state : MeshState)
    → IsSorted state
    → IsSorted (merge local remote state)
unfolding merge
merge-IsSorted local [] state s = s
merge-IsSorted local ((id, theirs) ∷ rest) state s =
    merge-IsSorted local rest (merge_one local id theirs state)
      (merge_one-IsSorted local id theirs state s)

-- A round writes one entry, or nothing.
pub lookup-merge_one :
    (local id j : EndpointId) (theirs : Peer) (state : MeshState)
    → IsSorted state
    → lookup j (merge_one local id theirs state) ≡ (
        if takes local id theirs state
        then (if id == j then some theirs else lookup j state)
        else lookup j state)
lookup-merge_one local id j theirs state s =
    ground (arith, merge_one-takes local id theirs state, lookup-insert id j theirs state s)

pub length-merge_one :
    (local id : EndpointId) (theirs : Peer) (state : MeshState)
    → IsSorted state
    → length (merge_one local id theirs state) ≡ (
        if takes local id theirs state
        then (if is_some (lookup id state) then length state else suc (length state))
        else length state)
length-merge_one local id theirs state s =
    ground (arith, merge_one-takes local id theirs state, length-insert id theirs state s)

takes_room :
    (local id : EndpointId) (theirs : Peer) (state : MeshState)
    → takes local id theirs state ≡ true
    → lookup id state ≡ none
    → length state < max_mesh_peers
unfolding takes adopts
takes_room local id theirs state h e = ground (arith, h, e)

takes-outranks :
    (local id : EndpointId) (theirs ours : Peer) (state : MeshState)
    → takes local id theirs state ≡ true
    → lookup id state ≡ some ours
    → outranks theirs ours ≡ true
unfolding takes adopts
takes-outranks local id theirs ours state h e = ground (arith, h, e)

takes_local :
    (local id : EndpointId) (theirs : Peer) (state : MeshState)
    → takes local id theirs state ≡ true
    → id ≢ local
unfolding takes
takes_local local id theirs state h = ground (arith, h)

length-merge_one-le :
    (local id : EndpointId) (theirs : Peer) (state : MeshState)
    → IsSorted state
    → length state ≤ max_mesh_peers
    → length (merge_one local id theirs state) ≤ max_mesh_peers
length-merge_one-le local id theirs state s h =
    ground (arith, length-merge_one local id theirs state s, takes_room local id theirs state)

-- What a peer sends never makes the state outgrow its cap.
pub length-merge-le :
    (local : EndpointId) (remote state : MeshState)
    → IsSorted state
    → length state ≤ max_mesh_peers
    → length (merge local remote state) ≤ max_mesh_peers
unfolding merge
length-merge-le local [] state s h = h
length-merge-le local ((id, theirs) ∷ rest) state s h =
    length-merge-le local rest (merge_one local id theirs state)
      (merge_one-IsSorted local id theirs state s) (length-merge_one-le local id theirs state s h)

-- The record held for a machine, after peers were heard: never lost, and replaced only by one that
-- outranks it.
abbrev pub NoWorse : Option Peer → Option Peer → Type 0
NoWorse none after = Unit {0}
NoWorse (some ours) none = ⊥
NoWorse (some ours) (some after) = (after ≡ ours) ⊎ (outranks after ours ≡ true)

NoWorse-refl : (a : Option Peer) → NoWorse a a
NoWorse-refl none = tt
NoWorse-refl (some a) = inl refl

NoWorse-trans : (a b c : Option Peer) → NoWorse a b → NoWorse b c → NoWorse a c
NoWorse-trans none b c h k = tt
NoWorse-trans (some a) none c h k = absurd h
NoWorse-trans (some a) (some b) none h k = absurd k
NoWorse-trans (some a) (some b) (some c) h k = ground (arith, outranks_trans c b a)

NoWorse-took :
    (j : EndpointId) (theirs : Peer) (state : MeshState)
    → ((ours : Peer) → lookup j state ≡ some ours → outranks theirs ours ≡ true)
    → NoWorse (lookup j state) (some theirs)
NoWorse-took j theirs state h = elim (Option-cases (lookup j state)) [
  | inl e ↦ rw e tt
  | inr (ours, e) ↦ rw e (inr (h ours e))
]

merge_one-NoWorse :
    (local id j : EndpointId) (theirs : Peer) (state : MeshState)
    → IsSorted state
    → NoWorse (lookup j state) (lookup j (merge_one local id theirs state))
merge_one-NoWorse local id j theirs state s = rw (lookup-merge_one local id j theirs state s) (
    if-elim (NoWorse (lookup j state)) (takes local id theirs state)
      (λ took.
        if-elim (NoWorse (lookup j state)) (id == j)
          (λ same.
            NoWorse-took j theirs state
              (λ ours e. takes-outranks local id theirs ours state took (ground (arith, e, same))))
          (λ _. NoWorse-refl (lookup j state)))
      (λ _. NoWorse-refl (lookup j state)))

-- No gossip undoes what is known: from a sorted state, the record held for any machine is kept, or
-- replaced by one that outranks it.
pub merge-NoWorse :
    (local j : EndpointId) (remote state : MeshState)
    → IsSorted state
    → NoWorse (lookup j state) (lookup j (merge local remote state))
unfolding merge
merge-NoWorse local j [] state s = NoWorse-refl (lookup j state)
merge-NoWorse local j ((id, theirs) ∷ rest) state s =
    NoWorse-trans _ _ _ (merge_one-NoWorse local id j theirs state s) (
      merge-NoWorse local j rest (merge_one local id theirs state)
        (merge_one-IsSorted local id theirs state s))

-- A merge leaves the machine's own record as it was, whatever the other side holds about it, in a
-- sorted state.
pub lookup-merge_local :
    (local : EndpointId) (remote state : MeshState)
    → IsSorted state
    → lookup local (merge local remote state) ≡ lookup local state
unfolding merge
lookup-merge_local local [] state s = refl
lookup-merge_local local ((id, theirs) ∷ rest) state s =
    lookup-merge_local local rest (merge_one local id theirs state)
      (merge_one-IsSorted local id theirs state s)
    ∙ ground
        (arith, lookup-merge_one local id local theirs state s, takes_local local id theirs state)
