-- ===== src/Config/Mesh/Exchange.antt =====
-- src/config/mesh.rs: while there is room, `merge` is a join of the two states, so the order in which
-- states are heard does not matter and machines that exchange theirs agree.
use yank.Prelude.{
  suc, ◌+◌, ◌≤◌, ◌<◌, ◌≡◌, ◌≢◌, refl, sym, ◌∙◌, ap, Bool, true, not, ◌||◌, Option, none, some, [],
  ◌∷◌, arith, ◌==◌, length, if◌then◌else◌,
}
use native.Mathlib.Decide.{ℕ_discrete}
use yank.Prelude.Map.{lookup, IsSorted, Above, lookup_ext, lookup_below}
use yank.Config.Mesh.{
  EndpointId, Peer, MeshState, max_mesh_peers, outranks, is_valid, adopts, merge_one, merge,
}
use yank.Config.Mesh.Rank.{outranks-asymm, outranks_trans, outranks-total}
use yank.Config.Mesh.Merge.{
  takes, merge_one-IsSorted, merge-IsSorted, lookup-merge_one, length-merge_one,
}

-- Whether a record may be taken for a machine at all.
abbrev is_open : EndpointId → EndpointId → Peer → Bool
is_open local j theirs = not (j == local || not (is_valid theirs))

-- The record that `merge` leaves for a machine, out of theirs and ours, while there is room.
unfoldable pub pick : EndpointId → EndpointId → Option Peer → Option Peer → Option Peer
pick local j none ours = ours
pick local j (some theirs) none = if is_open local j theirs then some theirs else none
pick local j (some theirs) (some ours) =
    if is_open local j theirs
    then (if outranks theirs ours then some theirs else some ours)
    else some ours

takes-pick :
    (local j : EndpointId) (theirs : Peer) (state : MeshState)
    → length state < max_mesh_peers
    → (if takes local j theirs state then some theirs else lookup j state)
      ≡ pick local j (some theirs) (lookup j state)
unfolding takes adopts pick
takes-pick local j theirs state room = ground arith

length-merge_one-suc :
    (local id : EndpointId) (theirs : Peer) (state : MeshState)
    → IsSorted state
    → length (merge_one local id theirs state) ≤ length state + 1
length-merge_one-suc local id theirs state s =
    ground (arith, length-merge_one local id theirs state s)

lookup-merge-Above :
    (local j n : EndpointId) (remote state : MeshState)
    → IsSorted state
    → Above n remote
    → length state + length remote ≤ max_mesh_peers
    → lookup j (merge local remote state) ≡ pick local j (lookup j remote) (lookup j state)
unfolding merge pick lookup
lookup-merge-Above local j n [] state s r room = refl
lookup-merge-Above local j n ((id, theirs) ∷ rest) state s r room =
    let next = merge_one local id theirs state in
    let ih =
      lookup-merge-Above local j (suc id) rest next (merge_one-IsSorted local id theirs state s) r.1
        (omega (arith, length-merge_one-suc local id theirs state s)) in
    let written = lookup-merge_one local id j theirs state s in
    elim (ℕ_discrete id j) [
      | no other ↦ ground (arith, ih, written, other)
      | yes same ↦ ground (
        arith,
        ih,
        written,
        same,
        lookup_below j (suc id) rest (omega arith) r.1,
        takes-pick local j theirs state (omega arith),
      )
    ]

-- What `merge` leaves for each machine, while there is room for all that is sent.
pub lookup-merge :
    (local j : EndpointId) (remote state : MeshState)
    → IsSorted state
    → IsSorted remote
    → length state + length remote ≤ max_mesh_peers
    → lookup j (merge local remote state) ≡ pick local j (lookup j remote) (lookup j state)
lookup-merge local j remote state s r room = lookup-merge-Above local j 0 remote state s r room

length-merge-add :
    (local : EndpointId) (remote state : MeshState)
    → IsSorted state
    → length (merge local remote state) ≤ length state + length remote
unfolding merge
length-merge-add local [] state s = omega arith
length-merge-add local ((id, theirs) ∷ rest) state s = omega (
  arith,
  length-merge_one-suc local id theirs state s,
  length-merge-add local rest (merge_one local id theirs state)
      (merge_one-IsSorted local id theirs state s),
)

pick_comm :
    (local j : EndpointId) (a b o : Option Peer)
    → pick local j a (pick local j b o) ≡ pick local j b (pick local j a o)
unfolding pick
pick_comm local j none b o = refl
pick_comm local j (some a) none o = refl
pick_comm local j (some a) (some b) none = ground (arith, outranks-asymm a b, outranks-total a b)
pick_comm local j (some a) (some b) (some o) =
    ground
      (arith, outranks-asymm a b, outranks-total a b, outranks_trans a b o, outranks_trans b a o)

-- Two states are heard in either order with the same result, while there is room for both.
pub merge_comm :
    (local : EndpointId) (a b state : MeshState)
    → IsSorted state
    → IsSorted a
    → IsSorted b
    → length state + length a + length b ≤ max_mesh_peers
    → merge local a (merge local b state) ≡ merge local b (merge local a state)
merge_comm local a b state s sa sb room =
    lookup_ext 0 _ _ (merge-IsSorted local a _ (merge-IsSorted local b state s))
      (merge-IsSorted local b _ (merge-IsSorted local a state s))
      (λ j.
        lookup-merge local j a (merge local b state) (merge-IsSorted local b state s) sa
          (omega (arith, length-merge-add local b state s))
        ∙ ap (pick local j (lookup j a)) (lookup-merge local j b state s sb (omega arith))
        ∙ pick_comm local j (lookup j a) (lookup j b) (lookup j state)
        ∙ ap (pick local j (lookup j b)) (sym (lookup-merge local j a state s sa (omega arith)))
        ∙ sym (
            lookup-merge local j b (merge local a state) (merge-IsSorted local a state s) sb
              (omega (arith, length-merge-add local a state s))))

-- Every record held may be taken by others.
abbrev pub AllValid : Option Peer → Type 0
AllValid none = Unit {0}
AllValid (some peer) = is_valid peer ≡ true

pick_exchange :
    (la lb j : EndpointId) (a b : Option Peer)
    → j ≢ la
    → j ≢ lb
    → AllValid a
    → AllValid b
    → pick la j b a ≡ pick lb j a b
unfolding pick
pick_exchange la lb j none none h k va vb = refl
pick_exchange la lb j none (some b) h k va vb = ground arith
pick_exchange la lb j (some a) none h k va vb = ground arith
pick_exchange la lb j (some a) (some b) h k va vb =
    ground (arith, outranks-asymm a b, outranks-total a b)

-- Two machines that merge one another's states hold the same record of every third machine, while
-- there is room for both states and the records are ones that others may take.
pub merge_exchange :
    (la lb j : EndpointId) (a b : MeshState)
    → IsSorted a
    → IsSorted b
    → length a + length b ≤ max_mesh_peers
    → j ≢ la
    → j ≢ lb
    → AllValid (lookup j a)
    → AllValid (lookup j b)
    → lookup j (merge la b a) ≡ lookup j (merge lb a b)
merge_exchange la lb j a b sa sb room h k va vb =
    lookup-merge la j b a sa sb room
    ∙ pick_exchange la lb j (lookup j a) (lookup j b) h k va vb
    ∙ sym (lookup-merge lb j a b sb sa (omega arith))
