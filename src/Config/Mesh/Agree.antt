-- ===== src/Config/Mesh/Agree.antt =====
-- src/config/mesh.rs: merging twice changes nothing, and machines that merge one another's states
-- agree.
use yank.Prelude.{◌≡◌, refl, inl, inr, false, none, some, [], ◌∷◌, arith, Option-cases, All}
use yank.Prelude.Map.{lookup, IsSorted}
use yank.Config.Mesh.{EndpointId, Peer, MeshState, adopts, merge_one, merge}
use yank.Config.Mesh.Rank.{outranks_irrefl, outranks_trans}
use yank.Config.Mesh.Merge.{
  takes, merge_one-takes, merge_one-IsSorted, lookup-merge_one, length-merge_one,
}

-- A record that is turned down stays so after any other round.
takes_later_known :
    (local id j : EndpointId) (mine theirs ours : Peer) (state : MeshState)
    → IsSorted state
    → lookup id state ≡ some ours
    → takes local id mine state ≡ false
    → takes local id mine (merge_one local j theirs state) ≡ false
unfolding takes adopts
takes_later_known local id j mine theirs ours state s e h =
    ground
      (arith, h, e, lookup-merge_one local j id theirs state s, outranks_trans mine theirs ours)

takes_later_unknown :
    (local id j : EndpointId) (mine theirs : Peer) (state : MeshState)
    → IsSorted state
    → lookup id state ≡ none
    → takes local id mine state ≡ false
    → takes local id mine (merge_one local j theirs state) ≡ false
unfolding takes adopts
takes_later_unknown local id j mine theirs state s e h = ground (
  arith,
  h,
  e,
  lookup-merge_one local j id theirs state s,
  length-merge_one local j theirs state s,
)

takes_later :
    (local id j : EndpointId) (mine theirs : Peer) (state : MeshState)
    → IsSorted state
    → takes local id mine state ≡ false
    → takes local id mine (merge_one local j theirs state) ≡ false
takes_later local id j mine theirs state s h = elim (Option-cases (lookup id state)) [
  | inl e ↦ takes_later_unknown local id j mine theirs state s e h
  | inr (ours, e) ↦ takes_later_known local id j mine theirs ours state s e h
]

-- A record that was taken is not taken again.
takes_again :
    (local id : EndpointId) (theirs : Peer) (state : MeshState)
    → IsSorted state
    → takes local id theirs (merge_one local id theirs state) ≡ false
unfolding takes adopts
takes_again local id theirs state s = ground (
  arith,
  lookup-merge_one local id id theirs state s,
  merge_one-takes local id theirs state,
  outranks_irrefl theirs,
)

-- Nothing of what a peer sent would still be taken.
abbrev Settled : EndpointId → MeshState → MeshState → Type 0
Settled local remote state = All (λ entry. takes local entry.0 entry.1 state ≡ false) remote

merge-eq-state :
    (local : EndpointId) (remote state : MeshState)
    → Settled local remote state
    → merge local remote state ≡ state
unfolding merge
merge-eq-state local [] state h = refl
merge-eq-state local ((id, theirs) ∷ rest) state h =
    let same : merge_one local id theirs state ≡ state =
      ground (arith, merge_one-takes local id theirs state, h.0) in
    rw same (merge-eq-state local rest state h.1)

Settled-merge_one :
    (local j : EndpointId) (theirs : Peer) (remote state : MeshState)
    → IsSorted state
    → Settled local remote state
    → Settled local remote (merge_one local j theirs state)
Settled-merge_one local j theirs [] state s h = tt
Settled-merge_one local j theirs ((id, mine) ∷ rest) state s h = (
  takes_later local id j mine theirs state s h.0,
  Settled-merge_one local j theirs rest state s h.1,
)

takes-merge :
    (local id : EndpointId) (mine : Peer) (remote state : MeshState)
    → IsSorted state
    → takes local id mine state ≡ false
    → takes local id mine (merge local remote state) ≡ false
unfolding merge
takes-merge local id mine [] state s h = h
takes-merge local id mine ((j, theirs) ∷ rest) state s h =
    takes-merge local id mine rest (merge_one local j theirs state)
      (merge_one-IsSorted local j theirs state s) (takes_later local id j mine theirs state s h)

merge-Settled :
    (local : EndpointId) (remote state : MeshState)
    → IsSorted state
    → Settled local remote (merge local remote state)
unfolding merge
merge-Settled local [] state s = tt
merge-Settled local ((id, theirs) ∷ rest) state s =
    let next = merge_one local id theirs state in
    let sorted = merge_one-IsSorted local id theirs state s in
    (
      takes-merge local id theirs rest next sorted (takes_again local id theirs state s),
      merge-Settled local rest next sorted,
    )

-- Merging the same state again changes nothing, room or not: this is what stops gossip from echoing.
pub merge-merge :
    (local : EndpointId) (remote state : MeshState)
    → IsSorted state
    → merge local remote (merge local remote state) ≡ merge local remote state
merge-merge local remote state s =
    merge-eq-state local remote (merge local remote state) (merge-Settled local remote state s)
