-- ===== src/Tests/Mesh.antt =====
-- The mesh state at concrete inputs.
use yank.Prelude.{
  ℕ, ◌+◌, ◌-◌, ◌≡◌, refl, false, none, some, [], ◌∷◌, arith, ok, err, record_corrupt,
}
use yank.Prelude.Bytes.{codes}
use yank.Prelude.Map.{lookup, insert}
use yank.Config.Name.{validate_name, is_confusable}
use yank.Config.Mesh.{
  Peer, alive, removed, MeshState, max_record_version, outranks, is_valid, merge, merge_one, adopts,
  add_peer, remove_peer, peer_name, version_of, next_version, validate_new_peer,
}
use yank.Config.Mesh.Merge.{NoWorse, merge-NoWorse}
use yank.Config.Mesh.Exchange.{merge_comm, merge_exchange}
use yank.Config.Mesh.Local.{remove_peer-merge, add_peer_ceiling}

abbrev laptop : ℕ → Peer
laptop version = record { version = version; status = alive (codes "laptop") }

abbrev gone : ℕ → Peer
gone version = record { version = version; status = removed }

abbrev ours : MeshState
ours = (1, laptop 1) ∷ (5, laptop 2) ∷ []

abbrev theirs : MeshState
theirs = (1, gone 9) ∷ (5, gone 2) ∷ (7, laptop 1) ∷ []

abbrev others : MeshState
others = (5, laptop 3) ∷ []

code : Unit {0}
unfolding lookup insert merge merge_one adopts is_valid outranks validate_name is_confusable
    add_peer remove_peer peer_name next_version validate_new_peer
code = tt

-- A tombstone beats a name at the same version, and our own record is skipped.
merge-theirs : merge 1 theirs ours ≡ (1, laptop 1) ∷ (5, gone 2) ∷ (7, laptop 1) ∷ []
unfolding code
merge-theirs = refl

merge-NoWorse_example : NoWorse (lookup 5 ours) (lookup 5 (merge 1 theirs ours))
merge-NoWorse_example = merge-NoWorse 1 5 theirs ours (omega arith)

merge_comm_example : merge 1 theirs (merge 1 others ours) ≡ merge 1 others (merge 1 theirs ours)
merge_comm_example =
    merge_comm 1 theirs others ours (omega arith) (omega arith) (omega arith) (omega arith)

merge_exchange_example : lookup 5 (merge 1 theirs ours) ≡ lookup 5 (merge 7 ours theirs)
unfolding code
merge_exchange_example =
    merge_exchange 1 7 5 ours theirs (omega arith) (omega arith) (omega arith) (omega arith)
      (omega arith) refl refl

added : (new : MeshState) × (add_peer 8 (codes "desktop") ours ≡ ok new)
unfolding code
added = (_, refl)

dropped : (new : MeshState) × (remove_peer 5 ours ≡ ok new)
unfolding code
dropped = (_, refl)

abbrev after_removal : MeshState
after_removal = (1, laptop 1) ∷ (5, gone 3) ∷ []

removal : remove_peer 5 ours ≡ ok after_removal
unfolding code
removal = refl

remove_peer-merge_example :
    (lookup 5 (merge 9 after_removal theirs) ≡ some (gone (version_of (lookup 5 ours) + 1)))
    × (peer_name 5 (merge 9 after_removal theirs) ≡ none)
unfolding code
remove_peer-merge_example =
    remove_peer-merge 5 ours (omega arith) (omega arith) 9 theirs removal (omega arith)
      (omega arith) (omega arith) (omega arith)

abbrev at_ceiling : MeshState
at_ceiling = (5, gone (max_record_version - 1)) ∷ []

add_peer_ceiling_example :
    (new : MeshState) × (stuck : Peer) × (add_peer 5 (codes "laptop") at_ceiling ≡ ok new)
    × (lookup 5 new ≡ some stuck)
    × (is_valid stuck ≡ false)
    × (remove_peer 5 new ≡ err record_corrupt)
unfolding code
add_peer_ceiling_example = add_peer_ceiling 5 (codes "laptop") at_ceiling (omega arith) refl refl
