-- ===== src/Tests/Services.antt =====
-- The services at concrete inputs.
use yank.Prelude.{Bool, ◌≡◌, refl, true, false, none, some, List, [], ◌∷◌, ok, arith}
use yank.Prelude.Bytes.{codes, eq_list}
use yank.Prelude.Map.{lookup, insert}
use yank.Config.Name.{validate_name, is_confusable}
use yank.Config.Mesh.{
  MeshState, alive, removed, remove_peer, peer_name, add_peer, next_version, validate_new_peer,
}
use yank.Daemon.Store.{new_store, update, add_paired, merge_gossip, eq_state}
use yank.Net.Pair.{PairedPeer}
use yank.Daemon.Store.Aligned.{IsAligned, Updated, update-Updated, merge_gossip_again}
use yank.Clip.State.{saved, current}
use yank.Clip.Stamp.{Stamp}
use yank.Clip.Copy.{Copied}
use yank.Daemon.Service.{Service, open_service}
use yank.Daemon.Service.Events.{
  Event, accept_event, clear_event, copied_event, expire_event, handle_all, all_written,
}
use yank.Daemon.Service.InStep.{InStep, handle_all-InStep, reopen_lem}
use yank.Tests.Data.{crates, settings, at, clip_of, board_of, words}

abbrev fresh : Service
fresh = record {
  board = board_of 1;
  head = none;
  disk = none;
  jobs = [];
  commands = [];
  has_backend = true;
}

fresh-InStep : InStep crates true fresh
unfolding saved
fresh-InStep = record {
  sound = record { timed = refl; checked = tt };
  published = refl;
  on_disk = λ _. refl;
}

abbrev events : List (Bool × Event)
events =
    (true, accept_event (at 2000) (at 2000) (at 2000) (clip_of 1500 4))
    ∷ (true, copied_event (record { selection = words; secret = false }))
    ∷ (true, clear_event (at 3000) (at 3000))
    ∷ (true, expire_event (at 4000))
    ∷ []

handle_all-InStep_example : InStep crates (all_written true events) (handle_all crates events fresh)
handle_all-InStep_example = handle_all-InStep crates true events fresh fresh-InStep

reopen_lem_example :
    let after = handle_all crates events fresh in
    let again = open_service crates true after.disk 1 settings (at 5000) (at 5000) in
    (again.head ≡ after.head)
    × ((s : Stamp) (c : Copied)
        → current again.board ≡ some (s, c)
        → (current after.board ≡ some (s, c)) × (c.secret ≡ false))
reopen_lem_example =
    reopen_lem crates events fresh true 1 settings (at 5000) (at 5000) fresh-InStep refl

abbrev known : MeshState
known = (5, record { version = 1; status = alive (codes "laptop") }) ∷ []

abbrev paired : PairedPeer
paired = record { endpoint = 7; name = codes "desktop" }

abbrev gossip : MeshState
gossip = (6, record { version = 2; status = removed }) ∷ []

store-IsAligned : IsAligned (new_store 1 known)
unfolding new_store
store-IsAligned = record { on_disk = refl; connected = refl }

update-Updated_example :
    Updated
      (new_store 1 known)
      (remove_peer 5 known)
      (update false (remove_peer 5) (new_store 1 known))
unfolding new_store
update-Updated_example = update-Updated false (remove_peer 5) (new_store 1 known) store-IsAligned

paired-ok : (add_paired true paired (new_store 1 known)).1 ≡ ok tt
unfolding new_store add_paired update eq_state eq_list peer_name lookup insert add_peer next_version
    validate_new_peer validate_name is_confusable
paired-ok = refl

merge_gossip_again_example :
    merge_gossip false gossip (merge_gossip true gossip (new_store 1 known))
    ≡ merge_gossip true gossip (new_store 1 known)
unfolding new_store
merge_gossip_again_example =
    merge_gossip_again false gossip (new_store 1 known) (omega arith) store-IsAligned
