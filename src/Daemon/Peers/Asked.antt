-- ===== src/Daemon/Peers/Asked.antt =====
-- src/daemon/peers.rs: what the loops of `PeerSet::sync` ask of tasks and connections.
use yank.Prelude.{
  ℕ, suc, ◌==◌, ◌<◌, ◌≡◌, refl, ◌∙◌, Bool, true, false, not, Option, none, some, is_some, List, [],
  ◌∷◌, ◌++◌, any, ◌||◌, ◌&&◌, arith, inl, inr, Bool-cases,
}
use yank.Prelude.Bytes.{Str}
use yank.Prelude.Map.{lookup, insert, Above, IsSorted, insert-IsSorted, lookup-insert, lookup_below}
use yank.Prelude.Map.Removal.{remove, remove-Above, lookup-remove}
use yank.Config.Mesh.{EndpointId}
use yank.Daemon.Peers.{
  connecting, connected, backoff, PeerHandle, PeerSet, Effect, closes, spawns, aborts, spawn,
  remove_all, shutdown_found, shutdown_state, spawn_all, shutdown,
}

abbrev pub is_abort : EndpointId → Effect → Bool
is_abort id (closes conn reason) = false
is_abort id (spawns other text) = false
is_abort id (aborts other) = other == id

abbrev pub is_spawn : EndpointId → Effect → Bool
is_spawn id (closes conn reason) = false
is_spawn id (spawns other text) = other == id
is_spawn id (aborts other) = false

abbrev pub is_close : ℕ → Effect → Bool
is_close id (closes conn reason) = conn.id == id
is_close id (spawns other text) = false
is_close id (aborts other) = false

pub any-append :
    (test : Effect → Bool) (a b : List Effect) → any test (a ++ b) ≡ (any test a || any test b)
any-append test [] b = refl
any-append test (e ∷ a) b = ground (arith, any-append test a b)

abort-shutdown :
    (id k : EndpointId) (h : Option PeerHandle)
    → any (is_abort k) (shutdown_found id h) ≡ ((id == k) && is_some h)
abort-shutdown id k none = ground arith
abort-shutdown id k (some handle) =
    elim handle.state
      as (λ s. any (is_abort k) (aborts id ∷ shutdown_state s) ≡ ((id == k) && true)) [
        | connecting ↦ ground arith
        | connected conn ↦ ground arith
        | backoff ↦ ground arith
      ]

spawn-shutdown :
    (id k : EndpointId) (h : Option PeerHandle) → any (is_spawn k) (shutdown_found id h) ≡ false
spawn-shutdown id k none = refl
spawn-shutdown id k (some handle) =
    elim handle.state as (λ s. any (is_spawn k) (aborts id ∷ shutdown_state s) ≡ false) [
      | connecting ↦ refl
      | connected conn ↦ refl
      | backoff ↦ refl
    ]

pub abort-remove_all :
    (ids : List EndpointId) (peers : PeerSet) (k : EndpointId)
    → IsSorted peers
    → any (is_abort k) (remove_all ids peers).1
      ≡ (any (λ id. id == k) ids && is_some (lookup k peers))
unfolding remove_all
abort-remove_all [] peers k s = refl
abort-remove_all (id ∷ ids) peers k s =
    any-append (is_abort k) (shutdown_found id (lookup id peers))
      (remove_all ids (remove id peers)).1
    ∙ ground (
      arith,
      abort-shutdown id k (lookup id peers),
      abort-remove_all ids (remove id peers) k (remove-Above 0 id peers s),
      lookup-remove 0 id k peers s,
    )

pub abort-spawn_all :
    (desired : List (EndpointId × Str)) (peers : PeerSet) (k : EndpointId)
    → any (is_abort k) (spawn_all desired peers).1 ≡ false
unfolding spawn_all
abort-spawn_all [] peers k = refl
abort-spawn_all ((id, text) ∷ desired) peers k = ground (
  arith,
  abort-spawn_all desired peers k,
  abort-spawn_all desired (insert id (spawn text) peers) k,
)

pub spawn-remove_all :
    (ids : List EndpointId) (peers : PeerSet) (k : EndpointId)
    → any (is_spawn k) (remove_all ids peers).1 ≡ false
unfolding remove_all
spawn-remove_all [] peers k = refl
spawn-remove_all (id ∷ ids) peers k =
    any-append (is_spawn k) (shutdown_found id (lookup id peers))
      (remove_all ids (remove id peers)).1
    ∙ ground
        (arith, spawn-shutdown id k (lookup id peers), spawn-remove_all ids (remove id peers) k)

pub spawn-spawn_all :
    (n : ℕ) (desired : List (EndpointId × Str)) (peers : PeerSet) (k : EndpointId)
    → Above n desired
    → IsSorted peers
    → any (is_spawn k) (spawn_all desired peers).1
      ≡ (is_some (lookup k desired) && not (is_some (lookup k peers)))
unfolding spawn_all lookup
spawn-spawn_all n [] peers k d s = refl
spawn-spawn_all n ((id, text) ∷ desired) peers k d s =
    let below = λ (h : k < suc id). lookup_below k (suc id) desired h d.1 in
    ground (
      arith,
      below,
      spawn-spawn_all (suc id) desired peers k d.1 s,
      spawn-spawn_all (suc id) desired (insert id (spawn text) peers) k d.1
          (insert-IsSorted id (spawn text) peers s),
      lookup-insert id k (spawn text) peers s,
    )

pub closes-remove_all :
    (test : Effect → Bool) (ids : List EndpointId) (peers : PeerSet) (k : EndpointId)
    (handle : PeerHandle)
    → IsSorted peers
    → lookup k peers ≡ some handle
    → any (λ id. id == k) ids ≡ true
    → any test (shutdown k handle) ≡ true
    → any test (remove_all ids peers).1 ≡ true
unfolding remove_all
closes-remove_all test [] peers k handle s found among seen = cc
closes-remove_all test (id ∷ ids) peers k handle s found among seen =
    any-append test (shutdown_found id (lookup id peers)) (remove_all ids (remove id peers)).1
    ∙ elim (Bool-cases (id == k)) [
      | inl same ↦
          let eq : id ≡ k = ground (arith, same) in
          let mine : any test (shutdown_found id (lookup id peers)) ≡ true = rw (eq, found) seen in
          ground (arith, mine)
      | inr other ↦ ground (
        arith,
        closes-remove_all test ids (remove id peers) k handle (remove-Above 0 id peers s)
            (ground (arith, found, other, lookup-remove 0 id k peers s))
            (ground (arith, among, other)) seen,
      )
    ]
