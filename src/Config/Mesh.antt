-- ===== src/Config/Mesh.antt =====
-- src/config/mesh.rs: which machines are paired, and under which names. Reading and writing
-- `mesh.json` is left to serde and the file system.
pub mod Rank
pub mod Merge
pub mod Agree
pub mod Exchange
pub mod Local
use yank.Prelude.{
  ℕ, ◌+◌, ◌^◌, Ordering, compare, Bool, true, false, not, ◌&&◌, ◌||◌, Option, none, some, List, [],
  ◌∷◌, leb, ltb, ◌==◌, length, is_some, is_ok, keep, if◌then◌else◌, Result, ok, err, ensure, ◌>>=◌,
  ◌>>◌, mesh_full, unknown_machine, record_corrupt, no_such_machine, ambiguous_machine,
}
use yank.Prelude.Bytes.{Str, eq_list, compare_list, strip_prefix}
use yank.Prelude.Map.{lookup, insert}
use yank.Config.Name.{validate_name}

-- An `EndpointId` is the number that the key's bytes spell.
abbrev pub EndpointId : Type 0
EndpointId = ℕ

abbrev pub max_mesh_peers : ℕ
max_mesh_peers = 64

abbrev pub max_record_version : ℕ
max_record_version = 2 ^ 32

pub data PeerStatus : Type 0 where
  alive : Str → PeerStatus
  removed : PeerStatus

pub record Peer : Type 0 where
  pub version : ℕ
  pub status : PeerStatus

-- `MeshState`: `peers` in the order of the ids.
abbrev pub MeshState : Type 0
MeshState = List (EndpointId × Peer)

abbrev pub name_of : PeerStatus → Option Str
name_of (alive name) = some name
name_of removed = none

-- `Peer::name`
abbrev pub name : Peer → Option Str
name peer = name_of peer.status

abbrev pub unwrap_or_empty : Option Str → Str
unwrap_or_empty none = []
unwrap_or_empty (some s) = s

-- `Ord` of `bool`.
abbrev pub cmp_bool : Bool → Bool → Ordering
cmp_bool false false = Ordering.eq
cmp_bool false true = Ordering.lt
cmp_bool true false = Ordering.gt
cmp_bool true true = Ordering.eq

abbrev pub then_cmp : Ordering → Ordering → Ordering
then_cmp Ordering.eq next = next
then_cmp first _ = first

-- The order of the two ranks: the version, whether it is removed, and the name, which is reversed.
unfoldable pub cmp_rank : Peer → Peer → Ordering
cmp_rank a b = then_cmp (compare a.version b.version) (
    then_cmp (cmp_bool (not (is_some (name a))) (not (is_some (name b))))
      (compare_list (unwrap_or_empty (name b)) (unwrap_or_empty (name a))))

-- `Peer::outranks`
unfoldable pub outranks : Peer → Peer → Bool
unfolding cmp_rank
outranks a b = elim (cmp_rank a b) [ Ordering.gt ↦ true | _ ↦ false ]

abbrev pub name_of_entry : Option Peer → Option Str
name_of_entry none = none
name_of_entry (some peer) = name peer

-- `MeshState::peer_name`
unfoldable pub peer_name : EndpointId → MeshState → Option Str
peer_name id state = name_of_entry (lookup id state)

abbrev pub version_of : Option Peer → ℕ
version_of none = 0
version_of (some peer) = peer.version

-- `MeshState::next_version`
unfoldable pub next_version : EndpointId → MeshState → Result ℕ
next_version id state = do
  ensure (ltb (version_of (lookup id state)) max_record_version) record_corrupt
  ok (version_of (lookup id state) + 1)

-- `MeshState::validate_new_peer`
unfoldable pub validate_new_peer : Str → EndpointId → MeshState → Result (Unit {0})
validate_new_peer name id state = do
  validate_name name
  ensure (ltb (length state) max_mesh_peers || is_some (lookup id state)) mesh_full

-- `MeshState::add_peer`
unfoldable pub add_peer : EndpointId → Str → MeshState → Result MeshState
unfolding next_version validate_new_peer
add_peer id name state = do
  validate_new_peer name id state
  version ← next_version id state
  ok (insert id (record { version = version; status = alive name }) state)

-- `MeshState::remove_peer`
unfoldable pub remove_peer : EndpointId → MeshState → Result MeshState
unfolding next_version peer_name
remove_peer id state = do
  ensure (is_some (peer_name id state)) unknown_machine
  version ← next_version id state
  ok (insert id (record { version = version; status = removed }) state)

-- `MeshState::alive_peers`
unfoldable pub alive_peers : MeshState → List (EndpointId × Str)
alive_peers [] = []
alive_peers ((id, peer) ∷ rest) = elim (name peer) [
  | none ↦ alive_peers rest
  | some name ↦ (id, name) ∷ alive_peers rest
]

abbrev pub is_prefix : Str → Str → Bool
is_prefix needle text = is_some (strip_prefix needle text)

-- The last match of `resolve_peer`.
abbrev pub only_one : List (EndpointId × Str) → Result EndpointId
only_one [] = err no_such_machine
only_one ((id, _) ∷ []) = ok id
only_one (_ ∷ _ ∷ _) = err ambiguous_machine

-- The first match: a name in use decides, and otherwise a prefix of an id.
abbrev pub named_or : List (EndpointId × Str) → List (EndpointId × Str) → Result EndpointId
named_or [] by_id = only_one by_id
named_or ((id, _) ∷ []) by_id = ok id
named_or (_ ∷ _ ∷ _) by_id = err ambiguous_machine

-- `MeshState::resolve_peer`; `show` is how iroh prints an id.
unfoldable pub resolve_peer : (EndpointId → Str) → Str → MeshState → Result EndpointId
resolve_peer show needle state =
    named_or (keep (λ entry. eq_list entry.1 needle) (alive_peers state))
      (keep (λ entry. is_prefix needle (show entry.0)) (alive_peers state))

-- Whether `merge` may take a record at all: nothing alive at the ceiling, and nothing past it.
unfoldable pub is_valid : Peer → Bool
is_valid peer = elim peer.status [
  | alive name ↦ ltb peer.version max_record_version && is_ok (validate_name name)
  | removed ↦ leb peer.version max_record_version
]

-- Whether a valid record replaces what is held; an unknown machine is taken while there is room.
unfoldable pub adopts : Peer → Option Peer → ℕ → Bool
adopts record_ (some ours) size = outranks record_ ours
adopts record_ none size = ltb size max_mesh_peers

-- One round of the loop of `merge`.
unfoldable pub merge_one : EndpointId → EndpointId → Peer → MeshState → MeshState
unfolding is_valid adopts
merge_one local id record_ state =
    if id == local || not (is_valid record_)
    then state
    else if adopts record_ (lookup id state) (length state)
    then insert id record_ state
    else state

-- `MeshState::merge`
unfoldable pub merge : EndpointId → MeshState → MeshState → MeshState
merge local [] state = state
merge local ((id, record_) ∷ rest) state = merge local rest (merge_one local id record_ state)
