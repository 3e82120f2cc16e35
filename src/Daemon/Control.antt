-- ===== src/Daemon/Control.antt =====
-- src/daemon/control: what the daemon answers to the command line. What is read for a status and how a
-- ticket is printed and parsed are parameters, and what the outside does during a request is its argument.
pub mod Parts
pub mod Refusals
use yank.Prelude.{ℕ, Bool, Option, none, some, List, [], ◌∷◌, Result, ok, err, Error, ◌>>=◌, ◌>>◌}
use yank.Prelude.Bytes.{Str, Bytes}
use yank.Files.Crates.{Crates, Hex}
use yank.Files.Spool.{Store}
use yank.Files.Manifest.{FileRef}
use yank.Files.Uri.{FilePath}
use yank.Clip.Time.{SystemTime, Duration}
use yank.Clip.Copy.{Rep}
use yank.Config.Name.{validate_name}
use yank.Config.Mesh.{EndpointId, MeshState, resolve_peer, remove_peer}
use yank.Net.Pair.{PairTicket, PairedPeer, Message, join}
use yank.Daemon.Store.{MeshStore, update, add_paired}
use yank.Daemon.Pairing.{Pairing, host}
use yank.Daemon.Service.{Service, copy_rep, clear_clip}
use yank.Daemon.Service.Reading.{paste, Located, located}
use yank.Daemon.Copying.{Outside, copy_files}

-- `Request`, with what happens outside while it is answered.
pub data Request : Type 0 where
  status : Request
  pair_host : (name : Str) → (online : Bool) → (generated : PairTicket) → (now : ℕ) → Request
  pair_join :
      (ticket name : Str)
      → (reached : Bool) → (reply : Result Message) → (confirmed : Bool) → Request
  remove : (peer : Str) → Request
  copy : (rep : Rep) → (secret : Bool) → (ttl : Option Duration) → Request
  paste_as : (mime : Option Str) → Request
  copy_paths : (paths : List FilePath) → (ttl : Option Duration) → (outside : Outside) → Request
  files : (waits : List (Service → Service)) → Request
  clear : Request

-- `Response`
pub data Response (Status : Type 0) : Type 0 where
  done : Response Status
  status_of : Status → Response Status
  pair_ticket : Str → Response Status
  paired : Str → Response Status
  peer_removed : EndpointId → Response Status
  contents : (mime : Str) → (alternates : List Str) → (bytes : Bytes) → Response Status
  located_at : Located → Response Status

-- `Context`; the store is the one that pairing saves to, the spool the one of the file service.
pub record Context : Type 0 where
  pub spool : Store
  pub clip : Service
  pub pairing : Pairing

abbrev pub set_store : MeshStore → Context → Context
set_store store ctx = record ctx { pairing = record ctx.pairing { store = store } }

module _ (Status : Type 0) (crates : Crates) (hex : Hex) (snapshot : Context → Status)
    (show_error : Error → Str) (show_id : EndpointId → Str) (show_ticket : PairTicket → Str)
    (parse_ticket : Str → Result PairTicket) where
  -- What an operation on each part leaves, with its answer.
  abbrev pub with_clip {ℓ} :
      {A : Type ℓ}
      → Context
      → Service × Result A
      → (A → Response Status)
      → Context × Result (Response Status)
  with_clip ctx (service, err e) response = (record ctx { clip = service }, err e)
  with_clip ctx (service, ok a) response = (record ctx { clip = service }, ok (response a))

  abbrev pub with_files :
      Context
      → (Store × Service) × Result (Unit {0})
      → Response Status
      → Context × Result (Response Status)
  with_files ctx ((spool, service), err e) response =
      (record ctx { spool = spool; clip = service }, err e)
  with_files ctx ((spool, service), ok _) response =
      (record ctx { spool = spool; clip = service }, ok response)

  abbrev pub with_store :
      Context → MeshStore × Result (Unit {0}) → Response Status → Context × Result (Response Status)
  with_store ctx (store, err e) response = (set_store store ctx, err e)
  with_store ctx (store, ok _) response = (set_store store ctx, ok response)

  abbrev pub with_pairing :
      Context → Pairing × Result PairTicket → Context × Result (Response Status)
  with_pairing ctx (pairing, err e) = (record ctx { pairing = pairing }, err e)
  with_pairing ctx (pairing, ok ticket) =
      (record ctx { pairing = pairing }, ok (pair_ticket (show_ticket ticket)))

  abbrev pub and_then {ℓ} :
      {A : Type ℓ}
      → Context
      → Result A
      → (A → Context × Result (Response Status))
      → Context × Result (Response Status)
  and_then ctx (err e) next = (ctx, err e)
  and_then ctx (ok a) next = next a

  -- `answer`
  unfoldable pub answer :
      (written : Bool)
      → (now set_now : SystemTime) → Request
      → Context
      → Context × Result (Response Status)
  answer written now set_now status ctx = (ctx, ok (status_of (snapshot ctx)))
  answer written now set_now (pair_host name online generated instant) ctx =
      and_then ctx (validate_name name)
        (λ _. with_pairing ctx (host online generated name instant ctx.pairing))
  answer written now set_now (pair_join ticket name reached reply confirmed) ctx =
      and_then ctx (validate_name name) (λ _. and_then ctx (parse_ticket ticket) (λ parsed.
        let store = ctx.pairing.store in
        and_then ctx
          (join show_error store.local parsed name store.state reached reply confirmed).result
          (λ peer. with_store ctx (add_paired written peer store) (paired peer.name))))
  answer written now set_now (remove peer) ctx =
      and_then ctx (resolve_peer show_id peer ctx.pairing.store.state)
        (λ id. with_store ctx (update written (remove_peer id) ctx.pairing.store) (peer_removed id))
  answer written now set_now (copy rep secret ttl) ctx =
      with_clip ctx (copy_rep crates written now set_now rep secret ttl ctx.clip) (λ _. done)
  answer written now set_now (copy_paths paths ttl outside) ctx =
      with_files ctx
        (copy_files crates hex outside written now set_now paths ttl (ctx.spool, ctx.clip)) done
  answer written now set_now (files waits) ctx = with_clip ctx (located waits ctx.clip) located_at
  answer written now set_now (paste_as mime) ctx =
      and_then ctx (paste mime ctx.clip)
        (λ (mime, alternates, bytes). (ctx, ok (contents mime alternates bytes)))
  answer written now set_now clear ctx =
      (record ctx { clip = clear_clip crates written now set_now ctx.clip }, ok done)
