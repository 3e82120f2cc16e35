-- ===== src/Daemon/Control/Refusals.antt =====
-- src/daemon/control/server.rs: a request that fails has changed nothing that is kept.
use yank.Prelude.{◌≡◌, refl, Bool, [], Result, ok, err, Error}
use yank.Prelude.Bytes.{Str}
use yank.Files.Crates.{Crates, Hex}
use yank.Files.Spool.{Store}
use yank.Clip.Time.{SystemTime}
use yank.Config.Mesh.{EndpointId, resolve_peer, remove_peer}
use yank.Config.Name.{validate_name}
use yank.Net.Pair.{PairTicket}
use yank.Daemon.Store.{MeshStore, update, add_paired}
use yank.Daemon.Pairing.{Pairing, host}
use yank.Daemon.Service.{Service, try_change, copy_rep}
use yank.Daemon.Service.Reading.{paste, located}
use yank.Daemon.Copying.{copy_files}
use yank.Clip.Copy.{selection_of}
use yank.Daemon.Control.{
  Request, status, pair_host, pair_join, remove, copy, paste_as, copy_paths, files, clear, Response,
  Context, with_clip, with_files, with_store, with_pairing, and_then, answer,
}
use yank.Daemon.Control.Parts.{
  SameClip, IsQuiet, SameClip-refl, commit-refused, located-SameClip, change-copy,
  copy_files-refused, store-host,
}

-- The clipboard, what the peers are told and its file are as they were, and so is the mesh state, with
-- its file and its connections.
pub record Kept (old new : Context) : Type 0 where
  pub clip : SameClip old.clip new.clip
  pub store : new.pairing.store ≡ old.pairing.store

Kept-refl : (ctx : Context) → Kept ctx ctx
Kept-refl ctx = record { clip = SameClip-refl ctx.clip; store = refl }

module _ (Status : Type 0) (crates : Crates) (hex : Hex) (snapshot : Context → Status)
    (show_error : Error → Str) (show_id : EndpointId → Str) (show_ticket : PairTicket → Str)
    (parse_ticket : Str → Result PairTicket) where
  -- What is kept where the answer is an error.
  abbrev KeepsOnError : Context → Context × Result (Response Status) → Type 0
  KeepsOnError ctx r = (e : Error) → r.1 ≡ err e → Kept ctx r.0

  and_then-Kept {ℓ} :
      {A : Type ℓ} (ctx : Context) (r : Result A) (next : A → Context × Result (Response Status))
      → ((a : A) → KeepsOnError ctx (next a))
      → KeepsOnError ctx (
          and_then Status crates hex snapshot show_error show_id show_ticket parse_ticket ctx r
            next)
  and_then-Kept ctx (err _) next keeps = λ e h. Kept-refl ctx
  and_then-Kept ctx (ok a) next keeps = keeps a

  with_clip-Kept {ℓ} :
      {A : Type ℓ} (ctx : Context) (r : Service × Result A) (response : A → Response Status)
      → ((e : Error) → r.1 ≡ err e → SameClip ctx.clip r.0)
      → KeepsOnError ctx (
          with_clip Status crates hex snapshot show_error show_id show_ticket parse_ticket ctx r
            response)
  with_clip-Kept ctx (service, err f) response keeps =
      λ e h. record { clip = keeps f refl; store = refl }
  with_clip-Kept ctx (service, ok a) response keeps = λ e h. cc

  with_files-Kept :
      (ctx : Context) (r : (Store × Service) × Result (Unit {0})) (response : Response Status)
      → ((e : Error) → r.1 ≡ err e → SameClip ctx.clip r.0.1)
      → KeepsOnError ctx (
          with_files Status crates hex snapshot show_error show_id show_ticket parse_ticket ctx r
            response)
  with_files-Kept ctx ((spool, service), err f) response keeps =
      λ e h. record { clip = keeps f refl; store = refl }
  with_files-Kept ctx ((spool, service), ok _) response keeps = λ e h. cc

  with_store-Kept :
      (ctx : Context) (r : MeshStore × Result (Unit {0})) (response : Response Status)
      → ((e : Error) → r.1 ≡ err e → r.0 ≡ ctx.pairing.store)
      → KeepsOnError ctx (
          with_store Status crates hex snapshot show_error show_id show_ticket parse_ticket ctx r
            response)
  with_store-Kept ctx (store, err f) response keeps =
      λ e h. record { clip = SameClip-refl ctx.clip; store = keeps f refl }
  with_store-Kept ctx (store, ok _) response keeps = λ e h. cc

  with_pairing-Kept :
      (ctx : Context) (r : Pairing × Result PairTicket)
      → r.0.store ≡ ctx.pairing.store
      → KeepsOnError ctx (
          with_pairing Status crates hex snapshot show_error show_id show_ticket parse_ticket ctx r)
  with_pairing-Kept ctx (pairing, err f) same =
      λ e h. record { clip = SameClip-refl ctx.clip; store = same }
  with_pairing-Kept ctx (pairing, ok ticket) same = λ e h. cc

  -- A request that is answered with an error has changed neither the clipboard, what the peers are told of it
  -- and its file, nor the mesh state, its file and its connections; for a request of files, and one to
  -- copy files, where nothing else changes the clipboard while it waits.
  pub answer-Kept :
      (written : Bool) (now set_now : SystemTime) (request : Request) (ctx : Context) (e : Error)
      → IsQuiet request
      → (answer Status crates hex snapshot show_error show_id show_ticket parse_ticket written now
          set_now request ctx).1
        ≡ err e
      → Kept ctx
          (answer Status crates hex snapshot show_error show_id show_ticket parse_ticket written now
            set_now request ctx).0
  unfolding answer copy_rep try_change update add_paired
  answer-Kept written now set_now status ctx e quiet = λ h. cc
  answer-Kept written now set_now (pair_host name online generated instant) ctx e quiet =
      and_then-Kept ctx (validate_name name) _
        (λ _.
          with_pairing-Kept ctx (host online generated name instant ctx.pairing)
            (store-host online generated name instant ctx.pairing))
        e
  answer-Kept written now set_now (pair_join ticket name reached reply confirmed) ctx e quiet =
      and_then-Kept ctx (validate_name name) _
        (λ _. and_then-Kept ctx (parse_ticket ticket) _ (λ parsed. and_then-Kept ctx _ _ (λ peer.
          with_store-Kept ctx (add_paired written peer ctx.pairing.store) _
            (λ f h. commit-refused written ctx.pairing.store _ f h))))
        e
  answer-Kept written now set_now (remove peer) ctx e quiet =
      and_then-Kept ctx (resolve_peer show_id peer ctx.pairing.store.state) _
        (λ id.
          with_store-Kept ctx (update written (remove_peer id) ctx.pairing.store) _
            (λ f h. commit-refused written ctx.pairing.store _ f h))
        e
  answer-Kept written now set_now (copy rep secret ttl) ctx e quiet =
      with_clip-Kept ctx (copy_rep crates written now set_now rep secret ttl ctx.clip) _
        (change-copy crates written now set_now (selection_of rep) [] secret ttl ctx.clip) e
  answer-Kept written now set_now (copy_paths paths ttl outside) ctx e quiet =
      with_files-Kept ctx
        (copy_files crates hex outside written now set_now paths ttl (ctx.spool, ctx.clip)) _
        (copy_files-refused crates hex outside written now set_now paths ttl ctx.spool ctx.clip
          quiet)
        e
  answer-Kept written now set_now (files waits) ctx e quiet =
      with_clip-Kept ctx (located waits ctx.clip) _ (λ f h. located-SameClip waits ctx.clip quiet) e
  answer-Kept written now set_now (paste_as mime) ctx e quiet =
      and_then-Kept ctx (paste mime ctx.clip) _ (λ a f h. cc) e
  answer-Kept written now set_now clear ctx e quiet = λ h. cc
