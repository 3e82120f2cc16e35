-- ===== src/Clip/State/Frame.antt =====
-- What the helpers of src/clip/state.rs leave alone: `apply` touches only what is on the local
-- clipboard, and `lapse` drops the copy and keeps the stamp.
use yank.Prelude.{
  ◌≤◌, ◌<◌, ◌≡◌, ◌==◌, ltb, leb, ltb→lt, leb→le, Bool-cases, not-eq_true, ok, err, Error, ensure,
  ensure-eq-ok, not, ◌∙◌, ap, refl, nothing_to_copy, selection_over_limit, claims_our_origin,
  clock_too_far_ahead, ◌⊎◌, inl, inr, Bool, true, false, Option, none, some, List, [], arith,
}
use yank.Prelude.Mutations.{lift-cases, lift, modify, ◌>>◌}
use yank.Files.Crates.{Crates}
use yank.Clip.Time.{SystemTime, Duration}
use yank.Clip.Stamp.{le_option, is_plausible}
use yank.Files.Manifest.{FileRef}
use yank.Clip.Settings.{max_bytes}
use yank.Clip.Copy.{Clip, Selection, selection_size, check}
use yank.Clip.State.{
  Clipboard, head, set, lapse, apply, apply_clip, then_apply, copy, new_copy, replace, accept,
  check_clip, adopt,
}
use yank.Clip.State.Effects.{Effect}

-- The fields that `apply` never writes.
pub record SameClip (old new : Clipboard) : Type 0 where
  pub same_clip : new.clip ≡ old.clip
  pub same_expires : new.expires ≡ old.expires
  pub same_origin : new.origin ≡ old.origin
  pub same_settings : new.settings ≡ old.settings
  pub same_tree : new.tree ≡ old.tree

module _ (crates : Crates) where
  apply_clip-SameClip :
      (board : Clipboard) (clip : Option Clip) → SameClip board (apply_clip crates board clip).0
  unfolding apply_clip
  apply_clip-SameClip board none = ground arith
  apply_clip-SameClip board (some clip) = ground arith

  pub apply-SameClip : (board : Clipboard) → SameClip board (apply crates board).0
  unfolding apply
  apply-SameClip board = ground (arith, apply_clip-SameClip board board.clip)

-- `lapse` keeps the stamp, and drops the copy where the lifetime has run out.
pub record Lapsed (now : SystemTime) (old new : Clipboard) : Type 0 where
  pub same_head : head new ≡ head old
  pub same_origin : new.origin ≡ old.origin
  pub same_settings : new.settings ≡ old.settings
  pub same_applied : new.applied ≡ old.applied

pub lapse-Lapsed : (now : SystemTime) (board : Clipboard) → Lapsed now board (lapse now board).0
unfolding lapse set
lapse-Lapsed now board = ground arith

module _ (crates : Crates) where
  -- The two parts of a mutation that ends in `apply`.
  pub then_apply-SameClip :
      (board : Clipboard) (effects : List Effect)
      → SameClip board (then_apply crates (board, effects)).0
  unfolding then_apply
  then_apply-SameClip board effects = apply-SameClip crates board

  -- A `copy` is refused and leaves the clipboard, or has passed its checks and does what it is for.
  pub copy-cases :
      (stamp_now set_now : SystemTime) (selection : Selection) (files : List FileRef)
      (secret : Bool) (ttl : Option Duration) (board : Clipboard)
      → let copied = new_copy crates board selection secret ttl files in
        let r = then_apply crates (replace crates stamp_now set_now (some copied) board) in
        ((e : Error) × (copy crates stamp_now set_now selection files secret ttl board
            ≡ (board, err e)))
        ⊎ ((copy crates stamp_now set_now selection files secret ttl board ≡ (r.0, ok r.1))
            × (0 < selection_size selection)
            × (selection_size selection ≤ max_bytes board.settings)
            × (check copied ≡ ok tt))
  unfolding copy
  copy-cases stamp_now set_now selection files secret ttl board =
      let copied = new_copy crates board selection secret ttl files in
      let last =
        modify
          (λ board. then_apply crates (replace crates stamp_now set_now (some copied) board)) in
      let from_sound = lift (check copied) >> last in
      let some_bytes = ensure (ltb 0 (selection_size selection)) nothing_to_copy in
      let small =
        ensure (leb (selection_size selection) (max_bytes board.settings)) selection_over_limit in
      elim (lift-cases some_bytes (lift small >> from_sound) board) [
        | inl (e, refused) ↦ inl (e, refused)
        | inr (step1_ok, step1) ↦ elim (lift-cases small from_sound board) [
          | inl (e, refused) ↦ inl (e, step1 ∙ refused)
          | inr (step2_ok, step2) ↦ elim (lift-cases (check copied) last board) [
            | inl (e, refused) ↦ inl (e, step1 ∙ step2 ∙ refused)
            | inr (sound, step3) ↦ inr (
              step1 ∙ step2 ∙ step3,
              ltb→lt _ _ (ensure-eq-ok _ _ step1_ok),
              leb→le _ _ (ensure-eq-ok _ _ step2_ok),
              sound,
            )
          ]
        ]
      ]

  pub copy-refused :
      (stamp_now set_now : SystemTime) (selection : Selection) (files : List FileRef)
      (secret : Bool) (ttl : Option Duration) (board : Clipboard) (e : Error)
      → (copy crates stamp_now set_now selection files secret ttl board).1 ≡ err e
      → (copy crates stamp_now set_now selection files secret ttl board).0 ≡ board
  copy-refused stamp_now set_now selection files secret ttl board e h =
      elim (copy-cases stamp_now set_now selection files secret ttl board) [
        | inl (f, refused) ↦ ap (λ r. r.0) refused
        | inr (done, _, _, _) ↦ cc
      ]

  -- A clip from a peer is no newer, or is refused, and leaves the clipboard; or it has passed its checks
  -- and is adopted.
  pub accept-cases :
      (wall_now set_now lapse_now : SystemTime) (clip : Clip) (board : Clipboard)
      → let r = adopt crates set_now lapse_now clip board in
        ((e : Error) × (accept crates wall_now set_now lapse_now clip board ≡ (board, err e)))
        ⊎ (((le_option (some clip.stamp) (head board) ≡ true)
              × (accept crates wall_now set_now lapse_now clip board ≡ (board, ok [])))
            ⊎ ((accept crates wall_now set_now lapse_now clip board ≡ (r.0, ok r.1))
                × (le_option (some clip.stamp) (head board) ≡ false)
                × ((clip.stamp.origin == board.origin) ≡ false)
                × (is_plausible wall_now clip.stamp ≡ true)
                × (check_clip crates clip.copy ≡ ok tt)))
  unfolding accept
  accept-cases wall_now set_now lapse_now clip board =
      elim (Bool-cases (le_option (some clip.stamp) (head board))) [
        | inl old ↦ inr (inl (old, rw old))
        | inr newer ↦
            let last = modify (adopt crates set_now lapse_now clip) in
            let from_sound = lift (check_clip crates clip.copy) >> last in
            let plausible = ensure (is_plausible wall_now clip.stamp) clock_too_far_ahead in
            let foreign = ensure (not (clip.stamp.origin == board.origin)) claims_our_origin in
            rw newer (elim (lift-cases foreign (lift plausible >> from_sound) board) [
              | inl (e, refused) ↦ inl (e, refused)
              | inr (step1_ok, step1) ↦ elim (lift-cases plausible from_sound board) [
                | inl (e, refused) ↦ inl (e, step1 ∙ refused)
                | inr (step2_ok, step2) ↦
                    elim (lift-cases (check_clip crates clip.copy) last board) [
                      | inl (e, refused) ↦ inl (e, step1 ∙ step2 ∙ refused)
                      | inr (sound, step3) ↦ inr (
                          inr (
                            step1 ∙ step2 ∙ step3,
                            refl,
                            not-eq_true _ (ensure-eq-ok _ _ step1_ok),
                            ensure-eq-ok _ _ step2_ok,
                            sound,
                          ))
                    ]
              ]
            ])
      ]
