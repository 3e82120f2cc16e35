-- ===== src/Clip/State/Converge.antt =====
-- src/clip/state.rs: machines that hear of the same clips settle on the same one, whatever order
-- these arrive in and however often.
use yank.Prelude.{
  ◌≡◌, refl, sym, ◌∙◌, ap, subst, ◌⊎◌, inl, inr, ◌↔◌, true, false, Option, none, some, List, [],
  ◌∷◌, arith, map, All, Bool-cases, if◌then◌else◌, ok, ◌==◌, Option-cases,
}
use yank.Files.Crates.{Crates}
use yank.Clip.Time.{SystemTime}
use yank.Clip.Stamp.{Stamp, EndpointId, le_option, is_plausible}
use yank.Clip.Stamp.Order.{
  le_option_refl, le_option_trans, le_option_antisymm, le_option_total, le_option-none,
}
use yank.Clip.Copy.{Clip, Copied}
use yank.Clip.State.{
  Clipboard, head, head_of, current, current_of, check_clip, accept, adopt, set, lapse,
}
use yank.Clip.State.Effects.{save}
use yank.Clip.State.Frame.{lapse-Lapsed, then_apply-SameClip}
use yank.Clip.State.Heads.{head-adopt}

-- A clip that arrives, and what the clock reads as it is taken in.
pub record Delivery : Type 0 where
  pub clip : Clip
  pub wall_now : SystemTime
  pub set_now : SystemTime
  pub lapse_now : SystemTime

abbrev pub stamps : List Delivery → List Stamp
stamps = map (λ d. d.clip.stamp)

-- The clipboard after it, whether or not the clip is refused.
unfoldable pub take_in : Crates → Delivery → Clipboard → Clipboard
take_in crates d board = (accept crates d.wall_now d.set_now d.lapse_now d.clip board).0

unfoldable pub receive : Crates → List Delivery → Clipboard → Clipboard
receive crates [] board = board
receive crates (d ∷ ds) board = receive crates ds (take_in crates d board)

-- A clip that the machine `origin` has no reason to refuse.
pub record IsGood (crates : Crates) (origin : EndpointId) (d : Delivery) : Type 0 where
  pub foreign : (d.clip.stamp.origin == origin) ≡ false
  pub plausible : is_plausible d.wall_now d.clip.stamp ≡ true
  pub sound : check_clip crates d.clip.copy ≡ ok tt

abbrev pub newer : Option Stamp → Stamp → Option Stamp
newer last stamp = if le_option (some stamp) last then last else some stamp

newest : Option Stamp → List Stamp → Option Stamp
newest last [] = last
newest last (stamp ∷ rest) = newest (newer last stamp) rest

abbrev Elem : Stamp → List Stamp → Type 0
Elem s [] = ⊥
Elem s (t ∷ ts) = (s ≡ t) ⊎ Elem s ts

-- A stamp that a machine holds or hears of.
abbrev pub Known : Option Stamp → List Stamp → Stamp → Type 0
Known last ts s = (last ≡ some s) ⊎ Elem s ts

newer-le : (last : Option Stamp) (s : Stamp) → le_option last (newer last s) ≡ true
newer-le last s = elim (Bool-cases (le_option (some s) last)) [
  | inl old ↦ rw old (le_option_refl last)
  | inr new ↦ rw new (le_option_total (some s) last new)
]

pub newer-le_new : (last : Option Stamp) (s : Stamp) → le_option (some s) (newer last s) ≡ true
newer-le_new last s = elim (Bool-cases (le_option (some s) last)) [
  | inl old ↦ rw old old
  | inr new ↦ rw new (le_option_refl (some s))
]

newest-le : (last : Option Stamp) (ts : List Stamp) → le_option last (newest last ts) ≡ true
unfolding newest
newest-le last [] = le_option_refl last
newest-le last (t ∷ ts) =
    le_option_trans last (newer last t) _ (newer-le last t) (newest-le (newer last t) ts)

newest_upper :
    (last : Option Stamp) (ts : List Stamp) (s : Stamp)
    → Known last ts s
    → le_option (some s) (newest last ts) ≡ true
unfolding newest
newest_upper last [] s (inl e) = subst (λ x. le_option x last ≡ true) e (le_option_refl last)
newest_upper last [] s (inr h) = absurd h
newest_upper last (t ∷ ts) s (inl e) =
    le_option_trans (some s) (newer last t) _
      (subst (λ x. le_option x (newer last t) ≡ true) e (newer-le last t))
      (newest-le (newer last t) ts)
newest_upper last (t ∷ ts) s (inr (inl e)) =
    le_option_trans (some s) (newer last t) _
      (subst (λ x. le_option (some x) (newer last t) ≡ true) (sym e) (newer-le_new last t))
      (newest-le (newer last t) ts)
newest_upper last (t ∷ ts) s (inr (inr h)) = newest_upper (newer last t) ts s (inr h)

newest-Known :
    (last : Option Stamp) (ts : List Stamp) (s : Stamp) → newest last ts ≡ some s → Known last ts s
unfolding newest
newest-Known last [] s e = inl e
newest-Known last (t ∷ ts) s e = elim (newest-Known (newer last t) ts s e) [
  | inr h ↦ inr (inr h)
  | inl h ↦ elim (Bool-cases (le_option (some t) last)) [
    | inl old ↦ inl (rw old at h)
    | inr new ↦ inr (inl (ground (arith, h)))
  ]
]

-- Both know the same stamps, so the newest is the same.
newest_le_of_Known :
    (last last' : Option Stamp) (ts us : List Stamp)
    → ((s : Stamp) → Known last ts s → Known last' us s)
    → le_option (newest last ts) (newest last' us) ≡ true
newest_le_of_Known last last' ts us sub = elim (Option-cases (newest last ts)) [
  | inl e ↦ rw e (le_option-none (newest last' us))
  | inr (s, e) ↦ rw e (newest_upper last' us s (sub s (newest-Known last ts s e)))
]

pub current_of-head_of :
    (clip : Option Clip) {s : Stamp} {c : Copied}
    → current_of clip ≡ some (s, c)
    → head_of clip ≡ some s
current_of-head_of none e = cc
current_of-head_of (some clip) e = ground arith

module _ (crates : Crates) where
  -- What taking in a good clip does.
  take_in_cases :
      (d : Delivery) (board : Clipboard)
      → IsGood crates board.origin d
      → ((le_option (some d.clip.stamp) (head board) ≡ true) × (take_in crates d board ≡ board))
        ⊎ ((le_option (some d.clip.stamp) (head board) ≡ false)
            × (take_in crates d board ≡ (adopt crates d.set_now d.lapse_now d.clip board).0))
  unfolding take_in accept
  take_in_cases d board g = elim (Bool-cases (le_option (some d.clip.stamp) (head board))) [
    | inl old ↦ inl (old, rw (take_in, accept, old))
    | inr new ↦ inr (new, rw (take_in, accept, new, g.foreign, g.plausible, g.sound))
  ]

  pub head-take_in :
      (d : Delivery) (board : Clipboard)
      → IsGood crates board.origin d
      → head (take_in crates d board) ≡ newer (head board) d.clip.stamp
  head-take_in d board g = elim (take_in_cases d board g) [
    | inl (old, e) ↦ rw (e, old)
    | inr (new, e) ↦ rw (e, new) (head-adopt crates d.set_now d.lapse_now d.clip board)
  ]

  origin-adopt :
      (set_now lapse_now : SystemTime) (clip : Clip) (board : Clipboard)
      → (adopt crates set_now lapse_now clip board).0.origin ≡ board.origin
  unfolding adopt set
  origin-adopt set_now lapse_now clip board =
      (then_apply-SameClip crates (lapse lapse_now (set set_now clip board)).0
        (save ∷ [])).same_origin
      ∙ (lapse-Lapsed lapse_now (set set_now clip board)).same_origin

  origin-take_in :
      (d : Delivery) (board : Clipboard)
      → IsGood crates board.origin d
      → (take_in crates d board).origin ≡ board.origin
  origin-take_in d board g = elim (take_in_cases d board g) [
    | inl (old, e) ↦ rw e
    | inr (new, e) ↦ rw e (origin-adopt d.set_now d.lapse_now d.clip board)
  ]

  -- After any deliveries that nothing speaks against, the head is the newest stamp known.
  head-receive :
      (ds : List Delivery) (board : Clipboard)
      → All (IsGood crates board.origin) ds
      → head (receive crates ds board) ≡ newest (head board) (stamps ds)
  unfolding receive newest
  head-receive [] board g = refl
  head-receive (d ∷ ds) board g =
      head-receive ds (take_in crates d board)
        (subst (λ o. All (IsGood crates o) ds) (sym (origin-take_in d board g.0)) g.1)
      ∙ ap (λ h. newest h (stamps ds)) (head-take_in d board g.0)

  -- Two machines that between what they hold and what they receive know the same stamps end with the
  -- same head, whatever the order and the repetitions, and whatever the clocks read. (Every clip
  -- that arrives comes from another machine, has a plausible stamp and passes the checks.)
  pub head-receive_agree :
      (a b : Clipboard) (ds es : List Delivery)
      → All (IsGood crates a.origin) ds
      → All (IsGood crates b.origin) es
      → ((s : Stamp) → Known (head a) (stamps ds) s ↔ Known (head b) (stamps es) s)
      → head (receive crates ds a) ≡ head (receive crates es b)
  head-receive_agree a b ds es good_a good_b same =
      head-receive ds a good_a
      ∙ le_option_antisymm _ _
          (newest_le_of_Known (head a) (head b) (stamps ds) (stamps es) (λ s. (same s).0))
          (newest_le_of_Known (head b) (head a) (stamps es) (stamps ds) (λ s. (same s).1))
      ∙ sym (head-receive es b good_b)

  -- What is current after a clip was adopted is that clip's copy.
  current-adopt :
      (set_now lapse_now : SystemTime) (clip : Clip) (board : Clipboard) {s : Stamp} {c : Copied}
      → current (adopt crates set_now lapse_now clip board).0 ≡ some (s, c)
      → (s ≡ clip.stamp) × (clip.copy ≡ some c)
  unfolding adopt lapse set
  current-adopt set_now lapse_now clip board e =
      let lapsed = (lapse lapse_now (set set_now clip board)).0 in
      ground (arith, (then_apply-SameClip crates lapsed (save ∷ [])).same_clip)

  -- Every copy was made once, under its own stamp: `made` says which.
  module _ (made : Stamp → Option Copied) where
    abbrev pub IsGenuine : Clipboard → Type 0
    IsGenuine board = (s : Stamp) (c : Copied) → current board ≡ some (s, c) → made s ≡ some c

    abbrev pub IsGenuineClip : Delivery → Type 0
    IsGenuineClip d = (c : Copied) → d.clip.copy ≡ some c → made d.clip.stamp ≡ some c

    take_in-IsGenuine :
        (d : Delivery) (board : Clipboard)
        → IsGood crates board.origin d
        → IsGenuineClip d
        → IsGenuine board
        → IsGenuine (take_in crates d board)
    take_in-IsGenuine d board g m h s c e = elim (take_in_cases d board g) [
      | inl (old, same) ↦ h s c (rw same at e)
      | inr (new, adopted) ↦
          let facts = current-adopt d.set_now d.lapse_now d.clip board (rw adopted at e) in
          rw facts.0 (m c facts.1)
    ]

    receive-IsGenuine :
        (ds : List Delivery) (board : Clipboard)
        → All (IsGood crates board.origin) ds
        → All IsGenuineClip ds
        → IsGenuine board
        → IsGenuine (receive crates ds board)
    unfolding receive
    receive-IsGenuine [] board g m h = h
    receive-IsGenuine (d ∷ ds) board g m h =
        receive-IsGenuine ds (take_in crates d board)
          (subst (λ o. All (IsGood crates o) ds) (sym (origin-take_in d board g.0)) g.1) m.1
          (take_in-IsGenuine d board g.0 m.0 h)

    -- Nor do two such machines ever show different copies: where both still hold one, it is the same.
    pub current-receive_agree :
        (a b : Clipboard) (ds es : List Delivery)
        → All (IsGood crates a.origin) ds
        → All (IsGood crates b.origin) es
        → All IsGenuineClip ds
        → All IsGenuineClip es
        → IsGenuine a
        → IsGenuine b
        → ((s : Stamp) → Known (head a) (stamps ds) s ↔ Known (head b) (stamps es) s)
        → {s t : Stamp} {c d : Copied} → current (receive crates ds a) ≡ some (s, c)
        → current (receive crates es b) ≡ some (t, d)
        → (s ≡ t) × (c ≡ d)
    current-receive_agree a b ds es ga gb ma mb ha hb same {s} {t} {c} {d} ea eb =
        let heads = head-receive_agree a b ds es ga gb same in
        let stamp : s ≡ t = ground (
          arith,
          current_of-head_of (receive crates ds a).clip ea,
          current_of-head_of (receive crates es b).clip eb,
          heads,
        ) in
        (
          stamp,
          cc (
            stamp,
            receive-IsGenuine ds a ga ma ha s c ea,
            receive-IsGenuine es b gb mb hb t d eb,
          ),
        )
