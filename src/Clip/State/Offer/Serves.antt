-- ===== src/Clip/State/Offer/Serves.antt =====
-- src/clip/state.rs: the entries that a selection is handed to the compositor as (`serves`).
use yank.Prelude.{
  ◌≡◌, refl, inl, inr, Bool, true, false, not, ◌||◌, List, [], ◌∷◌, ◌++◌, arith, any, keep, All,
  Bool-cases, not-eq_true,
}
use yank.Prelude.Bytes.{Str, Bytes, eq_list, eq_list→eq, eq_list_refl}
use yank.Clip.Copy.{Rep, Selection, reps}
use yank.Clip.Mime.{aliases}
use yank.Clip.State.Effects.{Serve}
use yank.Clip.State.Offer.{is_announced, add_serve, serves_from, serves}

-- Whether an entry announces a type.
abbrev pub announces : List Str → Str → Bool
announces mimes mime = any (λ name. eq_list name mime) mimes

-- Each type is announced by one entry only.
abbrev pub AnnouncedOnce : List Serve → Type 0
AnnouncedOnce [] = Unit {0}
AnnouncedOnce (s ∷ rest) =
    ((mime : Str) → announces s.mimes mime ≡ true → is_announced rest mime ≡ false)
    × AnnouncedOnce rest

is_announced-snoc :
    (served : List Serve) (s : Serve) (mime : Str)
    → is_announced (served ++ s ∷ []) mime ≡ (is_announced served mime || announces s.mimes mime)
is_announced-snoc [] s mime = ground arith
is_announced-snoc (t ∷ served) s mime = ground (arith, is_announced-snoc served s mime)

AnnouncedOnce-snoc :
    (served : List Serve) (s : Serve)
    → ((mime : Str) → announces s.mimes mime ≡ true → is_announced served mime ≡ false)
    → AnnouncedOnce served
    → AnnouncedOnce (served ++ s ∷ [])
AnnouncedOnce-snoc [] s fresh h = ((λ mime e. refl), tt)
AnnouncedOnce-snoc (t ∷ served) s fresh h = (
  (λ mime e. ground (arith, is_announced-snoc served s mime, h.0 mime e, fresh mime)),
  AnnouncedOnce-snoc served s (λ mime e. ground (arith, fresh mime e)) h.1,
)

announces-keep :
    (p : Str → Bool) (mimes : List Str) (mime : Str)
    → announces (keep p mimes) mime ≡ true
    → p mime ≡ true
announces-keep p [] mime h = cc
announces-keep p (m ∷ ms) mime h = elim (Bool-cases (p m)) [
  | inr out ↦ announces-keep p ms mime (rw out at h)
  | inl in_ ↦ elim (Bool-cases (eq_list m mime)) [
    | inl same ↦ rw (← eq_list→eq m mime same) in_
    | inr other ↦ announces-keep p ms mime (ground (arith, h, in_))
  ]
]

-- What one round of the loop does.
add_serve-AnnouncedOnce :
    (served : List Serve) (mimes : List Str) (bytes : Bytes)
    → ((mime : Str) → announces mimes mime ≡ true → is_announced served mime ≡ false)
    → AnnouncedOnce served
    → AnnouncedOnce (add_serve served mimes bytes)
add_serve-AnnouncedOnce served [] bytes fresh h = h
add_serve-AnnouncedOnce served (m ∷ ms) bytes fresh h =
    AnnouncedOnce-snoc served (record { mimes = m ∷ ms; bytes = bytes }) fresh h

is_announced-add_serve :
    (served : List Serve) (mimes : List Str) (bytes : Bytes) (mime : Str)
    → is_announced (add_serve served mimes bytes) mime
      ≡ (is_announced served mime || announces mimes mime)
is_announced-add_serve served [] bytes mime = ground arith
is_announced-add_serve served (m ∷ ms) bytes mime =
    is_announced-snoc served (record { mimes = m ∷ ms; bytes = bytes }) mime

announces-aliases_self : (mime : Str) → announces (aliases mime) mime ≡ true
unfolding aliases
announces-aliases_self mime = ground (arith, eq_list_refl mime)

announces-keep_mem :
    (p : Str → Bool) (mimes : List Str) (mime : Str)
    → announces mimes mime ≡ true
    → p mime ≡ true
    → announces (keep p mimes) mime ≡ true
announces-keep_mem p [] mime h k = cc
announces-keep_mem p (m ∷ ms) mime h k = elim (Bool-cases (eq_list m mime)) [
  | inl same ↦
      let yes_ : p m ≡ true = rw (eq_list→eq m mime same) k in rw yes_ (ground (arith, same))
  | inr other ↦
      let rest = announces-keep_mem p ms mime (ground (arith, h, other)) k in ground (arith, rest)
]

module _ (served : List Serve) (rep : Rep) where
  abbrev round : List Serve
  round =
      add_serve served (keep (λ mime. not (is_announced served mime)) (aliases rep.mime)) rep.bytes

  round-AnnouncedOnce : AnnouncedOnce served → AnnouncedOnce round
  round-AnnouncedOnce = add_serve-AnnouncedOnce served _ rep.bytes (λ mime h.
      not-eq_true _ (announces-keep (λ m. not (is_announced served m)) (aliases rep.mime) mime h))

  round_covers : is_announced round rep.mime ≡ true
  round_covers = elim (Bool-cases (is_announced served rep.mime)) [
    | inl old ↦ ground (
      arith,
      old,
      is_announced-add_serve served
          (keep (λ mime. not (is_announced served mime)) (aliases rep.mime)) rep.bytes rep.mime,
    )
    | inr new ↦ ground (
      arith,
      is_announced-add_serve served
          (keep (λ mime. not (is_announced served mime)) (aliases rep.mime)) rep.bytes rep.mime,
      announces-keep_mem (λ mime. not (is_announced served mime)) (aliases rep.mime) rep.mime
          (announces-aliases_self rep.mime) (ground (arith, new)),
    )
  ]

  round_mono : (mime : Str) → is_announced served mime ≡ true → is_announced round mime ≡ true
  round_mono mime h = ground (
    arith,
    is_announced-add_serve served (keep (λ mime. not (is_announced served mime)) (aliases rep.mime))
        rep.bytes mime,
  )

serves_from-AnnouncedOnce :
    (served : List Serve) (rs : List Rep)
    → AnnouncedOnce served
    → AnnouncedOnce (serves_from served rs)
unfolding serves_from
serves_from-AnnouncedOnce served [] h = h
serves_from-AnnouncedOnce served (rep ∷ rs) h =
    serves_from-AnnouncedOnce (round served rep) rs (round-AnnouncedOnce served rep h)

serves_from_mono :
    (served : List Serve) (rs : List Rep) (mime : Str)
    → is_announced served mime ≡ true
    → is_announced (serves_from served rs) mime ≡ true
unfolding serves_from
serves_from_mono served [] mime h = h
serves_from_mono served (rep ∷ rs) mime h =
    serves_from_mono (round served rep) rs mime (round_mono served rep mime h)

serves_from_covers :
    (served : List Serve) (rs : List Rep)
    → All (λ rep. is_announced (serves_from served rs) rep.mime ≡ true) rs
unfolding serves_from
serves_from_covers served [] = tt
serves_from_covers served (rep ∷ rs) = (
  serves_from_mono (round served rep) rs rep.mime (round_covers served rep),
  serves_from_covers (round served rep) rs,
)

-- Every representation of a selection is announced under its own type, and no type is announced by
-- two entries.
pub serves_lem :
    (selection : Selection)
    → All (λ rep. is_announced (serves selection) rep.mime ≡ true) (reps selection)
      × AnnouncedOnce (serves selection)
unfolding serves
serves_lem selection =
    (serves_from_covers [] (reps selection), serves_from-AnnouncedOnce [] (reps selection) tt)
