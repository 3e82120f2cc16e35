-- ===== src/Clip/State/Offer/Fit.antt =====
-- src/clip/state.rs: what a size cap takes from a selection (`Clipboard::fit`).
use mathlib.Core.List.{append_assoc, append-nil}
use yank.Prelude.{
  ℕ, ◌+◌, ◌-◌, ◌≤◌, ◌<◌, ◌≡◌, refl, sym, ◌∙◌, ap, ◌≢◌, inl, inr, Option, none, some, List, [], ◌∷◌,
  ◌++◌, arith, leb, length, sum_of, sum_of-append, Bool-cases,
}
use yank.Clip.Copy.{Rep, Selection, selection_size}
use yank.Clip.State.Offer.{reversed, fit_back, fit}

abbrev weight : List Rep → ℕ
weight = sum_of (λ rep. length rep.bytes)

reversed-onto {ℓ} : {A : Type ℓ} (xs ys : List A) → reversed xs ys ≡ reversed xs [] ++ ys
reversed-onto [] ys = refl
reversed-onto (x ∷ xs) ys =
    reversed-onto xs (x ∷ ys)
    ∙ sym (append_assoc (reversed xs []) (x ∷ []) ys)
    ∙ ap (λ zs. zs ++ ys) (sym (reversed-onto xs (x ∷ [])))

reversed-append {ℓ} :
    {A : Type ℓ} (xs ys : List A) → reversed (xs ++ ys) [] ≡ reversed ys [] ++ reversed xs []
reversed-append [] ys = sym (append-nil (reversed ys []))
reversed-append (x ∷ xs) ys =
    reversed-onto (xs ++ ys) (x ∷ [])
    ∙ ap (λ zs. zs ++ x ∷ []) (reversed-append xs ys)
    ∙ append_assoc (reversed ys []) (reversed xs []) (x ∷ [])
    ∙ ap (◌++◌ (reversed ys [])) (sym (reversed-onto xs (x ∷ [])))

reversed-reversed {ℓ} : {A : Type ℓ} (xs : List A) → reversed (reversed xs []) [] ≡ xs
reversed-reversed [] = refl
reversed-reversed (x ∷ xs) =
    ap (λ zs. reversed zs []) (reversed-onto xs (x ∷ []))
    ∙ reversed-append (reversed xs []) (x ∷ [])
    ∙ ap (◌∷◌ x) (reversed-reversed xs)

weight-reversed : (xs : List Rep) → weight (reversed xs []) ≡ weight xs
weight-reversed [] = refl
weight-reversed (x ∷ xs) = omega (
  arith,
  ap weight (reversed-onto xs (x ∷ [])),
  sum_of-append (λ (r : Rep). length r.bytes) (reversed xs []) (x ∷ []),
  weight-reversed xs,
)

-- What the loop leaves of `back`, where `base` is the size of what it never drops.
data Left (cap base : ℕ) (back : List Rep) (result : Option (List Rep)) : Type 0 where
  nothing : result ≡ none → cap < base → Left cap base back result
  fits :
      (dropped left : List Rep)
      → result ≡ some left
      → back ≡ dropped ++ left
      → base + weight left ≤ cap
      → ((before : List Rep) (last : Rep)
          → dropped ≡ before ++ last ∷ []
          → cap < base + length last.bytes + weight left)
      → Left cap base back result

snoc-ne-nil : (before : List Rep) (last : Rep) → before ++ last ∷ [] ≢ []
snoc-ne-nil [] last e = cc
snoc-ne-nil (x ∷ xs) last e = cc

drop_one :
    (cap base : ℕ) (rep : Rep) (rest : List Rep) {result : Option (List Rep)}
    → cap < base + weight (rep ∷ rest)
    → Left cap base rest result
    → Left cap base (rep ∷ rest) result
drop_one cap base rep rest over (nothing e h) = nothing e h
drop_one cap base rep rest over (fits dropped left e split small big) =
    fits (rep ∷ dropped) left e (ap (◌∷◌ rep) split) small (bigger dropped refl)
  where
    bigger :
        (ds : List Rep)
        → dropped ≡ ds
        → (before : List Rep) (last : Rep) → rep ∷ ds ≡ before ++ last ∷ []
        → cap < base + length last.bytes + weight left
    bigger ds same (b ∷ bs) last k = big bs last (ground arith)
    bigger [] same [] last k = ground arith
    bigger (d ∷ ds) same [] last k = cc

fit_back-Left :
    (cap base size : ℕ) (back : List Rep)
    → size ≡ base + weight back
    → Left cap base back (fit_back cap size back)
unfolding fit_back
fit_back-Left cap base size [] e = elim (Bool-cases (leb size cap)) [
  | inl small ↦ rw small (
      fits [] [] refl refl (ground arith)
        (λ before last k. absurd (snoc-ne-nil before last (sym k))))
  | inr over ↦ rw over (nothing refl (ground arith))
]
fit_back-Left cap base size (rep ∷ rest) e = elim (Bool-cases (leb size cap)) [
  | inl small ↦ rw small (
      fits [] (rep ∷ rest) refl refl (ground arith)
        (λ before last k. absurd (snoc-ne-nil before last (sym k))))
  | inr over ↦ rw over (
      drop_one cap base rep rest (ground arith)
        (fit_back-Left cap base (size - length rep.bytes) rest (omega arith)))
]

-- What the size cap leaves of a selection.
pub data Fitted (cap : ℕ) (selection : Selection) (result : Option Selection) : Type 0 where
  too_big : result ≡ none → cap < length selection.primary.bytes → Fitted cap selection result
  fitted :
      (kept dropped : List Rep)
      → result ≡ some (record { primary = selection.primary; alternates = kept })
      → selection.alternates ≡ kept ++ dropped
      → length selection.primary.bytes + weight kept ≤ cap
      → ((next : Rep) (rest : List Rep)
          → dropped ≡ next ∷ rest
          → cap < length selection.primary.bytes + weight kept + length next.bytes)
      → Fitted cap selection result

fit_of : Selection → Option (List Rep) → Option Selection
fit_of selection back = elim back [
  | none ↦ none
  | some back ↦ some (record selection { alternates = reversed back [] })
]

Left-Fitted :
    (cap : ℕ) (selection : Selection) {back : Option (List Rep)}
    → Left cap (length selection.primary.bytes) (reversed selection.alternates []) back
    → Fitted cap selection (fit_of selection back)
unfolding fit_of
Left-Fitted cap selection (nothing e over) = too_big (ground (arith, e)) over
Left-Fitted cap selection (fits dropped left e split small big) =
    fitted (reversed left []) (reversed dropped []) (rw e refl)
      (sym (reversed-reversed selection.alternates)
        ∙ ap (λ zs. reversed zs []) split
        ∙ reversed-append dropped left)
      (omega (arith, weight-reversed left))
      (λ next rest k. omega (
        arith,
        weight-reversed left,
        big (reversed rest []) next (
            sym (reversed-reversed dropped)
            ∙ ap (λ zs. reversed zs []) k
            ∙ reversed-onto rest (next ∷ [])),
      ))

-- The cap never takes the primary representation: nothing is shared where that alone is over it, and
-- otherwise the longest prefix of the alternates that fits is kept, and it fits.
pub fit-Fitted : (cap : ℕ) (selection : Selection) → Fitted cap selection (fit cap selection)
unfolding fit fit_of selection_size
fit-Fitted cap selection = Left-Fitted cap selection (
    fit_back-Left cap (length selection.primary.bytes) (selection_size selection)
      (reversed selection.alternates []) (omega (arith, weight-reversed selection.alternates)))
