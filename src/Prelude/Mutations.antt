-- ===== src/Prelude/Mutations.antt =====
-- Code that changes a state it has at hand by `&mut` and can refuse. What was written before an error
-- stays written, so that a mutation gives the state in either case.
use yank.Prelude.Results.{Result, ok, err, Error}
use mathlib.Core.Path.{◌≡◌, refl}
use mathlib.Core.Logic.{◌⊎◌, inl, inr}

abbrev pub Mutation : Type 0 → Type 0 → Type 0
Mutation S A = S → S × Result A

module _ {S : Type 0} where
  -- What follows a call, where this has not refused.
  abbrev pub continue : {A B : Type 0} → S × Result A → (A → Mutation S B) → S × Result B
  continue (s, err e) next = (s, err e)
  continue (s, ok a) next = next a s

  abbrev pub get : Mutation S S
  get s = (s, ok s)

  -- A result that is computed without the state.
  abbrev pub lift : {A : Type 0} → Result A → Mutation S A
  lift r s = (s, r)

  abbrev pub accepted : {A : Type 0} → S × A → S × Result A
  accepted (s, a) = (s, ok a)

  -- A change that cannot refuse.
  abbrev pub modify : {A : Type 0} → (S → S × A) → Mutation S A
  modify change s = accepted (change s)

  infixl 5 ◌>>=◌ ◌>>◌
  abbrev pub ◌>>=◌ : {A B : Type 0} → Mutation S A → (A → Mutation S B) → Mutation S B
  ◌>>=◌ m next s = continue (m s) next

  abbrev pub ◌>>◌ : {A B : Type 0} → Mutation S A → Mutation S B → Mutation S B
  m >> next = m >>= λ _. next

  -- A check refuses and leaves the state, or lets through what follows it.
  pub lift-cases :
      {B : Type 0} (r : Result (Unit {0})) (next : Mutation S B) (s : S)
      → ((e : Error) × ((lift r >> next) s ≡ (s, err e)))
        ⊎ ((r ≡ ok tt) × ((lift r >> next) s ≡ next s))
  lift-cases (err e) next s = inl (e, refl)
  lift-cases (ok tt) next s = inr (refl, refl)
