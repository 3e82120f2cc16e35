-- ===== src/Prelude/Map.antt =====
-- `BTreeMap` with keys that compare as numbers: the list of its entries, in the order of the keys.
pub mod Removal
use Prim.Native.Nat.{ℕ, suc, ◌≤◌, ◌<◌, compare, Ordering}
use mathlib.Core.Path.{◌≡◌, refl, sym, ◌∙◌}
use mathlib.Core.Logic.{◌≢◌}
use mathlib.Core.List.{List, [], ◌∷◌}
use mathlib.Core.Option.{Option, none, some}
use native.Mathlib.Omega.{arith}
use native.Mathlib.Decide.{dec_lt, ℕ_discrete}
use yank.Prelude.Tests.{◌==◌, if◌then◌else◌, is_some}
use yank.Prelude.Lists.{length}

module _ {ℓ} {V : Type ℓ} where
  unfoldable pub lookup : ℕ → List (ℕ × V) → Option V
  lookup k [] = none
  lookup k ((key, value) ∷ entries) =
      let further = lookup k entries in if key == k then some value else further

  unfoldable pub insert : ℕ → V → List (ℕ × V) → List (ℕ × V)
  insert k v [] = (k, v) ∷ []
  insert k v ((j, w) ∷ m) = elim (compare k j) [
    | Ordering.lt ↦ (k, v) ∷ (j, w) ∷ m
    | Ordering.eq ↦ (k, v) ∷ m
    | Ordering.gt ↦ (j, w) ∷ insert k v m
  ]

  -- The keys rise along the list, and lie above the bound.
  abbrev pub Above : ℕ → List (ℕ × V) → Type 0
  Above n [] = Unit {0}
  Above n ((j, w) ∷ m) = (n ≤ j) × Above (suc j) m

  abbrev pub IsSorted : List (ℕ × V) → Type 0
  IsSorted m = Above 0 m

  pub Above-mono : {a b : ℕ} (m : List (ℕ × V)) → a ≤ b → Above b m → Above a m
  Above-mono [] h s = tt
  Above-mono ((j, w) ∷ m) h s = (omega arith, s.1)

  pub lookup_below : (k n : ℕ) (m : List (ℕ × V)) → k < n → Above n m → lookup k m ≡ none
  unfolding lookup
  lookup_below k n [] h s = refl
  lookup_below k n ((j, w) ∷ m) h s = ground (arith, lookup_below k (suc j) m)

  insert-Above : (n k : ℕ) (v : V) (m : List (ℕ × V)) → n ≤ k → Above n m → Above n (insert k v m)
  unfolding insert
  insert-Above n k v [] h s = (h, tt)
  insert-Above n k v ((j, w) ∷ m) h s = ground (arith, insert-Above (suc j) k v m, s)

  pub insert-IsSorted : (k : ℕ) (v : V) (m : List (ℕ × V)) → IsSorted m → IsSorted (insert k v m)
  insert-IsSorted k v m s = insert-Above 0 k v m (omega arith) s

  lookup-insert-Above :
      (n k j : ℕ) (v : V) (m : List (ℕ × V))
      → Above n m
      → lookup j (insert k v m) ≡ (if k == j then some v else lookup j m)
  unfolding lookup insert
  lookup-insert-Above n k j v [] s = ground arith
  lookup-insert-Above n k j v ((i, w) ∷ m) s =
      ground (arith, lookup-insert-Above (suc i) k j v m s.1)

  pub lookup-insert :
      (k j : ℕ) (v : V) (m : List (ℕ × V))
      → IsSorted m
      → lookup j (insert k v m) ≡ (if k == j then some v else lookup j m)
  lookup-insert k j v m s = lookup-insert-Above 0 k j v m s

  length-insert-Above :
      (n k : ℕ) (v : V) (m : List (ℕ × V))
      → Above n m
      → length (insert k v m) ≡ (if is_some (lookup k m) then length m else suc (length m))
  unfolding insert lookup
  length-insert-Above n k v [] s = refl
  length-insert-Above n k v ((i, w) ∷ m) s =
      ground (arith, length-insert-Above (suc i) k v m s.1, lookup_below k (suc i) m)

  pub length-insert :
      (k : ℕ) (v : V) (m : List (ℕ × V))
      → IsSorted m
      → length (insert k v m) ≡ (if is_some (lookup k m) then length m else suc (length m))
  length-insert k v m s = length-insert-Above 0 k v m s

  lookup_nil : (j : ℕ) → lookup j [] ≡ none
  unfolding lookup
  lookup_nil j = refl

  pub lookup_head : (j : ℕ) (w : V) (m : List (ℕ × V)) → lookup j ((j, w) ∷ m) ≡ some w
  unfolding lookup
  lookup_head j w m = ground arith

  pub lookup_tail :
      (k j : ℕ) (w : V) (m : List (ℕ × V)) → k ≢ j → lookup k ((j, w) ∷ m) ≡ lookup k m
  unfolding lookup
  lookup_tail k j w m h = ground arith

  key_le :
      (n j j' : ℕ) (w w' : V) (m m' : List (ℕ × V))
      → Above n ((j', w') ∷ m')
      → ((k : ℕ) → lookup k ((j, w) ∷ m) ≡ lookup k ((j', w') ∷ m'))
      → j' ≤ j
  key_le n j j' w w' m m' s' h = elim (dec_lt j j') [
    | no p ↦ omega arith
    | yes p ↦ cc (lookup_below j j' ((j', w') ∷ m') p (omega arith, s'.1), h j, lookup_head j w m)
  ]

  -- Maps that agree at every key are one map.
  pub lookup_ext :
      (n : ℕ) (m m' : List (ℕ × V))
      → Above n m
      → Above n m'
      → ((k : ℕ) → lookup k m ≡ lookup k m')
      → m ≡ m'
  lookup_ext n [] [] s s' h = refl
  lookup_ext n [] ((j, w) ∷ m') s s' h = cc (h j, lookup_head j w m', lookup_nil j)
  lookup_ext n ((j, w) ∷ m) [] s s' h = cc (h j, lookup_head j w m, lookup_nil j)
  lookup_ext n ((j, w) ∷ m) ((j', w') ∷ m') s s' h =
      let same : j ≡ j' =
        omega (arith, key_le n j j' w w' m m' s' h, key_le n j' j w' w m' m s (λ k. sym (h k))) in
      let value : w ≡ w' = cc (h j, same, lookup_head j w m, lookup_head j' w' m') in
      let rest = lookup_ext (suc j) m m' s.1 (rw same s'.1) (λ k. elim (ℕ_discrete k j) [
        | yes e ↦ cc (
          lookup_below k (suc j) m (omega arith) s.1,
          lookup_below k (suc j') m' (omega arith) s'.1,
        )
        | no e ↦ sym (lookup_tail k j w m e) ∙ h k ∙ lookup_tail k j' w' m' (λ q. e (q ∙ sym same))
      ]) in
      cc (same, value, rest)
