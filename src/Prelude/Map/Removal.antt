-- ===== src/Prelude/Map/Removal.antt =====
-- `BTreeMap::remove`, and a change of every value.
use Prim.Native.Nat.{ℕ, suc}
use mathlib.Core.Path.{◌≡◌, refl}
use mathlib.Core.List.{List, [], ◌∷◌}
use mathlib.Core.Option.{Option, none, some}
use native.Mathlib.Omega.{arith}
use yank.Prelude.Tests.{◌==◌, if◌then◌else◌}
use yank.Prelude.Map.{lookup, lookup_below, Above-mono, Above}

module _ {ℓ} {V : Type ℓ} where
  unfoldable pub remove : ℕ → List (ℕ × V) → List (ℕ × V)
  remove k [] = []
  remove k ((key, value) ∷ entries) =
      let further = remove k entries in if key == k then entries else (key, value) ∷ further

  pub remove-Above : (n k : ℕ) (m : List (ℕ × V)) → Above n m → Above n (remove k m)
  unfolding remove
  remove-Above n k [] s = tt
  remove-Above n k ((j, w) ∷ m) s = ground (
    arith,
    remove-Above (suc j) k m s.1,
    Above-mono {a = n} {b = suc j} m (omega (arith, s.0)) s.1,
    s.0,
  )

  pub lookup-remove :
      (n k j : ℕ) (m : List (ℕ × V))
      → Above n m
      → lookup j (remove k m) ≡ (if k == j then none else lookup j m)
  unfolding lookup remove
  lookup-remove n k j [] s = ground arith
  lookup-remove n k j ((i, w) ∷ m) s =
      ground (arith, lookup-remove (suc i) k j m s.1, lookup_below j (suc i) m)

  abbrev pub map_values : (ℕ → V → V) → List (ℕ × V) → List (ℕ × V)
  map_values f [] = []
  map_values f ((j, w) ∷ m) = (j, f j w) ∷ map_values f m

  pub map_values-Above :
      (f : ℕ → V → V) (n : ℕ) (m : List (ℕ × V)) → Above n m → Above n (map_values f m)
  map_values-Above f n [] s = tt
  map_values-Above f n ((j, w) ∷ m) s = (s.0, map_values-Above f (suc j) m s.1)

  abbrev pub map_option : (V → V) → Option V → Option V
  map_option f none = none
  map_option f (some v) = some (f v)

  pub lookup-map_values :
      (f : ℕ → V → V) (k : ℕ) (m : List (ℕ × V))
      → lookup k (map_values f m) ≡ map_option (f k) (lookup k m)
  unfolding lookup
  lookup-map_values f k [] = refl
  lookup-map_values f k ((j, w) ∷ m) = ground (arith, lookup-map_values f k m)
