-- ===== src/Prelude/Order.antt =====
-- The laws of the order on texts.
use Prim.Native.Nat.{ℕ, Ordering}
use mathlib.Core.Path.{◌≡◌, refl}
use mathlib.Core.List.{List, [], ◌∷◌}
use native.Mathlib.Omega.{arith}
use yank.Prelude.Bytes.{compare_list}

pub compare_list_refl : (xs : List ℕ) → compare_list xs xs ≡ Ordering.eq
unfolding compare_list
compare_list_refl [] = refl
compare_list_refl (x ∷ xs) = ground (arith, compare_list_refl xs)

pub compare_list→eq : (xs ys : List ℕ) → compare_list xs ys ≡ Ordering.eq → xs ≡ ys
unfolding compare_list
compare_list→eq [] [] h = refl
compare_list→eq [] (y ∷ ys) h = cc
compare_list→eq (x ∷ xs) [] h = cc
compare_list→eq (x ∷ xs) (y ∷ ys) h = ground (arith, compare_list→eq xs ys)

pub gt_of_lt :
    (xs ys : List ℕ) → compare_list xs ys ≡ Ordering.lt → compare_list ys xs ≡ Ordering.gt
unfolding compare_list
gt_of_lt [] [] h = cc
gt_of_lt [] (y ∷ ys) h = refl
gt_of_lt (x ∷ xs) [] h = cc
gt_of_lt (x ∷ xs) (y ∷ ys) h = ground (arith, gt_of_lt xs ys)

pub lt_of_gt :
    (xs ys : List ℕ) → compare_list xs ys ≡ Ordering.gt → compare_list ys xs ≡ Ordering.lt
unfolding compare_list
lt_of_gt [] [] h = cc
lt_of_gt [] (y ∷ ys) h = cc
lt_of_gt (x ∷ xs) [] h = refl
lt_of_gt (x ∷ xs) (y ∷ ys) h = ground (arith, lt_of_gt xs ys)

pub compare_list-lt_trans :
    (xs ys zs : List ℕ)
    → compare_list xs ys ≡ Ordering.lt
    → compare_list ys zs ≡ Ordering.lt
    → compare_list xs zs ≡ Ordering.lt
unfolding compare_list
compare_list-lt_trans [] [] zs h k = cc
compare_list-lt_trans [] (y ∷ ys) [] h k = cc
compare_list-lt_trans [] (y ∷ ys) (z ∷ zs) h k = refl
compare_list-lt_trans (x ∷ xs) [] zs h k = cc
compare_list-lt_trans (x ∷ xs) (y ∷ ys) [] h k = cc
compare_list-lt_trans (x ∷ xs) (y ∷ ys) (z ∷ zs) h k =
    ground (arith, compare_list-lt_trans xs ys zs)

pub compare_list-gt_trans :
    (xs ys zs : List ℕ)
    → compare_list xs ys ≡ Ordering.gt
    → compare_list ys zs ≡ Ordering.gt
    → compare_list xs zs ≡ Ordering.gt
compare_list-gt_trans xs ys zs h k =
    gt_of_lt zs xs (compare_list-lt_trans zs ys xs (lt_of_gt ys zs k) (lt_of_gt xs ys h))
