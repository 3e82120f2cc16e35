-- ===== src/Files/Manifest/Sorted.antt =====
-- src/files/mod.rs, src/files/store.rs: sorted texts of which no two neighbours are equal are distinct.
use yank.Prelude.{◌≡◌, Bool, true, false, not, ◌&&◌, List, [], ◌∷◌, All, arith, Ordering}
use yank.Prelude.Bytes.{Str, eq_list, compare_list, eq_list→eq, eq_list_refl}
use yank.Prelude.Order.{compare_list_refl, compare_list→eq, lt_of_gt, compare_list-lt_trans}
use yank.Files.Manifest.{insert_sorted, sort}

-- No text stands twice.
abbrev pub Distinct : List Str → Type 0
Distinct [] = Unit {0}
Distinct (p ∷ ps) = All (λ q. eq_list p q ≡ false) ps × Distinct ps

-- No text is the next one.
unfoldable pub no_equal_neighbours : List Str → Bool
no_equal_neighbours [] = true
no_equal_neighbours (p ∷ []) = true
no_equal_neighbours (p ∷ q ∷ rest) = not (eq_list p q) && no_equal_neighbours (q ∷ rest)

abbrev pub is_ordered : Str → Str → Bool
is_ordered p q = elim (compare_list p q) [ Ordering.gt ↦ false | _ ↦ true ]

-- Each text is at most the next.
abbrev pub Chain : List Str → Type 0
Chain [] = Unit {0}
Chain (p ∷ []) = Unit {0}
Chain (p ∷ q ∷ rest) = (is_ordered p q ≡ true) × Chain (q ∷ rest)

insert_sorted-Chain : (p : Str) (qs : List Str) → Chain qs → Chain (insert_sorted p qs)
unfolding insert_sorted
insert_sorted-Chain p [] h = tt
insert_sorted-Chain p (q ∷ []) h = ground (arith, lt_of_gt p q)
insert_sorted-Chain p (q ∷ r ∷ rest) h =
    ground (arith, h, lt_of_gt p q, insert_sorted-Chain p (r ∷ rest))

pub sort-Chain : (ps : List Str) → Chain (sort ps)
unfolding sort
sort-Chain [] = tt
sort-Chain (p ∷ ps) = insert_sorted-Chain p (sort ps) (sort-Chain ps)

lt_of_ordered :
    (p q : Str) → is_ordered p q ≡ true → eq_list p q ≡ false → compare_list p q ≡ Ordering.lt
lt_of_ordered p q h k = ground (arith, compare_list→eq p q, eq_list_refl p)

pub eq_list-false : (p q : Str) → compare_list p q ≡ Ordering.lt → eq_list p q ≡ false
eq_list-false p q h = ground (arith, compare_list_refl p, eq_list→eq p q)

All_below :
    (p q : Str) (rest : List Str)
    → compare_list p q ≡ Ordering.lt
    → All (λ r. compare_list q r ≡ Ordering.lt) rest
    → All (λ r. compare_list p r ≡ Ordering.lt) rest
All_below p q [] h k = tt
All_below p q (r ∷ rest) h k = (compare_list-lt_trans p q r h k.0, All_below p q rest h k.1)

All_lower :
    (p : Str) (rest : List Str)
    → Chain (p ∷ rest)
    → no_equal_neighbours (p ∷ rest) ≡ true
    → All (λ r. compare_list p r ≡ Ordering.lt) rest
unfolding no_equal_neighbours
All_lower p [] h k = tt
All_lower p (q ∷ rest) h k =
    let lower = lt_of_ordered p q h.0 (ground (arith, k)) in
    (lower, All_below p q rest lower (All_lower q rest h.1 (ground (arith, k))))

All_unequal :
    (p : Str) (rest : List Str)
    → All (λ r. compare_list p r ≡ Ordering.lt) rest
    → All (λ r. eq_list p r ≡ false) rest
All_unequal p [] h = tt
All_unequal p (r ∷ rest) h = (eq_list-false p r h.0, All_unequal p rest h.1)

pub Chain-Distinct : (ps : List Str) → Chain ps → no_equal_neighbours ps ≡ true → Distinct ps
unfolding no_equal_neighbours
Chain-Distinct [] h k = tt
Chain-Distinct (p ∷ []) h k = (tt, tt)
Chain-Distinct (p ∷ q ∷ rest) h k = (
  All_unequal p (q ∷ rest) (All_lower p (q ∷ rest) h k),
  Chain-Distinct (q ∷ rest) h.1 (ground (arith, k)),
)

eq_list-false_sym : (p q : Str) → eq_list p q ≡ false → eq_list q p ≡ false
eq_list-false_sym p q h = ground (arith, eq_list→eq q p, eq_list_refl p)

All-insert_sorted :
    (r p : Str) (qs : List Str)
    → All (λ q. eq_list r q ≡ false) (insert_sorted p qs)
    → (eq_list r p ≡ false) × All (λ q. eq_list r q ≡ false) qs
unfolding insert_sorted
All-insert_sorted r p [] h = h
All-insert_sorted r p (q ∷ qs) h = ground (arith, All-insert_sorted r p qs)

Distinct-insert_sorted :
    (p : Str) (qs : List Str) → Distinct (insert_sorted p qs) → Distinct (p ∷ qs)
unfolding insert_sorted
Distinct-insert_sorted p [] h = h
Distinct-insert_sorted p (q ∷ qs) h =
    ground (arith, Distinct-insert_sorted p qs, All-insert_sorted q p qs, eq_list-false_sym q p)

All-sort :
    (r : Str) (ps : List Str)
    → All (λ q. eq_list r q ≡ false) (sort ps)
    → All (λ q. eq_list r q ≡ false) ps
unfolding sort
All-sort r [] h = tt
All-sort r (p ∷ ps) h =
    let both = All-insert_sorted r p (sort ps) h in (both.0, All-sort r ps both.1)

pub Distinct-sort : (ps : List Str) → Distinct (sort ps) → Distinct ps
unfolding sort
Distinct-sort [] h = tt
Distinct-sort (p ∷ ps) h =
    let d = Distinct-insert_sorted p (sort ps) h in (All-sort p ps d.0, Distinct-sort ps d.1)
