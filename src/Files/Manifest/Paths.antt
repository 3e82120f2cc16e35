-- ===== src/Files/Manifest/Paths.antt =====
-- src/files/mod.rs: what `validate` finds of files that would occupy the same path, and what it
-- misses.
use yank.Prelude.{
  ℕ, ◌<◌, ◌≡◌, refl, ap, ◌∙◌, true, false, some, List, [], ◌∷◌, ◌++◌, all, arith, Ordering, ok,
  ensure, unsafe_path, same_path, >>-eq-ok, ensure-eq-ok,
}
use yank.Prelude.Bytes.{Str, eq_list, compare_list, strip_prefix}
use yank.Files.Manifest.Sorted.{
  Distinct, Chain-Distinct, Distinct-sort, sort-Chain, no_equal_neighbours, eq_list-false,
}
use yank.Files.Manifest.{
  FileRef, is_safe, insert_sorted, sort, is_under, no_neighbours_clash, paths_of, validate,
  starts_with_slash,
}

no_equal_of_no_clash :
    (ps : List Str) → no_neighbours_clash ps ≡ true → no_equal_neighbours ps ≡ true
unfolding no_neighbours_clash no_equal_neighbours
no_equal_of_no_clash [] h = refl
no_equal_of_no_clash (p ∷ []) h = refl
no_equal_of_no_clash (p ∷ q ∷ rest) h = ground (arith, h, no_equal_of_no_clash (q ∷ rest))

-- Where a manifest passes, each of its paths is safe, and no path stands twice.
pub validate-Distinct :
    (files : List FileRef)
    → validate files ≡ ok tt
    → (all is_safe files ≡ true) × Distinct (paths_of files)
unfolding validate
validate-Distinct files h =
    let (first, then_) = >>-eq-ok (ensure (all is_safe files) unsafe_path) _ h in
    let (second, _) =
      >>-eq-ok (ensure (no_neighbours_clash (sort (paths_of files))) same_path) (ok tt) then_ in
    (
      ensure-eq-ok (all is_safe files) unsafe_path first,
      Distinct-sort (paths_of files) (
          Chain-Distinct (sort (paths_of files)) (sort-Chain (paths_of files)) (
            no_equal_of_no_clash (sort (paths_of files))
              (ensure-eq-ok (no_neighbours_clash (sort (paths_of files))) same_path second))),
    )

compare_list-append : (p s t : Str) → compare_list (p ++ s) (p ++ t) ≡ compare_list s t
unfolding compare_list
compare_list-append [] s t = refl
compare_list-append (c ∷ p) s t = ground (arith, compare_list-append p s t)

strip_prefix-append : (p s t : Str) → strip_prefix (p ++ s) (p ++ t) ≡ strip_prefix s t
unfolding strip_prefix
strip_prefix-append [] s t = refl
strip_prefix-append (c ∷ p) s t = ground (arith, strip_prefix-append p s t)

compare_list_longer : (p s : Str) (d : ℕ) → compare_list p (p ++ d ∷ s) ≡ Ordering.lt
unfolding compare_list
compare_list_longer [] s d = refl
compare_list_longer (c ∷ p) s d = ground (arith, compare_list_longer p s d)

strip_prefix_longer : (p s : Str) → strip_prefix p (p ++ s) ≡ some s
unfolding strip_prefix
strip_prefix_longer [] s = refl
strip_prefix_longer (c ∷ p) s = ground (arith, strip_prefix_longer p s)

insert_sorted-below :
    (p q : Str) (rest : List Str)
    → compare_list p q ≡ Ordering.lt
    → insert_sorted p (q ∷ rest) ≡ p ∷ q ∷ rest
unfolding insert_sorted
insert_sorted-below p q rest h = rw (h, insert_sorted) refl

sort_of_three :
    (p q r : Str)
    → compare_list p q ≡ Ordering.lt
    → compare_list q r ≡ Ordering.lt
    → sort (p ∷ q ∷ r ∷ []) ≡ p ∷ q ∷ r ∷ []
unfolding sort insert_sorted
sort_of_three p q r h k =
    ap (insert_sorted p) (insert_sorted-below q r [] k) ∙ insert_sorted-below p q (r ∷ []) h

no_neighbours_clash_three :
    (p q r : Str)
    → eq_list p q ≡ false
    → is_under p q ≡ false
    → eq_list q r ≡ false
    → is_under q r ≡ false
    → no_neighbours_clash (p ∷ q ∷ r ∷ []) ≡ true
unfolding no_neighbours_clash
no_neighbours_clash_three p q r h k l m = ground (arith, h, k, l, m)

below_slash : (s t : Str) (d : ℕ) → d < b'/' → compare_list (d ∷ s) (b'/' ∷ t) ≡ Ordering.lt
unfolding compare_list
below_slash s t d h = ground arith

is_under-append : (p s t : Str) → is_under (p ++ s) (p ++ t) ≡ is_under s t
unfolding is_under
is_under-append p s t = rw (strip_prefix-append p s t, is_under) refl

is_under_below : (s t : Str) (d : ℕ) → d < b'/' → is_under (d ∷ s) (b'/' ∷ t) ≡ false
unfolding is_under strip_prefix
is_under_below s t d h = ground arith

is_under_longer : (p s : Str) → is_under p (p ++ s) ≡ starts_with_slash s
unfolding is_under
is_under_longer p s = rw (strip_prefix_longer p s, is_under) refl

no_clash_between :
    (p q r s t : Str) (d : ℕ)
    → d < b'/'
    → q ≡ p ++ d ∷ s
    → r ≡ p ++ b'/' ∷ t
    → no_neighbours_clash (sort (p ∷ q ∷ r ∷ [])) ≡ true
no_clash_between p q r s t d below eq_q eq_r =
    let lower : compare_list p q ≡ Ordering.lt = rw eq_q (compare_list_longer p s d) in
    let upper : compare_list q r ≡ Ordering.lt =
      rw (eq_q, eq_r) (compare_list-append p (d ∷ s) (b'/' ∷ t) ∙ below_slash s t d below) in
    rw (sort_of_three p q r lower upper) (
      no_neighbours_clash_three p q r (eq_list-false p q lower)
        (rw eq_q (is_under_longer p (d ∷ s) ∙ ground arith)) (eq_list-false q r upper)
        (rw (eq_q, eq_r) (is_under-append p (d ∷ s) (b'/' ∷ t) ∙ is_under_below s t d below)))

-- A file and a file under it both pass where a third path sorts between them: the first path with a
-- character below the separator behind it. Each path on its own has to be safe.
pub validate_between :
    (a b c : FileRef) (s t : Str) (d : ℕ)
    → d < b'/'
    → is_safe a ≡ true
    → is_safe b ≡ true
    → is_safe c ≡ true
    → b.path ≡ a.path ++ d ∷ s
    → c.path ≡ a.path ++ b'/' ∷ t
    → (is_under a.path c.path ≡ true) × (validate (a ∷ b ∷ c ∷ []) ≡ ok tt)
unfolding validate
validate_between a b c s t d below safe_a safe_b safe_c path_b path_c =
    let clash = no_clash_between a.path b.path c.path s t d below path_b path_c in
    (
      ap (is_under a.path) path_c ∙ is_under_longer a.path (b'/' ∷ t),
      ground (arith, safe_a, safe_b, safe_c, clash),
    )
