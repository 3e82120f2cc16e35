-- ===== src/Clip/Mime/Select.antt =====
-- What src/clip/mime.rs picks out of a selection.
use mathlib.Core.List.{append_assoc, append-nil}
use yank.Prelude.{
  ◌≤◌, ◌<◌, ◌≡◌, refl, sym, ◌∙◌, subst, ◌⊎◌, inl, inr, Bool, true, false, none, some, List, [], ◌∷◌,
  ◌++◌, arith, length, leb, any, length-append, Bool-cases, Option-cases, All,
}
use yank.Prelude.Bytes.{
  Str, eq_ignore_ascii_case, eq_list, eq_list_refl, eq_list→eq, eq_ignore_ascii_case_refl,
}
use yank.Clip.Mime.{
  max_reps, is_content, is_text_alias, is_ignored, is_skipped, select_from, select, choose,
  is_skipped,
}

-- Whether a type is among those taken, whatever its case.
abbrev pub is_taken : List Str → Str → Bool
is_taken chosen mime = any (λ taken. eq_ignore_ascii_case taken mime) chosen

-- No type is taken twice.
abbrev pub IsDistinct : List Str → Type 0
IsDistinct [] = Unit {0}
IsDistinct (x ∷ xs) = All (λ y. eq_ignore_ascii_case x y ≡ false) xs × IsDistinct xs

abbrev pub offers : List Str → Str → Bool
offers offered mime = any (λ name. eq_list name mime) offered

-- A type behind the first that may be carried: offered, content, no alias of text, and not ignored.
pub record IsCarried (offered ignore : List Str) (mime : Str) : Type 0 where
  pub offered_here : offers offered mime ≡ true
  pub content : is_content mime ≡ true
  pub no_alias : is_text_alias mime ≡ false
  pub wanted : is_ignored ignore mime ≡ false

All-snoc {ℓ κ} :
    {A : Type ℓ} (P : A → Type κ) (xs : List A) (x : A) → All P xs → P x → All P (xs ++ x ∷ [])
All-snoc P [] x h p = (p, tt)
All-snoc P (y ∷ xs) x h p = (h.0, All-snoc P xs x h.1 p)

IsDistinct-snoc :
    (xs : List Str) (m : Str) → is_taken xs m ≡ false → IsDistinct xs → IsDistinct (xs ++ m ∷ [])
IsDistinct-snoc [] m h d = (tt, tt)
IsDistinct-snoc (x ∷ xs) m h d =
    (All-snoc _ xs m d.0 (ground arith), IsDistinct-snoc xs m (ground arith) d.1)

is_skipped-false :
    (ignore chosen : List Str) (mime : Str)
    → is_skipped ignore chosen mime ≡ false
    → (is_content mime ≡ true)
      × (is_text_alias mime ≡ false)
      × (is_ignored ignore mime ≡ false)
      × (is_taken chosen mime ≡ false)
unfolding is_skipped
is_skipped-false ignore chosen mime h = ground arith

is_skipped-true :
    (ignore chosen : List Str) (mime : Str)
    → is_skipped ignore chosen mime ≡ true
    → is_content mime ≡ true
    → is_text_alias mime ≡ false
    → is_ignored ignore mime ≡ false
    → is_taken chosen mime ≡ true
unfolding is_skipped
is_skipped-true ignore chosen mime h c a w = ground arith

is_taken-append : (xs ys : List Str) (m : Str) → is_taken xs m ≡ true → is_taken (xs ++ ys) m ≡ true
is_taken-append [] ys m h = cc
is_taken-append (x ∷ xs) ys m h = ground (arith, is_taken-append xs ys m)

is_taken-snoc : (xs : List Str) (m : Str) → is_taken (xs ++ m ∷ []) m ≡ true
is_taken-snoc [] m = ground (arith, eq_ignore_ascii_case_refl m)
is_taken-snoc (x ∷ xs) m = ground (arith, is_taken-snoc xs m)

-- What the loop adds to `chosen` when it reads `rest`, a tail of what is offered.
record Added (offered ignore chosen rest result : List Str) : Type 0 where
  added : List Str
  shape : result ≡ chosen ++ added
  carried : All (IsCarried offered ignore) added
  distinct : IsDistinct result
  bounded : length result ≤ max_reps
  complete :
      length result < max_reps
      → (m : Str) → offers rest m ≡ true
      → is_content m ≡ true
      → is_text_alias m ≡ false
      → is_ignored ignore m ≡ false
      → is_taken result m ≡ true

module _ (offered ignore : List Str) where
  -- The loop stops: enough are chosen, or nothing is left.
  stop :
      (chosen rest : List Str)
      → (leb max_reps (length chosen) ≡ true) ⊎ (rest ≡ [])
      → length chosen ≤ max_reps
      → IsDistinct chosen
      → Added offered ignore chosen rest chosen
  stop chosen rest full b d = record {
    added = [];
    shape = sym (append-nil chosen);
    carried = tt;
    distinct = d;
    bounded = b;
    complete = λ room m o c a w. ground arith;
  }

  -- The loop passes over a type.
  pass :
      (chosen rest : List Str) {result : List Str} (mime : Str)
      → is_skipped ignore chosen mime ≡ true
      → Added offered ignore chosen rest result
      → Added offered ignore chosen (mime ∷ rest) result
  pass chosen rest {result} mime skip r = record {
    added = r.added;
    shape = r.shape;
    carried = r.carried;
    distinct = r.distinct;
    bounded = r.bounded;
    complete = λ room m o c a w. elim (Bool-cases (eq_list mime m)) [
      | inl same ↦
          let e = eq_list→eq mime m same in
          subst (λ xs. is_taken xs m ≡ true) (sym r.shape)
            (is_taken-append chosen r.added m (
              is_skipped-true ignore chosen m
                (subst (λ x. is_skipped ignore chosen x ≡ true) e skip) c a w))
      | inr other ↦ r.complete room m (ground arith) c a w
    ];
  }

  -- The loop takes a type.
  push :
      (chosen rest : List Str) {result : List Str} (mime : Str)
      → IsCarried offered ignore mime
      → Added offered ignore (chosen ++ mime ∷ []) rest result
      → Added offered ignore chosen (mime ∷ rest) result
  push chosen rest {result} mime good r = record {
    added = mime ∷ r.added;
    shape = r.shape ∙ append_assoc chosen (mime ∷ []) r.added;
    carried = (good, r.carried);
    distinct = r.distinct;
    bounded = r.bounded;
    complete = λ room m o c a w. elim (Bool-cases (eq_list mime m)) [
      | inl same ↦
          subst (λ xs. is_taken xs m ≡ true) (sym r.shape)
            (is_taken-append (chosen ++ mime ∷ []) r.added m (
              subst (λ x. is_taken (chosen ++ x ∷ []) m ≡ true) (sym (eq_list→eq mime m same))
                (is_taken-snoc chosen m)))
      | inr other ↦ r.complete room m (ground arith) c a w
    ];
  }

  select_from-Added :
      (chosen rest : List Str)
      → ((m : Str) → offers rest m ≡ true → offers offered m ≡ true)
      → length chosen ≤ max_reps
      → IsDistinct chosen
      → Added offered ignore chosen rest (select_from ignore chosen rest)
  unfolding select_from
  select_from-Added chosen [] sub b d = stop chosen [] (inr refl) b d
  select_from-Added chosen (mime ∷ rest) sub b d =
      elim (Bool-cases (leb max_reps (length chosen))) [
        | inl full ↦ rw full (stop chosen (mime ∷ rest) (inl full) b d)
        | inr room ↦ rw room (elim (Bool-cases (is_skipped ignore chosen mime)) [
          | inl skip ↦ rw skip (
              pass chosen rest mime skip
                (select_from-Added chosen rest (λ m o. sub m (ground arith)) b d))
          | inr take ↦
              let facts = is_skipped-false ignore chosen mime take in
              rw take (
                push chosen rest mime
                  (record {
                    offered_here = sub mime (ground (arith, eq_list_refl mime));
                    content = facts.0;
                    no_alias = facts.1;
                    wanted = facts.2;
                  })
                  (select_from-Added (chosen ++ mime ∷ []) rest (λ m o. sub m (ground arith))
                    (ground (arith, length-append chosen (mime ∷ [])))
                    (IsDistinct-snoc chosen mime facts.3 d)))
        ])
      ]

-- What may come out of a selection.
pub data Selected (offered ignore : List Str) (result : List Str) : Type 0 where
  nothing : choose offered ≡ none → result ≡ [] → Selected offered ignore result
  dropped :
      (primary : Str)
      → choose offered ≡ some primary
      → is_ignored ignore primary ≡ true
      → result ≡ []
      → Selected offered ignore result
  picked :
      (primary : Str) (rest : List Str)
      → choose offered ≡ some primary
      → is_ignored ignore primary ≡ false
      → result ≡ primary ∷ rest
      → All (IsCarried offered ignore) rest
      → IsDistinct result
      → length result ≤ max_reps
      → (length result < max_reps
          → (m : Str) → offers offered m ≡ true
          → is_content m ≡ true
          → is_text_alias m ≡ false
          → is_ignored ignore m ≡ false
          → is_taken result m ≡ true)
      → Selected offered ignore result

-- A selection is named by its best type. Nothing is carried where there is no such type, or where the
-- user ignores it. Otherwise that type is carried first, and behind it types that are offered, carry
-- content, are no alias of text and are not ignored; no type twice, whatever its case, at most
-- `max_reps` in all; and where fewer are carried, every such type that is offered is among them.
pub select-Selected : (offered ignore : List Str) → Selected offered ignore (select offered ignore)
unfolding select
select-Selected offered ignore = elim (Option-cases (choose offered)) [
  | inl e ↦ nothing e (rw (e, select))
  | inr (primary, e) ↦ elim (Bool-cases (is_ignored ignore primary)) [
    | inl h ↦ dropped primary e h (rw (e, select) (rw h))
    | inr h ↦
        let r =
          select_from-Added offered ignore (primary ∷ []) offered (λ m o. o) (omega arith)
            (tt, tt) in
        let same : select offered ignore ≡ select_from ignore (primary ∷ []) offered =
          rw (e, select) (rw h) in
        rw same (picked primary r.added e h r.shape r.carried r.distinct r.bounded r.complete)
  ]
]
