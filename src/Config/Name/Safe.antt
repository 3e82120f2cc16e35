-- ===== src/Config/Name/Safe.antt =====
-- src/config/name.rs: what reaches the terminal.
use yank.Prelude.{
  ℕ, ◌+◌, ◌≤◌, ◌≡◌, refl, ap, ◌∙◌, false, [], ◌∷◌, any, arith, length, zero, suc, ok,
}
use yank.Prelude.Bytes.{Str}
use yank.Config.Name.{
  is_confusable, masked, sanitize, sanitize_bounded, cut_at, max_sanitized_len, validate_name,
}

masked-safe : (c : ℕ) → is_confusable (masked c) ≡ false
unfolding masked is_confusable
masked-safe c = ground arith

masked_clean : (c : ℕ) → is_confusable c ≡ false → masked c ≡ c
unfolding masked
masked_clean c h = ground arith

mark_safe : any is_confusable (0x2026 ∷ []) ≡ false
unfolding is_confusable
mark_safe = refl

cut_at-safe :
    (n : ℕ) (s : Str) → any is_confusable s ≡ false → any is_confusable (cut_at n s) ≡ false
unfolding cut_at
cut_at-safe n [] h = refl
cut_at-safe zero (c ∷ s) h = mark_safe
cut_at-safe (suc n) (c ∷ s) h = ground (arith, cut_at-safe n s)

sanitize-safe : (s : Str) → any is_confusable (sanitize s) ≡ false
unfolding sanitize
sanitize-safe [] = refl
sanitize-safe (c ∷ s) = ground (arith, masked-safe c, sanitize-safe s)

sanitize_clean : (s : Str) → any is_confusable s ≡ false → sanitize s ≡ s
unfolding sanitize
sanitize_clean [] h = refl
sanitize_clean (c ∷ s) h = ground (arith, masked_clean c, sanitize_clean s)

length-cut_at : (n : ℕ) (s : Str) → length (cut_at n s) ≤ n + 1
unfolding cut_at
length-cut_at n [] = omega arith
length-cut_at zero (c ∷ s) = omega arith
length-cut_at (suc n) (c ∷ s) = omega (arith, length-cut_at n s)

cut_at_short : (n : ℕ) (s : Str) → length s ≤ n → cut_at n s ≡ s
unfolding cut_at
cut_at_short n [] h = refl
cut_at_short zero (c ∷ s) h = absurd (omega arith)
cut_at_short (suc n) (c ∷ s) h = ap (◌∷◌ c) (cut_at_short n s (omega arith))

-- What is sanitised with a bound holds no character that could hide or reorder the output and is at
-- most the bound and a mark long; a text that was so already and within the bound is left as it is.
pub sanitize_bounded_lem :
    (s : Str)
    → (any is_confusable (sanitize_bounded s) ≡ false)
      × (length (sanitize_bounded s) ≤ max_sanitized_len + 1)
      × (any is_confusable s ≡ false → length s ≤ max_sanitized_len → sanitize_bounded s ≡ s)
unfolding sanitize_bounded
sanitize_bounded_lem s = (
  cut_at-safe max_sanitized_len (sanitize s) (sanitize-safe s),
  length-cut_at max_sanitized_len (sanitize s),
  λ clean short.
      ap (cut_at max_sanitized_len) (sanitize_clean s clean)
      ∙ cut_at_short max_sanitized_len s short,
)

-- A name that passes is shown unchanged.
pub validate_name-sanitize : (s : Str) → validate_name s ≡ ok tt → sanitize s ≡ s
unfolding validate_name
validate_name-sanitize s h = sanitize_clean s (ground arith)
