-- ===== src/Config/Name.antt =====
-- src/config/name.rs: hygiene for texts that reach the terminal.
pub mod Safe
use yank.Prelude.{
  ℕ, Bool, not, ◌&&◌, ◌||◌, List, [], ◌∷◌, ◌++◌, map, leb, ltb, ◌==◌, any, length, if◌then◌else◌,
  Result, ok, ensure, ◌>>=◌, ◌>>◌, name_empty, name_too_long, name_confusable, suc, zero,
}
use yank.Prelude.Bytes.{Str, len}

-- `MAX_NAME_LEN`, in bytes.
abbrev pub max_name_len : ℕ
max_name_len = 64

-- `MAX_SANITIZED_LEN`, in characters.
abbrev pub max_sanitized_len : ℕ
max_sanitized_len = 256

-- `char::is_control`: the category Cc.
abbrev pub is_control : ℕ → Bool
is_control c = leb c 0x1f || leb 0x7f c && leb c 0x9f

unfoldable pub is_confusable : ℕ → Bool
is_confusable c =
    is_control c
    || leb 0x200b c && leb c 0x200f
    || leb 0x202a c && leb c 0x202e
    || leb 0x2066 c && leb c 0x2069
    || c == 0xfeff

unfoldable pub validate_name : Str → Result (Unit {0})
validate_name name = do
  ensure (not (len name == 0)) name_empty
  ensure (leb (len name) max_name_len) name_too_long
  ensure (not (any is_confusable name)) name_confusable

-- What `sanitize` makes of a character.
unfoldable pub masked : ℕ → ℕ
masked c = if is_confusable c then b'?' else c

unfoldable pub sanitize : Str → Str
unfolding masked
sanitize text = map masked text

-- The text cut at the character of an index, with the mark behind it, where it has so many.
unfoldable pub cut_at : ℕ → Str → Str
cut_at n [] = []
cut_at zero (c ∷ s) = 0x2026 ∷ []
cut_at (suc n) (c ∷ s) = c ∷ cut_at n s

unfoldable pub sanitize_bounded : Str → Str
unfolding sanitize cut_at
sanitize_bounded text = cut_at max_sanitized_len (sanitize text)
