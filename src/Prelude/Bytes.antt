-- ===== src/Prelude/Bytes.antt =====
-- Byte strings and text. A `Str` is the list of the text's code points; its bytes are its UTF-8
-- encoding. UTF-8 keeps the order of code points, so `Ord for str` is the order of the list.
use Prim.Native.Char.{code}
use Prim.Native.String.{String}
use Prim.Native.Nat.{ℕ, ◌+◌, ◌/◌, ◌%◌, compare, Ordering}
use mathlib.Core.Path.{◌≡◌, refl}
use mathlib.Core.Bool.{Bool, true, false, ◌&&◌, ◌||◌}
use mathlib.Core.List.{List, [], ◌∷◌, ◌++◌}
use mathlib.Core.Option.{Option, none, some}
use native.Mathlib.Omega.{arith}
use yank.Prelude.Tests.{ltb, leb, ◌==◌, if◌then◌else◌}

abbrev pub Bytes : Type 0
Bytes = List ℕ

abbrev pub Str : Type 0
Str = List ℕ

-- The code points of a text literal.
abbrev pub codes : String → Str
codes String.[] = []
codes (String.◌∷◌ c s) = code c ∷ codes s

-- `char::len_utf8`.
abbrev pub len_utf8 : ℕ → ℕ
len_utf8 c = if ltb c 0x80 then 1 else if ltb c 0x800 then 2 else if ltb c 0x1_0000 then 3 else 4

-- `str::len`, which counts bytes.
abbrev pub len : Str → ℕ
len [] = 0
len (c ∷ s) = len_utf8 c + len s

abbrev pub encode_utf8 : ℕ → Bytes
encode_utf8 c =
    if ltb c 0x80
    then c ∷ []
    else if ltb c 0x800
    then (0xc0 + c / 64) ∷ (0x80 + c % 64) ∷ []
    else if ltb c 0x1_0000
    then (0xe0 + c / 4096) ∷ (0x80 + c / 64 % 64) ∷ (0x80 + c % 64) ∷ []
    else (0xf0 + c / 262144) ∷ (0x80 + c / 4096 % 64) ∷ (0x80 + c / 64 % 64) ∷ (0x80 + c % 64) ∷ []

-- `str::as_bytes`.
abbrev pub as_bytes : Str → Bytes
as_bytes [] = []
as_bytes (c ∷ s) = encode_utf8 c ++ as_bytes s

-- `==` of slices and of texts.
unfoldable pub eq_list : List ℕ → List ℕ → Bool
eq_list [] [] = true
eq_list [] (y ∷ ys) = false
eq_list (x ∷ xs) [] = false
eq_list (x ∷ xs) (y ∷ ys) = x == y && eq_list xs ys

pub eq_list→eq : (xs ys : List ℕ) → eq_list xs ys ≡ true → xs ≡ ys
unfolding eq_list
eq_list→eq [] [] h = refl
eq_list→eq [] (y ∷ ys) h = cc
eq_list→eq (x ∷ xs) [] h = cc
eq_list→eq (x ∷ xs) (y ∷ ys) h = ground (arith, eq_list→eq xs ys)

pub eq_list_refl : (xs : List ℕ) → eq_list xs xs ≡ true
unfolding eq_list
eq_list_refl [] = refl
eq_list_refl (x ∷ xs) = ground (arith, eq_list_refl xs)

pub eq_list_sym : (xs ys : List ℕ) → eq_list xs ys ≡ eq_list ys xs
unfolding eq_list
eq_list_sym [] [] = refl
eq_list_sym [] (y ∷ ys) = refl
eq_list_sym (x ∷ xs) [] = refl
eq_list_sym (x ∷ xs) (y ∷ ys) = ground (arith, eq_list_sym xs ys)

-- `Ord` of slices and of texts: the first difference decides.
unfoldable pub compare_list : List ℕ → List ℕ → Ordering
compare_list [] [] = Ordering.eq
compare_list [] (y ∷ ys) = Ordering.lt
compare_list (x ∷ xs) [] = Ordering.gt
compare_list (x ∷ xs) (y ∷ ys) = elim (compare x y) [
  | Ordering.eq ↦ compare_list xs ys
  | Ordering.lt ↦ Ordering.lt
  | Ordering.gt ↦ Ordering.gt
]

-- `u8::to_ascii_lowercase`.
abbrev pub to_ascii_lowercase : ℕ → ℕ
to_ascii_lowercase c = if leb b'A' c && leb c b'Z' then c + 32 else c

unfoldable pub eq_ignore_ascii_case : Str → Str → Bool
eq_ignore_ascii_case [] [] = true
eq_ignore_ascii_case [] (y ∷ ys) = false
eq_ignore_ascii_case (x ∷ xs) [] = false
eq_ignore_ascii_case (x ∷ xs) (y ∷ ys) =
    to_ascii_lowercase x == to_ascii_lowercase y && eq_ignore_ascii_case xs ys

pub eq_ignore_ascii_case_refl : (s : Str) → eq_ignore_ascii_case s s ≡ true
unfolding eq_ignore_ascii_case
eq_ignore_ascii_case_refl [] = refl
eq_ignore_ascii_case_refl (c ∷ s) = ground (arith, eq_ignore_ascii_case_refl s)

-- `str::contains` of one character.
abbrev pub has_char : ℕ → Str → Bool
has_char c [] = false
has_char c (x ∷ s) = x == c || has_char c s

-- `strip_prefix`: the rest behind a prefix.
unfoldable pub strip_prefix : List ℕ → List ℕ → Option (List ℕ)
strip_prefix [] s = some s
strip_prefix (c ∷ p) [] = none
strip_prefix (c ∷ p) (x ∷ s) = if x == c then strip_prefix p s else none
