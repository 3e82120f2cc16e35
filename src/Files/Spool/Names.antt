-- ===== src/Files/Spool/Names.antt =====
-- src/files/store.rs: the names in the spool tell contents, unfinished transfers and the rest apart.
use yank.Prelude.{
  ℕ, ◌+◌, ◌<◌, ◌==◌, ◌≡◌, ◌≢◌, refl, sym, ap, ◌∙◌, true, false, some, none, [], ◌∷◌, ◌||◌, ◌++◌,
  length, length-append, All, arith, Bool-cases, inl, inr, Option-cases,
}
use yank.Prelude.Bytes.{Bytes, Str, eq_list, eq_list→eq, eq_list_refl, has_char, len}
use yank.Files.Crates.{Crates, Hash, Hex, IsHex}
use yank.Files.Spool.{file_name, partial_name, partial_suffix, parse, strip_suffix}

-- A hash is 32 bytes.
pub record IsHash (hash : Hash) : Type 0 where
  pub size : length hash.bytes ≡ 32
  pub bytes : All (λ c. c < 256) hash.bytes

-- What blake3 gives is a hash.
abbrev pub IsDigest : Crates → Type 0
IsDigest crates = (content : Bytes) → IsHash (crates.blake3 content)

pub eq_list-false : (a b : Str) → a ≢ b → eq_list a b ≡ false
eq_list-false a b ne = elim (Bool-cases (eq_list a b)) [
  | inl e ↦ absurd (ne (eq_list→eq a b e))
  | inr e ↦ e
]

pub len-append : (a b : Str) → len (a ++ b) ≡ len a + len b
len-append [] b = omega arith
len-append (c ∷ a) b = omega (arith, len-append a b)

pub hash-eq : (a b : Hash) → a.bytes ≡ b.bytes → a ≡ b
hash-eq a b e = ap (λ bytes. (let h : Hash = record { bytes = bytes } in h)) e

some-inj {ℓ} : {A : Type ℓ} {a b : A} → some a ≡ some b → a ≡ b
some-inj e = cc

has_char-append : (c : ℕ) (a b : Str) → has_char c (a ++ b) ≡ (has_char c a || has_char c b)
has_char-append c [] b = refl
has_char-append c (x ∷ a) b = ground (arith, has_char-append c a b)

-- What is stripped is a suffix.
pub strip_suffix-eq-some :
    (suffix s front : Str) → strip_suffix suffix s ≡ some front → s ≡ front ++ suffix
unfolding strip_suffix eq_list
strip_suffix-eq-some suffix [] front e = ground (arith, e, eq_list→eq [] suffix)
strip_suffix-eq-some suffix (c ∷ s) front e = elim (Bool-cases (eq_list (c ∷ s) suffix)) [
  | inl whole ↦
      let nil : front ≡ [] = ground (arith, e, whole) in
      eq_list→eq (c ∷ s) suffix whole ∙ ap (λ f. f ++ suffix) (sym nil)
  | inr part ↦ elim (Option-cases (strip_suffix suffix s)) [
    | inl bad ↦ ground (arith, e, part, bad)
    | inr (f, good) ↦
        let rest : front ≡ c ∷ f = ground (arith, e, part, good) in
        ap (λ t. c ∷ t) (strip_suffix-eq-some suffix s f good) ∙ ap (λ f. f ++ suffix) (sym rest)
  ]
]

strip_suffix-append : (suffix front : Str) → strip_suffix suffix (front ++ suffix) ≡ some front
unfolding strip_suffix eq_list
strip_suffix-append [] [] = refl
strip_suffix-append (d ∷ suffix) [] = ground (arith, eq_list_refl suffix)
strip_suffix-append suffix (c ∷ front) =
    let longer : eq_list (c ∷ (front ++ suffix)) suffix ≡ false =
      eq_list-false (c ∷ (front ++ suffix)) suffix
        (λ e. absurd (omega (arith, ap length e, length-append front suffix))) in
    rw longer (rw (strip_suffix-append suffix front) refl)

module _ (hex : Hex) (lawful : IsHex hex) where
  pub file_name-inj : (a b : Hash) → IsHash a → IsHash b → file_name hex a ≡ file_name hex b → a ≡ b
  unfolding file_name
  file_name-inj a b ha hb e = hash-eq a b (
      some-inj (
        sym (lawful.decode-encode a.bytes ha.bytes)
        ∙ ap hex.decode e
        ∙ lawful.decode-encode b.bytes hb.bytes))

  pub file_name-ne-partial_name :
      (a b : Hash) → eq_list (file_name hex a) (partial_name hex b) ≡ false
  unfolding file_name partial_name
  file_name-ne-partial_name a b = eq_list-false (file_name hex a) (partial_name hex b) (λ e.
      absurd (
        omega (
          arith,
          ap len e,
          len-append (hex.encode b.bytes) partial_suffix,
          lawful.len-encode a.bytes,
          lawful.len-encode b.bytes,
        )))

  pub partial_name-ne-file_name :
      (a b : Hash) → eq_list (partial_name hex a) (file_name hex b) ≡ false
  unfolding file_name partial_name
  partial_name-ne-file_name a b = eq_list-false (partial_name hex a) (file_name hex b) (λ e.
      absurd (
        omega (
          arith,
          ap len e,
          len-append (hex.encode a.bytes) partial_suffix,
          lawful.len-encode a.bytes,
          lawful.len-encode b.bytes,
        )))

  pub parse-file_name : (hash : Hash) → IsHash hash → parse hex (file_name hex hash) ≡ some hash
  unfolding parse file_name
  parse-file_name hash h =
      let long : (len (hex.encode hash.bytes) == 64) ≡ true =
        ground (arith, lawful.len-encode hash.bytes, h.size) in
      rw long (rw (lawful.decode-encode hash.bytes h.bytes) refl)

  -- Only the name of a hash is read back as one.
  pub parse-eq-some :
      (name : Str) (hash : Hash) → parse hex name ≡ some hash → name ≡ file_name hex hash
  unfolding parse file_name
  parse-eq-some name hash e = elim (Bool-cases (len name == 64)) [
    | inr short ↦ ground (arith, e, short)
    | inl long ↦ elim (Option-cases (hex.decode name)) [
      | inl bad ↦ ground (arith, e, long, bad)
      | inr (b, good) ↦
          let same : hash.bytes ≡ b = ground (arith, e, long, good) in
          sym (ap hex.encode same ∙ lawful.encode-decode name b good)
    ]
  ]

  pub strip_suffix-file_name :
      (hash : Hash) → strip_suffix partial_suffix (file_name hex hash) ≡ none
  unfolding file_name
  strip_suffix-file_name hash =
      elim (Option-cases (strip_suffix partial_suffix (hex.encode hash.bytes))) [
        | inl e ↦ e
        | inr (front, e) ↦
            let dotted = strip_suffix-eq-some partial_suffix (hex.encode hash.bytes) front e in
            ground (
              arith,
              ap (has_char b'.') dotted,
              has_char-append b'.' front partial_suffix,
              lawful.no_dot hash.bytes,
            )
      ]

  pub strip_suffix-partial_name :
      (hash : Hash)
      → strip_suffix partial_suffix (partial_name hex hash) ≡ some (file_name hex hash)
  unfolding partial_name
  strip_suffix-partial_name hash = strip_suffix-append partial_suffix (file_name hex hash)
