-- ===== src/Files/Manifest/Safety.antt =====
-- src/files/mod.rs: what `FileRef::is_safe` keeps a path of a peer from doing.
use yank.Prelude.{
  ℕ, ◌≡◌, refl, sym, ap, ◌∙◌, true, false, ◌||◌, Option, none, some, List, [], ◌∷◌, ◌++◌, ◌==◌, all,
  arith, if◌then◌else◌, if-elim, ==_iff, Bool-cases, inl, inr,
}
use yank.Prelude.Bytes.{Str, codes, eq_list}
use yank.Files.Uri.{is_absolute}
use yank.Files.Manifest.{FileRef, split, onto_first, is_plain, is_safe}

-- The parts with the separator between them.
unfoldable pub join_parts : ℕ → List Str → Str
join_parts sep [] = []
join_parts sep (part ∷ []) = part
join_parts sep (part ∷ next ∷ parts) = part ++ sep ∷ join_parts sep (next ∷ parts)

-- How an operating system resolves a relative path under a directory: the names that lead to the
-- file, the innermost first. A path that climbs above the directory leads nowhere under it.
unfoldable pub resolve : List Str → List Str → Option (List Str)
resolve names [] = some names
resolve names (part ∷ parts) =
    if eq_list part [] || eq_list part (codes ".")
    then resolve names parts
    else if eq_list part (codes "..")
    then (elim names [ [] ↦ none | name ∷ outer ↦ resolve outer parts ])
    else resolve (part ∷ names) parts

abbrev pub reverse_onto : List Str → List Str → List Str
reverse_onto names [] = names
reverse_onto names (part ∷ parts) = reverse_onto (part ∷ names) parts

join_parts-onto_first :
    (sep c : ℕ) (parts : List Str) → join_parts sep (onto_first c parts) ≡ c ∷ join_parts sep parts
unfolding join_parts
join_parts-onto_first sep c [] = refl
join_parts-onto_first sep c (part ∷ []) = refl
join_parts-onto_first sep c (part ∷ next ∷ parts) = refl

-- `split` never gives no part.
split-cons : (sep : ℕ) (s : Str) → (part : Str) × (parts : List Str) × (split sep s ≡ part ∷ parts)
unfolding split
split-cons sep [] = ([], [], refl)
split-cons sep (c ∷ s) =
    if-elim (λ all_parts. (part : Str) × (parts : List Str) × (all_parts ≡ part ∷ parts)) (c == sep)
      (λ same. ([], split sep s, refl))
      (λ other. let (part, parts, e) = split-cons sep s in (c ∷ part, parts, rw e refl))

pub join_parts-split : (sep : ℕ) (s : Str) → join_parts sep (split sep s) ≡ s
unfolding split join_parts
join_parts-split sep [] = refl
join_parts-split sep (c ∷ s) =
    let (part, parts, e) = split-cons sep s in
    let rest : join_parts sep (part ∷ parts) ≡ s = rw (sym e) (join_parts-split sep s) in
    if-elim (λ all_parts. join_parts sep all_parts ≡ c ∷ s) (c == sep)
      (λ same. rw e (rw rest (ap (λ x. x ∷ s) (sym ((==_iff c sep).0 same)))))
      (λ other.
        join_parts-onto_first sep c (split sep s) ∙ ap (λ rest. c ∷ rest) (join_parts-split sep s))

resolve_plain :
    (names parts : List Str)
    → all is_plain parts ≡ true
    → resolve names parts ≡ some (reverse_onto names parts)
unfolding resolve is_plain
resolve_plain names [] h = refl
resolve_plain names (part ∷ parts) h = ground (arith, h, resolve_plain (part ∷ names) parts)

reverse_onto-reverse_onto :
    (names parts : List Str) → reverse_onto [] (reverse_onto names parts) ≡ reverse_onto parts names
reverse_onto-reverse_onto names [] = refl
reverse_onto-reverse_onto names (part ∷ parts) = reverse_onto-reverse_onto (part ∷ names) parts

relative : (path : Str) → all is_plain (split b'/' path) ≡ true → is_absolute path ≡ false
unfolding split is_plain eq_list
relative [] h = refl
relative (c ∷ path) h = elim (Bool-cases (c == b'/')) [
  | inl slash ↦ ground (arith, h, slash)
  | inr other ↦ other
]

some-inj : {xs ys : List Str} → some xs ≡ some ys → xs ≡ ys
some-inj h = cc

-- A safe path leads to a file under the directory that it is taken from: it is not absolute, no part of
-- it climbs, and the names on the way are its parts.
pub is_safe-resolve :
    (file : FileRef)
    → is_safe file ≡ true
    → (is_absolute file.path ≡ false)
      × (resolve [] (split b'/' file.path) ≡ some (reverse_onto [] (split b'/' file.path)))
unfolding is_safe
is_safe-resolve file h = (relative file.path h, resolve_plain [] (split b'/' file.path) h)

-- Two safe paths that lead to one file are one text.
pub resolve-eq-path :
    (a b : FileRef)
    → is_safe a ≡ true
    → is_safe b ≡ true
    → resolve [] (split b'/' a.path) ≡ resolve [] (split b'/' b.path)
    → a.path ≡ b.path
resolve-eq-path a b safe_a safe_b same =
    let names : some (reverse_onto [] (split b'/' a.path))
        ≡ some (reverse_onto [] (split b'/' b.path)) =
      sym (is_safe-resolve a safe_a).1 ∙ same ∙ (is_safe-resolve b safe_b).1 in
    let parts : split b'/' a.path ≡ split b'/' b.path =
      sym (reverse_onto-reverse_onto [] (split b'/' a.path))
      ∙ ap (reverse_onto []) (some-inj names)
      ∙ reverse_onto-reverse_onto [] (split b'/' b.path) in
    sym (join_parts-split b'/' a.path) ∙ ap (join_parts b'/') parts ∙ join_parts-split b'/' b.path
