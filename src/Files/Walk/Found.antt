-- ===== src/Files/Walk/Found.antt =====
-- src/files/store.rs: what `walk` finds, or why it refuses.
use yank.Prelude.{
  ℕ, ◌+◌, ◌≤◌, ◌≡◌, refl, sym, ap, subst, ◌∙◌, true, Option, none, some, List, [], ◌∷◌, ◌++◌,
  length, arith, length-append, if◌then◌else◌, ok, ensure, >>=-eq-ok, >>-eq-ok, ensure-eq-ok,
  same_name, Bool-cases, inl, inr,
}
use yank.Prelude.Bytes.{Str}
use yank.Files.Uri.{FilePath}
use yank.Files.Manifest.{sort, insert_sorted}
use yank.Files.Manifest.Sorted.{Distinct, Chain, Chain-Distinct, sort-Chain, no_equal_neighbours}
use yank.Files.Walk.{
  Source, DirEntry, is_file, add_file, visit, visit_all, visit_roots, insert_source, sort_sources,
  names_of, walk,
}

-- The plain files of a listing, under their names, and what they weigh.
abbrev pub name_or_empty : Option Str → Str
name_or_empty none = []
name_or_empty (some name) = name

abbrev pub size_or_zero : Option ℕ → ℕ
size_or_zero none = 0
size_or_zero (some size) = size

abbrev pub sources_of : List (Option DirEntry) → List Source
sources_of [] = []
sources_of (none ∷ entries) = sources_of entries
sources_of (some entry ∷ entries) =
    let rest = sources_of entries in
    if is_file entry.file_type
    then record { from = entry.path; path = name_or_empty entry.name } ∷ rest
    else rest

abbrev pub bytes_of : List (Option DirEntry) → ℕ
bytes_of [] = 0
bytes_of (none ∷ entries) = bytes_of entries
bytes_of (some entry ∷ entries) =
    let rest = bytes_of entries in
    if is_file entry.file_type then size_or_zero entry.size + rest else rest

abbrev pub listed : (FilePath → List (Option DirEntry)) → List FilePath → List (Option DirEntry)
listed listing [] = []
listed listing (root ∷ roots) = listing root ++ listed listing roots

ok-inj {ℓ} : {A : Type ℓ} {a b : A} → ok a ≡ ok b → a ≡ b
ok-inj e = cc

append_assoc : (a b c : List Source) → (a ++ b) ++ c ≡ a ++ (b ++ c)
append_assoc [] b c = refl
append_assoc (x ∷ a) b c = ap (λ t. x ∷ t) (append_assoc a b c)

append_nil : (a : List Source) → a ++ [] ≡ a
append_nil [] = refl
append_nil (x ∷ a) = ap (λ t. x ∷ t) (append_nil a)

sources_of-append :
    (a b : List (Option DirEntry)) → sources_of (a ++ b) ≡ sources_of a ++ sources_of b
sources_of-append [] b = refl
sources_of-append (none ∷ a) b = sources_of-append a b
sources_of-append (some e ∷ a) b = ground (arith, sources_of-append a b)

bytes_of-append : (a b : List (Option DirEntry)) → bytes_of (a ++ b) ≡ bytes_of a + bytes_of b
bytes_of-append [] b = omega arith
bytes_of-append (none ∷ a) b = bytes_of-append a b
bytes_of-append (some e ∷ a) b = ground (arith, bytes_of-append a b)

module _ (max_files max_bytes : ℕ) where
  -- What a part of the walk adds to what was found before.
  record Adds (entries : List (Option DirEntry)) (old new : List Source × ℕ) : Type 0 where
    found : new.0 ≡ old.0 ++ sources_of entries
    total : new.1 ≡ old.1 + bytes_of entries
    few : length old.0 ≤ max_files → length new.0 ≤ max_files
    small : old.1 ≤ max_bytes → new.1 ≤ max_bytes

  Adds-trans :
      (a b : List (Option DirEntry)) (old mid new : List Source × ℕ)
      → Adds a old mid
      → Adds b mid new
      → Adds (a ++ b) old new
  Adds-trans a b old mid new h k = record {
    found =
        k.found
        ∙ ap (λ (f : List Source). f ++ sources_of b) h.found
        ∙ append_assoc old.0 (sources_of a) (sources_of b)
        ∙ ap (λ (f : List Source). old.0 ++ f) (sym (sources_of-append a b));
    total = omega (arith, h.total, k.total, bytes_of-append a b);
    few = λ m. k.few (h.few m);
    small = λ m. k.small (h.small m);
  }

  Adds-nothing : (old : List Source × ℕ) → Adds [] old old
  Adds-nothing old = record {
    found = sym (append_nil old.0);
    total = omega arith;
    few = λ m. m;
    small = λ m. m;
  }

  add_file-Adds :
      (entry : DirEntry) (old new : List Source × ℕ)
      → is_file entry.file_type ≡ true
      → add_file max_files max_bytes entry old ≡ ok new
      → Adds (some entry ∷ []) old new
  unfolding add_file
  add_file-Adds entry (found, total) new plain e =
      let source : Source = record { from = entry.path; path = name_or_empty entry.name } in
      record {
        found = ground (arith, e, plain);
        total = ground (arith, e, plain);
        few = λ m. ground (arith, e, plain, m, length-append found (source ∷ []));
        small = λ m. ground (arith, e, plain, m);
      }

  visit-Adds :
      (entry : Option DirEntry) (old new : List Source × ℕ)
      → visit max_files max_bytes entry old ≡ ok new
      → Adds (entry ∷ []) old new
  unfolding visit
  visit-Adds none old new e = cc
  visit-Adds (some entry) old new e = elim (Bool-cases (is_file entry.file_type)) [
    | inl plain ↦ add_file-Adds entry old new plain (ground (arith, e, plain))
    | inr other ↦
        let same : old ≡ new = ground (arith, e, other) in
        subst (λ n. Adds (some entry ∷ []) old n) same
          (record {
            found = ground (arith, other, append_nil old.0);
            total = ground (arith, other);
            few = λ m. m;
            small = λ m. m;
          })
  ]

  visit_all-Adds :
      (entries : List (Option DirEntry)) (old new : List Source × ℕ)
      → visit_all max_files max_bytes entries old ≡ ok new
      → Adds entries old new
  unfolding visit_all
  visit_all-Adds [] old new e = subst (λ n. Adds [] old n) (ok-inj e) (Adds-nothing old)
  visit_all-Adds (entry ∷ entries) old new e =
      let (mid, first, rest) = >>=-eq-ok (visit max_files max_bytes entry old) _ e in
      Adds-trans (entry ∷ []) entries old mid new (visit-Adds entry old mid first)
        (visit_all-Adds entries mid new rest)

  visit_roots-Adds :
      (listing : FilePath → List (Option DirEntry)) (roots : List FilePath)
      (old new : List Source × ℕ)
      → visit_roots max_files max_bytes listing roots old ≡ ok new
      → Adds (listed listing roots) old new
  unfolding visit_roots
  visit_roots-Adds listing [] old new e = subst (λ n. Adds [] old n) (ok-inj e) (Adds-nothing old)
  visit_roots-Adds listing (root ∷ roots) old new e =
      let (mid, first, rest) = >>=-eq-ok (visit_all max_files max_bytes (listing root) old) _ e in
      Adds-trans (listing root) (listed listing roots) old mid new
        (visit_all-Adds (listing root) old mid first) (visit_roots-Adds listing roots mid new rest)

-- What `walk` returns: the plain files that are listed, sorted by their names, which are distinct, and
-- neither too many nor too large.
pub record Walked (listing : FilePath → List (Option DirEntry)) (roots : List FilePath)
    (max_files max_bytes : ℕ) (result : List Source) : Type 0 where
  pub complete : result ≡ sort_sources (sources_of (listed listing roots))
  pub sorted : Chain (names_of result)
  pub distinct : Distinct (names_of result)
  pub few : length (sources_of (listed listing roots)) ≤ max_files
  pub small : bytes_of (listed listing roots) ≤ max_bytes

names_of-insert_source :
    (s : Source) (ss : List Source)
    → names_of (insert_source s ss) ≡ insert_sorted s.path (names_of ss)
unfolding insert_source insert_sorted
names_of-insert_source s [] = refl
names_of-insert_source s (t ∷ ts) = ground (arith, names_of-insert_source s ts)

names_of-sort_sources : (ss : List Source) → names_of (sort_sources ss) ≡ sort (names_of ss)
unfolding sort_sources sort
names_of-sort_sources [] = refl
names_of-sort_sources (s ∷ ss) =
    names_of-insert_source s (sort_sources ss)
    ∙ ap (insert_sorted s.path) (names_of-sort_sources ss)

-- A walk that is not refused has found every plain file, and no other.
pub walk-Walked :
    (listing : FilePath → List (Option DirEntry)) (roots : List FilePath) (max_files max_bytes : ℕ)
    (result : List Source)
    → walk listing roots max_files max_bytes ≡ ok result
    → Walked listing roots max_files max_bytes result
unfolding walk
walk-Walked listing roots max_files max_bytes result e =
    let (found, visited, rest) =
      >>=-eq-ok (visit_roots max_files max_bytes listing roots ([], 0)) _ e in
    let adds = visit_roots-Adds max_files max_bytes listing roots ([], 0) found visited in
    let sources = sort_sources found.0 in
    let (apart, is_result) =
      >>-eq-ok (ensure (no_equal_neighbours (names_of sources)) same_name) (ok sources) rest in
    let chain : Chain (names_of sources) =
      subst Chain (sym (names_of-sort_sources found.0)) (sort-Chain (names_of found.0)) in
    subst (Walked listing roots max_files max_bytes) (ok-inj is_result) (record {
      complete = ap sort_sources adds.found;
      sorted = chain;
      distinct = Chain-Distinct (names_of sources) chain (ensure-eq-ok _ _ apart);
      few = subst (λ (f : List Source). length f ≤ max_files) adds.found (adds.few (omega arith));
      small = omega (arith, adds.total, adds.small (omega arith));
    })
