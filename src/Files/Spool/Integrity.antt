-- ===== src/Files/Spool/Integrity.antt =====
-- src/files/store.rs: what stands under the name of a hash has that hash, and how a transfer ends.
use yank.Files.Spool.Transfer.{
  Going, Ended, append_all, transfer, joined, receive-Going, append_all-Going, transfer-Ended,
}
use yank.Files.Spool.Taking.{take-Taken}
use yank.Prelude.{
  All, ℕ, ◌≡◌, sym, ap, ◌∙◌, true, false, Option, some, none, List, [], ◌∷◌, arith, Bool-cases, inl,
  inr, ◌⊎◌, Result, Option-cases,
}
use yank.Prelude.Bytes.{Bytes, Str, eq_list, eq_list→eq}
use yank.Prelude.Dir.{read, read-delete, read-retain}
use yank.Files.Crates.{Crates, Hash, Hex, IsHex}
use yank.Clip.Stamp.{Stamp}
use yank.Files.Manifest.{FileRef}
use yank.Files.Spool.{
  Store, Incoming, file_name, partial_name, unwrap_or, eq_hash, partial, receive, take, lay_out,
  sweep, is_named,
}
use yank.Files.Spool.Names.{IsHash, IsDigest, file_name-inj, partial_name-ne-file_name, hash-eq}

-- The content under the name of a hash has that hash.
abbrev pub IsTrue : Crates → Hex → Store → Type 0
IsTrue crates hex store =
    (h : Hash)
    → IsHash h
    → (content : Bytes) → read (file_name hex h) store.blobs ≡ some content
    → crates.blake3 content ≡ h

module _ (crates : Crates) (hex : Hex) (lawful : IsHex hex) where
  eq_hash→eq : (a b : Hash) → eq_hash a b ≡ true → a ≡ b
  eq_hash→eq a b e = hash-eq a b (eq_list→eq a.bytes b.bytes e)

  -- A change at the name of one hash, of content that has it.
  at_name :
      (old new : Store) (g : Hash)
      → IsHash g
      → IsTrue crates hex old
      → ((c : Bytes)
          → read (file_name hex g) new.blobs ≡ some c
          → (crates.blake3 c ≡ g) ⊎ (read (file_name hex g) old.blobs ≡ some c))
      → ((h : Hash)
          → eq_list (file_name hex g) (file_name hex h) ≡ false
          → read (file_name hex h) new.blobs ≡ read (file_name hex h) old.blobs)
      → IsTrue crates hex new
  at_name old new g good held fine others h is_hash c e =
      elim (Bool-cases (eq_list (file_name hex g) (file_name hex h))) [
        | inr other ↦ held h is_hash c (sym (others h other) ∙ e)
        | inl same ↦
            let names = eq_list→eq (file_name hex g) (file_name hex h) same in
            let is_g : g ≡ h = file_name-inj hex lawful g h good is_hash names in
            let digest : crates.blake3 c ≡ g =
              elim (fine c (ap (λ n. read n new.blobs) names ∙ e)) [
                | inl d ↦ d
                | inr o ↦ held g good c o
              ] in
            digest ∙ is_g
      ]

  -- A change that no name of a hash shows.
  unseen :
      (old new : Store)
      → IsTrue crates hex old
      → ((h : Hash) → read (file_name hex h) new.blobs ≡ read (file_name hex h) old.blobs)
      → IsTrue crates hex new
  unseen old new held same h good c e = held h good c (sym (same h) ∙ e)

  pub Ended-IsTrue :
      (g : Hash) (content : Bytes) (old : Store) (outcome : Store × Result (Unit {0}))
      → IsHash g
      → IsTrue crates hex old
      → Ended crates hex g content old outcome
      → IsTrue crates hex outcome.0
  Ended-IsTrue g content old outcome good held ended =
      at_name old outcome.0 g good held
        (λ c e. elim (Bool-cases (eq_hash (crates.blake3 content) g)) [
          | inl right ↦
              let same : content ≡ c = ground (arith, e, right, ended.blob) in
              inl (ap crates.blake3 (sym same) ∙ eq_hash→eq (crates.blake3 content) g right)
          | inr wrong ↦ inr (ground (arith, e, wrong, ended.blob))
        ])
        (λ h ne. ended.others (file_name hex h) ne (partial_name-ne-file_name hex lawful g h))

  pub Going-IsTrue :
      (g : Hash) (done : Bytes) (old : Store) (t : Store × Incoming)
      → IsTrue crates hex old
      → Going hex g done old t
      → IsTrue crates hex t.0
  Going-IsTrue g done old t held going =
      unseen old t.0 held
        (λ h. going.others (file_name hex h) (partial_name-ne-file_name hex lawful g h))

  pub partial-IsTrue :
      (g : Hash) (size : ℕ) (store : Store)
      → IsTrue crates hex store
      → IsTrue crates hex (partial hex g size store).0
  unfolding partial
  partial-IsTrue g size store held = unseen store (partial hex g size store).0 held (λ h. ground (
    arith,
    partial_name-ne-file_name hex lawful g h,
    read-delete (partial_name hex g) (file_name hex h) store.blobs,
  ))

  take-IsTrue :
      (tmp : Str) (source : Option Bytes) (store : Store)
      → IsDigest crates
      → ((h : Hash) → eq_list tmp (file_name hex h) ≡ false)
      → IsTrue crates hex store
      → IsTrue crates hex (take hex crates tmp source store).0
  unfolding take
  take-IsTrue tmp none store digest apart held =
      unseen store (take hex crates tmp none store).0 held
        (λ h. ground (arith, apart h, read-delete tmp (file_name hex h) store.blobs))
  take-IsTrue tmp (some content) store digest apart held =
      let hash = crates.blake3 content in
      let taken = take-Taken crates hex tmp content store (apart hash) in
      at_name store (take hex crates tmp (some content) store).0 hash (digest content) held
        (λ c e. elim (Option-cases (read (file_name hex hash) store.blobs)) [
          | inl new ↦
              let same : content ≡ c = ground (arith, e, taken.blob, new) in
              inl (ap crates.blake3 (sym same))
          | inr (old, was) ↦ inr (ground (arith, e, taken.blob, was))
        ])
        (λ h ne. taken.others (file_name hex h) ne (apart h))

-- What the file service does with the spool: `stops` is a transfer that breaks off, `tmp` the name that
-- a file is taken under.
pub data Op : Type 0 where
  takes : (tmp : Str) → Option Bytes → Op
  asks : Hash → ℕ → Op
  stops : Hash → List Bytes → Op
  ends : Hash → List Bytes → Op
  lays : Stamp → List FileRef → Op
  sweeps : Option Stamp → List Hash → Op

unfoldable pub act : Crates → Hex → (Stamp → Str) → Op → Store → Store
act crates hex show (takes tmp source) store = (take hex crates tmp source store).0
act crates hex show (asks h size) store = (partial hex h size store).0
act crates hex show (stops h chunks) store = (append_all hex chunks (receive hex h store)).0
act crates hex show (ends h chunks) store = (transfer crates hex h chunks store).0
act crates hex show (lays stamp files) store = (lay_out hex show stamp files store).0
act crates hex show (sweeps live content) store = sweep hex show live content store

unfoldable pub act_all : Crates → Hex → (Stamp → Str) → List Op → Store → Store
act_all crates hex show [] store = store
act_all crates hex show (op ∷ ops) store =
    act_all crates hex show ops (act crates hex show op store)

-- A name drawn for a file that is taken is no hash, and a hash is one.
abbrev pub IsProper : Hex → Op → Type 0
IsProper hex (takes tmp source) = (h : Hash) → eq_list tmp (file_name hex h) ≡ false
IsProper hex (asks h size) = Unit
IsProper hex (stops h chunks) = Unit
IsProper hex (ends h chunks) = IsHash h
IsProper hex (lays stamp files) = Unit
IsProper hex (sweeps live content) = Unit

module _ (crates : Crates) (hex : Hex) (show : Stamp → Str) (lawful : IsHex hex)
    (digest : IsDigest crates) where
  pub act-IsTrue :
      (op : Op) (store : Store)
      → IsProper hex op
      → IsTrue crates hex store
      → IsTrue crates hex (act crates hex show op store)
  unfolding act lay_out sweep
  act-IsTrue (takes tmp source) store proper held =
      take-IsTrue crates hex lawful tmp source store digest proper held
  act-IsTrue (asks h size) store proper held = partial-IsTrue crates hex lawful h size store held
  act-IsTrue (stops h chunks) store proper held =
      let done = unwrap_or (read (partial_name hex h) store.blobs) [] in
      Going-IsTrue crates hex lawful h (joined done chunks) store
        (append_all hex chunks (receive hex h store)) held
        (append_all-Going hex h chunks done store (receive hex h store) (receive-Going hex h store))
  act-IsTrue (ends h chunks) store proper held =
      Ended-IsTrue crates hex lawful h _ store _ proper held
        (transfer-Ended crates hex lawful h chunks store)
  act-IsTrue (lays stamp files) store proper held = held
  act-IsTrue (sweeps live content) store proper held = λ h good c e.
      held h good c
        (ground (arith, e, read-retain (is_named hex content) (file_name hex h) store.blobs))

  -- Whatever the file service does with the spool, in whatever order, what stands under the name of a hash
  -- keeps having that hash, where hashes are of blake3's form.
  pub act_all-IsTrue :
      (ops : List Op) (store : Store)
      → All (IsProper hex) ops
      → IsTrue crates hex store
      → IsTrue crates hex (act_all crates hex show ops store)
  unfolding act_all
  act_all-IsTrue [] store proper held = held
  act_all-IsTrue (op ∷ ops) store proper held =
      act_all-IsTrue ops (act crates hex show op store) proper.1 (act-IsTrue op store proper.0 held)
