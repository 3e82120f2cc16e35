-- ===== src/Files/Spool/Beside.antt =====
-- src/files/store.rs: what sweeps, and files that are taken in, do to a transfer that is under way.
use yank.Prelude.{
  ◌≡◌, refl, sym, ap, ◌∙◌, ◌⊎◌, inl, inr, false, some, none, List, [], ◌∷◌, ◌++◌, All, arith,
  Bool-cases,
}
use yank.Prelude.Bytes.{Bytes, Str, eq_list, eq_list_refl}
use yank.Prelude.Dir.{read, read-delete, read-retain}
use yank.Files.Crates.{Crates, Hash, Hex, IsHex}
use yank.Clip.Stamp.{Stamp}
use yank.Files.Spool.{
  Store, Incoming, file_name, partial_name, append, finish, sweep, take, is_named, rename,
}
use yank.Files.Spool.Names.{IsHash, IsDigest, file_name-ne-partial_name, partial_name-ne-file_name}
use yank.Files.Spool.Taking.{take-Taken}
use yank.Files.Spool.Transfer.{Going, append-Going, finish-Ended}
use yank.Files.Spool.Sweep.{sweep-Swept}
use yank.Files.Spool.Integrity.{
  IsTrue, Going-IsTrue, Ended-IsTrue, Op, takes, asks, stops, ends, lays, sweeps, act, act_all,
  IsProper, act-IsTrue,
}

-- What the file service does beside a transfer: it sweeps, and it takes files in under names that are drawn
-- for them, which are no others in the spool.
abbrev pub IsBeside : Hex → Op → Type 0
IsBeside hex (takes tmp source) =
    (h : Hash)
    → (eq_list tmp (file_name hex h) ≡ false) × (eq_list tmp (partial_name hex h) ≡ false)
IsBeside hex (asks h size) = ⊥
IsBeside hex (stops h chunks) = ⊥
IsBeside hex (ends h chunks) = ⊥
IsBeside hex (lays stamp files) = ⊥
IsBeside hex (sweeps live content) = Unit

-- A sweep for the clip of a stamp, whatever contents it names.
abbrev pub IsFor : Stamp → Op → Type 0
IsFor stamp (takes tmp source) = Unit
IsFor stamp (asks h size) = ⊥
IsFor stamp (stops h chunks) = ⊥
IsFor stamp (ends h chunks) = ⊥
IsFor stamp (lays other files) = ⊥
IsFor stamp (sweeps live content) = live ≡ some stamp

-- A transfer of `h` under way: its file holds what has been fed, or has been swept away.
pub record Fed (hex : Hex) (h : Hash) (t : Store × Incoming) : Type 0 where
  pub hash : t.1.hash ≡ h
  pub path : t.1.path ≡ partial_name hex h
  pub file :
      (read (partial_name hex h) t.0.blobs ≡ none)
      ⊎ (read (partial_name hex h) t.0.blobs ≡ some t.1.hasher)

pub Going-Fed :
    (hex : Hex) (h : Hash) (done : Bytes) (old : Store) (t : Store × Incoming)
    → Going hex h done old t
    → Fed hex h t
Going-Fed hex h done old t g = record {
  hash = g.hash;
  path = g.path;
  file = inr (g.fed ∙ ap some (sym g.hasher));
}

-- Where the file is still there, the transfer is one that nothing came between.
Fed-Going :
    (hex : Hex) (h : Hash) (t : Store × Incoming)
    → Fed hex h t
    → read (partial_name hex h) t.0.blobs ≡ some t.1.hasher
    → Going hex h t.1.hasher t.0 t
Fed-Going hex h t fed there = record {
  hash = fed.hash;
  path = fed.path;
  hasher = refl;
  fed = there;
  others = λ other ne. refl;
  trees = refl;
}

module _ (crates : Crates) (hex : Hex) (show : Stamp → Str) (lawful : IsHex hex)
    (digest : IsDigest crates) where
  -- The file of a transfer is left as it is, or is taken away.
  act-partial :
      (op : Op) (h : Hash) (store : Store)
      → IsBeside hex op
      → let after = read (partial_name hex h) (act crates hex show op store).blobs in
        (after ≡ none) ⊎ (after ≡ read (partial_name hex h) store.blobs)
  unfolding act sweep take
  act-partial (takes tmp none) h store beside =
      inr (ground (arith, (beside h).1, read-delete tmp (partial_name hex h) store.blobs))
  act-partial (takes tmp (some content)) h store beside =
      let hash = crates.blake3 content in
      inr (
        (take-Taken crates hex tmp content store (beside hash).0).others (partial_name hex h)
          (file_name-ne-partial_name hex lawful hash h) (beside h).1)
  act-partial (asks g size) h store beside = absurd beside
  act-partial (stops g chunks) h store beside = absurd beside
  act-partial (ends g chunks) h store beside = absurd beside
  act-partial (lays stamp files) h store beside = absurd beside
  act-partial (sweeps live content) h store beside =
      elim (Bool-cases (is_named hex content (partial_name hex h))) [
        | inl kept ↦ inr (
            ground
              (arith, kept, read-retain (is_named hex content) (partial_name hex h) store.blobs))
        | inr swept ↦ inl (
            ground
              (arith, swept, read-retain (is_named hex content) (partial_name hex h) store.blobs))
      ]

  act-IsProper : (op : Op) → IsBeside hex op → IsProper hex op
  act-IsProper (takes tmp source) beside = λ h. (beside h).0
  act-IsProper (asks g size) beside = absurd beside
  act-IsProper (stops g chunks) beside = absurd beside
  act-IsProper (ends g chunks) beside = absurd beside
  act-IsProper (lays stamp files) beside = absurd beside
  act-IsProper (sweeps live content) beside = tt

  pub act_all-Beside :
      (ops : List Op) (store : Store)
      → All (IsBeside hex) ops
      → IsTrue crates hex store
      → IsTrue crates hex (act_all crates hex show ops store)
  unfolding act_all
  act_all-Beside [] store beside held = held
  act_all-Beside (op ∷ ops) store beside held =
      act_all-Beside ops (act crates hex show op store) beside.1
        (act-IsTrue crates hex show lawful digest op store (act-IsProper op beside.0) held)

  pub act_all-Fed :
      (ops : List Op) (h : Hash) (t : Store × Incoming)
      → All (IsBeside hex) ops
      → Fed hex h t
      → Fed hex h (act_all crates hex show ops t.0, t.1)
  unfolding act_all
  act_all-Fed [] h t beside fed = fed
  act_all-Fed (op ∷ ops) h t beside fed =
      act_all-Fed ops h (act crates hex show op t.0, t.1) beside.1
        (record {
          hash = fed.hash;
          path = fed.path;
          file = elim (act-partial op h t.0 beside.0) [
            | inl gone ↦ inl gone
            | inr same ↦ elim fed.file [
              | inl gone ↦ inl (same ∙ gone)
              | inr there ↦ inr (same ∙ there)
            ]
          ];
        })

  pub append-Fed :
      (h : Hash) (chunk : Bytes) (t : Store × Incoming)
      → Fed hex h t
      → IsTrue crates hex t.0
      → Fed hex h (append hex chunk t) × IsTrue crates hex (append hex chunk t).0
  unfolding append
  append-Fed h chunk t fed held = elim fed.file [
    | inr there ↦
        let going = append-Going hex h t.1.hasher chunk t.0 t (Fed-Going hex h t fed there) in
        (
          Going-Fed hex h (t.1.hasher ++ chunk) t.0 (append hex chunk t) going,
          Going-IsTrue crates hex lawful h (t.1.hasher ++ chunk) t.0 (append hex chunk t) held
              going,
        )
    | inl gone ↦
        let lost : (append hex chunk t).0 ≡ t.0 = rw (fed.path, gone) refl in
        (
          record {
            hash = fed.hash;
            path = fed.path;
            file = inl (ap (λ s. read (partial_name hex h) s.blobs) lost ∙ gone);
          },
          rw lost held,
        )
  ]

  finish_lost :
      (h : Hash) (t : Store × Incoming)
      → Fed hex h t
      → read (partial_name hex h) t.0.blobs ≡ none
      → (g : Hash)
      → read (file_name hex g) (finish hex crates t).0.blobs ≡ read (file_name hex g) t.0.blobs
  unfolding finish rename
  finish_lost h t fed gone g = ground (
    arith,
    fed.path,
    gone,
    partial_name-ne-file_name hex lawful h g,
    read-delete (partial_name hex h) (file_name hex g) t.0.blobs,
  )

  -- Whatever was done beside it, the end of a transfer leaves the spool true.
  pub finish-Fed :
      (h : Hash) (t : Store × Incoming)
      → IsHash h
      → Fed hex h t
      → IsTrue crates hex t.0
      → IsTrue crates hex (finish hex crates t).0
  finish-Fed h t good fed held = elim fed.file [
    | inr there ↦
        Ended-IsTrue crates hex lawful h t.1.hasher t.0 (finish hex crates t) good held
          (finish-Ended crates hex lawful h t.1.hasher t.0 t (Fed-Going hex h t fed there))
    | inl gone ↦ λ g is_hash c e. held g is_hash c (sym (finish_lost h t fed gone g) ∙ e)
  ]

  act-tree :
      (op : Op) (stamp : Stamp) (store : Store)
      → IsFor stamp op
      → read (show stamp) (act crates hex show op store).trees ≡ read (show stamp) store.trees
  unfolding act take
  act-tree (takes tmp none) stamp store for = refl
  act-tree (takes tmp (some content)) stamp store for = ground arith
  act-tree (asks g size) stamp store for = absurd for
  act-tree (stops g chunks) stamp store for = absurd for
  act-tree (ends g chunks) stamp store for = absurd for
  act-tree (lays other files) stamp store for = absurd for
  act-tree (sweeps live content) stamp store for =
      (sweep-Swept hex lawful show live content store).trees (show stamp)
      ∙ rw (for, eq_list_refl (show stamp)) refl

  -- What is done for a clip leaves its tree.
  pub act_all-tree :
      (ops : List Op) (stamp : Stamp) (store : Store)
      → All (IsFor stamp) ops
      → read (show stamp) (act_all crates hex show ops store).trees ≡ read (show stamp) store.trees
  unfolding act_all
  act_all-tree [] stamp store for = refl
  act_all-tree (op ∷ ops) stamp store for =
      act_all-tree ops stamp (act crates hex show op store) for.1 ∙ act-tree op stamp store for.0
