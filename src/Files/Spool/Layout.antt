-- ===== src/Files/Spool/Layout.antt =====
-- src/files/store.rs: which manifests `lay_out` can lay out, and what the tree holds then.
use yank.Prelude.{
  ◌≡◌, ◌↔◌, refl, sym, ap, subst, ◌∙◌, Bool, true, false, ◌||◌, some, is_some, List, [], ◌∷◌, All,
  all, arith, Option-cases, inl, inr, Result, ok,
}
use yank.Prelude.Bytes.{Bytes, Str, eq_list, eq_list_refl, eq_list_sym}
use yank.Prelude.Dir.{Dir, read, write, delete, read-write}
use yank.Files.Crates.{Hex}
use yank.Clip.Stamp.{Stamp}
use yank.Files.Manifest.{FileRef, is_safe, is_under, paths_of}
use yank.Files.Spool.{Store, file_name, occupied, link_all, lay_out}

-- Two files cannot both be laid out: one path, or one is a directory on the way to the other.
abbrev pub clash : Str → Str → Bool
clash p q = eq_list p q || is_under p q || is_under q p

abbrev pub Clear : List Str → Type 0
Clear [] = Unit {0}
Clear (p ∷ ps) = All (λ q. clash p q ≡ false) ps × Clear ps

-- The content is in the spool.
abbrev pub is_here : Hex → Dir Bytes → FileRef → Bool
is_here hex blobs file = is_some (read (file_name hex file.hash) blobs)

delete_absent :
    (path : Str) (tree : Dir Bytes) → occupied path tree ≡ false → delete path tree ≡ tree
unfolding delete occupied
delete_absent path [] h = refl
delete_absent path ((name, content) ∷ tree) h = ground (arith, h, delete_absent path tree)

occupied-write :
    (path other : Str) (content : Bytes) (tree : Dir Bytes)
    → occupied path tree ≡ false
    → occupied other (write path content tree) ≡ (clash path other || occupied other tree)
unfolding write occupied
occupied-write path other content tree h = ground (arith, delete_absent path tree h)

-- What `link_all` needs to go through, from a tree that has been begun.
abbrev Ready : Hex → Dir Bytes → List FileRef → Dir Bytes → Type 0
Ready hex blobs files tree =
    (all is_safe files ≡ true)
    × (all (is_here hex blobs) files ≡ true)
    × Clear (paths_of files)
    × All (λ q. occupied q tree ≡ false) (paths_of files)

All_occupied-write :
    (path : Str) (content : Bytes) (tree : Dir Bytes) (others : List Str)
    → occupied path tree ≡ false
    → All (λ q. clash path q ≡ false) others
    → All (λ q. occupied q tree ≡ false) others
    → All (λ q. occupied q (write path content tree) ≡ false) others
All_occupied-write path content tree [] free clear h = tt
All_occupied-write path content tree (q ∷ others) free clear h = (
  ground (arith, occupied-write path q content tree free, clear.0, h.0),
  All_occupied-write path content tree others free clear.1 h.1,
)

All_occupied-eq_write :
    (path : Str) (content : Bytes) (tree : Dir Bytes) (others : List Str)
    → occupied path tree ≡ false
    → All (λ q. occupied q (write path content tree) ≡ false) others
    → All (λ q. clash path q ≡ false) others × All (λ q. occupied q tree ≡ false) others
All_occupied-eq_write path content tree [] free h = (tt, tt)
All_occupied-eq_write path content tree (q ∷ others) free h =
    let (clear, unoccupied) = All_occupied-eq_write path content tree others free h.1 in
    (
      (ground (arith, occupied-write path q content tree free, h.0), clear),
      (ground (arith, occupied-write path q content tree free, h.0), unoccupied),
    )

module _ (hex : Hex) (blobs : Dir Bytes) where
  -- The outcome of one file, by the content that is found.
  link_some :
      (file : FileRef) (files : List FileRef) (tree : Dir Bytes) (content : Bytes)
      → is_safe file ≡ true
      → occupied file.path tree ≡ false
      → read (file_name hex file.hash) blobs ≡ some content
      → link_all hex blobs (file ∷ files) tree
        ≡ link_all hex blobs files (write file.path content tree)
  unfolding link_all
  link_some file files tree content safe free here = ground (arith, safe, free, here)

  -- A file that goes through is safe, unobstructed and here.
  link_ok :
      (file : FileRef) (files : List FileRef) (tree : Dir Bytes)
      → (link_all hex blobs (file ∷ files) tree).1 ≡ ok tt
      → (is_safe file ≡ true)
        × (occupied file.path tree ≡ false)
        × ((content : Bytes) × (read (file_name hex file.hash) blobs ≡ some content))
  unfolding link_all
  link_ok file files tree e = elim (Option-cases (read (file_name hex file.hash) blobs)) [
    | inl gone ↦ ground (arith, e, gone)
    | inr (content, here) ↦ (ground (arith, e, here), ground (arith, e, here), (content, here))
  ]

  link_all_ok :
      (files : List FileRef) (tree : Dir Bytes)
      → Ready hex blobs files tree
      → (link_all hex blobs files tree).1 ≡ ok tt
  unfolding link_all
  link_all_ok [] tree ready = refl
  link_all_ok (file ∷ files) tree (safe, here, clear, free) =
      elim (Option-cases (read (file_name hex file.hash) blobs)) [
        | inl gone ↦ ground (arith, here, gone)
        | inr (content, found) ↦
            ap (λ (r : Dir Bytes × Result (Unit {0})). r.1)
              (link_some file files tree content (ground (arith, safe)) free.0 found)
            ∙ link_all_ok files (write file.path content tree) (
              ground (arith, safe),
              ground (arith, here),
              clear.1,
              All_occupied-write file.path content tree (paths_of files) free.0 clear.0 free.1,
            )
      ]

  Ready-link_all :
      (files : List FileRef) (tree : Dir Bytes)
      → (link_all hex blobs files tree).1 ≡ ok tt
      → Ready hex blobs files tree
  Ready-link_all [] tree e = (refl, refl, tt, tt)
  Ready-link_all (file ∷ files) tree e =
      let (safe, free, (content, found)) = link_ok file files tree e in
      let next = link_some file files tree content safe free found in
      let (all_safe, all_here, clear, rest) =
        Ready-link_all files (write file.path content tree)
          (sym (ap (λ (r : Dir Bytes × Result (Unit {0})). r.1) next) ∙ e) in
      let (apart, unoccupied) =
        All_occupied-eq_write file.path content tree (paths_of files) free rest in
      (
        ground (arith, safe, all_safe),
        ground (arith, found, all_here),
        (apart, clear),
        (free, unoccupied),
      )

  read-link_all :
      (q : Str) (files : List FileRef) (tree : Dir Bytes)
      → (link_all hex blobs files tree).1 ≡ ok tt
      → All (λ p. clash q p ≡ false) (paths_of files)
      → read q (link_all hex blobs files tree).0 ≡ read q tree
  unfolding link_all
  read-link_all q [] tree e apart = refl
  read-link_all q (file ∷ files) tree e apart =
      let (safe, free, (content, found)) = link_ok file files tree e in
      let next = link_some file files tree content safe free found in
      ap (λ (r : Dir Bytes × Result (Unit {0})). read q r.0) next
      ∙ read-link_all q files (write file.path content tree)
          (sym (ap (λ (r : Dir Bytes × Result (Unit {0})). r.1) next) ∙ e) apart.1
      ∙ ground (arith, apart.0, eq_list_sym file.path q, read-write file.path q content tree)

  -- Each file is in the tree under its path, with its content.
  content-link_all :
      (files : List FileRef) (tree : Dir Bytes)
      → (link_all hex blobs files tree).1 ≡ ok tt
      → Clear (paths_of files)
      → All
          (λ file.
            read file.path (link_all hex blobs files tree).0 ≡ read (file_name hex file.hash) blobs)
          files
  content-link_all [] tree e clear = tt
  content-link_all (file ∷ files) tree e clear =
      let (safe, free, (content, found)) = link_ok file files tree e in
      let next = link_some file files tree content safe free found in
      let rest = sym (ap (λ (r : Dir Bytes × Result (Unit {0})). r.1) next) ∙ e in
      let here : read file.path (link_all hex blobs (file ∷ files) tree).0
          ≡ read (file_name hex file.hash) blobs =
        ap (λ (r : Dir Bytes × Result (Unit {0})). read file.path r.0) next
        ∙ read-link_all file.path files (write file.path content tree) rest clear.0
        ∙ ground
            (arith, eq_list_refl file.path, read-write file.path file.path content tree, found) in
      (
        here,
        subst (λ t. All (λ f. read f.path t ≡ read (file_name hex f.hash) blobs) files)
            (sym (ap (λ (r : Dir Bytes × Result (Unit {0})). r.0) next))
            (content-link_all files (write file.path content tree) rest clear.1),
      )

-- The tree of the stamp holds each file under its path, with the content of its hash, and the trees of
-- other names are as they were.
pub record Laid (hex : Hex) (name : Str) (files : List FileRef) (old new : Store) : Type 0 where
  pub tree : Dir Bytes
  pub stands : read name new.trees ≡ some tree
  pub holds : All (λ file. read file.path tree ≡ read (file_name hex file.hash) old.blobs) files
  pub others :
      (other : Str) → eq_list name other ≡ false → read other new.trees ≡ read other old.trees

free_at_first : (ps : List Str) → All (λ q. occupied q [] ≡ false) ps
unfolding occupied
free_at_first [] = tt
free_at_first (p ∷ ps) = (refl, free_at_first ps)

module _ (hex : Hex) (show : Stamp → Str) (stamp : Stamp) (files : List FileRef)
    (store : Store) where
  -- A manifest can be laid out exactly where every path is safe, every content is here, and no path is
  -- another one or a directory on the way to it.
  pub lay_out_iff : ((lay_out hex show stamp files store).1 ≡ ok tt) ↔ (
      (all is_safe files ≡ true)
      × (all (is_here hex store.blobs) files ≡ true)
      × Clear (paths_of files))
  unfolding lay_out
  lay_out_iff = (
    λ e.
        let (safe, here, clear, _) = Ready-link_all hex store.blobs files [] e in
        (safe, here, clear),
    λ (safe, here, clear).
        link_all_ok hex store.blobs files [] (safe, here, clear, free_at_first (paths_of files)),
  )

  -- And then the tree is what the manifest says.
  pub lay_out-Laid :
      (lay_out hex show stamp files store).1 ≡ ok tt
      → Laid hex (show stamp) files store (lay_out hex show stamp files store).0
  unfolding lay_out
  lay_out-Laid e =
      let (_, _, clear, _) = Ready-link_all hex store.blobs files [] e in
      let tree = (link_all hex store.blobs files []).0 in
      record {
        tree = tree;
        stands = ground (
          arith,
          eq_list_refl (show stamp),
          read-write (show stamp) (show stamp) tree store.trees,
        );
        holds = content-link_all hex store.blobs files [] e clear;
        others = λ other ne. ground (arith, ne, read-write (show stamp) other tree store.trees);
      }
