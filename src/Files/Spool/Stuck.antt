-- ===== src/Files/Spool/Stuck.antt =====
-- src/files/mod.rs and src/files/store.rs: a manifest that passes its checks and that no machine can lay out.
use yank.Prelude.{ℕ, ◌<◌, ◌≡◌, ◌≢◌, true, [], ◌∷◌, ◌++◌, ok, arith}
use yank.Prelude.Bytes.{Str}
use yank.Files.Crates.{Hex}
use yank.Clip.Stamp.{Stamp}
use yank.Files.Manifest.{FileRef, is_safe, validate}
use yank.Files.Manifest.Paths.{validate_between}
use yank.Files.Spool.{Store, lay_out}
use yank.Files.Spool.Layout.{lay_out_iff}

-- A file and a file under it both pass where a third path sorts between them: the first path with a
-- character below the separator behind it. No machine can lay such a manifest out, whatever its spool
-- holds. Each path on its own has to be safe.
pub lay_out-validate :
    (hex : Hex) (show : Stamp → Str) (stamp : Stamp) (store : Store) (a b c : FileRef) (s t : Str)
    (d : ℕ)
    → d < b'/'
    → is_safe a ≡ true
    → is_safe b ≡ true
    → is_safe c ≡ true
    → b.path ≡ a.path ++ d ∷ s
    → c.path ≡ a.path ++ b'/' ∷ t
    → (validate (a ∷ b ∷ c ∷ []) ≡ ok tt)
      × ((lay_out hex show stamp (a ∷ b ∷ c ∷ []) store).1 ≢ ok tt)
lay_out-validate hex show stamp store a b c s t d below safe_a safe_b safe_c path_b path_c =
    let (under, passes) = validate_between a b c s t d below safe_a safe_b safe_c path_b path_c in
    (
      passes,
      λ laid.
          let (_, _, clear) = (lay_out_iff hex show stamp (a ∷ b ∷ c ∷ []) store).0 laid in
          ground (arith, under, clear.0.1.0),
    )
