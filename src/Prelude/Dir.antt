-- ===== src/Prelude/Dir.antt =====
-- A directory: the contents of its entries under their names.
use mathlib.Core.Path.{◌≡◌}
use mathlib.Core.Bool.{Bool}
use mathlib.Core.List.{List, [], ◌∷◌}
use mathlib.Core.Option.{Option, none, some}
use native.Mathlib.Omega.{arith}
use yank.Prelude.Tests.{if◌then◌else◌}
use yank.Prelude.Bytes.{Str, eq_list, eq_list→eq, eq_list_refl}

abbrev pub Dir {ℓ} : Type ℓ → Type ℓ
Dir A = List (Str × A)

module _ {ℓ} {A : Type ℓ} where
  unfoldable pub read : Str → Dir A → Option A
  read path [] = none
  read path ((name, content) ∷ dir) =
      let further = read path dir in if eq_list name path then some content else further

  unfoldable pub delete : Str → Dir A → Dir A
  delete path [] = []
  delete path ((name, content) ∷ dir) =
      let further = delete path dir in
      if eq_list name path then further else (name, content) ∷ further

  -- Whatever stood under the name is replaced.
  unfoldable pub write : Str → A → Dir A → Dir A
  write path content dir = (path, content) ∷ delete path dir

  pub read-delete :
      (name path : Str) (dir : Dir A)
      → read path (delete name dir) ≡ (if eq_list name path then none else read path dir)
  unfolding read delete
  read-delete name path [] = ground arith
  read-delete name path ((first, content) ∷ dir) = ground (
    arith,
    eq_list→eq first name,
    eq_list→eq first path,
    eq_list→eq name path,
    eq_list_refl name,
    eq_list_refl first,
    eq_list_refl path,
    read-delete name path dir,
  )

  pub read-write :
      (name path : Str) (content : A) (dir : Dir A)
      → read path (write name content dir)
        ≡ (if eq_list name path then some content else read path dir)
  unfolding read write
  read-write name path content dir = ground (arith, read-delete name path dir)

  -- The entries that a test keeps, by their names.
  unfoldable pub retain : (Str → Bool) → Dir A → Dir A
  retain keeps [] = []
  retain keeps ((name, content) ∷ dir) =
      let further = retain keeps dir in if keeps name then (name, content) ∷ further else further

  pub read-retain :
      (keeps : Str → Bool) (path : Str) (dir : Dir A)
      → read path (retain keeps dir) ≡ (if keeps path then read path dir else none)
  unfolding read retain
  read-retain keeps path [] = ground arith
  read-retain keeps path ((name, content) ∷ dir) =
      ground (arith, eq_list→eq name path, read-retain keeps path dir)
