-- ===== src/Clip/State/Offer.antt =====
-- src/clip/state.rs: what a copy is offered as on this machine.
pub mod Fit
pub mod Announce
pub mod Serves
use yank.Prelude.{
  ℕ, ◌-◌, Bool, true, false, not, ◌&&◌, Option, none, some, List, [], ◌∷◌, ◌++◌, map, leb, any,
  keep, find, length, or_else, if◌then◌else◌,
}
use yank.Prelude.Bytes.{Str, Bytes, codes, eq_list, eq_ignore_ascii_case, as_bytes}
use yank.Files.Crates.{Crates}
use yank.Files.Uri.{FilePath, join}
use yank.Clip.Copy.{
  Rep, Selection, Copied, new_selection, selection_of, of_files, reps, selection_size,
}
use yank.Clip.Mime.{plain_text, uri_list, secret_hint, is_text, is_local, aliases}
use yank.Clip.State.Effects.{Serve}

abbrev first : List Rep → Option Rep
first [] = none
first (rep ∷ rest) = some rep

-- What names the files in a selection that is nothing but paths.
unfoldable pub path_rep : List Rep → Option Rep
path_rep paths = or_else (find (λ rep. eq_ignore_ascii_case rep.mime uri_list) paths) (first paths)

-- A selection that was nothing but paths. It has a representation, so the last case, where the source
-- would panic, is never met.
unfoldable pub only_paths : Selection → Option Rep → Selection
unfolding selection_of
only_paths whole (some rep) = selection_of (record { mime = plain_text; bytes = rep.bytes })
only_paths whole none = whole

-- `Selection::new` of what is kept, or the paths as text.
unfoldable pub strip_to : Selection → Option Selection → List Rep → Selection
unfolding path_rep only_paths
strip_to whole (some selection) paths = selection
strip_to whole none paths = only_paths whole (path_rep paths)

-- `stripped`
unfoldable pub stripped : Copied → Selection
unfolding new_selection strip_to
stripped copy =
    strip_to copy.selection
      (new_selection (keep (λ rep. not (is_local rep.mime)) (reps copy.selection)))
      (keep (λ rep. is_local rep.mime) (reps copy.selection))

-- `rehomed`
unfoldable pub rehomed : Crates → Copied → FilePath → Selection
unfolding of_files
rehomed crates copy tree =
    let selection = of_files crates (map (λ file. join tree (as_bytes file.path)) copy.files) in
    record selection {
      alternates =
          selection.alternates
          ++ keep (λ rep. not (is_local rep.mime) && not (is_text rep.mime)) (reps copy.selection);
    }

-- `Clipboard::carried`
unfoldable pub carried : Crates → Option FilePath → Bool → Copied → Selection
carried crates (some tree) ours copy = rehomed crates copy tree
carried crates none ours copy = if ours then copy.selection else stripped copy

-- Whether a type is announced already.
abbrev pub is_announced : List Serve → Str → Bool
is_announced serves mime = any (λ serve. any (λ name. eq_list name mime) serve.mimes) serves

abbrev pub add_serve : List Serve → List Str → Bytes → List Serve
add_serve served [] bytes = served
add_serve served (mime ∷ mimes) bytes =
    served ++ record { mimes = mime ∷ mimes; bytes = bytes } ∷ []

-- The loop of `serves`.
unfoldable pub serves_from : List Serve → List Rep → List Serve
serves_from served [] = served
serves_from served (rep ∷ rest) =
    serves_from
      (add_serve served (keep (λ mime. not (is_announced served mime)) (aliases rep.mime))
        rep.bytes)
      rest

-- `serves`
unfoldable pub serves : Selection → List Serve
unfolding serves_from
serves selection = serves_from [] (reps selection)

-- What tells clipboard managers to keep a secret out of their history.
abbrev pub secret_serve : Serve
secret_serve = record { mimes = secret_hint ∷ []; bytes = codes "secret" }

abbrev pub reversed {ℓ} : {A : Type ℓ} → List A → List A → List A
reversed [] done = done
reversed (x ∷ xs) done = reversed xs (x ∷ done)

-- The loop of `fit`, over the alternates from the back.
unfoldable pub fit_back : ℕ → ℕ → List Rep → Option (List Rep)
fit_back cap size [] = if leb size cap then some [] else none
fit_back cap size (rep ∷ rest) =
    let further = fit_back cap (size - length rep.bytes) rest in
    if leb size cap then some (rep ∷ rest) else further

-- `Clipboard::fit`
unfoldable pub fit : ℕ → Selection → Option Selection
unfolding fit_back selection_size
fit cap selection =
    elim (fit_back cap (selection_size selection) (reversed selection.alternates [])) [
      | none ↦ none
      | some back ↦ some (record selection { alternates = reversed back [] })
    ]
