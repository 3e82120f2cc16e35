-- ===== src/Clip/State/Offer/Announce.antt =====
-- src/clip/state.rs and src/clip/mime.rs: what a selection is announced as, and that no name of a file
-- is announced on a machine that does not hold it.
use yank.Prelude.{
  ◌≡◌, refl, ◌≢◌, not-eq_true, if-elim, find, inl, inr, Bool, true, false, not, ◌||◌, Option, none,
  List, [], ◌∷◌, ◌++◌, arith, keep, All, Bool-cases, Option-cases,
}
use yank.Prelude.Bytes.{Str, Bytes, eq_ignore_ascii_case}
use yank.Files.Crates.{Crates}
use yank.Files.Uri.{FilePath}
use yank.Clip.Copy.{Rep, Selection, Copied, reps, new_selection}
use yank.Clip.Mime.{is_local, is_text, aliases, text_types, plain_text, secret_hint, uri_list}
use yank.Clip.State.Effects.{Serve}
use yank.Clip.State.{Clipboard, is_ours, offered}
use yank.Clip.State.Offer.{
  is_announced, add_serve, serves_from, serves, stripped, carried, path_rep, only_paths, strip_to,
}

-- No type is announced under two entries: each is announced once, by the first that has it.
abbrev pub AnnouncedOnce : List Serve → Type 0
AnnouncedOnce [] = Unit {0}
AnnouncedOnce (s ∷ rest) = All (λ mime. is_announced rest mime ≡ false) s.mimes × AnnouncedOnce rest

-- No entry announces a type that names a file.
abbrev pub NamesNoFile : List Serve → Type 0
NamesNoFile = All (λ serve. All (λ mime. is_local mime ≡ false) serve.mimes)

All-keep {ℓ κ} :
    {A : Type ℓ} (P : A → Type κ) (p : A → Bool) (xs : List A) → All P xs → All P (keep p xs)
All-keep P p [] h = tt
All-keep P p (x ∷ xs) h = elim (Bool-cases (p x)) [
  | inl e ↦ rw e (h.0, All-keep P p xs h.1)
  | inr e ↦ rw e (All-keep P p xs h.1)
]

All-append {ℓ κ} :
    {A : Type ℓ} (P : A → Type κ) (xs ys : List A) → All P xs → All P ys → All P (xs ++ ys)
All-append P [] ys h k = k
All-append P (x ∷ xs) ys h k = (h.0, All-append P xs ys h.1 k)

-- No alias of text names a file.
text_types-local : All (λ mime. is_local mime ≡ false) text_types
unfolding is_local eq_ignore_ascii_case
text_types-local = (refl, (refl, (refl, (refl, (refl, tt)))))

aliases-local : (mime : Str) → is_local mime ≡ false → All (λ m. is_local m ≡ false) (aliases mime)
unfolding aliases
aliases-local mime h = elim (Bool-cases (is_local mime || not (is_text mime))) [
  | inl e ↦ rw e (h, tt)
  | inr e ↦ rw e (
    h,
    All-keep (λ m. is_local m ≡ false) (λ name. not (eq_ignore_ascii_case name mime)) text_types
        text_types-local,
  )
]

add_serve-NamesNoFile :
    (served : List Serve) (mimes : List Str) (bytes : Bytes)
    → NamesNoFile served
    → All (λ m. is_local m ≡ false) mimes
    → NamesNoFile (add_serve served mimes bytes)
add_serve-NamesNoFile served [] bytes h k = h
add_serve-NamesNoFile served (m ∷ ms) bytes h k = All-append _ served _ h (k, tt)

serves_from-NamesNoFile :
    (served : List Serve) (rs : List Rep)
    → NamesNoFile served
    → All (λ rep. is_local rep.mime ≡ false) rs
    → NamesNoFile (serves_from served rs)
unfolding serves_from
serves_from-NamesNoFile served [] h k = h
serves_from-NamesNoFile served (rep ∷ rs) h k =
    let mimes = keep (λ mime. not (is_announced served mime)) (aliases rep.mime) in
    serves_from-NamesNoFile (add_serve served mimes rep.bytes) rs
      (add_serve-NamesNoFile served mimes rep.bytes h
        (All-keep _ _ (aliases rep.mime) (aliases-local rep.mime k.0)))
      k.1

keep-All {ℓ} : {A : Type ℓ} (p : A → Bool) (xs : List A) → All (λ x. p x ≡ true) (keep p xs)
keep-All p [] = tt
keep-All p (x ∷ xs) = elim (Bool-cases (p x)) [
  | inl e ↦ rw e (e, keep-All p xs)
  | inr e ↦ rw e (keep-All p xs)
]

All-imp {ℓ κ} :
    {A : Type ℓ} (P Q : A → Type κ) (xs : List A) → ((x : A) → P x → Q x) → All P xs → All Q xs
All-imp P Q [] f h = tt
All-imp P Q (x ∷ xs) f h = (f x h.0, All-imp P Q xs f h.1)

plain_text-local : is_local plain_text ≡ false
unfolding is_local eq_ignore_ascii_case
plain_text-local = refl

secret_hint-local : is_local secret_hint ≡ false
unfolding is_local eq_ignore_ascii_case
secret_hint-local = refl

abbrev AllForeign : List Rep → Type 0
AllForeign = All (λ rep. is_local rep.mime ≡ false)

only_paths-foreign :
    (whole : Selection) (first : Rep) (rest : List Rep)
    → AllForeign (reps (only_paths whole (path_rep (first ∷ rest))))
unfolding only_paths path_rep
only_paths-foreign whole first rest =
    elim (Option-cases (find (λ rep. eq_ignore_ascii_case rep.mime uri_list) (first ∷ rest))) [
      | inl e ↦ rw (e, only_paths) (plain_text-local, tt)
      | inr (rep, e) ↦ rw (e, only_paths) (plain_text-local, tt)
    ]

strip_to-foreign :
    (whole : Selection) (kept paths : List Rep)
    → AllForeign kept
    → (kept ≡ [] → paths ≢ [])
    → AllForeign (reps (strip_to whole (new_selection kept) paths))
unfolding strip_to new_selection
strip_to-foreign whole (rep ∷ kept) paths h some_path = h
strip_to-foreign whole [] [] h some_path = absurd (some_path refl refl)
strip_to-foreign whole [] (first ∷ rest) h some_path = only_paths-foreign whole first rest

-- What is left of another machine's copy names no file.
stripped-foreign : (copy : Copied) → AllForeign (reps (stripped copy))
unfolding stripped
stripped-foreign copy =
    let all = reps copy.selection in
    let kept : List Rep = keep (λ rep. not (is_local rep.mime)) all in
    strip_to-foreign copy.selection kept (keep (λ rep. is_local rep.mime) all)
      (All-imp {A = Rep} (λ rep. not (is_local rep.mime) ≡ true) (λ rep. is_local rep.mime ≡ false)
        kept (λ rep e. not-eq_true (is_local rep.mime) e)
        (keep-All (λ rep. not (is_local rep.mime)) all))
      (λ k e. ground (arith, k, e))

serves-NamesNoFile :
    (selection : Selection) → AllForeign (reps selection) → NamesNoFile (serves selection)
unfolding serves
serves-NamesNoFile selection h = serves_from-NamesNoFile [] (reps selection) tt h

carried_foreign :
    (crates : Crates) (tree : Option FilePath) (ours : Bool) (copy : Copied)
    → tree ≡ none
    → ours ≡ false
    → carried crates tree ours copy ≡ stripped copy
unfolding carried
carried_foreign crates tree ours copy e k = ground arith

-- Until its files are laid out here, a copy made on another machine is offered under no type that
-- names a file: its paths are that machine's.
pub offered-NamesNoFile :
    (crates : Crates) (board : Clipboard) (copy : Copied)
    → is_ours board ≡ false
    → board.tree ≡ none
    → NamesNoFile (offered crates board copy)
unfolding offered
offered-NamesNoFile crates board copy theirs nowhere =
    rw (carried_foreign crates board.tree (is_ours board) copy nowhere theirs) (
      All-append _ (serves (stripped copy)) _
        (serves-NamesNoFile (stripped copy) (stripped-foreign copy))
        (if-elim {A = List Serve} NamesNoFile copy.secret (λ _. ((secret_hint-local, tt), tt))
          (λ _. tt)))
