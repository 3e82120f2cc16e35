-- ===== src/Clip/Mime.antt =====
-- src/clip/mime.rs: which types of a selection to carry, and under which names to announce them.
pub mod Select
use yank.Prelude.{
  ℕ, ◌==◌, Bool, true, false, not, ◌&&◌, ◌||◌, Option, none, some, List, [], ◌∷◌, ◌++◌, leb, any,
  find, keep, length, or_else, if◌then◌else◌,
}
use yank.Prelude.Bytes.{Str, codes, eq_list, eq_ignore_ascii_case, has_char, strip_prefix}

abbrev pub marker : Str
marker = codes "application/x-yank"

abbrev pub secret_hint : Str
secret_hint = codes "x-kde-passwordManagerHint"

abbrev pub plain_text : Str
plain_text = codes "text/plain;charset=utf-8"

abbrev pub max_reps : ℕ
max_reps = 8

abbrev pub uri_list : Str
uri_list = codes "text/uri-list"

abbrev pub gnome_copied_files : Str
gnome_copied_files = codes "x-special/gnome-copied-files"

-- `TEXT`, best first.
abbrev pub text_types : List Str
text_types =
    plain_text ∷ codes "text/plain" ∷ codes "UTF8_STRING" ∷ codes "STRING" ∷ codes "TEXT" ∷ []

-- `LOCAL`.
abbrev pub local_types : List Str
local_types =
    uri_list
    ∷ gnome_copied_files
    ∷ codes "x-special/nautilus-clipboard"
    ∷ codes "application/x-kde-cutselection"
    ∷ []

-- `CHATTER`.
abbrev pub chatter : List Str
chatter =
    codes "TARGETS"
    ∷ codes "TIMESTAMP"
    ∷ codes "MULTIPLE"
    ∷ codes "SAVE_TARGETS"
    ∷ codes "DELETE"
    ∷ codes "INSERT_SELECTION"
    ∷ codes "INSERT_PROPERTY"
    ∷ marker
    ∷ secret_hint
    ∷ []

unfoldable pub is_text_alias : Str → Bool
is_text_alias mime = any (λ text. eq_ignore_ascii_case text mime) text_types

unfoldable pub is_text : Str → Bool
unfolding is_text_alias
is_text mime =
    is_text_alias mime
    || starts_with (strip_prefix (codes "text/") mime)
    || eq_list mime (codes "application/json")
    || eq_list mime (codes "application/xml")
  where
    starts_with : Option Str → Bool
    starts_with none = false
    starts_with (some rest) = true

unfoldable pub is_local : Str → Bool
is_local mime = any (λ name. eq_ignore_ascii_case name mime) local_types

unfoldable pub is_content : Str → Bool
is_content mime = not (any (λ name. eq_list name mime) chatter) && has_char b'/' mime

-- `find_map` over the wanted types.
find_text : List Str → List Str → Option Str
find_text offered [] = none
find_text offered (wanted ∷ rest) =
    or_else (find (λ mime. eq_ignore_ascii_case mime wanted) offered) (find_text offered rest)

unfoldable pub best_text : List Str → Option Str
unfolding find_text
best_text offered = find_text offered text_types

unfoldable pub choose : List Str → Option Str
choose offered = or_else (best_text offered) (find is_content offered)

unfoldable pub is_ignored : List Str → Str → Bool
is_ignored ignore mime = any (λ name. eq_list name mime) ignore

-- The tests under which the loop of `select` goes on to the next type.
unfoldable pub is_skipped : List Str → List Str → Str → Bool
is_skipped ignore chosen mime =
    not (is_content mime)
    || is_text_alias mime
    || is_ignored ignore mime
    || any (λ taken. eq_ignore_ascii_case taken mime) chosen

-- The loop of `select`: `break` once enough are chosen.
unfoldable pub select_from : List Str → List Str → List Str → List Str
select_from ignore chosen [] = chosen
select_from ignore chosen (mime ∷ rest) =
    let next =
      select_from ignore (if is_skipped ignore chosen mime then chosen else chosen ++ mime ∷ [])
        rest in
    if leb max_reps (length chosen) then chosen else next

unfoldable pub select : List Str → List Str → List Str
select offered ignore = elim (choose offered) [
  | none ↦ []
  | some primary ↦
      if is_ignored ignore primary then [] else select_from ignore (primary ∷ []) offered
]

unfoldable pub aliases : Str → List Str
aliases mime =
    if is_local mime || not (is_text mime)
    then mime ∷ []
    else mime ∷ keep (λ name. not (eq_ignore_ascii_case name mime)) text_types
