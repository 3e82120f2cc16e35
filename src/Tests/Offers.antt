-- ===== src/Tests/Offers.antt =====
-- What is captured, offered and shown, at concrete inputs.
use yank.Prelude.{◌≡◌, refl, true, none, some, List, [], ◌∷◌}
use yank.Prelude.Bytes.{Str, codes, eq_list, eq_ignore_ascii_case}
use yank.Clip.Copy.{Copied, Selection}
use yank.Clip.Mime.{
  select, choose, best_text, is_content, is_text_alias, is_ignored, is_skipped, select_from,
}
use yank.Clip.Mime.Select.{Selected, select-Selected}
use yank.Clip.State.{Clipboard, offered, is_ours}
use yank.Clip.State.Offer.{fit}
use yank.Clip.State.Offer.Announce.{NamesNoFile, offered-NamesNoFile}
use yank.Clip.State.Offer.Fit.{Fitted, fit-Fitted}
use yank.Tests.Data.{crates, board_of, clip_of, text, path_rep}

abbrev browser : List Str
browser =
    codes "text/html"
    ∷ codes "text/plain;charset=utf-8"
    ∷ codes "text/plain"
    ∷ codes "UTF8_STRING"
    ∷ codes "STRING"
    ∷ []

-- The test of src/clip/mime.rs: every representation is taken once.
select-browser : select browser [] ≡ codes "text/plain;charset=utf-8" ∷ codes "text/html" ∷ []
unfolding select select_from choose best_text is_content is_text_alias is_ignored is_skipped
    eq_ignore_ascii_case eq_list
select-browser = refl

select-Selected_example : Selected browser [] (select browser [])
select-Selected_example = select-Selected browser []

abbrev mixed : Selection
mixed = record { primary = text; alternates = path_rep ∷ [] }

fit-Fitted_example : Fitted 4 mixed (fit 4 mixed)
fit-Fitted_example = fit-Fitted 4 mixed

abbrev from_peer : Clipboard
from_peer = record (board_of 1) { clip = some (clip_of 1000 3) }

abbrev file_copy : Copied
file_copy = record { selection = mixed; secret = true; ttl = none; files = [] }

offered-NamesNoFile_example : NamesNoFile (offered crates from_peer file_copy)
unfolding is_ours
offered-NamesNoFile_example = offered-NamesNoFile crates from_peer file_copy refl refl
