-- ===== src/Tests/Data.antt =====
-- Inputs that the tests share. The operations of other packages are stood in for by plain functions.
use yank.Prelude.{ℕ, ◌+◌, true, false, none, some, []}
use yank.Prelude.Bytes.{codes}
use yank.Files.Crates.{Crates}
use yank.Clip.Time.{SystemTime, unix_epoch, from_millis, from_secs}
use yank.Clip.Stamp.{Stamp}
use yank.Clip.Settings.{Settings}
use yank.Clip.Copy.{Rep, Selection, Copied, Clip}
use yank.Clip.Mime.{plain_text, uri_list}
use yank.Clip.State.{Clipboard}

abbrev pub crates : Crates
crates = record {
  blake3 = λ b. record { bytes = b };
  percent_encode = λ b. b;
  percent_decode = λ b. b;
}

abbrev pub settings : Settings
settings = record {
  clipboard = true;
  apply = true;
  capture = true;
  max_size = 1_048_576;
  secret_ttl = from_secs 90;
  ignore_mime = [];
  files = true;
  max_file_size = 1_073_741_824;
}

-- A clock reading, in milliseconds of the epoch.
abbrev pub at : ℕ → SystemTime
at n = unix_epoch + from_millis n

abbrev pub text : Rep
text = record { mime = plain_text; bytes = codes "hi" }

abbrev pub words : Selection
words = record { primary = text; alternates = [] }

abbrev pub plain_copy : Copied
plain_copy = record { selection = words; secret = false; ttl = none; files = [] }

abbrev pub timed_copy : Copied
timed_copy = record { selection = words; secret = true; ttl = some 5; files = [] }

abbrev pub stamp_of : ℕ → ℕ → Stamp
stamp_of millis origin = record { millis = millis; origin = origin }

abbrev pub clip_of : ℕ → ℕ → Clip
clip_of millis origin = record { stamp = stamp_of millis origin; copy = some plain_copy }

abbrev pub timed_clip : Clip
timed_clip = record { stamp = stamp_of 1000 3; copy = some timed_copy }

-- A machine that has heard of nothing.
abbrev pub board_of : ℕ → Clipboard
board_of origin = record {
  origin = origin;
  settings = settings;
  clip = none;
  expires = none;
  applied = none;
  served = none;
  tree = none;
}

abbrev pub path_rep : Rep
path_rep = record { mime = uri_list; bytes = codes "file:///x" }
