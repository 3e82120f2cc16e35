-- ===== src/Clip/Settings.antt =====
-- src/config/settings.rs: the settings that the clipboard reads, and the protocol's ceiling of
-- src/clip/mod.rs.
use yank.Prelude.{ℕ, ◌*◌, min, Bool, List}
use yank.Prelude.Bytes.{Str}
use yank.Clip.Time.{Duration, u64_max}

pub record Settings : Type 0 where
  pub clipboard : Bool
  pub apply : Bool
  pub capture : Bool
  pub max_size : ℕ
  pub secret_ttl : Duration
  pub ignore_mime : List Str
  pub files : Bool
  pub max_file_size : ℕ

-- `MAX_SIZE`
abbrev pub max_size : ℕ
max_size = 4 * 1024 * 1024

-- `Settings::max_bytes`, where a `usize` has 64 bits.
unfoldable pub max_bytes : Settings → ℕ
max_bytes settings = min (min settings.max_size u64_max) max_size
