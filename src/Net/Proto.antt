-- ===== src/Net/Proto.antt =====
-- src/net/proto.rs: the messages and what a request may ask for.
pub mod Asked
use yank.Prelude.{
  ℕ, ◌+◌, ◌*◌, ◌&&◌, ◌||◌, not, Bool, true, false, List, [], ◌∷◌, any, leb, length, Result, ok,
  ensure, ◌>>=◌, ◌>>◌, too_many_asked, asked_twice,
}
use yank.Prelude.Bytes.{eq_list}
use yank.Files.Crates.{Hash}
use yank.Files.Manifest.{max_files}
use yank.Clip.Settings.{max_size}
use yank.Clip.Stamp.{Stamp}
use yank.Config.Mesh.{MeshState}

abbrev pub max_uni_size : ℕ
max_uni_size = 64 * 1024

abbrev pub max_request_size : ℕ
max_request_size = 256 * 1024

abbrev pub max_reply_size : ℕ
max_reply_size = 64

abbrev pub max_clip_size : ℕ
max_clip_size = max_size + 64 * 1024

pub data UniMessage : Type 0 where
  membership : MeshState → UniMessage
  head_of_clip : Stamp → UniMessage

pub record ContentRequest : Type 0 where
  pub hash : Hash
  pub at : ℕ

pub data Ask : Type 0 where
  clip : Ask
  contents : List ContentRequest → Ask

pub data ContentReply : Type 0 where
  sending : ℕ → ContentReply
  missing : ContentReply

-- Whether `BTreeSet::insert` finds every hash new.
unfoldable pub all_new : List Hash → List ContentRequest → Bool
all_new seen [] = true
all_new seen (request ∷ requests) =
    not (any (λ hash. eq_list hash.bytes request.hash.bytes) seen)
    && all_new (request.hash ∷ seen) requests

-- `Ask::validate`
unfoldable pub validate_ask : Ask → Result (Unit {0})
unfolding all_new
validate_ask clip = ok tt
validate_ask (contents requests) = do
  ensure (leb (length requests) max_files) too_many_asked
  ensure (all_new [] requests) asked_twice
  ok tt
