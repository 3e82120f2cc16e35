-- ===== src/Clip/State/Effects.antt =====
-- src/clip/state.rs and src/clip/backend.rs: what a mutation asks the caller to do, and what the
-- clipboard and its backend say to each other.
use yank.Prelude.{Bool, List}
use yank.Prelude.Bytes.{Str, Bytes}
use yank.Clip.Stamp.{Stamp}
use yank.Clip.Copy.{Selection}

-- `backend::Serve`
pub record Serve : Type 0 where
  pub mimes : List Str
  pub bytes : Bytes

-- `backend::Command`: `empty` is the source's `Clear`.
pub data Command : Type 0 where
  offer : List Serve → Command
  empty : Command

-- `backend::Captured`
pub record Captured : Type 0 where
  pub selection : Selection
  pub secret : Bool

-- `state::Effect`
pub data Effect : Type 0 where
  save : Effect
  backend : Command → Effect
  fetch : Stamp → Effect
