-- ===== src/Clip.antt =====
-- src/clip: what the mesh shares, and the state machine that decides what the clipboard holds.
pub mod Time
pub mod Stamp
pub mod Mime
pub mod Copy
pub mod Settings
pub mod State
