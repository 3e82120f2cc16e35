-- ===== src/Files.antt =====
-- src/files: files on the clipboard, by manifest and by URI.
pub mod Crates
pub mod Manifest
pub mod Uri
pub mod Spool
pub mod Walk
