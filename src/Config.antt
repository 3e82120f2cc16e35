-- ===== src/Config.antt =====
-- src/config: names that are safe to show, and the mesh state with its merge.
pub mod Name
pub mod Mesh
