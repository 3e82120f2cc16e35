-- ===== src/Daemon.antt =====
-- src/daemon: the services that carry out what the parts that decide ask for.
pub mod Service
pub mod Store
pub mod Backoff
pub mod Peers
pub mod Pairing
pub mod Copying
pub mod Control
pub mod Exchange
pub mod Fetch
