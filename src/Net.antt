-- ===== src/Net.antt =====
-- src/net: what machines say to each other once connected.
pub mod Wire
pub mod Proto
pub mod Contents
pub mod Pair
pub mod Ticket
