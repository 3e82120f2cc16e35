-- ===== src/Tests.antt =====
-- Runs of the model at concrete inputs, and the theorems at inputs that meet their conditions.
mod Data
mod Board
mod Offers
mod Mesh
mod Percent
mod HexDigits
mod Spool
mod Fetch
mod Peers
mod Exchange
mod Control
mod Ticket
mod Files
mod Services
mod Messages
