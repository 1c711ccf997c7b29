-- ===== src/Transport.antt =====
-- The encrypted packet transport under Legacy/Transport.
pub mod Codec
pub mod Packet
pub mod Guid
pub mod Session
pub mod Client
pub mod Server
pub mod Exchange
mod Examples
