-- ===== src/Udp.antt =====
-- The UDP component under src/UDP.
pub mod Client
pub mod Server
pub mod Exchange
mod Examples
