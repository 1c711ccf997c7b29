-- ===== src/Http.antt =====
-- The HTTP component under src/HTTP.
pub mod Types
pub mod Socket
pub mod Client
pub mod Session
pub mod Server
pub mod Exchange
mod Examples
