-- ===== src/WebSockets.antt =====
-- The WebSocket component under src/WebSockets.
pub mod Session
pub mod SecureSession
pub mod Server
pub mod Client
mod Examples
