-- ===== src/Legacy.antt =====
-- The Qt clients and servers directly under Legacy, and the old HTTP server under
-- Legacy/Implementation.
pub mod Exchange
pub mod Workers
pub mod TcpClient
pub mod TcpServer
pub mod UdpServer
pub mod UdpClient
pub mod OldHttp
pub mod Examples
