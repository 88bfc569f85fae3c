-- ===== src/Net.antt =====
-- The network layer, src/net.
pub mod Buffer
pub mod Connection
pub mod EventLoop
pub mod TcpServer
