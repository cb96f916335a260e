-- ===== src/Server.antt =====
-- The components of the server (server/outwarp_server).
pub mod IpPool
pub mod RateLimit
pub mod AdminToken
pub mod Sessions
pub mod Panel
pub mod Enrollment
pub mod ClientStore
pub mod ClientNames
pub mod Wireguard
pub mod Operations
pub mod Config
pub mod Owcfg
pub mod EnrollServer
pub mod ClientIp
pub mod Restart
pub mod HandshakeMonitor
mod Examples
