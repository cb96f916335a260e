-- ===== src/Client.antt =====
-- The components of the client (client/outwarp).
pub mod Fallback
pub mod Sticky
pub mod Routing
pub mod DnsCache
pub mod Tunnel
pub mod Bypass
pub mod AllowedIps
pub mod KillSwitch
pub mod Config
pub mod Minisign
pub mod ProfileTrust
pub mod Manager
mod Examples
