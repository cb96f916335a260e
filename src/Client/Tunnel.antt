-- ===== src/Client/Tunnel.antt =====
-- `Tunnel` of client/outwarp/tunnel.py: one connection over the ladder. The children hold the wstunnel
-- binary, the resolution of names, one rung and the walk over the rungs.
pub mod Transport
pub mod Resolve
pub mod State
pub mod Rung
pub mod Connect
