-- ===== src/Client/Manager.antt =====
-- `TunnelManager` of client/outwarp/tunnel.py: the worker that keeps a tunnel up. What it meets is a
-- sequence of rounds; the flag of `stop` is read where the source reads it. The children prove what
-- holds of a run. A listener that raises changes nothing, and listeners are left out otherwise; so is
-- the exception of a resolution in which a remembered address is no address.
mod State
mod Defs
unfoldable pub use State.*
unfoldable pub use Defs.*
pub mod Moves
pub mod Keeps
pub mod Ends
pub mod Path
pub mod Guard
pub mod Rest
pub mod Stop
mod Examples
