-- ===== src/Control.antt =====
-- The control program (main.go).
pub mod Bandwidth
pub mod Router
pub mod Shaping
pub mod Peers
pub mod Requests
pub mod Destinations
pub mod Firewall
pub mod Settings
pub mod Startup
pub mod Loading
mod Examples
