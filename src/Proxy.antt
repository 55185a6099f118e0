-- ===== src/Proxy.antt =====
-- The SNI proxy (proxy/proxy.go).
pub mod Routes
pub mod Dialing
pub mod Admission
pub mod Tunnels
pub mod Header
pub mod Handling
mod Examples
