-- ===== src/Relay.antt =====
-- The UDP relay (relay/relay.go).
pub mod Address
pub mod Wire
pub mod Keys
pub mod WireLaws
pub mod EndpointCache
pub mod Connections
pub mod RateLimit
pub mod Sessions
pub mod Mappings
pub mod Packets
pub mod HolePunch
mod Examples
