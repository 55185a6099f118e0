-- ===== src/Proxy/Examples.antt =====
-- Runs of the proxy, and the witnesses of its theorems.
mod Routing
mod Connections
mod Headers
mod Handling
