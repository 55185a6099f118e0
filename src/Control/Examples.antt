-- ===== src/Control/Examples.antt =====
-- Runs of the control program, and the witnesses of its theorems.
mod Accounting
mod Networks
mod Peers
mod Shaping
mod Requests
mod Destinations
mod Firewall
mod Startup
