-- ===== src/Relay/Examples.antt =====
-- The theorems about relay/relay.go at concrete inputs, and runs of the model.
mod Pool
mod Traffic
mod Caches
mod Punching
