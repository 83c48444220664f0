-- ===== src/Tests.antt =====
-- Runs on concrete inputs, and the theorems at concrete inputs.
mod Order
mod Codecs
mod Connections
mod ServerRuns
mod Clients
mod ServerLoop
mod Sessions
mod Paths
mod Logins
mod Bots
