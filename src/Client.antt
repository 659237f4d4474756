-- ===== src/Client.antt =====
-- main/client.go: the client program.
pub mod State
pub mod Commands
pub mod Listener
pub mod Versions
pub mod Subscriptions
