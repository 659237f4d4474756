-- ===== src/Server.antt =====
-- main/server.go: the server program, which joins the protocol, the znodes and the election.
pub mod State
pub mod Requests
pub mod Topics
pub mod Commands
pub mod Reads
pub mod Client
pub mod Committed
pub mod Denied
pub mod Sessions
pub mod Failures
pub mod Listener
pub mod Start
