-- ===== src/Examples.antt =====
-- The theorems at concrete inputs, which their hypotheses hold of.
pub mod Codecs
pub mod Bytes
pub mod Messages
pub mod Logs
pub mod CatchUps
pub mod Caches
pub mod Znodes
pub mod Elections
pub mod Watches
pub mod Requests
pub mod Clusters
pub mod Servers
pub mod Clients
pub mod Networks
