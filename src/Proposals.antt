-- ===== src/Proposals.antt =====
-- internal/Proposals: the Zab protocol.
pub mod Types
pub mod Words
pub mod Zxid
pub mod Queue
pub mod Ack
pub mod SyncTrack
pub mod Log
pub mod State
pub mod Send
pub mod Follower
pub mod Leader
pub mod SyncJob
pub mod Process
pub mod Order
pub mod Requests
pub mod Agreement
pub mod Cluster
pub mod SyncDone
pub mod Printing
pub mod CatchUp
pub mod Lag
