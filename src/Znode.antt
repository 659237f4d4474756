-- ===== src/Znode.antt =====
-- internal/znode: the tree of znodes, the leader's checks, the writes on commit, and watches.
pub mod FilePath
pub mod Types
pub mod Store
pub mod Check
pub mod Write
pub mod Init
pub mod Encode
pub mod Watch
pub mod Applied
pub mod Deleted
