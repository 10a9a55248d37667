-- ===== src/NullBlk.antt =====
-- package/capstone-null-blk: a block device that keeps its data in memory or nowhere, with some of
-- its functions in a domain of their own.
pub mod Cache
pub mod Config
pub mod Split
pub mod Store
pub mod Tags
pub mod Request
pub mod Throttle
pub mod Command
mod Tests
