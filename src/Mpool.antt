-- ===== src/Mpool.antt =====
-- The memory pool (mpool/src): linked lists of blocks, sub-queues, flows, jobs and the pool.
pub mod Subq
pub mod Job
pub mod Wait
pub mod Flow
pub mod Pool
pub mod Ring
pub mod Stream
pub mod Memory
mod Tests
