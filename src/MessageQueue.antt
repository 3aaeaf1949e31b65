-- ===== src/MessageQueue.antt =====
-- The message queue service: sysservice/messagequeueservice and the binary search that it uses.
pub mod BiSearch
pub mod MemoryQueue
mod Tests
