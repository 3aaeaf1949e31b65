-- ===== src/Queue.antt =====
-- The queues of util/queue.
pub mod Mask
pub mod Deque
pub mod Ring
pub mod Bounded
mod Tests
