-- ===== src/Rpc.antt =====
-- The calls in flight of an rpc client: rpc/rpctimer.go and rpc/callset.go.
pub mod TimerHeap
pub mod CallSet
pub mod Client
pub mod Server
mod Tests
