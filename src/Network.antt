-- ===== src/Network.antt =====
-- The message framing of the tcp connections: network/tcp_msg.go.
pub mod BytesPool
pub mod MsgParser
mod Tests
