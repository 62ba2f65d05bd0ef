-- ===== src/Rpc.antt =====
-- The protobuf RPC transport, rpc/: the wire framing and the server's connection.
pub mod Wire
pub mod Server
pub mod Client
mod Tests
