-- ===== src/Protocol.antt =====
-- The wire protocol: rpc_src/protocol.
pub mod Wire
pub mod MessageType
pub mod Frame
pub mod Metadata
pub mod Encoder
pub mod Decoder
mod Tests
