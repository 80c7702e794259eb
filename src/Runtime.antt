-- ===== src/Runtime.antt =====
-- The runtime below the transport: rpc_src/runtime.
pub mod MpscQueue
mod Tests
