-- ===== src/Transport.antt =====
-- The client's transport: rpc_src/transport.
pub mod Status
pub mod Breaker
pub mod Connection
pub mod Dispatcher
mod Tests
