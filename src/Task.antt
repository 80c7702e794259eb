-- ===== src/Task.antt =====
-- Tasks and their scopes: rpc_src/task.
pub mod CoroResult
pub mod Join
mod Tests
