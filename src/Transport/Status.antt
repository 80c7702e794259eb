-- ===== src/Transport/Status.antt =====
-- `CallStatus` of rpc_src/transport/multiplexed_connection.h, and `RpcStatus` of rpc_status.h. The
-- latter is the number that stands in a response's flags, which need not name an enumerator.
use coro_rpc.Protocol.Frame.{Frame, default_frame}
use coro_rpc.Base.{ℕ, Bool, true, false}

pub data CallStatus : Type 0 where
  ok timeout not_connected invalid_request duplicate_request_id encode_error : CallStatus
  connection_closed protocol_error resource_exhausted local_overloaded : CallStatus
  service_not_found draining : CallStatus

abbrev pub rpc_ok : ℕ
rpc_ok = 0

abbrev pub rpc_deadline_exceeded : ℕ
rpc_deadline_exceeded = 3

abbrev pub rpc_resource_exhausted : ℕ
rpc_resource_exhausted = 6

abbrev pub rpc_unavailable : ℕ
rpc_unavailable = 8

abbrev pub is_ok : CallStatus → Bool
is_ok ok = true
is_ok _ = false

-- The comparisons of `Record` with several enumerators.
abbrev pub is_local_failure : CallStatus → Bool
is_local_failure encode_error = true
is_local_failure protocol_error = true
is_local_failure _ = false

abbrev pub is_local_overload : CallStatus → Bool
is_local_overload local_overloaded = true
is_local_overload _ = false

abbrev pub is_connection_failure : CallStatus → Bool
is_connection_failure not_connected = true
is_connection_failure connection_closed = true
is_connection_failure timeout = true
is_connection_failure _ = false

pub record CallResult : Type 0 where
  pub status : CallStatus
  pub rpc_status : ℕ
  pub request_id : ℕ
  pub response : Frame

-- A result as it is constructed.
abbrev pub default_result : CallResult
default_result = record {
  status = not_connected;
  rpc_status = rpc_ok;
  request_id = 0;
  response = default_frame;
}
