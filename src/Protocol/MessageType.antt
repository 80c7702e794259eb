-- ===== src/Protocol/MessageType.antt =====
-- `enum class MessageType : std::uint8_t` of rpc_src/protocol/frame.h. A value is the byte that the
-- enumeration stands on, since the code casts between the two and tests bytes that name no message.
use coro_rpc.Base.{ℕ}

abbrev pub request_type : ℕ
request_type = 1

abbrev pub response_type : ℕ
response_type = 2

abbrev pub cancel_type : ℕ
cancel_type = 3

abbrev pub ping_type : ℕ
ping_type = 4

abbrev pub pong_type : ℕ
pong_type = 5
