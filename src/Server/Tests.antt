-- ===== src/Server/Tests.antt =====
-- Concrete servers (rpc_src/transport/rpc_server.cpp).
use coro_rpc.Protocol.Wire.{put, Bytes, get, bswap, store, load}
use coro_rpc.Protocol.MessageType
use coro_rpc.Protocol.Frame.{
  is_valid_message_type, lacks_request_id, build_header, Frame, default_frame,
}
use coro_rpc.Server.{
  RpcServer, ServerConnection, RequestState, IdempotencyRecord, Handlers, new_server,
  default_server_options, no_timeout, RpcExecutionMode,
}
use coro_rpc.Base.{
  ℕ, find_entry, get_elem?, ◌≡◌, refl, true, false, none, [], ◌∷◌, ◌++◌, arith, sub64, some,
}
use coro_rpc.Server.Admission.{on_frame, new_state}
use coro_rpc.Server.Checks.{count_received, add_deadline}
use coro_rpc.Server.Lifecycle.{attach_connection, start_drain}
use coro_rpc.Protocol.Encoder.{encode}
use coro_rpc.Server.Keys.Injective.{build_idempotency_key-inj}
use coro_rpc.Server.Finishing.{finish, on_worker_completion, final_response, settle_record}
use coro_rpc.Server.Closing.{find_record}
use coro_rpc.Transport.Dispatcher.{RpcExecutionMode}
use coro_rpc.Protocol.Metadata.{metadata_magic, decode_request_metadata, has_magic, same_bytes}
use coro_rpc.Server.Valid.{ServerValid, OptionsInRange}
use coro_rpc.Server.Keys.{build_idempotency_key, append_key_part, to_string, digits}
use coro_rpc.Server.Replay.{
  CanTakeIn, known_outcome, taken_in, request_of, on_frame-known_outcome, IsKeyed,
}
use coro_rpc.Server.History.{Reachable-ServerValid, framed, attached, created}
use coro_rpc.Server.Answers.{
  after_finish, CanAnswer, finish_once, sent_response, Answered, due_answer,
}
use coro_rpc.Server.Drains.{start_drain_unwritten}
use coro_rpc.Server.Stale.{on_worker_completion-stale}

abbrev slow_clock : ℕ → ℕ
slow_clock address = 1000

-- The pool runs everything, and its handler throws.
abbrev failing_handlers : Handlers
failing_handlers = record {
  select_mode = λ m. RpcExecutionMode.cpu_pool;
  handler = λ r. none;
  inline_view_handler = none;
}

-- A call of method `m` of service `s` with the key `k`.
abbrev keyed_metadata : Bytes
keyed_metadata =
    metadata_magic
    ++ (0 ∷ 0 ∷ 0 ∷ 0 ∷ 0 ∷ 0 ∷ 0 ∷ 0 ∷ 0 ∷ 0 ∷ 0 ∷ 1 ∷ 0 ∷ 0 ∷ 0 ∷ 1 ∷ 0 ∷ 0 ∷ 0 ∷ 1 ∷ 0 ∷ 0 ∷ 0
        ∷ 0 ∷ b's' ∷ b'm' ∷ b'k' ∷ [])

abbrev keyed_frame : Frame
keyed_frame = record {
  header = record { flags = 0; message_type = MessageType.request_type; request_id = 8 };
  metadata = keyed_metadata;
  body = 1 ∷ [];
}

default_server_options-InRange : OptionsInRange default_server_options
default_server_options-InRange = record {
  connections_range = omega arith;
  requests_range = omega arith;
}

abbrev peer_name : Bytes
peer_name = b'p' ∷ []

abbrev attached_server : RpcServer
attached_server = (attach_connection default_server_options true peer_name new_server).0

Reachable-ServerValid_example : ServerValid default_server_options (
    on_frame default_server_options failing_handlers slow_clock 5 6 true attached_server 0
      keyed_frame)
Reachable-ServerValid_example =
    Reachable-ServerValid default_server_options failing_handlers _ default_server_options-InRange
      (framed slow_clock 5 6 true 0 keyed_frame (attached true peer_name created))

abbrev service_name : Bytes
service_name = b's' ∷ []

abbrev method_name : Bytes
method_name = b'm' ∷ []

abbrev caller_key : Bytes
caller_key = b'k' ∷ []

-- `1:p1:s1:m1:k`.
abbrev test_key : Bytes
test_key = b'1' ∷ b':' ∷ b'p' ∷ b'1' ∷ b':' ∷ b's' ∷ b'1' ∷ b':' ∷ b'm' ∷ b'1' ∷ b':' ∷ b'k' ∷ []

test_key_lem : build_idempotency_key peer_name service_name method_name caller_key ≡ test_key
unfolding build_idempotency_key append_key_part to_string digits
test_key_lem = refl

build_idempotency_key-inj_example :
    (peer_name ≡ peer_name)
    × (service_name ≡ service_name)
    × (method_name ≡ method_name)
    × (caller_key ≡ caller_key)
build_idempotency_key-inj_example =
    build_idempotency_key-inj peer_name service_name method_name caller_key peer_name service_name
      method_name caller_key (omega arith) (omega arith) refl

abbrev cancelled_state : RequestState
cancelled_state = record {
  connection = 0;
  request_id = 7;
  deadline_ms = no_timeout;
  idempotency_key = test_key;
  fingerprint = 11;
  cancelled = true;
  completed = true;
}

abbrev waiting_state : RequestState
waiting_state = record cancelled_state {
  request_id = 9;
  fingerprint = 12;
  cancelled = false;
  completed = false;
}

abbrev waiting_record : IdempotencyRecord
waiting_record = record {
  pending = true;
  fingerprint = 12;
  body = 2 ∷ [];
  response = default_frame;
  waiters = 1 ∷ [];
}

abbrev busy_connection : ServerConnection
busy_connection = record {
  caller_scope = peer_name;
  requests = (9, 1) ∷ [];
  outbound = [];
  outbound_bytes = 0;
  unwritten = [];
  draining = false;
}

-- The request 7 was cancelled, and the request 9 came with its key and another body.
abbrev busy_server : RpcServer
busy_server = record new_server {
  connections = (0, busy_connection) ∷ [];
  next_connection = 1;
  states = cancelled_state ∷ waiting_state ∷ [];
  inflight_count = 1;
  active_connections = 1;
  idempotency = (test_key, waiting_record) ∷ [];
}

abbrev old_response : Frame
old_response = record default_frame { body = 7 ∷ 7 ∷ [] }

busy_server-CanAnswer :
    CanAnswer default_server_options busy_server 1 waiting_state busy_connection
      (sent_response slow_clock 1 waiting_state old_response)
unfolding get_elem? find_entry encode final_response is_valid_message_type lacks_request_id
    build_header put
busy_server-CanAnswer = record {
  request = refl;
  unfinished = refl;
  peer = refl;
  staying = refl;
  accepting = refl;
  encodable = refl;
  room = omega arith;
}

busy_server-due :
    CanAnswer default_server_options busy_server 1 waiting_state busy_connection
      (due_answer 1000 waiting_state old_response)
unfolding get_elem? find_entry encode final_response is_valid_message_type lacks_request_id
    build_header put
busy_server-due = record {
  request = refl;
  unfinished = refl;
  peer = refl;
  staying = refl;
  accepting = refl;
  encodable = refl;
  room = omega arith;
}

finish_once_example :
    Answered 1000 busy_server 1 waiting_state busy_connection old_response
      (finish default_server_options slow_clock busy_server 1 old_response)
    × ((clock' : ℕ → ℕ) (response' : Frame)
        → finish default_server_options clock'
            (finish default_server_options slow_clock busy_server 1 old_response)
            1
            response'
          ≡ finish default_server_options slow_clock busy_server 1 old_response)
finish_once_example =
    finish_once default_server_options slow_clock busy_server 1 waiting_state busy_connection
      old_response (omega arith) (omega arith) busy_server-due

busy_server-record : find_record test_key busy_server.idempotency ≡ some waiting_record
unfolding find_record same_bytes
busy_server-record = refl

busy_server-cancelled : get_elem? busy_server.states 0 ≡ some cancelled_state
unfolding get_elem?
busy_server-cancelled = refl

on_worker_completion-stale_example :
    on_worker_completion default_server_options slow_clock busy_server 0 old_response true
    ≡ after_finish slow_clock
        (settle_record default_server_options test_key waiting_record old_response true busy_server)
        1
        waiting_state
        busy_connection
        old_response
on_worker_completion-stale_example =
    on_worker_completion-stale default_server_options slow_clock busy_server 0 1 cancelled_state
      waiting_state busy_connection waiting_record old_response true busy_server-cancelled refl refl
      busy_server-record refl busy_server-CanAnswer

keyed_frame-IsKeyed : IsKeyed busy_server 5 keyed_frame
unfolding decode_request_metadata has_magic same_bytes get bswap store load sub64 add_deadline
keyed_frame-IsKeyed = record {
  kind = refl;
  accepting = refl;
  metadata = refl;
  in_time = refl;
  keyed = refl;
}

busy_server-CanTakeIn : CanTakeIn default_server_options busy_server 0 busy_connection 8
unfolding find_entry
busy_server-CanTakeIn = record {
  peer = refl;
  below_limit = omega arith;
  below_share = omega arith;
  new_id = refl;
}

keyed_frame-record :
    find_record
      (new_state 0 busy_connection (request_of 5 keyed_frame)).idempotency_key
      busy_server.idempotency
    ≡ some waiting_record
unfolding find_record same_bytes new_state build_idempotency_key append_key_part to_string digits
    decode_request_metadata has_magic get bswap store load sub64
keyed_frame-record = refl

on_frame-known_outcome_example :
    on_frame default_server_options failing_handlers slow_clock 5 6 true busy_server 0 keyed_frame
    ≡ known_outcome default_server_options slow_clock
        (taken_in
          (count_received busy_server)
          0
          busy_connection
          (new_state 0 busy_connection (request_of 5 keyed_frame)))
        2
        (new_state 0 busy_connection (request_of 5 keyed_frame))
        (1 ∷ [])
        waiting_record
on_frame-known_outcome_example =
    on_frame-known_outcome default_server_options failing_handlers slow_clock 5 6 true busy_server 0
      busy_connection keyed_frame waiting_record keyed_frame-IsKeyed busy_server-CanTakeIn
      keyed_frame-record

-- Nothing is left to do but to write four bytes.
abbrev writing_server : RpcServer
writing_server = record new_server {
  connections = (0, record busy_connection { requests = []; unwritten = 1 ∷ 2 ∷ 3 ∷ 4 ∷ [] }) ∷ [];
  active_connections = 1;
}

start_drain_unwritten_example :
    ((start_drain writing_server 500).connections ≡ [])
    × ((start_drain writing_server 500).stopped ≡ true)
start_drain_unwritten_example =
    start_drain_unwritten writing_server 0 500
      (record busy_connection { requests = []; unwritten = 1 ∷ 2 ∷ 3 ∷ 4 ∷ [] }) refl refl refl refl
      refl refl refl (ground arith) (omega arith)
