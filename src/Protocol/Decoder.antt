-- ===== src/Protocol/Decoder.antt =====
-- `FrameDecoder` of rpc_src/protocol/frame.cpp. `buffer` holds the first `buffer_size_` bytes of the
-- C++ buffer; what lies behind them up to `buffer_capacity_` has no meaning. Allocation succeeds.
pub mod Buffer
pub mod Headers
pub mod Spec
pub mod Refine
pub mod Session
pub mod Sound
use coro_rpc.Base.{
  ℕ, length, get_or, take, drop, ltb, leb, ◌==◌, if◌then◌else◌, sub64, add64, zero, suc, ◌+◌, ◌*◌,
  ◌%◌, ◌^◌, min, max, String, Bool, true, false, not, ◌||◌, Option, none, some, [], ◌++◌,
}
use coro_rpc.Protocol.Wire.{Bytes, get}
use coro_rpc.Protocol.Frame.{
  Frame, FrameHeader, default_header, is_valid_message_type, lacks_request_id, magic, version,
  fixed_header_size,
}

pub record FrameLimits : Type 0 where
  pub max_metadata_size : ℕ
  pub max_body_size : ℕ
  pub max_buffer_size : ℕ

-- The defaults of the struct.
abbrev pub default_limits : FrameLimits
default_limits = record {
  max_metadata_size = 64 * 1024;
  max_body_size = 16 * 1024 * 1024;
  max_buffer_size = 17 * 1024 * 1024;
}

pub data State : Type 0 where
  read_fixed_header read_metadata failed : State

pub record Decoder : Type 0 where
  pub limits : FrameLimits
  pub state : State
  pub buffer : Bytes
  pub capacity : ℕ
  pub prepared_size : ℕ
  pub read_offset : ℕ
  pub pending_header : FrameHeader
  pub pending_metadata_size : ℕ
  pub pending_body_size : ℕ
  pub error : String

pub data DecodeStatus : Type 0 where
  need_more frame_ready protocol_error : DecodeStatus

-- The constructor of the class, which raises the buffer limit to one frame of the largest size.
unfoldable pub init : FrameLimits → Decoder
init limits =
    let min_buffer = fixed_header_size + limits.max_metadata_size + limits.max_body_size in
    record {
      limits =
          if ltb limits.max_buffer_size min_buffer
          then record limits { max_buffer_size = min_buffer }
          else limits;
      state = read_fixed_header;
      buffer = [];
      capacity = 0;
      prepared_size = 0;
      read_offset = 0;
      pending_header = default_header;
      pending_metadata_size = 0;
      pending_body_size = 0;
      error = "";
    }

-- `Fail`.
unfoldable pub fail : Decoder → String → Decoder
fail d message = record d { state = failed; error = message }

-- `ReadableBytes`.
unfoldable pub readable_bytes : Decoder → ℕ
readable_bytes d = sub64 (length d.buffer) d.read_offset

unfoldable pub compact_buffer : Decoder → Decoder
compact_buffer d =
    if d.read_offset == 0
    then d
    else record d { buffer = drop d.read_offset d.buffer; read_offset = 0 }

-- `EnsureWritable`: the decoder behind the call, and its result.
unfoldable pub ensure_writable : Decoder → ℕ → Decoder × Bool
ensure_writable d size =
    let required = add64 (length d.buffer) size in
    let grown = max (16 * 1024) (d.capacity * 2 % 2 ^ 64) in
    if ltb (sub64 d.limits.max_buffer_size (length d.buffer)) size
    then (fail d "decoder buffer limit exceeded", false)
    else (if leb required d.capacity
        then (d, true)
        else (record d { capacity = min (max grown required) d.limits.max_buffer_size }, true))

-- The test before a write, which makes room by moving the unread bytes to the front.
unfoldable pub make_room : Decoder → ℕ → Decoder
make_room d size = if ltb (sub64 d.capacity (length d.buffer)) size then compact_buffer d else d

-- `Feed`. `none` is the null pointer; otherwise the first `size` bytes of the list are read.
unfoldable pub feed : Decoder → Option Bytes → ℕ → Decoder × DecodeStatus
feed d input size =
    let (room, ok) = ensure_writable (make_room d size) size in
    let accepted : Decoder × DecodeStatus = elim input [
      | none ↦ (fail d "null frame input", protocol_error)
      | some bytes ↦
          if ok
          then (record room { buffer = room.buffer ++ take size bytes }, need_more)
          else (room, protocol_error)
    ] in
    elim d.state [
      | failed ↦ (d, protocol_error)
      | _ ↦ if size == 0 then (d, need_more) else accepted
    ]

-- `PrepareWritable`: the result is false for the null pointer, and otherwise the caller may write
-- `size` bytes behind the buffer.
unfoldable pub prepare_writable : Decoder → ℕ → Decoder × Bool
prepare_writable d size =
    let (room, ok) = ensure_writable (make_room d size) size in
    let prepared : Decoder × Bool =
      if size == 0 || not (d.prepared_size == 0)
      then (d, false)
      else (if ok then (record room { prepared_size = size }, true) else (room, false)) in
    elim d.state [ failed ↦ (d, false) | _ ↦ prepared ]

-- `CommitWritable`. `written` is what the caller put behind the buffer: its first `size` bytes count.
unfoldable pub commit_writable : Decoder → Bytes → ℕ → Decoder × DecodeStatus
commit_writable d written size =
    if d.prepared_size == 0 || ltb d.prepared_size size
    then (record (fail d "invalid decoder write commit") { prepared_size = 0 }, protocol_error)
    else (record d { buffer = d.buffer ++ take size written; prepared_size = 0 }, need_more)

-- `ValidateHeader`, on the header that `DecodeHeader` has stored.
unfoldable pub validate_header : Decoder → ℕ → ℕ → Decoder × Bool
validate_header d metadata_size body_size =
    if lacks_request_id d.pending_header
    then (fail d "request and response frames require a request id", false)
    else (if ltb d.limits.max_metadata_size metadata_size || ltb d.limits.max_body_size body_size
        then (fail d "frame field exceeds configured limit", false)
        else (d, true))

-- The assignments of `DecodeHeader` to the pending fields.
unfoldable pub store_header : Decoder → Decoder
store_header d = record d {
  pending_header = record {
    flags = get 4 d.buffer (d.read_offset + 8);
    message_type = get_or d.buffer (d.read_offset + 12) 0;
    request_id = get 8 d.buffer (d.read_offset + 16);
  };
  pending_metadata_size = get 4 d.buffer (d.read_offset + 24);
  pending_body_size = get 4 d.buffer (d.read_offset + 28);
}

-- `DecodeHeader`. It is called with 32 unread bytes, so each byte that it reads is there.
unfoldable pub decode_header : Decoder → Decoder × Bool
decode_header d =
    let type = get_or d.buffer (d.read_offset + 12) 0 in
    let stored = store_header d in
    let (checked, ok) =
      validate_header stored stored.pending_metadata_size stored.pending_body_size in
    if not (get 4 d.buffer d.read_offset == magic)
    then (fail d "invalid frame magic", false)
    else (if not (get 2 d.buffer (d.read_offset + 4) == version)
        then (fail d "unsupported frame version", false)
        else (if not (get 2 d.buffer (d.read_offset + 6) == fixed_header_size)
            then (fail d "unsupported frame header size", false)
            else (if not (is_valid_message_type type)
                  || (not (get_or d.buffer (d.read_offset + 13) 0 == 0)
                      || (not (get_or d.buffer (d.read_offset + 14) 0 == 0)
                          || not (get_or d.buffer (d.read_offset + 15) 0 == 0)))
                then (fail d "invalid frame header enum or reserved field", false)
                else (if ok
                    then (
                      record checked {
                        read_offset = checked.read_offset + fixed_header_size;
                        state = read_metadata;
                      },
                      true,
                    )
                    else (checked, false)))))

-- What `NextView` hands out: its status, and the frame where there is one.
pub data Polled : Type 0 where
  more_needed : Polled
  ready : Frame → Polled
  invalid : Polled

-- The `READ_METADATA` case of `NextView`.
unfoldable pub take_frame : Decoder → Decoder × Polled
take_frame d =
    let body_offset = d.read_offset + d.pending_metadata_size in
    let frame : Frame = record {
      header = d.pending_header;
      metadata = take d.pending_metadata_size (drop d.read_offset d.buffer);
      body = take d.pending_body_size (drop body_offset d.buffer);
    } in
    if ltb (readable_bytes d) (d.pending_metadata_size + d.pending_body_size)
    then (d, more_needed)
    else (
      record d { read_offset = body_offset + d.pending_body_size; state = read_fixed_header },
      ready frame,
    )

-- The loop of `NextView`, on fuel; `none` where it runs out.
unfoldable pub next_loop : ℕ → Decoder → Option (Decoder × Polled)
next_loop zero d = none
next_loop (suc fuel) d =
    let (decoded, ok) = decode_header d in
    let again = next_loop fuel decoded in
    elim d.state [
      | read_fixed_header ↦
          if ltb (readable_bytes d) fixed_header_size
          then some (d, more_needed)
          else (if ok then again else some (decoded, invalid))
      | read_metadata ↦ some (take_frame d)
      | failed ↦ some (d, invalid)
    ]

-- `Next` and `NextView`. A header is decoded at most once in a call, so two rounds are enough.
unfoldable pub next : Decoder → Option (Decoder × Polled)
next d = next_loop 2 d

-- `Reset`, which keeps the buffer's capacity.
unfoldable pub reset : Decoder → Decoder
reset d = record d {
  state = read_fixed_header;
  buffer = [];
  read_offset = 0;
  prepared_size = 0;
  pending_header = default_header;
  pending_metadata_size = 0;
  pending_body_size = 0;
  error = "";
}
