-- ===== src/Protocol/Decoder/Headers.antt =====
-- `DecodeHeader` and `ValidateHeader`: which bytes are accepted, and what is stored.
use coro_rpc.Base.{◌≡◌, get_or, get_or-drop, ℕ, ◌+◌, ◌≤◌, true, false, arith}
use coro_rpc.Protocol.Wire.{get, get-drop, get-drop_front}
use coro_rpc.Protocol.Frame.{
  FrameHeader, fixed_header_size, is_valid_message_type, lacks_request_id,
}
use coro_rpc.Protocol.Frame.Header.{read_header, FixedBytes}
use coro_rpc.Protocol.Decoder.{
  FrameLimits, Decoder, read_metadata, failed, fail, store_header, validate_header, decode_header,
}
use coro_rpc.Protocol.Decoder.Buffer.{unread}

-- A header that the decoder accepts under its limits.
pub record Acceptable (l : FrameLimits) (h : FrameHeader) (ms bs : ℕ) : Type 0 where
  pub known_type : is_valid_message_type h.message_type ≡ true
  pub has_id : lacks_request_id h ≡ false
  pub metadata_fits : ms ≤ l.max_metadata_size
  pub body_fits : bs ≤ l.max_body_size

-- The decoder behind an accepted header.
abbrev pub header_taken : Decoder → FrameHeader → ℕ → ℕ → Decoder
header_taken d h ms bs = record d {
  pending_header = h;
  pending_metadata_size = ms;
  pending_body_size = bs;
  read_offset = d.read_offset + fixed_header_size;
  state = read_metadata;
}

-- The bytes that `DecodeHeader` reads, as bytes of the unread ones.
record Reads (d : Decoder) : Type 0 where
  magic_read : get 4 d.buffer d.read_offset ≡ get 4 (unread d) 0
  version_read : get 2 d.buffer (d.read_offset + 4) ≡ get 2 (unread d) 4
  size_read : get 2 d.buffer (d.read_offset + 6) ≡ get 2 (unread d) 6
  flags_read : get 4 d.buffer (d.read_offset + 8) ≡ get 4 (unread d) 8
  type_read : get_or d.buffer (d.read_offset + 12) 0 ≡ get_or (unread d) 12 0
  read_13 : get_or d.buffer (d.read_offset + 13) 0 ≡ get_or (unread d) 13 0
  read_14 : get_or d.buffer (d.read_offset + 14) 0 ≡ get_or (unread d) 14 0
  read_15 : get_or d.buffer (d.read_offset + 15) 0 ≡ get_or (unread d) 15 0
  id_read : get 8 d.buffer (d.read_offset + 16) ≡ get 8 (unread d) 16
  metadata_size_read : get 4 d.buffer (d.read_offset + 24) ≡ get 4 (unread d) 24
  body_size_read : get 4 d.buffer (d.read_offset + 28) ≡ get 4 (unread d) 28

reads : (d : Decoder) → Reads d
reads d = record {
  magic_read = get-drop_front 4 d.read_offset d.buffer;
  version_read = get-drop 2 d.read_offset 4 d.buffer;
  size_read = get-drop 2 d.read_offset 6 d.buffer;
  flags_read = get-drop 4 d.read_offset 8 d.buffer;
  type_read = get_or-drop d.read_offset 12 d.buffer 0;
  read_13 = get_or-drop d.read_offset 13 d.buffer 0;
  read_14 = get_or-drop d.read_offset 14 d.buffer 0;
  read_15 = get_or-drop d.read_offset 15 d.buffer 0;
  id_read = get-drop 8 d.read_offset 16 d.buffer;
  metadata_size_read = get-drop 4 d.read_offset 24 d.buffer;
  body_size_read = get-drop 4 d.read_offset 28 d.buffer;
}

-- The header in the unread bytes, tested.
pub decode_header_accepts :
    (d : Decoder)
    → FixedBytes (unread d)
    → Acceptable d.limits (read_header (unread d)) (get 4 (unread d) 24) (get 4 (unread d) 28)
    → decode_header d
      ≡ (header_taken d (read_header (unread d)) (get 4 (unread d) 24) (get 4 (unread d) 28), true)
unfolding decode_header store_header validate_header
decode_header_accepts d f a = ground (arith, reads d)

pub decode_header_inverts :
    (d : Decoder)
    → (decode_header d).1 ≡ true
    → FixedBytes (unread d)
      × Acceptable d.limits (read_header (unread d)) (get 4 (unread d) 24) (get 4 (unread d) 28)
unfolding decode_header store_header validate_header
decode_header_inverts d e = ground (arith, reads d)

-- A refused header leaves the decoder failed.
pub decode_header_refuses :
    (d : Decoder) → (decode_header d).1 ≡ false → (decode_header d).0.state ≡ failed
unfolding decode_header store_header validate_header fail
decode_header_refuses d e = ground arith
