-- ===== src/Protocol/Tests.antt =====
-- Concrete runs of the protocol, and the theorems at concrete inputs.
use coro_rpc.Base.{
  ◌≡◌, take, if◌then◌else◌, sub64, refl, true, ◌&&◌, none, some, [], ◌∷◌, ◌++◌, arith, sym,
}
use coro_rpc.Protocol.Wire.{Bytes, put, bswap, store, load, get}
use coro_rpc.Protocol.MessageType
use coro_rpc.Protocol.Frame.{
  Frame, FrameHeader, build_header, default_header, is_valid_message_type, lacks_request_id,
}
use coro_rpc.Protocol.Metadata.{
  RequestMetadata, default_metadata, encode_request_metadata, encoded_size, check_field,
  append_request_metadata, total_size, decode_request_metadata, has_magic, same_bytes,
}
use coro_rpc.Protocol.Metadata.Envelope.{fits, envelope}
use coro_rpc.Protocol.Metadata.RoundTrip.{encode-decode}
use coro_rpc.Protocol.Metadata.Sound.{decode_sound}
use coro_rpc.Protocol.Encoder.{encode, encode_request}
use coro_rpc.Protocol.Encoder.Laws.{wire, encode_request_lem, request_frame}
use coro_rpc.Protocol.Decoder.Session.Encoded.{session-encodings, Sendable}
use coro_rpc.Protocol.Decoder.{
  Decoder, default_limits, read_fixed_header, need_more, ready, init, next, next_loop,
  decode_header, store_header, validate_header, take_frame, readable_bytes, feed, prepare_writable,
  commit_writable,
}
use coro_rpc.Protocol.Decoder.Buffer.{Valid, Appended, feed_appends, prepare-commit}
use coro_rpc.Protocol.Decoder.Spec.{Good, parse}
use coro_rpc.Protocol.Decoder.Refine.{Running, Answers, stream, next-Answers}
use coro_rpc.Protocol.Decoder.Sound.{next_sound}
use coro_rpc.Protocol.Decoder.Session.{session, waiting}
use coro_rpc.Protocol.Decoder.Session.Frames.{session-wires}

abbrev ping_header : FrameHeader
ping_header = record { flags = 0; message_type = MessageType.ping_type; request_id = 7 }

abbrev ping_frame : Frame
ping_frame = record { header = ping_header; metadata = []; body = 5 ∷ 6 ∷ [] }

abbrev ping_start : Bytes
ping_start = 0x52 ∷ 0x50 ∷ 0x43 ∷ 0x52 ∷ 0 ∷ 1 ∷ 0 ∷ 32 ∷ 0 ∷ 0 ∷ 0 ∷ 0 ∷ 4 ∷ 0 ∷ 0 ∷ 0 ∷ []

abbrev ping_end : Bytes
ping_end = 0 ∷ 0 ∷ 0 ∷ 0 ∷ 0 ∷ 0 ∷ 0 ∷ 7 ∷ 0 ∷ 0 ∷ 0 ∷ 0 ∷ 0 ∷ 0 ∷ 0 ∷ 2 ∷ 5 ∷ 6 ∷ []

wire_ping : wire ping_frame ≡ ping_start ++ ping_end
unfolding wire build_header put bswap store load
wire_ping = refl

-- A decoder that has received one frame.
abbrev loaded : Decoder
loaded = record {
  limits = default_limits;
  state = read_fixed_header;
  buffer = ping_start ++ ping_end;
  capacity = 16384;
  prepared_size = 0;
  read_offset = 0;
  pending_header = default_header;
  pending_metadata_size = 0;
  pending_body_size = 0;
  error = "";
}

abbrev emptied : Decoder
emptied = record loaded { read_offset = 34; pending_header = ping_header; pending_body_size = 2 }

next-loaded : next loaded ≡ some (emptied, ready ping_frame)
unfolding next next_loop decode_header store_header validate_header take_frame readable_bytes get
    bswap store load is_valid_message_type lacks_request_id sub64
next-loaded = refl

loaded-Valid : Valid loaded
loaded-Valid = omega arith

loaded-Running : Running loaded
loaded-Running = record { valid = loaded-Valid; holds = tt; bytes = omega arith }

ping-Good : Good default_limits ping_frame
unfolding is_valid_message_type lacks_request_id
ping-Good = record {
  in_range = omega arith;
  acceptable = record {
    known_type = refl;
    has_id = refl;
    metadata_fits = omega arith;
    body_fits = omega arith;
  };
}

session-wires_example :
    (e : Decoder) × (session (init default_limits) (ping_start ∷ ping_end ∷ [])
      ≡ some (ping_frame ∷ [], waiting e))
    × (stream e ≡ [])
session-wires_example =
    session-wires default_limits (ping_frame ∷ []) (ping_start ∷ ping_end ∷ []) (omega arith)
      (omega arith) (ping-Good, tt)
      (
        record { fits = omega arith; bytes = omega arith },
        (record { fits = omega arith; bytes = omega arith }, tt),
      )
      (rw wire_ping)

ping-Sendable : Sendable default_limits ping_frame
unfolding encode is_valid_message_type lacks_request_id
ping-Sendable = record {
  in_range = ping-Good.in_range;
  encoded = refl;
  metadata_in = omega arith;
  body_in = omega arith;
}

encoded_ping : ping_start ++ ping_end ≡ (encode ping_frame [] none).output
unfolding encode is_valid_message_type lacks_request_id build_header put bswap store load
encoded_ping = refl

session-encodings_example :
    (e : Decoder) × (session (init default_limits) (ping_start ∷ ping_end ∷ [])
      ≡ some (ping_frame ∷ [], waiting e))
    × (stream e ≡ [])
session-encodings_example =
    session-encodings default_limits (ping_frame ∷ []) (ping_start ∷ ping_end ∷ []) (omega arith)
      (omega arith) (ping-Sendable, tt)
      (
        record { fits = omega arith; bytes = omega arith },
        (record { fits = omega arith; bytes = omega arith }, tt),
      )
      (rw (sym encoded_ping) refl)

next-Answers_example : Answers loaded (parse default_limits (stream loaded)) (next loaded)
next-Answers_example = next-Answers loaded loaded-Running

next_sound_example :
    (stream loaded ≡ wire ping_frame ++ stream emptied)
    × Good default_limits ping_frame
    × Running emptied
next_sound_example = next_sound loaded emptied ping_frame loaded-Running next-loaded

abbrev three : Bytes
three = 1 ∷ 2 ∷ 3 ∷ []

feed_appends_example :
    ((feed loaded (some three) 3).1 ≡ need_more)
    × Appended loaded (feed loaded (some three) 3).0 (take 3 three)
feed_appends_example =
    feed_appends loaded three 3 loaded-Valid refl (λ e. cc) (omega arith) (omega arith)

prepare-commit_example :
    ((prepare_writable loaded 16384).1 ≡ true)
    × ((commit_writable (prepare_writable loaded 16384).0 three 2).1 ≡ need_more)
    × Appended loaded (commit_writable (prepare_writable loaded 16384).0 three 2).0 (take 2 three)
prepare-commit_example =
    prepare-commit loaded 16384 loaded-Valid refl three 2 (λ e. cc) (omega arith) (omega arith)
      (omega arith) (omega arith)

-- A call of `Echo.Say`.
abbrev echo : RequestMetadata
echo = record default_metadata {
  service = b'E' ∷ b'c' ∷ b'h' ∷ b'o' ∷ [];
  method = b'S' ∷ b'a' ∷ b'y' ∷ [];
  timeout_ms = 1000;
}

encode_request_lem_example :
    ((encode_request echo three 9 [] none).success
      ≡ (fits echo && (encode (request_frame echo three 9) [] none).success))
    × ((encode_request echo three 9 [] none).output
        ≡ (if fits echo then (encode (request_frame echo three 9) [] none).output else []))
encode_request_lem_example = encode_request_lem echo three 9 [] none

encode_echo : (encode_request_metadata echo [] none).success ≡ true
unfolding encode_request_metadata encoded_size check_field append_request_metadata total_size
encode_echo = refl

encode-decode_example :
    decode_request_metadata (encode_request_metadata echo [] none).output default_metadata none
    ≡ record { success = true; metadata = echo; error = none }
encode-decode_example = encode-decode echo [] none none default_metadata (omega arith) encode_echo

abbrev bare_envelope : Bytes
bare_envelope =
    b'R' ∷ b'M' ∷ b'1' ∷ 0 ∷ 0 ∷ 0 ∷ 0 ∷ 0 ∷ 0 ∷ 0 ∷ 0 ∷ 9 ∷ 0 ∷ 0 ∷ 0 ∷ 1 ∷ 0 ∷ 0 ∷ 0 ∷ 0 ∷ 0 ∷ 0
    ∷ 0 ∷ 0 ∷ 0 ∷ 0 ∷ 0 ∷ 0 ∷ b'E' ∷ 1 ∷ []

decode_bare : (decode_request_metadata bare_envelope default_metadata none).success ≡ true
unfolding decode_request_metadata has_magic same_bytes get bswap store load sub64
decode_bare = refl

decode_sound_example :
    (rest : Bytes) × (bare_envelope
      ≡ envelope (decode_request_metadata bare_envelope default_metadata none).metadata rest)
    × (fits (decode_request_metadata bare_envelope default_metadata none).metadata ≡ true)
decode_sound_example =
    decode_sound bare_envelope default_metadata none (omega arith) (omega arith) decode_bare
