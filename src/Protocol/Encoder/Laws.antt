-- ===== src/Protocol/Encoder/Laws.antt =====
-- What `FrameEncoder` accepts and writes.
use coro_rpc.Base.{
  ◌≡◌, length, leb, if◌then◌else◌, ℕ, String, Bool, not, ◌&&◌, Option, [], ◌++◌, arith,
  append_assoc,
}
use coro_rpc.Protocol.Wire.{Bytes}
use coro_rpc.Protocol.Frame.{Frame, is_valid_message_type, lacks_request_id, build_header}
use coro_rpc.Protocol.Metadata.{RequestMetadata, total_size}
use coro_rpc.Protocol.Metadata.Envelope.{
  fits, envelope, encoded_size-fits, append_request_metadata_lem,
}
use coro_rpc.Protocol.Metadata.RoundTrip.{length-envelope}
use coro_rpc.Protocol.Encoder.{max_u32, encode, encode_request, finish_request, request_header}

-- The frames that the encoder accepts, and their bytes.
abbrev pub encodable : Frame → Bool
encodable frame =
    leb (length frame.metadata) max_u32
    && (leb (length frame.body) max_u32
        && (is_valid_message_type frame.header.message_type && not (lacks_request_id frame.header)))

unfoldable pub wire : Frame → Bytes
wire frame =
    build_header frame.header (length frame.metadata) (length frame.body)
    ++ (frame.metadata ++ frame.body)

-- `Encode` succeeds on exactly the encodable frames; then the output is the frame's bytes, and
-- otherwise it is left as it was.
pub encode_lem :
    (frame : Frame) (output : Bytes) (error : Option String)
    → ((encode frame output error).success ≡ encodable frame)
      × ((encode frame output error).output ≡ (if encodable frame then wire frame else output))
unfolding encode wire
encode_lem frame output error = ground arith

-- The frame that `EncodeRequest` stands for.
abbrev pub request_frame : RequestMetadata → Bytes → ℕ → Frame
request_frame m body request_id = record {
  header = request_header request_id;
  metadata = envelope m [];
  body = body;
}

-- `EncodeRequest` succeeds where the metadata fits its limits and `Encode` accepts the frame around the
-- encoded metadata; it then writes the same bytes as `Encode`, and otherwise keeps the output.
pub encode_request_lem :
    (m : RequestMetadata) (body : Bytes) (request_id : ℕ) (output : Bytes) (error : Option String)
    → ((encode_request m body request_id output error).success
        ≡ (fits m && (encode (request_frame m body request_id) output error).success))
      × ((encode_request m body request_id output error).output ≡ (
          if fits m
          then (encode (request_frame m body request_id) output error).output
          else output))
unfolding encode_request finish_request encode is_valid_message_type lacks_request_id
encode_request_lem m body request_id output error =
    let size : total_size m ≡ length (envelope m []) =
      unfold total_size in omega (arith, length-envelope m []) in
    let header = build_header (request_header request_id) (total_size m) (length body) in
    ground (
      arith,
      encoded_size-fits m error,
      append_request_metadata_lem m header error,
      length-envelope m [],
      size,
      append_assoc header (envelope m []) body,
    )
