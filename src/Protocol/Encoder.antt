-- ===== src/Protocol/Encoder.antt =====
-- `FrameEncoder` of rpc_src/protocol/frame.cpp.
pub mod Laws
use coro_rpc.Base.{
  ℕ, ◌-◌, ◌^◌, ltb, ◌==◌, if◌then◌else◌, true, false, not, ◌||◌, Option, none, some, [], ◌++◌,
  String, length,
}
use coro_rpc.Protocol.Wire.{Bytes}
use coro_rpc.Protocol.MessageType
use coro_rpc.Protocol.Frame.{
  FrameHeader, Frame, is_valid_message_type, lacks_request_id, build_header, set_error, Encoded,
}
use coro_rpc.Protocol.Metadata.{RequestMetadata, encoded_size, append_request_metadata}

abbrev pub max_u32 : ℕ
max_u32 = 2 ^ 32 - 1

-- `FrameEncoder::Encode`.
unfoldable pub encode : Frame → Bytes → Option String → Encoded
encode frame output error =
    if ltb max_u32 (length frame.metadata) || ltb max_u32 (length frame.body)
    then record {
      success = false;
      output = output;
      error = set_error error "frame field exceeds uint32 length";
    }
    else (if not (is_valid_message_type frame.header.message_type)
        then record {
          success = false;
          output = output;
          error = set_error error "invalid frame enum";
        }
        else (if lacks_request_id frame.header
            then record {
              success = false;
              output = output;
              error = set_error error "request and response frames require a request id";
            }
            else record {
              success = true;
              output =
                  build_header frame.header (length frame.metadata) (length frame.body)
                  ++ (frame.metadata ++ frame.body);
              error = error;
            }))

abbrev pub request_header : ℕ → FrameHeader
request_header request_id = record {
  flags = 0;
  message_type = MessageType.request_type;
  request_id = request_id;
}

-- The end of `EncodeRequest`, where the size of the metadata is known.
unfoldable pub finish_request : RequestMetadata → Bytes → ℕ → ℕ → Option String → Encoded
finish_request m body request_id metadata_size error =
    let header = build_header (request_header request_id) metadata_size (length body) in
    let r = append_request_metadata m header error in
    if r.success
    then record { success = true; output = r.output ++ body; error = r.error }
    else record { success = false; output = []; error = r.error }

-- `FrameEncoder::EncodeRequest`.
unfoldable pub encode_request : RequestMetadata → Bytes → ℕ → Bytes → Option String → Encoded
encode_request m body request_id output error =
    let (size, error') = encoded_size m error in
    let too_long = ltb max_u32 (length body) in
    let refused : Encoded = record {
      success = false;
      output = output;
      error = if too_long then set_error error' "frame field exceeds uint32 length" else error';
    } in
    if request_id == 0
    then record {
      success = false;
      output = output;
      error = set_error error "request frames require a request id";
    }
    else elim size [
      | none ↦ refused
      | some metadata_size ↦
          if too_long then refused else finish_request m body request_id metadata_size error'
    ]
