-- ===== src/Protocol/Metadata/Envelope.antt =====
-- What the encoders of rpc_metadata.cpp accept and write, and that the decoder reads it back.
use coro_rpc.Base.{
  ◌≡◌, if◌then◌else◌, leb, Bool, true, false, ◌&&◌, Option, none, some, [], ◌++◌, String, arith,
  length, append_assoc, append-nil, sym,
}
use coro_rpc.Protocol.Wire.{Bytes, put}
use coro_rpc.Protocol.Frame.{set_error}
use coro_rpc.Protocol.Metadata.{
  RequestMetadata, metadata_magic, max_field_size, check_field, total_size, encoded_size,
  envelope_header, append_request_metadata, encode_request_metadata,
}

-- Every field is within the limit.
abbrev pub fits : RequestMetadata → Bool
fits m =
    leb (length m.service) max_field_size
    && (leb (length m.method) max_field_size
        && (leb (length m.idempotency_key) max_field_size
            && leb (length m.application_metadata) max_field_size))

-- The size is refused where a field is over the limit, and for no other reason: with the four checks
-- behind it, the test against `uint32_t` cannot fail.
pub encoded_size-fits :
    (m : RequestMetadata) (error : Option String)
    → encoded_size m error ≡ (
        if fits m
        then (some (total_size m), error)
        else (none, set_error error "metadata field exceeds limit"))
unfolding encoded_size check_field total_size
encoded_size-fits m error = ground arith

-- The envelope as a run of bytes, nested to the right.
unfoldable pub envelope : RequestMetadata → Bytes → Bytes
envelope m rest =
    metadata_magic
    ++ (put 8 m.timeout_ms
        ++ (put 4 (length m.service)
            ++ (put 4 (length m.method)
                ++ (put 4 (length m.idempotency_key)
                    ++ (put 4 (length m.application_metadata)
                        ++ (m.service
                            ++ (m.method
                                ++ (m.idempotency_key ++ (m.application_metadata ++ rest)))))))))

envelope-append :
    (m : RequestMetadata) (rest : Bytes)
    → envelope_header m
        ++ (m.service ++ (m.method ++ (m.idempotency_key ++ m.application_metadata)))
        ++ rest
      ≡ envelope m rest
unfolding envelope envelope_header
envelope-append m rest = simp append_assoc

-- What `AppendRequestMetadata` does, on every input.
pub append_request_metadata_lem :
    (m : RequestMetadata) (output : Bytes) (error : Option String)
    → append_request_metadata m output error ≡ (
        if fits m
        then record { success = true; output = output ++ envelope m []; error = error }
        else record {
          success = false;
          output = output;
          error = set_error error "metadata field exceeds limit";
        })
unfolding append_request_metadata
append_request_metadata_lem m output error = ground (arith, encoded_size-fits m error, whole)
  where
    whole :
        envelope_header m
          ++ (m.service ++ (m.method ++ (m.idempotency_key ++ m.application_metadata)))
        ≡ envelope m []
    whole = rw (← envelope-append m []) (sym (append-nil _))

pub encode_request_metadata_lem :
    (m : RequestMetadata) (output : Bytes) (error : Option String)
    → encode_request_metadata m output error ≡ (
        if fits m
        then record { success = true; output = envelope m []; error = error }
        else record {
          success = false;
          output = output;
          error = set_error error "metadata field exceeds limit";
        })
unfolding encode_request_metadata
encode_request_metadata_lem m output error =
    ground (arith, encoded_size-fits m error, append_request_metadata_lem m [] error)
