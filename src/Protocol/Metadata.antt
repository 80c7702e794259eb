-- ===== src/Protocol/Metadata.antt =====
-- rpc_src/protocol/rpc_metadata.cpp: the request metadata envelope.
pub mod Envelope
pub mod RoundTrip
pub mod Sound
use coro_rpc.Base.{
  ℕ, ◌+◌, ◌*◌, ◌^◌, ◌-◌, ltb, leb, ◌==◌, if◌then◌else◌, Bool, true, false, not, ◌&&◌, ◌||◌, Option,
  none, some, [], ◌∷◌, ◌++◌, String, length, take, drop, sub64,
}
use coro_rpc.Protocol.Wire.{Bytes, put, get}
use coro_rpc.Protocol.Frame.{set_error, Encoded}

abbrev pub metadata_magic : Bytes
metadata_magic = b'R' ∷ b'M' ∷ b'1' ∷ 0 ∷ []

abbrev pub header_size : ℕ
header_size = 4 + 8 + 4 * 4

abbrev pub max_field_size : ℕ
max_field_size = 64 * 1024

-- `RequestMetadata` and `RequestMetadataView`.
pub record RequestMetadata : Type 0 where
  pub service : Bytes
  pub method : Bytes
  pub idempotency_key : Bytes
  pub application_metadata : Bytes
  pub timeout_ms : ℕ

abbrev pub default_metadata : RequestMetadata
default_metadata = record {
  service = [];
  method = [];
  idempotency_key = [];
  application_metadata = [];
  timeout_ms = 0;
}

-- `CheckField`: the test, and `*error` behind it.
unfoldable pub check_field : Bytes → Option String → Bool × Option String
check_field value error =
    if leb (length value) max_field_size
    then (true, error)
    else (false, set_error error "metadata field exceeds limit")

unfoldable pub total_size : RequestMetadata → ℕ
total_size m =
    header_size
    + length m.service
    + length m.method
    + length m.idempotency_key
    + length m.application_metadata

-- `RequestMetadataEncodedSize`: `some size` where it returns true. The four checks stop at the first
-- that fails.
unfoldable pub encoded_size : RequestMetadata → Option String → Option ℕ × Option String
encoded_size m error =
    let (service_ok, e1) = check_field m.service error in
    let (method_ok, e2) = check_field m.method e1 in
    let (key_ok, e3) = check_field m.idempotency_key e2 in
    let (application_ok, e4) = check_field m.application_metadata e3 in
    if not service_ok
    then (none, e1)
    else (if not method_ok
        then (none, e2)
        else (if not key_ok
            then (none, e3)
            else (if not application_ok
                then (none, e4)
                else (if ltb (2 ^ 32 - 1) (total_size m)
                    then (none, set_error e4 "metadata exceeds protocol limit")
                    else (some (total_size m), e4)))))

-- The envelope that `AppendRequestMetadata` appends: the 28 bytes of its header and the four fields.
unfoldable pub envelope_header : RequestMetadata → Bytes
envelope_header m =
    metadata_magic
    ++ (put 8 m.timeout_ms
        ++ (put 4 (length m.service)
            ++ (put 4 (length m.method)
                ++ (put 4 (length m.idempotency_key) ++ put 4 (length m.application_metadata)))))

unfoldable pub append_request_metadata : RequestMetadata → Bytes → Option String → Encoded
append_request_metadata m output error =
    let (size, error') = encoded_size m error in
    elim size [
      | none ↦ record { success = false; output = output; error = error' }
      | some _ ↦ record {
        success = true;
        output =
            output
            ++ (envelope_header m
                ++ (m.service ++ (m.method ++ (m.idempotency_key ++ m.application_metadata))));
        error = error';
      }
    ]

-- `EncodeRequestMetadata`.
unfoldable pub encode_request_metadata : RequestMetadata → Bytes → Option String → Encoded
encode_request_metadata m output error =
    let (size, error') = encoded_size m error in
    elim size [
      | none ↦ record { success = false; output = output; error = error' }
      | some _ ↦ append_request_metadata m [] error'
    ]

-- `std::char_traits<char>::compare` of two runs of one length, as a test for equality.
unfoldable pub same_bytes : Bytes → Bytes → Bool
same_bytes [] [] = true
same_bytes [] (y ∷ ys) = false
same_bytes (x ∷ xs) [] = false
same_bytes (x ∷ xs) (y ∷ ys) = (x == y) && same_bytes xs ys

unfoldable pub has_magic : Bytes → Bool
has_magic input = same_bytes metadata_magic (take 4 input)

-- What the decoder leaves behind: its result, `metadata` and `*error`.
pub record Decoded : Type 0 where
  pub success : Bool
  pub metadata : RequestMetadata
  pub error : Option String

-- `DecodeRequestMetadataView`, and `DecodeRequestMetadata`, which copies its views.
unfoldable pub decode_request_metadata : Bytes → RequestMetadata → Option String → Decoded
decode_request_metadata input metadata error =
    let service_size = get 4 input 12 in
    let method_size = get 4 input 16 in
    let key_size = get 4 input 20 in
    let application_size = get 4 input 24 in
    let fields_size = service_size + method_size + key_size + application_size in
    if ltb (length input) header_size || not (has_magic input)
    then record {
      success = false;
      metadata = metadata;
      error = set_error error "missing RPC metadata envelope";
    }
    else (if ltb max_field_size service_size
          || (ltb max_field_size method_size
              || (ltb max_field_size key_size
                  || (ltb max_field_size application_size
                      || ltb (sub64 (length input) header_size) fields_size)))
        then record {
          success = false;
          metadata = metadata;
          error = set_error error "invalid RPC metadata envelope";
        }
        else record {
          success = true;
          metadata = record {
            service = take service_size (drop header_size input);
            method = take method_size (drop (header_size + service_size) input);
            idempotency_key = take key_size (drop (header_size + service_size + method_size) input);
            application_metadata =
                take application_size
                  (drop (header_size + service_size + method_size + key_size) input);
            timeout_ms = get 8 input 4;
          };
          error = error;
        })
