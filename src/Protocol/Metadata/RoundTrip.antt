-- ===== src/Protocol/Metadata/RoundTrip.antt =====
-- The decoder of rpc_metadata.cpp reads back what the encoders write, and nothing else.
use coro_rpc.Base.{
  ◌≡◌, refl, ◌∙◌, true, Option, ◌++◌, ◌+◌, String, arith, length, append_assoc, IsU64,
  length-append, ℕ, IsU32, take, drop, take-drop_field, drop-append_past, sub64_exact, Bool-cases,
  inl, inr, [],
}
use coro_rpc.Protocol.Wire.{Bytes, put, get, length-put, get-append, get-put_front}
use coro_rpc.Protocol.Metadata.{
  encode_request_metadata, RequestMetadata, decode_request_metadata, header_size, metadata_magic,
  has_magic, envelope_header, same_bytes,
}
use coro_rpc.Protocol.Metadata.Envelope.{encode_request_metadata_lem, fits, envelope}

module _ (m : RequestMetadata) (rest : Bytes) where
  envelope-magic : has_magic (envelope m rest) ≡ true
  unfolding has_magic envelope same_bytes
  envelope-magic = refl

  length-envelope_header : length (envelope_header m) ≡ header_size
  unfolding envelope_header
  length-envelope_header = omega (
    arith,
    length-append (put 8 m.timeout_ms) (
        put 4 (length m.service)
        ++ (put 4 (length m.method)
            ++ (put 4 (length m.idempotency_key) ++ put 4 (length m.application_metadata)))),
    length-append (put 4 (length m.service)) (
        put 4 (length m.method)
        ++ (put 4 (length m.idempotency_key) ++ put 4 (length m.application_metadata))),
    length-append (put 4 (length m.method))
        (put 4 (length m.idempotency_key) ++ put 4 (length m.application_metadata)),
    length-append (put 4 (length m.idempotency_key)) (put 4 (length m.application_metadata)),
    length-put,
  )

  past_magic :
      (w offset : ℕ) (ys : Bytes) → get w (metadata_magic ++ ys) (4 + offset) ≡ get w ys offset
  past_magic w offset ys = get-append w 4 metadata_magic ys offset refl

  past_put : (w k v offset : ℕ) (ys : Bytes) → get w (put k v ++ ys) (k + offset) ≡ get w ys offset
  past_put w k v offset ys = get-append w k (put k v) ys offset (length-put k v)

  envelope-timeout : IsU64 m.timeout_ms → get 8 (envelope m rest) 4 ≡ m.timeout_ms
  unfolding envelope
  envelope-timeout h = past_magic 8 0 _ ∙ get-put_front 8 m.timeout_ms _ h

  envelope-service : IsU32 (length m.service) → get 4 (envelope m rest) 12 ≡ length m.service
  unfolding envelope
  envelope-service h = past_magic 4 8 _ ∙ past_put 4 8 _ 0 _ ∙ get-put_front 4 _ _ h

  envelope-method : IsU32 (length m.method) → get 4 (envelope m rest) 16 ≡ length m.method
  unfolding envelope
  envelope-method h =
      past_magic 4 12 _ ∙ past_put 4 8 _ 4 _ ∙ past_put 4 4 _ 0 _ ∙ get-put_front 4 _ _ h

  envelope-key :
      IsU32 (length m.idempotency_key) → get 4 (envelope m rest) 20 ≡ length m.idempotency_key
  unfolding envelope
  envelope-key h =
      past_magic 4 16 _
      ∙ past_put 4 8 _ 8 _
      ∙ past_put 4 4 _ 4 _
      ∙ past_put 4 4 _ 0 _
      ∙ get-put_front 4 _ _ h

  envelope-application :
      IsU32 (length m.application_metadata)
      → get 4 (envelope m rest) 24 ≡ length m.application_metadata
  unfolding envelope
  envelope-application h =
      past_magic 4 20 _
      ∙ past_put 4 8 _ 12 _
      ∙ past_put 4 4 _ 8 _
      ∙ past_put 4 4 _ 4 _
      ∙ past_put 4 4 _ 0 _
      ∙ get-put_front 4 _ _ h

  -- The fields behind the header, each cut out at its offset.
  abbrev fields : Bytes
  fields = m.service ++ (m.method ++ (m.idempotency_key ++ (m.application_metadata ++ rest)))

  envelope-split : envelope m rest ≡ envelope_header m ++ fields
  unfolding envelope envelope_header
  envelope-split = simp append_assoc

  past_header : (k : ℕ) → drop (28 + k) (envelope m rest) ≡ drop k fields
  past_header k =
      rw envelope-split (drop-append_past 28 k (envelope_header m) fields length-envelope_header)

  cut_service : take (length m.service) (drop 28 (envelope m rest)) ≡ m.service
  cut_service =
      rw envelope-split
        (take-drop_field (envelope_header m) m.service _ 28 _ length-envelope_header refl)

  cut_method : take (length m.method) (drop (28 + length m.service) (envelope m rest)) ≡ m.method
  cut_method =
      rw (past_header (length m.service)) (take-drop_field m.service m.method _ _ _ refl refl)

  cut_key :
      take
        (length m.idempotency_key)
        (drop (28 + length m.service + length m.method) (envelope m rest))
      ≡ m.idempotency_key
  cut_key =
      let split : 28 + length m.service + length m.method
          ≡ 28 + (length m.service + length m.method) =
        omega arith in
      rw (split, past_header (length m.service + length m.method))
        (rw (drop-append_past (length m.service) (length m.method) m.service _ refl)
          (take-drop_field m.method m.idempotency_key _ _ _ refl refl))

  cut_application :
      take (length m.application_metadata) (
        drop (28 + length m.service + length m.method + length m.idempotency_key) (envelope m rest))
      ≡ m.application_metadata
  cut_application =
      let split : 28 + length m.service + length m.method + length m.idempotency_key
          ≡ 28 + (length m.service + (length m.method + length m.idempotency_key)) =
        omega arith in
      rw (split, past_header (length m.service + (length m.method + length m.idempotency_key)))
        (rw (drop-append_past (length m.service) _ m.service _ refl) (
          rw (drop-append_past (length m.method) _ m.method _ refl)
            (take-drop_field m.idempotency_key m.application_metadata _ _ _ refl refl)))

  pub length-envelope :
      length (envelope m rest)
      ≡ 28
        + length m.service
        + length m.method
        + length m.idempotency_key
        + length m.application_metadata
        + length rest
  length-envelope = rw envelope-split (
      omega (
        arith,
        length-envelope_header,
        length-append (envelope_header m) fields,
        length-append m.service
            (m.method ++ (m.idempotency_key ++ (m.application_metadata ++ rest))),
        length-append m.method (m.idempotency_key ++ (m.application_metadata ++ rest)),
        length-append m.idempotency_key (m.application_metadata ++ rest),
        length-append m.application_metadata rest,
      ))

-- The decoder reads back every envelope that fits the limits, whatever bytes follow it.
pub decode-envelope :
    (m : RequestMetadata) (rest : Bytes) (into : RequestMetadata) (error : Option String)
    → fits m ≡ true
    → IsU64 m.timeout_ms
    → IsU64 (length (envelope m rest))
    → decode_request_metadata (envelope m rest) into error
      ≡ record { success = true; metadata = m; error = error }
unfolding decode_request_metadata
decode-envelope m rest into error f t l =
    rw
      (
        envelope-service m rest (ground arith),
        envelope-method m rest (ground arith),
        envelope-key m rest (ground arith),
        envelope-application m rest (ground arith),
        envelope-timeout m rest t,
        envelope-magic m rest,
        cut_service m rest,
        cut_method m rest,
        cut_key m rest,
        cut_application m rest,
      )
      (ground (arith, length-envelope m rest, sub64_exact (length (envelope m rest)) header_size))

-- An envelope that `EncodeRequestMetadata` writes is decoded to the metadata it was written from.
pub encode-decode :
    (m : RequestMetadata) (output : Bytes) (e1 e2 : Option String) (into : RequestMetadata)
    → IsU64 m.timeout_ms
    → (encode_request_metadata m output e1).success ≡ true
    → decode_request_metadata (encode_request_metadata m output e1).output into e2
      ≡ record { success = true; metadata = m; error = e2 }
encode-decode m output e1 e2 into t ok = elim (Bool-cases (fits m)) [
  | inl f ↦
      let written : (encode_request_metadata m output e1).output ≡ envelope m [] =
        ground (arith, encode_request_metadata_lem m output e1) in
      rw written (decode-envelope m [] into e2 f t (ground (arith, length-envelope m [])))
  | inr f ↦ absurd (ground (arith, encode_request_metadata_lem m output e1))
]
