-- ===== src/Protocol/Metadata/Sound.antt =====
-- What the decoder of rpc_metadata.cpp accepts is an envelope that its encoder writes.
use coro_rpc.Base.{
  ◌≡◌, refl, sym, true, ◌++◌, ◌+◌, ◌≤◌, arith, length, All, IsByte, drop, take, take-append-drop,
  drop_split, ℕ, [], ◌∷◌, IsU64, sub64_exact, String, Option, length-take-drop,
}
use coro_rpc.Protocol.Wire.{Bytes, put, get, drop-get}
use coro_rpc.Protocol.Metadata.Envelope.{envelope, fits}
use coro_rpc.Protocol.Metadata.{
  header_size, metadata_magic, has_magic, same_bytes, RequestMetadata, max_field_size,
  decode_request_metadata,
}

pub same_bytes→eq : (xs ys : Bytes) → same_bytes xs ys ≡ true → xs ≡ ys
unfolding same_bytes
same_bytes→eq [] [] e = refl
same_bytes→eq [] (y ∷ ys) e = cc
same_bytes→eq (x ∷ xs) [] e = cc
same_bytes→eq (x ∷ xs) (y ∷ ys) e = ground (arith, same_bytes→eq xs ys)

-- The metadata whose fields the decoder cuts out of an input.
abbrev read_metadata : Bytes → RequestMetadata
read_metadata input = record {
  service = take (get 4 input 12) (drop header_size input);
  method = take (get 4 input 16) (drop (header_size + get 4 input 12) input);
  idempotency_key =
      take (get 4 input 20) (drop (header_size + get 4 input 12 + get 4 input 16) input);
  application_metadata =
      take (get 4 input 24)
        (drop (header_size + get 4 input 12 + get 4 input 16 + get 4 input 20) input);
  timeout_ms = get 8 input 4;
}

-- The tests that an accepted input has passed.
record Accepted (input : Bytes) : Type 0 where
  room : header_size ≤ length input
  magic : has_magic input ≡ true
  service_small : get 4 input 12 ≤ max_field_size
  method_small : get 4 input 16 ≤ max_field_size
  key_small : get 4 input 20 ≤ max_field_size
  application_small : get 4 input 24 ≤ max_field_size
  inside :
      header_size + get 4 input 12 + get 4 input 16 + get 4 input 20 + get 4 input 24 ≤ length input

module _ (input : Bytes) (into : RequestMetadata) (error : Option String) where
  decode-Accepted :
      IsU64 (length input)
      → (decode_request_metadata input into error).success ≡ true
      → Accepted input
  unfolding decode_request_metadata
  decode-Accepted w h = ground (arith, sub64_exact (length input) header_size)

  decode_reads :
      (decode_request_metadata input into error).success ≡ true
      → (decode_request_metadata input into error).metadata ≡ read_metadata input
  unfolding decode_request_metadata
  decode_reads h = ground arith

-- The header of an input that starts with the magic, in terms of the five integers read from it.
module _ (input : Bytes) (bytes : All IsByte input) (room : header_size ≤ length input) where
  header_read :
      has_magic input ≡ true
      → input
        ≡ metadata_magic
          ++ (put 8 (get 8 input 4)
              ++ (put 4 (get 4 input 12)
                  ++ (put 4 (get 4 input 16)
                      ++ (put 4 (get 4 input 20) ++ (put 4 (get 4 input 24) ++ drop 28 input)))))
  unfolding has_magic
  header_read e =
      rw
        (
          ← drop-get 4 input 24 bytes (omega arith),
          ← drop-get 4 input 20 bytes (omega arith),
          ← drop-get 4 input 16 bytes (omega arith),
          ← drop-get 4 input 12 bytes (omega arith),
          ← drop-get 8 input 4 bytes (omega arith),
        )
        (sym
          (rw (sym (same_bytes→eq metadata_magic (take 4 input) e)) at (take-append-drop 4 input)))

  -- The bytes behind the header, cut at the four sizes.
  fields_read :
      (a b c d : ℕ)
      → header_size + a + b + c + d ≤ length input
      → drop header_size input
        ≡ take a (drop header_size input)
          ++ (take b (drop (header_size + a) input)
              ++ (take c (drop (header_size + a + b) input)
                  ++ (take d (drop (header_size + a + b + c) input)
                      ++ drop (header_size + a + b + c + d) input)))
  fields_read a b c d h = rw (
    ← drop_split (header_size + a + b + c) d input,
    ← drop_split (header_size + a + b) c input,
    ← drop_split (header_size + a) b input,
    ← drop_split header_size a input,
  )

  -- The fields have the sizes that the header states.
  record Sizes : Type 0 where
    service_size : length (read_metadata input).service ≡ get 4 input 12
    method_size : length (read_metadata input).method ≡ get 4 input 16
    key_size : length (read_metadata input).idempotency_key ≡ get 4 input 20
    application_size : length (read_metadata input).application_metadata ≡ get 4 input 24

  read_sizes : Accepted input → Sizes
  read_sizes a = record {
    service_size = length-take-drop header_size (get 4 input 12) input (omega arith);
    method_size =
        length-take-drop (header_size + get 4 input 12) (get 4 input 16) input (omega arith);
    key_size =
        length-take-drop (header_size + get 4 input 12 + get 4 input 16) (get 4 input 20) input
          (omega arith);
    application_size =
        length-take-drop (header_size + get 4 input 12 + get 4 input 16 + get 4 input 20)
          (get 4 input 24) input (omega arith);
  }

  read_envelope :
      Accepted input
      → input
        ≡ envelope (read_metadata input) (
            drop
              (header_size + get 4 input 12 + get 4 input 16 + get 4 input 20 + get 4 input 24)
              input)
  unfolding envelope
  read_envelope a =
      let s = read_sizes a in
      rw (s.service_size, s.method_size, s.key_size, s.application_size)
        (rw
          (← fields_read (get 4 input 12) (get 4 input 16) (get 4 input 20) (get 4 input 24)
            a.inside)
          (header_read a.magic))

  read_fits : Accepted input → fits (read_metadata input) ≡ true
  read_fits a = ground (arith, read_sizes a)

-- An input that is accepted is the envelope of the metadata read from it, with any bytes behind; and
-- every field of that metadata is within the limit.
pub decode_sound :
    (input : Bytes) (into : RequestMetadata) (error : Option String)
    → All IsByte input
    → IsU64 (length input)
    → (decode_request_metadata input into error).success ≡ true
    → (rest : Bytes) × (input ≡ envelope (decode_request_metadata input into error).metadata rest)
      × (fits (decode_request_metadata input into error).metadata ≡ true)
decode_sound input into error bytes w h =
    let a = decode-Accepted input into error w h in
    rw (decode_reads input into error h)
      (_, read_envelope input bytes a.room a, read_fits input bytes a.room a)
