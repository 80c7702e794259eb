-- ===== src/Protocol/Frame/Header.antt =====
-- The 32 bytes of the fixed header, read back field by field.
use coro_rpc.Base.{
  ◌≡◌, length, get_or, length-append, get_or-append, IsU32, ℕ, ◌+◌, ◌∙◌, ◌∷◌, ◌++◌, append_assoc,
  arith, drop, All, length-take-drop, drop-get_or, IsByte, IsU64, ◌^◌, ◌≤◌, ◌<◌, refl, [],
  All-get_or, sym, ap,
}
use coro_rpc.Protocol.Wire.{
  Bytes, put, get, length-put, get-append, get-put_front, drop-get, get_bound,
}
use coro_rpc.Protocol.Frame.{
  FrameHeader, HeaderInRange, build_header, magic, version, fixed_header_size,
}

module _ (h : FrameHeader) (ms bs : ℕ) where
  pub length-build_header : length (build_header h ms bs) ≡ 32
  unfolding build_header
  length-build_header = omega (
    arith,
    length-append (put 4 magic),
    length-append (put 2 version),
    length-append (put 2 fixed_header_size),
    length-append (put 4 h.flags),
    length-append (put 8 h.request_id),
    length-append (put 4 ms),
    length-put,
  )

module _ (h : FrameHeader) (ms bs : ℕ) (tail : Bytes) where
  -- The header with the bytes that follow it, nested to the right.
  nested : Bytes
  nested =
      put 4 magic
      ++ (put 2 version
          ++ (put 2 fixed_header_size
              ++ (put 4 h.flags
                  ++ (h.message_type
                      ∷ 0
                      ∷ 0
                      ∷ 0
                      ∷ (put 8 h.request_id ++ (put 4 ms ++ (put 4 bs ++ tail)))))))

  nested_lem : build_header h ms bs ++ tail ≡ nested
  unfolding build_header nested
  nested_lem = simp append_assoc

  past_put : (w k v offset : ℕ) (ys : Bytes) → get w (put k v ++ ys) (k + offset) ≡ get w ys offset
  past_put w k v offset ys = get-append w k (put k v) ys offset (length-put k v)

  over_put :
      (k v offset : ℕ) (ys : Bytes) → get_or (put k v ++ ys) (k + offset) 0 ≡ get_or ys offset 0
  over_put k v offset ys = get_or-append k offset (put k v) ys 0 (length-put k v)

  pub header-magic : get 4 (build_header h ms bs ++ tail) 0 ≡ magic
  header-magic = rw nested_lem (unfold nested in get-put_front 4 magic _ (omega arith))

  pub header-version : get 2 (build_header h ms bs ++ tail) 4 ≡ version
  header-version =
      rw nested_lem (unfold nested in past_put 2 4 _ 0 _ ∙ get-put_front 2 version _ (omega arith))

  pub header-size : get 2 (build_header h ms bs ++ tail) 6 ≡ fixed_header_size
  header-size = rw nested_lem (
      unfold nested in
      past_put 2 4 _ 2 _ ∙ past_put 2 2 _ 0 _ ∙ get-put_front 2 fixed_header_size _ (omega arith))

  pub header-flags : IsU32 h.flags → get 4 (build_header h ms bs ++ tail) 8 ≡ h.flags
  header-flags r = rw nested_lem (
      unfold nested in
      past_put 4 4 _ 4 _ ∙ past_put 4 2 _ 2 _ ∙ past_put 4 2 _ 0 _ ∙ get-put_front 4 h.flags _ r)

  pub header-type : get_or (build_header h ms bs ++ tail) 12 0 ≡ h.message_type
  header-type =
      rw nested_lem
        (unfold nested in over_put 4 _ 8 _ ∙ over_put 2 _ 6 _ ∙ over_put 2 _ 4 _ ∙ over_put 4 _ 0 _)

  pub header-reserved :
      (get_or (build_header h ms bs ++ tail) 13 0 ≡ 0)
      × (get_or (build_header h ms bs ++ tail) 14 0 ≡ 0)
      × (get_or (build_header h ms bs ++ tail) 15 0 ≡ 0)
  header-reserved = rw nested_lem (
      unfold nested in
      (
        over_put 4 _ 9 _ ∙ over_put 2 _ 7 _ ∙ over_put 2 _ 5 _ ∙ over_put 4 _ 1 _,
        over_put 4 _ 10 _ ∙ over_put 2 _ 8 _ ∙ over_put 2 _ 6 _ ∙ over_put 4 _ 2 _,
        over_put 4 _ 11 _ ∙ over_put 2 _ 9 _ ∙ over_put 2 _ 7 _ ∙ over_put 4 _ 3 _,
      ))

  past_type : (w k : ℕ) (ys : Bytes) → get w (h.message_type ∷ 0 ∷ 0 ∷ 0 ∷ ys) (4 + k) ≡ get w ys k
  past_type w k ys = get-append w 4 (h.message_type ∷ 0 ∷ 0 ∷ 0 ∷ []) ys k refl

  pub header-request_id :
      IsU64 h.request_id → get 8 (build_header h ms bs ++ tail) 16 ≡ h.request_id
  header-request_id r = rw nested_lem (
      unfold nested in
      past_put 8 4 _ 12 _
      ∙ past_put 8 2 _ 10 _
      ∙ past_put 8 2 _ 8 _
      ∙ past_put 8 4 _ 4 _
      ∙ past_type 8 0 _
      ∙ get-put_front 8 h.request_id _ r)

  pub header-metadata_size : IsU32 ms → get 4 (build_header h ms bs ++ tail) 24 ≡ ms
  header-metadata_size r = rw nested_lem (
      unfold nested in
      past_put 4 4 _ 20 _
      ∙ past_put 4 2 _ 18 _
      ∙ past_put 4 2 _ 16 _
      ∙ past_put 4 4 _ 12 _
      ∙ past_type 4 8 _
      ∙ past_put 4 8 _ 0 _
      ∙ get-put_front 4 ms _ r)

  pub header-body_size : IsU32 bs → get 4 (build_header h ms bs ++ tail) 28 ≡ bs
  header-body_size r = rw nested_lem (
      unfold nested in
      past_put 4 4 _ 24 _
      ∙ past_put 4 2 _ 22 _
      ∙ past_put 4 2 _ 20 _
      ∙ past_put 4 4 _ 16 _
      ∙ past_type 4 12 _
      ∙ past_put 4 8 _ 4 _
      ∙ past_put 4 4 _ 0 _
      ∙ get-put_front 4 bs _ r)

-- The header that stands at the front of some bytes.
abbrev pub read_header : Bytes → FrameHeader
read_header window = record {
  flags = get 4 window 8;
  message_type = get_or window 12 0;
  request_id = get 8 window 16;
}

-- The tests on the bytes that have one value only.
pub record FixedBytes (window : Bytes) : Type 0 where
  pub is_magic : get 4 window 0 ≡ magic
  pub is_version : get 2 window 4 ≡ version
  pub is_size : get 2 window 6 ≡ fixed_header_size
  pub zero_13 : get_or window 13 0 ≡ 0
  pub zero_14 : get_or window 14 0 ≡ 0
  pub zero_15 : get_or window 15 0 ≡ 0

module _ (window : Bytes) (bytes : All IsByte window) (room : 32 ≤ length window) where
  -- A suffix begins with an integer, or a byte, of known value.
  known :
      (w n v : ℕ) → n + w ≤ 32 → get w window n ≡ v → put w v ++ drop (n + w) window ≡ drop n window
  known w n v h e = rw (← e) (sym (drop-get w window n bytes (omega arith)))

  zero_byte : (n : ℕ) → n < 32 → get_or window n 0 ≡ 0 → 0 ∷ drop (n + 1) window ≡ drop n window
  zero_byte n h e =
      sym (drop-get_or n window 0 (omega arith) ∙ ap (λ (b : ℕ). b ∷ drop (n + 1) window) e)

  -- Bytes that pass the tests begin with the header that is read from them.
  pub read_header_lem :
      FixedBytes window
      → window
        ≡ build_header (read_header window) (get 4 window 24) (get 4 window 28) ++ drop 32 window
  read_header_lem f =
      rw (nested_lem (read_header window) (get 4 window 24) (get 4 window 28) (drop 32 window)) (
        unfold nested in
        rw (
          known 4 28 _ (omega arith) refl,
          known 4 24 _ (omega arith) refl,
          known 8 16 _ (omega arith) refl,
          zero_byte 15 (omega arith) f.zero_15,
          zero_byte 14 (omega arith) f.zero_14,
          zero_byte 13 (omega arith) f.zero_13,
          ← drop-get_or 12 window 0 (omega arith),
          known 4 8 _ (omega arith) refl,
          known 2 6 _ (omega arith) f.is_size,
          known 2 4 _ (omega arith) f.is_version,
          known 4 0 _ (omega arith) f.is_magic,
        ))

  field_bound : (w k : ℕ) → k + w ≤ 32 → get w window k < 256 ^ w
  field_bound w k h = get_bound w window k bytes (length-take-drop k w window (omega arith))

  pub read_header-HeaderInRange : HeaderInRange (read_header window)
  read_header-HeaderInRange = record {
    flags_range = field_bound 4 8 (omega arith);
    type_range = All-get_or IsByte 12 window 0 bytes (omega arith);
    id_range = field_bound 8 16 (omega arith);
  }

  pub read_sizes_range : IsU32 (get 4 window 24) × IsU32 (get 4 window 28)
  read_sizes_range = (field_bound 4 24 (omega arith), field_bound 4 28 (omega arith))
