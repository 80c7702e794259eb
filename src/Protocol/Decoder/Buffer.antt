-- ===== src/Protocol/Decoder/Buffer.antt =====
-- The buffer of the frame decoder: its bounds, and what each write and each move does to the unread
-- bytes.
use coro_rpc.Base.{
  ◌≡◌, length, drop, length-drop, IsU32, IsU64, ℕ, ◌+◌, ◌≤◌, true, arith, sub64_exact, add64_exact,
  ◌<◌, false, ◌-◌, ◌⊎◌, inl, inr, take, ◌∙◌, ◌≢◌, some, ◌++◌, length-append, length-take,
  drop-append_inside, ◌==◌, if◌then◌else◌, Bool-cases, refl, sym, ap, [], append-nil, ==_iff,
}
use coro_rpc.Protocol.Wire.{Bytes}
use coro_rpc.Protocol.Frame.{fixed_header_size}
use coro_rpc.Protocol.Decoder.{
  FrameLimits, Decoder, init, fail, compact_buffer, ensure_writable, make_room, failed, feed,
  need_more, protocol_error, prepare_writable, commit_writable,
}

-- The ranges of the limits in C++.
pub record LimitsInRange (l : FrameLimits) : Type 0 where
  pub metadata_range : IsU32 l.max_metadata_size
  pub body_range : IsU32 l.max_body_size
  pub buffer_range : IsU64 l.max_buffer_size

-- The buffer lies within its capacity, the capacity within the limit, and a prepared write within the
-- capacity; the limit leaves room for the largest frame.
pub record Valid (d : Decoder) : Type 0 where
  pub ranges : LimitsInRange d.limits
  pub one_frame :
      fixed_header_size + d.limits.max_metadata_size + d.limits.max_body_size
      ≤ d.limits.max_buffer_size
  pub offset_in : d.read_offset ≤ length d.buffer
  pub prepared_in : length d.buffer + d.prepared_size ≤ d.capacity
  pub capacity_in : d.capacity ≤ d.limits.max_buffer_size

abbrev pub unread : Decoder → Bytes
unread d = drop d.read_offset d.buffer

pub init-Valid : (l : FrameLimits) → LimitsInRange l → Valid (init l)
unfolding init
init-Valid l r = ground arith

pub compact_buffer-Valid : (d : Decoder) → Valid d → d.prepared_size ≡ 0 → Valid (compact_buffer d)
unfolding compact_buffer
compact_buffer-Valid d v p = ground (arith, length-drop d.read_offset d.buffer)

pub unread-compact_buffer : (d : Decoder) → unread (compact_buffer d) ≡ unread d
unfolding compact_buffer
unread-compact_buffer d = ground arith

-- The decoder `e` that a write leaves: `d` with its unread bytes moved or given more room.
pub record Roomy (d e : Decoder) (size : ℕ) : Type 0 where
  pub still_valid : Valid e
  pub same_unread : unread e ≡ unread d
  pub room : length e.buffer + size ≤ e.capacity
  pub kept : e ≡ record d { buffer = e.buffer; capacity = e.capacity; read_offset = e.read_offset }

ensure_writable_grows :
    (d : Decoder) (size : ℕ)
    → Valid d
    → d.prepared_size ≡ 0
    → length d.buffer + size ≤ d.limits.max_buffer_size
    → ((ensure_writable d size).1 ≡ true) × Roomy d (ensure_writable d size).0 size
unfolding ensure_writable
ensure_writable_grows d size v p h =
    let exact =
      sub64_exact d.limits.max_buffer_size (length d.buffer) (omega arith) v.ranges.buffer_range in
    let sum = add64_exact (length d.buffer) size (omega arith) in ground (arith, exact, sum)

ensure_writable_fails :
    (d : Decoder) (size : ℕ)
    → Valid d
    → d.limits.max_buffer_size < length d.buffer + size
    → ensure_writable d size ≡ (fail d "decoder buffer limit exceeded", false)
unfolding ensure_writable
ensure_writable_fails d size v h = ground (
  arith,
  sub64_exact d.limits.max_buffer_size (length d.buffer) (omega arith) v.ranges.buffer_range,
)

length-unread : (d : Decoder) → length (unread d) ≡ length d.buffer - d.read_offset
length-unread d = length-drop d.read_offset d.buffer

-- Compaction leaves the unread bytes, at the front.
length-compact_buffer : (d : Decoder) → length (compact_buffer d).buffer ≡ length (unread d)
unfolding compact_buffer
length-compact_buffer d = ground arith

compact_buffer_kept :
    (d : Decoder)
    → compact_buffer d ≡ record d {
      buffer = (compact_buffer d).buffer;
      capacity = (compact_buffer d).capacity;
      read_offset = (compact_buffer d).read_offset;
    }
unfolding compact_buffer
compact_buffer_kept d = ground arith

-- A write that does not fit behind the buffer is preceded by a compaction.
make_room_cases :
    (d : Decoder) (size : ℕ)
    → Valid d
    → d.prepared_size ≡ 0
    → ((make_room d size ≡ d) × (length d.buffer + size ≤ d.capacity))
      ⊎ (make_room d size ≡ compact_buffer d)
unfolding make_room
make_room_cases d size v p = ground (
  arith,
  sub64_exact d.capacity (length d.buffer) (omega arith) (omega (arith, v.ranges.buffer_range)),
)

Roomy-compact_buffer : (d e : Decoder) (size : ℕ) → Roomy (compact_buffer d) e size → Roomy d e size
Roomy-compact_buffer d e size r = record {
  still_valid = r.still_valid;
  same_unread = r.same_unread ∙ unread-compact_buffer d;
  room = r.room;
  kept = ground (arith, r.kept, compact_buffer_kept d);
}

-- The fields that compaction leaves alone.
compact_buffer_fields :
    (d : Decoder)
    → ((compact_buffer d).prepared_size ≡ d.prepared_size) × ((compact_buffer d).limits ≡ d.limits)
unfolding compact_buffer
compact_buffer_fields d = ground arith

module _ (d : Decoder) (size : ℕ) (v : Valid d) (p : d.prepared_size ≡ 0) where
  -- Where the unread bytes and the new ones are within the limit, the write has room.
  pub write_has_room :
      length (unread d) + size ≤ d.limits.max_buffer_size
      → ((ensure_writable (make_room d size) size).1 ≡ true)
        × Roomy d (ensure_writable (make_room d size) size).0 size
  write_has_room h = elim (make_room_cases d size v p) [
    | inl (e, fits) ↦ rw e (ensure_writable_grows d size v p (omega arith))
    | inr e ↦
        let (same_prepared, same_limits) = compact_buffer_fields d in
        let c = compact_buffer d in
        let fits : length c.buffer + size ≤ c.limits.max_buffer_size =
          rw same_limits (omega (arith, length-compact_buffer d)) in
        let (ok, r) =
          ensure_writable_grows c size (compact_buffer-Valid d v p) (same_prepared ∙ p) fits in
        rw e (ok, Roomy-compact_buffer d _ size r)
  ]

  -- Where they are not, it fails.
  pub write_lacks_room :
      d.limits.max_buffer_size < length (unread d) + size
      → (ensure_writable (make_room d size) size).1 ≡ false
  write_lacks_room h = elim (make_room_cases d size v p) [
    | inl (e, fits) ↦ absurd (omega (arith, length-unread d))
    | inr e ↦
        let (same_prepared, same_limits) = compact_buffer_fields d in
        let c = compact_buffer d in
        let over : c.limits.max_buffer_size < length c.buffer + size =
          rw same_limits (omega (arith, length-compact_buffer d)) in
        rw (e, ensure_writable_fails c size (compact_buffer-Valid d v p) over)
  ]

-- A call that appends bytes: `more` are behind the unread ones, and nothing else changes.
pub record Appended (d e : Decoder) (more : Bytes) : Type 0 where
  pub still_valid : Valid e
  pub idle : e.prepared_size ≡ 0
  pub more_unread : unread e ≡ unread d ++ more
  pub kept : e ≡ record d {
    buffer = e.buffer;
    capacity = e.capacity;
    read_offset = e.read_offset;
    prepared_size = 0;
  }

Appended-Roomy :
    (d e : Decoder) (bytes : Bytes) (size n : ℕ)
    → Roomy d e size
    → n ≤ size
    → n ≤ length bytes
    → Appended d (record e { buffer = e.buffer ++ take n bytes; prepared_size = 0 }) (take n bytes)
Appended-Roomy d e bytes size n r h l =
    let sum = length-append e.buffer (take n bytes) in
    let cut = length-take n bytes in
    record {
      still_valid = record {
        ranges = r.still_valid.ranges;
        one_frame = r.still_valid.one_frame;
        offset_in = omega (arith, r.still_valid, sum);
        prepared_in = omega (arith, r.room, sum, cut);
        capacity_in = r.still_valid.capacity_in;
      };
      idle = refl;
      more_unread =
          drop-append_inside e.read_offset e.buffer (take n bytes) r.still_valid.offset_in
          ∙ ap (λ (xs : Bytes). xs ++ take n bytes) r.same_unread;
      kept = ground (arith, r.kept);
    }

Appended-nil : (d : Decoder) → Valid d → d.prepared_size ≡ 0 → Appended d d []
Appended-nil d v p = record {
  still_valid = v;
  idle = p;
  more_unread = sym (append-nil (unread d));
  kept = ground arith;
}

module _ (d : Decoder) (bytes : Bytes) (size : ℕ) (v : Valid d) (p : d.prepared_size ≡ 0) where
  -- `Feed` of a buffer, by its tests.
  feed_tests :
      d.state ≢ failed
      → feed d (some bytes) size ≡ (
          if size == 0
          then (d, need_more)
          else (if (ensure_writable (make_room d size) size).1
              then (
                record (ensure_writable (make_room d size) size).0 {
                  buffer = (ensure_writable (make_room d size) size).0.buffer ++ take size bytes;
                },
                need_more,
              )
              else ((ensure_writable (make_room d size) size).0, protocol_error)))
  unfolding feed
  feed_tests s = ground arith

  -- `Feed` appends the first `size` bytes of its input where they fit the limit with the unread ones,
  -- keeps the buffer's bounds and leaves the rest of the decoder alone.
  pub feed_appends :
      d.state ≢ failed
      → size ≤ length bytes
      → length (unread d) + size ≤ d.limits.max_buffer_size
      → ((feed d (some bytes) size).1 ≡ need_more)
        × Appended d (feed d (some bytes) size).0 (take size bytes)
  feed_appends s l h = elim (Bool-cases (size == 0)) [
    | inl none_given ↦
        rw (feed_tests s, none_given, (==_iff size 0).0 none_given) (refl, Appended-nil d v p)
    | inr some_given ↦
        let (ok, r) = write_has_room d size v p h in
        let e = (ensure_writable (make_room d size) size).0 in
        let e_idle : e.prepared_size ≡ 0 = ap (λ (x : Decoder). x.prepared_size) r.kept ∙ p in
        let bytes' = e.buffer ++ take size bytes in
        let same : record e { buffer = bytes'; prepared_size = 0 } ≡ record e { buffer = bytes' } =
          ground arith in
        rw (feed_tests s, some_given, ok)
          (refl, rw same at (Appended-Roomy d e bytes size size r (omega arith) l))
  ]

  -- Where some bytes are given and do not fit the limit with the unread ones, `Feed` reports a
  -- protocol error.
  feed_refuses :
      d.state ≢ failed
      → 0 < size
      → d.limits.max_buffer_size < length (unread d) + size
      → (feed d (some bytes) size).1 ≡ protocol_error
  feed_refuses s n h = rw (feed_tests s) (ground (arith, write_lacks_room d size v p h))

-- A write into the prepared region.
module _ (d : Decoder) (size : ℕ) (v : Valid d) (p : d.prepared_size ≡ 0) where
  prepare_tests :
      d.state ≢ failed
      → 0 < size
      → prepare_writable d size ≡ (
          if (ensure_writable (make_room d size) size).1
          then (record (ensure_writable (make_room d size) size).0 { prepared_size = size }, true)
          else ((ensure_writable (make_room d size) size).0, false))
  unfolding prepare_writable
  prepare_tests s n = ground arith

  -- `PrepareWritable` gives a region where the unread bytes and the region are within the limit; the
  -- commit of `n` bytes then appends the first `n` that the caller has written there, keeps the
  -- buffer's bounds and leaves the rest of the decoder alone.
  pub prepare-commit :
      (written : Bytes) (n : ℕ)
      → d.state ≢ failed
      → 0 < size
      → n ≤ size
      → n ≤ length written
      → length (unread d) + size ≤ d.limits.max_buffer_size
      → ((prepare_writable d size).1 ≡ true)
        × ((commit_writable (prepare_writable d size).0 written n).1 ≡ need_more)
        × Appended d (commit_writable (prepare_writable d size).0 written n).0 (take n written)
  unfolding commit_writable
  prepare-commit written n s pos le l h =
      let (ok, r) = write_has_room d size v p h in
      let e = (ensure_writable (make_room d size) size).0 in
      let a = Appended-Roomy d e written size n r le l in
      rw (prepare_tests s pos, ok) (refl, ground arith, ground (arith, a))

  -- Where the unread bytes and a region of some bytes exceed the limit, `PrepareWritable` returns the null pointer.
  prepare_refuses :
      d.state ≢ failed
      → 0 < size
      → d.limits.max_buffer_size < length (unread d) + size
      → (prepare_writable d size).1 ≡ false
  prepare_refuses s n h = rw (prepare_tests s n) (ground (arith, write_lacks_room d size v p h))
