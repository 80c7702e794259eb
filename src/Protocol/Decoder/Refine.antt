-- ===== src/Protocol/Decoder/Refine.antt =====
-- The decoder implements the parser of frame streams: `next` answers what the parser finds at the
-- front of the bytes received since the last frame.
use native.Mathlib.Nat.{add_assoc}
use mathlib.Core.Bool.{false≢true}
use mathlib.Core.Path.{subst}
use coro_rpc.Protocol.Frame.Header.{
  length-build_header, read_header-HeaderInRange, read_header_lem, read_header,
}
use coro_rpc.Base.{
  ◌≡◌, All, ltb, if◌then◌else◌, IsByte, Option, some, [], ◌++◌, length, length-drop, sub64_exact, ℕ,
  suc, arith, take, drop, length-append, drop-append, drop-append_past, Bool-cases, ◌+◌, sym, ap,
  ◌∙◌, inl, inr, Bool, drop-drop, refl, true, false, All-drop, ltb→lt, ◌≤◌,
}
use coro_rpc.Protocol.Wire.{Bytes}
use coro_rpc.Protocol.Frame.{HeaderInRange, build_header}
use coro_rpc.Protocol.Decoder.{
  Decoder, State, read_fixed_header, read_metadata, failed, Polled, more_needed, ready, invalid,
  readable_bytes, take_frame, decode_header, next_loop, next, FrameLimits, FrameHeader, get,
}
use coro_rpc.Protocol.Decoder.Buffer.{Valid, unread}
use coro_rpc.Protocol.Decoder.Headers.{
  Acceptable, decode_header_accepts, decode_header_inverts, header_taken, decode_header_refuses,
}
use coro_rpc.Protocol.Decoder.Spec.Laws.{parse_bad, tests_passed, tests-header_ok, parse_short}
use coro_rpc.Protocol.Decoder.Spec.{
  Parsed, incomplete, item, bad, parse, header_ok, SizesInRange, announces, header_ok-build_header,
}

-- The bytes of a header that has been decoded and whose frame has not.
abbrev pub held : State → Decoder → Bytes
held read_fixed_header d = []
held read_metadata d = build_header d.pending_header d.pending_metadata_size d.pending_body_size
held failed d = []

-- The bytes received since the last frame.
abbrev pub stream : Decoder → Bytes
stream d = held d.state d ++ unread d

-- A decoded header has passed the tests.
pub record Held (d : Decoder) : Type 0 where
  pub in_range : HeaderInRange d.pending_header
  pub acceptable : Acceptable d.limits d.pending_header d.pending_metadata_size d.pending_body_size

abbrev pub HeldIn : State → Decoder → Type 0
HeldIn read_fixed_header d = Unit {0}
HeldIn read_metadata d = Held d
HeldIn failed d = ⊥

-- The invariant of a decoder that has not failed.
pub record Running (d : Decoder) : Type 0 where
  pub valid : Valid d
  pub holds : HeldIn d.state d
  pub bytes : All IsByte (unread d)

-- What `next` never changes.
abbrev pub Same : Decoder → Decoder → Type 0
Same e d = (e.limits ≡ d.limits) × (e.prepared_size ≡ d.prepared_size)

-- The answer of `next` for each result of the parser.
abbrev pub Answers : Decoder → Parsed → Option (Decoder × Polled) → Type 0
Answers d incomplete out =
    (e : Decoder) × (out ≡ some (e, more_needed)) × Running e × (stream e ≡ stream d) × Same e d
Answers d (item f rest) out =
    (e : Decoder) × (out ≡ some (e, ready f)) × Running e × (stream e ≡ rest) × Same e d
Answers d bad out = (e : Decoder) × (out ≡ some (e, invalid)) × (e.state ≡ failed)

-- One call of `next` in each state.
next_in_header :
    (d : Decoder)
    → d.state ≡ read_fixed_header
    → next d ≡ (
        if ltb (readable_bytes d) 32
        then some (d, more_needed)
        else (if (decode_header d).1
            then next_loop 1 (decode_header d).0
            else some ((decode_header d).0, invalid)))
unfolding next next_loop
next_in_header d e = ground arith

next_in_metadata :
    (d : Decoder) → d.state ≡ read_metadata → (n : ℕ) → next_loop (suc n) d ≡ some (take_frame d)
unfolding next_loop
next_in_metadata d e n = ground arith

next_waiting : (d : Decoder) → d.state ≡ read_metadata → next d ≡ some (take_frame d)
unfolding next
next_waiting d e = next_in_metadata d e 1

readable-unread : (d : Decoder) → Valid d → readable_bytes d ≡ length (unread d)
unfolding readable_bytes
readable-unread d v = omega (
  arith,
  sub64_exact (length d.buffer) d.read_offset v.offset_in (omega (arith, v.ranges.buffer_range)),
  length-drop d.read_offset d.buffer,
)

-- The parser on bytes that begin with a header that was accepted.
parse_held :
    (l : FrameLimits) (h : FrameHeader) (ms bs : ℕ) (tail : Bytes)
    → SizesInRange l
    → HeaderInRange h
    → Acceptable l h ms bs
    → parse l (build_header h ms bs ++ tail) ≡ (
        if ltb (length tail) (ms + bs)
        then incomplete
        else item
            (record { header = h; metadata = take ms tail; body = take bs (drop ms tail) })
            (drop (ms + bs) tail))
unfolding parse
parse_held l h ms bs tail u r a =
    let n = announces h ms bs tail r (omega (arith, a)) (omega (arith, a)) in
    let front = length-build_header h ms bs in
    rw (header_ok-build_header l h ms bs tail u r a, n.metadata_size_read, n.body_size_read)
      (ground (
        arith,
        n.header_read,
        length-append (build_header h ms bs) tail,
        front,
        drop-append 32 (build_header h ms bs) tail front,
        drop-append_past 32 ms (build_header h ms bs) tail front,
        drop-append_past 32 (ms + bs) (build_header h ms bs) tail front,
        add_assoc 32 ms bs,
      ))

-- A header is accepted by the decoder where the parser accepts it.
decode_header-header_ok : (d : Decoder) → (decode_header d).1 ≡ header_ok d.limits (unread d)
decode_header-header_ok d = elim (Bool-cases (header_ok d.limits (unread d))) [
  | inl ok ↦
      let (f, a) = tests_passed d.limits (unread d) ok in
      rw ok (ap (λ (x : Decoder × Bool). x.1) (decode_header_accepts d f a))
  | inr refused ↦ rw refused (elim (Bool-cases (decode_header d).1) [
    | inl taken ↦
        let (f, a) = decode_header_inverts d taken in
        absurd (false≢true (sym refused ∙ tests-header_ok d.limits (unread d) f a))
    | inr e ↦ e
  ])
]

-- The frame that `take_frame` hands out, in terms of the unread bytes.
module _ (d : Decoder) (v : Valid d) (h : Held d) (b : All IsByte (unread d))
    (e : d.state ≡ read_metadata) where
  stream_held :
      stream d
      ≡ build_header d.pending_header d.pending_metadata_size d.pending_body_size ++ unread d
  stream_held = ground arith

  sizes : SizesInRange d.limits
  sizes = record { metadata_u32 = v.ranges.metadata_range; body_u32 = v.ranges.body_range }

  as_held : HeldIn d.state d
  as_held = subst (λ s. HeldIn s d) (sym e) h

  -- The decoder behind the frame.
  abbrev behind : Decoder
  behind = record d {
    read_offset = d.read_offset + d.pending_metadata_size + d.pending_body_size;
    state = read_fixed_header;
  }

  take_frame_waits :
      ltb (length (unread d)) (d.pending_metadata_size + d.pending_body_size) ≡ true
      → take_frame d ≡ (d, more_needed)
  unfolding take_frame
  take_frame_waits short = rw (readable-unread d v, short)

  take_frame_ready :
      ltb (length (unread d)) (d.pending_metadata_size + d.pending_body_size) ≡ false
      → take_frame d ≡ (
        behind,
        ready (record {
          header = d.pending_header;
          metadata = take d.pending_metadata_size (unread d);
          body = take d.pending_body_size (drop d.pending_metadata_size (unread d));
        }),
      )
  unfolding take_frame
  take_frame_ready enough =
      rw (readable-unread d v, enough, drop-drop d.pending_metadata_size d.read_offset d.buffer)

  abbrev total : ℕ
  total = d.pending_metadata_size + d.pending_body_size

  unread_behind : unread behind ≡ drop total (unread d)
  unread_behind =
      let at : d.read_offset + d.pending_metadata_size + d.pending_body_size
          ≡ d.read_offset + total =
        add_assoc _ _ _ in
      ap (λ (n : ℕ). drop n d.buffer) at ∙ sym (drop-drop total d.read_offset d.buffer)

  behind-Running :
      ltb (length (unread d)) (d.pending_metadata_size + d.pending_body_size) ≡ false
      → Running behind
  behind-Running enough = record {
    valid = record {
      ranges = v.ranges;
      one_frame = v.one_frame;
      offset_in = ground (arith, length-drop d.read_offset d.buffer);
      prepared_in = v.prepared_in;
      capacity_in = v.capacity_in;
    };
    holds = tt;
    bytes = rw (unread_behind) (All-drop IsByte total (unread d) b);
  }

  take_frame-Answers : Answers d (parse d.limits (stream d)) (some (take_frame d))
  take_frame-Answers = rw stream_held (
      rw (parse_held d.limits _ _ _ (unread d) sizes h.in_range h.acceptable)
        (elim (Bool-cases
          (ltb (length (unread d)) (d.pending_metadata_size + d.pending_body_size))) [
            | inl short ↦ rw short (
              d,
              ap some (take_frame_waits short),
              record { valid = v; holds = as_held; bytes = b },
              refl,
              (refl, refl),
            )
            | inr enough ↦ rw enough (
              behind,
              ap some (take_frame_ready enough),
              behind-Running enough,
              unread_behind,
              (refl, refl),
            )
          ]))

Answers-Same :
    (d e : Decoder) (r : Parsed) (out : Option (Decoder × Polled))
    → stream d ≡ stream e
    → Same d e
    → Answers d r out
    → Answers e r out
Answers-Same d e incomplete out s (l, p) (x, q, run, st, (lim, pre)) =
    (x, q, run, st ∙ s, (lim ∙ l, pre ∙ p))
Answers-Same d e (item f rest) out s (l, p) (x, q, run, st, (lim, pre)) =
    (x, q, run, st, (lim ∙ l, pre ∙ p))
Answers-Same d e bad out s l a = a

module _ (d : Decoder) (v : Valid d) (b : All IsByte (unread d))
    (e : d.state ≡ read_fixed_header) where
  stream-unread : stream d ≡ unread d
  stream-unread = ground arith

  -- The decoder behind a header that is accepted.
  abbrev taken : Decoder
  taken = header_taken d (read_header (unread d)) (get 4 (unread d) 24) (get 4 (unread d) 28)

  module _ (long : ltb (length (unread d)) 32 ≡ false)
      (ok : header_ok d.limits (unread d) ≡ true) where
    unread_bytes : All IsByte (unread d)
    unread_bytes = b

    room : 32 ≤ length (unread d)
    room = ground arith

    taken_bytes : All IsByte (unread taken)
    taken_bytes =
        rw (← drop-drop 32 d.read_offset d.buffer) (All-drop IsByte 32 (unread d) unread_bytes)

    taken-Valid : Valid taken
    taken-Valid = record {
      ranges = v.ranges;
      one_frame = v.one_frame;
      offset_in = omega (arith, room, length-drop d.read_offset d.buffer);
      prepared_in = v.prepared_in;
      capacity_in = v.capacity_in;
    }

    taken-Held : Held taken
    taken-Held = record {
      in_range = read_header-HeaderInRange (unread d) unread_bytes room;
      acceptable = (tests_passed d.limits (unread d) ok).1;
    }

    stream-taken : stream taken ≡ stream d
    stream-taken =
        rw (stream-unread, ← drop-drop 32 d.read_offset d.buffer)
          (sym
            (read_header_lem (unread d) unread_bytes room (tests_passed d.limits (unread d) ok).0))

    next-taken : next d ≡ some (take_frame taken)
    next-taken =
        let (f, a) = tests_passed d.limits (unread d) ok in
        rw (next_in_header d e, readable-unread d v, long, decode_header_accepts d f a)
          (next_in_metadata taken refl 0)

    taken-Answers : Answers d (parse d.limits (stream d)) (next d)
    taken-Answers = rw next-taken (
        Answers-Same taken d (parse d.limits (stream d)) (some (take_frame taken)) stream-taken
          (refl, refl)
          (rw stream-taken at (take_frame-Answers taken taken-Valid taken-Held taken_bytes refl)))

  header-Running : Running d
  header-Running = record { valid = v; holds = subst (λ s. HeldIn s d) (sym e) tt; bytes = b }

  header-Answers : Answers d (parse d.limits (stream d)) (next d)
  header-Answers = elim (Bool-cases (ltb (length (unread d)) 32)) [
    | inl short ↦
        rw
          (
            stream-unread,
            parse_short d.limits (unread d) (ltb→lt _ _ short),
            next_in_header d e,
            readable-unread d v,
            short,
          )
          (d, refl, header-Running, refl, (refl, refl))
    | inr long ↦ elim (Bool-cases (header_ok d.limits (unread d))) [
      | inl ok ↦ taken-Answers long ok
      | inr refused ↦
          let no_header = decode_header-header_ok d ∙ refused in
          rw
            (
              stream-unread,
              parse_bad d.limits (unread d) long refused,
              next_in_header d e,
              readable-unread d v,
              long,
              no_header,
            )
            ((decode_header d).0, refl, decode_header_refuses d no_header)
    ]
  ]

-- `next` never runs out of fuel, and answers what the parser finds at the front of the stream: it
-- keeps the stream where a frame is incomplete, hands out a frame that is complete and moves past it,
-- and fails where the header is not one.
pub next-Answers : (d : Decoder) → Running d → Answers d (parse d.limits (stream d)) (next d)
next-Answers d r = by_state d.state refl
  where
    by_state : (s : State) → d.state ≡ s → Answers d (parse d.limits (stream d)) (next d)
    by_state read_fixed_header e = header-Answers d r.valid r.bytes e
    by_state read_metadata e =
        rw (next_waiting d e)
          (take_frame-Answers d r.valid (subst (λ s. HeldIn s d) e r.holds) r.bytes e)
    by_state failed e = absurd (subst (λ s. HeldIn s d) e r.holds)
