-- ===== src/Protocol/Decoder/Spec/Laws.antt =====
-- The laws of the parser of frame streams.
use native.Mathlib.Nat.{add_assoc}
use coro_rpc.Base.{
  ◌≡◌, length, length-append, take-append, drop-append, take-drop_field, drop-append_past, ltb,
  Bool-cases, ◌+◌, ◌<◌, refl, inl, inr, true, ◌++◌, append_assoc, arith, take, drop, All,
  take-append-drop, take-append_inside, IsByte, sym, ap, ◌∙◌, length-take-drop, drop_split, ◌≤◌,
  lt→ltb, false,
}
use coro_rpc.Protocol.Wire.{Bytes, get}
use coro_rpc.Protocol.Frame.{Frame, build_header}
use coro_rpc.Protocol.Frame.Header.{
  read_header, FixedBytes, read_header_lem, length-build_header, read_header-HeaderInRange,
}
use coro_rpc.Protocol.Encoder.Laws.{wire}
use coro_rpc.Protocol.Decoder.{FrameLimits}
use coro_rpc.Protocol.Decoder.Headers.{Acceptable}
use coro_rpc.Protocol.Decoder.Spec.{
  bad, incomplete, item, header_ok, front_frame, parse, Good, SizesInRange, Announces, announces,
  header_ok-build_header, length-wire,
}

pub parse_short : (l : FrameLimits) (s : Bytes) → length s < 32 → parse l s ≡ incomplete
unfolding parse
parse_short l s h = ground arith

pub parse_bad :
    (l : FrameLimits) (s : Bytes)
    → ltb (length s) 32 ≡ false
    → header_ok l s ≡ false
    → parse l s ≡ bad
unfolding parse
parse_bad l s long refused = rw (long, refused)

pub parse_waits :
    (l : FrameLimits) (s : Bytes)
    → header_ok l s ≡ true
    → length s < 32 + get 4 s 24 + get 4 s 28
    → parse l s ≡ incomplete
unfolding parse
parse_waits l s ok h =
    rw (ok, lt→ltb _ _ h)
      (elim (Bool-cases (ltb (length s) 32)) [ inl short ↦ rw short | inr long ↦ rw long ])

module _ (l : FrameLimits) (f : Frame) (u : SizesInRange l) (g : Good l f) where
  abbrev header : Bytes
  header = build_header f.header (length f.metadata) (length f.body)

  header_length : length header ≡ 32
  header_length = length-build_header f.header (length f.metadata) (length f.body)

  announced :
      (tail : Bytes) → Announces (header ++ tail) f.header (length f.metadata) (length f.body)
  announced tail = announces f.header _ _ tail g.in_range (omega arith) (omega arith)

  accepted : (tail : Bytes) → header_ok l (header ++ tail) ≡ true
  accepted tail = header_ok-build_header l f.header _ _ tail u g.in_range g.acceptable

  wire_nested : (rest : Bytes) → wire f ++ rest ≡ header ++ (f.metadata ++ (f.body ++ rest))
  unfolding wire
  wire_nested rest = simp append_assoc

  -- A good frame at the front is found, whatever follows it.
  pub parse-wire : (rest : Bytes) → parse l (wire f ++ rest) ≡ item f rest
  unfolding parse
  parse-wire rest =
      let tail = f.metadata ++ (f.body ++ rest) in
      let a = announced tail in
      let ms = length f.metadata in
      let bs = length f.body in
      rw (wire_nested rest) (
        ground (
          arith,
          a,
          accepted tail,
          length-append header tail,
          header_length,
          length-append f.metadata (f.body ++ rest),
          length-append f.body rest,
          take-drop_field header f.metadata (f.body ++ rest) 32 ms header_length refl,
          drop-append_past 32 ms header tail header_length,
          drop-append_past 32 (ms + bs) header tail header_length,
          drop-append ms f.metadata (f.body ++ rest) refl,
          take-append bs f.body rest refl,
          drop-append_past ms bs f.metadata (f.body ++ rest) refl,
          drop-append bs f.body rest refl,
          add_assoc 32 ms bs,
        ))

  -- A part of a good frame is not mistaken for anything else.
  pub parse_prefix :
      (s more rest : Bytes)
      → s ++ more ≡ wire f ++ rest
      → length s < length (wire f)
      → parse l s ≡ incomplete
  parse_prefix s more rest e h = elim (Bool-cases (ltb (length s) 32)) [
    | inl short ↦ parse_short l s (ground arith)
    | inr long ↦
        let front : take 32 s ≡ header =
          sym (take-append_inside 32 s more (ground arith))
          ∙ ap (take 32) (e ∙ wire_nested rest)
          ∙ take-append 32 header (f.metadata ++ (f.body ++ rest)) header_length in
        let whole : header ++ drop 32 s ≡ s = rw (← front) (take-append-drop 32 s) in
        let a : Announces s f.header (length f.metadata) (length f.body) =
          rw whole at (announced (drop 32 s)) in
        parse_waits l s (rw whole at (accepted (drop 32 s))) (omega (arith, a, length-wire f))
  ]

-- The tests on a header, as a Boolean and as facts.
pub tests_passed :
    (l : FrameLimits) (s : Bytes)
    → header_ok l s ≡ true
    → FixedBytes s × Acceptable l (read_header s) (get 4 s 24) (get 4 s 28)
unfolding header_ok
tests_passed l s e = ground arith

pub tests-header_ok :
    (l : FrameLimits) (s : Bytes)
    → FixedBytes s
    → Acceptable l (read_header s) (get 4 s 24) (get 4 s 28)
    → header_ok l s ≡ true
unfolding header_ok
tests-header_ok l s f a = ground arith

module _ (l : FrameLimits) (s : Bytes) (bytes : All IsByte s) where
  -- The tests behind a frame that was found.
  record Found (f : Frame) (rest : Bytes) : Type 0 where
    ok : header_ok l s ≡ true
    room : 32 + get 4 s 24 + get 4 s 28 ≤ length s
    frame : f ≡ front_frame s
    behind : rest ≡ drop (32 + get 4 s 24 + get 4 s 28) s

  found : (f : Frame) (rest : Bytes) → parse l s ≡ item f rest → Found f rest
  unfolding parse
  found f rest e = ground arith

  -- The bytes of the frame at the front.
  front_frame-wire :
      header_ok l s ≡ true
      → 32 + get 4 s 24 + get 4 s 28 ≤ length s
      → s ≡ wire (front_frame s) ++ drop (32 + get 4 s 24 + get 4 s 28) s
  unfolding wire
  front_frame-wire ok room =
      let ms = length-take-drop 32 (get 4 s 24) s (omega arith) in
      let bs = length-take-drop (32 + get 4 s 24) (get 4 s 28) s room in
      rw
        (
          ms,
          bs,
          append_assoc,
          append_assoc,
          ← drop_split (32 + get 4 s 24) (get 4 s 28) s,
          ← drop_split 32 (get 4 s 24) s,
        )
        (read_header_lem s bytes (omega arith) (tests_passed l s ok).0)

  -- What is found at the front is a good frame, and the input is its bytes and the rest.
  pub parse_sound :
      (f : Frame) (rest : Bytes) → parse l s ≡ item f rest → (s ≡ wire f ++ rest) × Good l f
  parse_sound f rest e =
      let g = found f rest e in
      let ms = length-take-drop 32 (get 4 s 24) s (omega (arith, g.room)) in
      let bs = length-take-drop (32 + get 4 s 24) (get 4 s 28) s g.room in
      rw (g.frame, g.behind)
        (
          front_frame-wire g.ok g.room,
          record {
            in_range = read_header-HeaderInRange s bytes (omega (arith, g.room));
            acceptable = rw (ms, bs) (tests_passed l s g.ok).1;
          },
        )
