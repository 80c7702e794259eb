-- ===== src/Protocol/Decoder/Session.antt =====
-- A reader's session with the decoder: the calls that `MultiplexedConnection::ReaderLoop` and the
-- server's reader make. A chunk is what one `Read` returns; between two chunks `Next` is called until
-- it asks for more.
pub mod Encoded
pub mod Frames
use mathlib.Core.Path.{subst}
use coro_rpc.Base.{
  ◌≡◌, length, if◌then◌else◌, ℕ, zero, suc, ◌+◌, ◌*◌, ◌<◌, refl, Option, none, some, List, [], ◌∷◌,
  ◌++◌, All, length-append, ap, ◌∙◌, arith, take, drop, take-append-drop, take-append, drop-append,
  take-append_inside, drop-append_inside, ltb, ltb→lt, Bool-cases, ◌≤◌, sym, inl, inr,
}
use coro_rpc.Protocol.Wire.{Bytes}
use coro_rpc.Protocol.Frame.{Frame}
use coro_rpc.Protocol.Encoder.Laws.{wire}
use coro_rpc.Protocol.Decoder.{
  Decoder, more_needed, ready, invalid, next, prepare_writable, commit_writable,
}
use coro_rpc.Protocol.Decoder.Spec.{incomplete, item, parse, Good, SizesInRange, length-wire}
use coro_rpc.Protocol.Decoder.Spec.Laws.{parse-wire, parse_prefix, parse_short}
use coro_rpc.Protocol.Decoder.Refine.{Running, stream, next-Answers}

abbrev pub read_size : ℕ
read_size = 16 * 1024

-- How a session stands: waiting for bytes, or given up on a protocol error.
pub data Standing : Type 0 where
  waiting : Decoder → Standing
  broken : Standing

-- The frames of a later part of a session behind those of the first.
abbrev pub behind : List Frame → Option (List Frame × Standing) → Option (List Frame × Standing)
behind fs none = none
behind fs (some (gs, s)) = some (fs ++ gs, s)

-- `Next` until it asks for more, on fuel.
unfoldable pub poll : ℕ → Decoder → Option (List Frame × Standing)
poll zero d = none
poll (suc fuel) d = elim (next d) [
  | none ↦ none
  | some (e, more_needed) ↦ some ([], waiting e)
  | some (e, invalid) ↦ some ([], broken)
  | some (e, ready f) ↦ behind (f ∷ []) (poll fuel e)
]

-- The frames of a stream, and what the session comes to. Every frame takes 32 bytes at least, so the
-- bytes at hand are fuel enough.
unfoldable pub session : Decoder → List Bytes → Option (List Frame × Standing)
session d [] = some ([], waiting d)
session d (chunk ∷ chunks) =
    let (e, writable) = prepare_writable d read_size in
    let c = (commit_writable e chunk (length chunk)).0 in
    let after : Option (List Frame × Standing) = elim (poll (length (stream c) + 1) c) [
      | none ↦ none
      | some (fs, broken) ↦ some (fs, broken)
      | some (fs, waiting w) ↦ behind fs (session w chunks)
    ] in
    if writable then after else some ([], broken)

-- The bytes of some frames, one behind the other, and of some chunks.
abbrev pub wires : List Frame → Bytes
wires [] = []
wires (f ∷ fs) = wire f ++ wires fs

abbrev pub joined : List Bytes → Bytes
joined [] = []
joined (c ∷ cs) = c ++ joined cs

-- The stream ends before the end of the next frame.
abbrev pub Settled : Decoder → List Frame → Type 0
Settled d [] = stream d ≡ []
Settled d (f ∷ fs) = length (stream d) < length (wire f)

-- What `poll` leaves of the frames that are on their way.
pub record Progress (d : Decoder) (more : Bytes) (fs : List Frame)
    (out : Option (List Frame × Standing)) : Type 0 where
  pub got : List Frame
  pub left : List Frame
  pub decoder : Decoder
  pub out_is : out ≡ some (got, waiting decoder)
  pub split : fs ≡ got ++ left
  pub running : Running decoder
  pub idle : decoder.prepared_size ≡ d.prepared_size
  pub same_limits : decoder.limits ≡ d.limits
  pub streams : stream decoder ++ more ≡ wires left
  pub settled : Settled decoder left
  pub small : length (stream decoder) < 32 + d.limits.max_metadata_size + d.limits.max_body_size

poll_incomplete :
    (n : ℕ) (d : Decoder) (more : Bytes) (fs : List Frame)
    → Running d
    → parse d.limits (stream d) ≡ incomplete
    → stream d ++ more ≡ wires fs
    → ((x : Decoder) → stream x ≡ stream d → Settled x fs)
    → length (stream d) < 32 + d.limits.max_metadata_size + d.limits.max_body_size
    → Progress d more fs (poll (suc n) d)
unfolding poll
poll_incomplete n d more fs r p e t h =
    let (x, out, run, st, (lim, idle)) = rw p at (next-Answers d r) in
    rw (out, poll)
      (record {
        got = [];
        left = fs;
        decoder = x;
        out_is = refl;
        split = refl;
        running = run;
        idle = idle;
        same_limits = lim;
        streams = rw st e;
        settled = t x st;
        small = rw st h;
      })

poll_item :
    (n : ℕ) (d e : Decoder) (more : Bytes) (f : Frame) (fs : List Frame)
    → next d ≡ some (e, ready f)
    → e.prepared_size ≡ d.prepared_size
    → e.limits ≡ d.limits
    → Progress e more fs (poll n e)
    → Progress d more (f ∷ fs) (poll (suc n) d)
unfolding poll
poll_item n d e more f fs out idle lim p =
    rw (out, poll)
      (record {
        got = f ∷ p.got;
        left = p.left;
        decoder = p.decoder;
        out_is = rw p.out_is;
        split = ap (◌∷◌ f) p.split;
        running = p.running;
        idle = p.idle ∙ idle;
        same_limits = p.same_limits ∙ lim;
        streams = p.streams;
        settled = p.settled;
        small = rw (← lim) p.small;
      })

pub nil_of_length : (xs : Bytes) → length xs ≡ 0 → xs ≡ []
nil_of_length [] e = refl
nil_of_length (x ∷ xs) e = absurd (omega arith)

limits_range : (d : Decoder) → Running d → SizesInRange d.limits
limits_range d r = record {
  metadata_u32 = r.valid.ranges.metadata_range;
  body_u32 = r.valid.ranges.body_range;
}

-- A stream that reaches to the end of the first frame is that frame and the rest.
frame_first :
    (f : Frame) (tail s more : Bytes)
    → s ++ more ≡ wire f ++ tail
    → length (wire f) ≤ length s
    → (s ≡ wire f ++ drop (length (wire f)) s) × (drop (length (wire f)) s ++ more ≡ tail)
frame_first f tail s more e h =
    let n = length (wire f) in
    let front : take n s ≡ wire f =
      sym (take-append_inside n s more h) ∙ ap (take n) e ∙ take-append n (wire f) tail refl in
    (
      sym (rw front at (take-append-drop n s)),
      sym (drop-append_inside n s more h) ∙ ap (drop n) e ∙ drop-append n (wire f) tail refl,
    )

-- `poll` hands out the frames that are complete, and stops in the middle of the next one.
pub poll-Progress :
    (fs : List Frame) (n : ℕ) (d : Decoder) (more : Bytes)
    → Running d
    → All (Good d.limits) fs
    → length (stream d) < n
    → stream d ++ more ≡ wires fs
    → Progress d more fs (poll n d)
poll-Progress fs zero d more r g h e = absurd (omega arith)
poll-Progress [] (suc n) d more r g h e =
    let empty : length (stream d) ≡ 0 = omega (arith, ap length e, length-append (stream d) more) in
    poll_incomplete n d more [] r (parse_short d.limits (stream d) (omega arith)) e
      (λ x same. same ∙ nil_of_length (stream d) empty) (omega arith)
poll-Progress (f ∷ fs) (suc n) d more r g h e =
    let u = limits_range d r in
    elim (Bool-cases (ltb (length (stream d)) (length (wire f)))) [
      | inl short ↦
          poll_incomplete n d more (f ∷ fs) r
            (parse_prefix d.limits f u g.0 (stream d) more (wires fs) e (ltb→lt _ _ short)) e
            (λ x same. rw same (ltb→lt _ _ short)) (ground (arith, length-wire f, g.0.acceptable))
      | inr long ↦
          let (whole, rest) = frame_first f (wires fs) (stream d) more e (ground arith) in
          let s' = drop (length (wire f)) (stream d) in
          let found : parse d.limits (stream d) ≡ item f s' =
            ap (parse d.limits) whole ∙ parse-wire d.limits f u g.0 s' in
          let (x, out, run, st, (lim, idle)) = rw found at (next-Answers d r) in
          poll_item n d x more f fs out idle lim (
            poll-Progress fs n x more run (subst (λ l. All (Good l) fs) (sym lim) g.1)
              (omega
                (arith, ap length st, ap length whole, length-append (wire f) s', length-wire f))
              (rw st rest))
    ]
