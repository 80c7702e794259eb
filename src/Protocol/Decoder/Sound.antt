-- ===== src/Protocol/Decoder/Sound.antt =====
-- What `Next` hands out is a frame that the encoder writes.
use mathlib.Core.Path.{subst}
use coro_rpc.Base.{◌≡◌, All, All-append, IsByte, ℕ, some, arith, sym, ap, ◌++◌}
use coro_rpc.Protocol.Wire.{put, put-IsByte}
use coro_rpc.Protocol.Frame.{
  Frame, FrameHeader, HeaderInRange, build_header, magic, version, fixed_header_size,
}
use coro_rpc.Protocol.Encoder.Laws.{wire}
use coro_rpc.Protocol.Decoder.{
  Decoder, State, read_fixed_header, read_metadata, failed, ready, next,
}
use coro_rpc.Protocol.Decoder.Buffer.{unread}
use coro_rpc.Protocol.Decoder.Spec.{Parsed, incomplete, item, bad, parse, Good}
use coro_rpc.Protocol.Decoder.Spec.Laws.{parse_sound}
use coro_rpc.Protocol.Decoder.Refine.{Running, HeldIn, held, Answers, stream, next-Answers}

build_header-IsByte :
    (h : FrameHeader) (ms bs : ℕ) → HeaderInRange h → All IsByte (build_header h ms bs)
unfolding build_header
build_header-IsByte h ms bs r =
    let join = All-append IsByte in
    join (put 4 magic) _ (put-IsByte 4 magic) (
      join (put 2 version) _ (put-IsByte 2 version) (
        join (put 2 fixed_header_size) _ (put-IsByte 2 fixed_header_size) (
          join (put 4 h.flags) _ (put-IsByte 4 h.flags) (
            r.type_range,
            (
              omega arith,
              (
                omega arith,
                (
                  omega arith,
                  join (put 8 h.request_id) _ (put-IsByte 8 h.request_id)
                      (join (put 4 ms) _ (put-IsByte 4 ms) (put-IsByte 4 bs)),
                ),
              ),
            ),
          ))))

held-IsByte : (s : State) (d : Decoder) → HeldIn s d → All IsByte (held s d)
held-IsByte read_fixed_header d h = tt
held-IsByte read_metadata d h = build_header-IsByte _ _ _ h.in_range
held-IsByte failed d h = tt

-- A frame that was found, from the answer.
inverted :
    (d e : Decoder) (f : Frame) (r : Parsed)
    → Answers d r (some (e, ready f))
    → (r ≡ item f (stream e)) × Running e
inverted d e f incomplete (x, out, run, st, same) = absurd (cc)
inverted d e f (item g s) (x, out, run, st, same) =
    let here : x ≡ e = cc in (cc (sym st, ap stream here), subst Running here run)
inverted d e f bad (x, out, state) = absurd (cc)

-- A frame that `next` hands out is good, and the bytes received since the last one are exactly its
-- bytes, as the encoder writes them, followed by those that the decoder keeps.
pub next_sound :
    (d e : Decoder) (f : Frame)
    → Running d
    → next d ≡ some (e, ready f)
    → (stream d ≡ wire f ++ stream e) × Good d.limits f × Running e
next_sound d e f r out =
    let bytes =
      All-append IsByte (held d.state d) (unread d) (held-IsByte d.state d r.holds) r.bytes in
    let (found, run) = inverted d e f (parse d.limits (stream d)) (rw out at (next-Answers d r)) in
    let (whole, good) = parse_sound d.limits (stream d) bytes f (stream e) found in
    (whole, good, run)
