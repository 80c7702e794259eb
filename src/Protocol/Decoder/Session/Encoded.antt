-- ===== src/Protocol/Decoder/Session/Encoded.antt =====
-- What the encoder writes and the decoder reads: frames on their way between the two peers.
use coro_rpc.Protocol.Wire.{Bytes}
use coro_rpc.Protocol.Frame.{Frame, HeaderInRange}
use coro_rpc.Protocol.Decoder.{FrameLimits, init, Decoder}
use coro_rpc.Protocol.Decoder.Buffer.{LimitsInRange}
use coro_rpc.Protocol.Decoder.Spec.{Good}
use coro_rpc.Protocol.Decoder.Refine.{stream}
use coro_rpc.Protocol.Decoder.Session.{waiting, session, wires, joined}
use coro_rpc.Protocol.Decoder.Session.Frames.{Chunk, RoomToRead, session-wires}
use coro_rpc.Protocol.Encoder.{encode}
use coro_rpc.Protocol.Encoder.Laws.{wire, encode_lem}
use coro_rpc.Base.{length, All, ◌≤◌, ◌≡◌, refl, ◌∙◌, true, none, some, List, [], ◌∷◌, ◌++◌, arith}

-- The bytes that the encoder writes for the frames, one after the other.
abbrev pub encodings : List Frame → Bytes
encodings [] = []
encodings (f ∷ fs) = (encode f [] none).output ++ encodings fs

-- A frame that the encoder accepts, with fields of their widths and sizes within the peer's limits.
pub record Sendable (l : FrameLimits) (f : Frame) : Type 0 where
  pub in_range : HeaderInRange f.header
  pub encoded : (encode f [] none).success ≡ true
  pub metadata_in : length f.metadata ≤ l.max_metadata_size
  pub body_in : length f.body ≤ l.max_body_size

Sendable-Good : (l : FrameLimits) (f : Frame) → Sendable l f → Good l f
Sendable-Good l f v =
    let e = (encode_lem f [] none).0 in
    record {
      in_range = v.in_range;
      acceptable = record {
        known_type = ground (arith, v.encoded);
        has_id = ground (arith, v.encoded);
        metadata_fits = v.metadata_in;
        body_fits = v.body_in;
      };
    }

output-encode : (f : Frame) → (encode f [] none).success ≡ true → (encode f [] none).output ≡ wire f
output-encode f h = let e = encode_lem f [] none in ground arith

Sendable-Goods : (l : FrameLimits) (fs : List Frame) → All (Sendable l) fs → All (Good l) fs
Sendable-Goods l [] v = tt
Sendable-Goods l (f ∷ fs) (v, vs) = (Sendable-Good l f v, Sendable-Goods l fs vs)

encodings-wires :
    (l : FrameLimits) (fs : List Frame) → All (Sendable l) fs → encodings fs ≡ wires fs
encodings-wires l [] v = refl
encodings-wires l (f ∷ fs) (v, vs) =
    let e = output-encode f v.encoded in let es = encodings-wires l fs vs in ground arith

-- Frames that the encoder accepts, with fields of their widths and sizes within the limits of the
-- peer, arrive at a new decoder of the peer as they were sent, in order, however the encoder's bytes
-- are cut into reads; nothing is left behind.
pub session-encodings :
    (l : FrameLimits) (fs : List Frame) (chunks : List Bytes)
    → LimitsInRange l
    → RoomToRead l
    → All (Sendable l) fs
    → All Chunk chunks
    → joined chunks ≡ encodings fs
    → (e : Decoder) × (session (init l) chunks ≡ some (fs, waiting e)) × (stream e ≡ [])
session-encodings l fs chunks range room v k e =
    session-wires l fs chunks range room (Sendable-Goods l fs v) k (e ∙ encodings-wires l fs v)
