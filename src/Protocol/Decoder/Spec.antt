-- ===== src/Protocol/Decoder/Spec.antt =====
-- A frame stream as one run of bytes: what stands at its front. The decoder is compared with this
-- parser, which has no buffer, no offset and no state.
pub mod Laws
use coro_rpc.Base.{
  ◌≡◌, length, get_or, take, drop, length-append, ltb, leb, ◌==◌, if◌then◌else◌, IsU32, ℕ, ◌+◌,
  Bool, true, not, ◌&&◌, ◌++◌, arith,
}
use coro_rpc.Protocol.Wire.{Bytes, get}
use coro_rpc.Protocol.Frame.{
  Frame, FrameHeader, HeaderInRange, build_header, magic, version, fixed_header_size,
  is_valid_message_type, lacks_request_id,
}
use coro_rpc.Protocol.Frame.Header.{
  header-magic, header-version, header-size, header-flags, header-type, header-reserved,
  header-request_id, header-metadata_size, header-body_size, read_header, FixedBytes,
  read_header_lem, length-build_header, read_header-HeaderInRange,
}
use coro_rpc.Protocol.Encoder.Laws.{wire}
use coro_rpc.Protocol.Decoder.{FrameLimits}
use coro_rpc.Protocol.Decoder.Headers.{Acceptable}

pub data Parsed : Type 0 where
  incomplete : Parsed
  item : Frame → Bytes → Parsed
  bad : Parsed

-- The tests on a header, at the front of at least 32 bytes.
unfoldable pub header_ok : FrameLimits → Bytes → Bool
header_ok l s =
    (get 4 s 0 == magic)
    && ((get 2 s 4 == version)
        && ((get 2 s 6 == fixed_header_size)
            && (is_valid_message_type (get_or s 12 0)
                && ((get_or s 13 0 == 0)
                    && ((get_or s 14 0 == 0)
                        && ((get_or s 15 0 == 0)
                            && (not (lacks_request_id (read_header s))
                                && (leb (get 4 s 24) l.max_metadata_size
                                    && leb (get 4 s 28) l.max_body_size))))))))

-- The frame that the header at the front announces.
abbrev pub front_frame : Bytes → Frame
front_frame s = record {
  header = read_header s;
  metadata = take (get 4 s 24) (drop 32 s);
  body = take (get 4 s 28) (drop (32 + get 4 s 24) s);
}

unfoldable pub parse : FrameLimits → Bytes → Parsed
parse l s =
    if ltb (length s) 32
    then incomplete
    else (if header_ok l s
        then (if ltb (length s) (32 + get 4 s 24 + get 4 s 28)
            then incomplete
            else item (front_frame s) (drop (32 + get 4 s 24 + get 4 s 28) s))
        else bad)

-- A frame that may be sent to a decoder with these limits.
pub record Good (l : FrameLimits) (f : Frame) : Type 0 where
  pub in_range : HeaderInRange f.header
  pub acceptable : Acceptable l f.header (length f.metadata) (length f.body)

pub record SizesInRange (l : FrameLimits) : Type 0 where
  pub metadata_u32 : IsU32 l.max_metadata_size
  pub body_u32 : IsU32 l.max_body_size

-- The header of a frame, read from bytes that begin with it.
pub record Announces (s : Bytes) (h : FrameHeader) (ms bs : ℕ) : Type 0 where
  pub fixed : FixedBytes s
  pub header_read : read_header s ≡ h
  pub metadata_size_read : get 4 s 24 ≡ ms
  pub body_size_read : get 4 s 28 ≡ bs

pub announces :
    (h : FrameHeader) (ms bs : ℕ) (tail : Bytes)
    → HeaderInRange h
    → IsU32 ms
    → IsU32 bs
    → Announces (build_header h ms bs ++ tail) h ms bs
announces h ms bs tail r m b = record {
  fixed = record {
    is_magic = header-magic h ms bs tail;
    is_version = header-version h ms bs tail;
    is_size = header-size h ms bs tail;
    zero_13 = (header-reserved h ms bs tail).0;
    zero_14 = (header-reserved h ms bs tail).1;
    zero_15 = (header-reserved h ms bs tail).2;
  };
  header_read = ground (
    arith,
    header-flags h ms bs tail r.flags_range,
    header-type h ms bs tail,
    header-request_id h ms bs tail r.id_range,
  );
  metadata_size_read = header-metadata_size h ms bs tail m;
  body_size_read = header-body_size h ms bs tail b;
}

pub header_ok-build_header :
    (l : FrameLimits) (h : FrameHeader) (ms bs : ℕ) (tail : Bytes)
    → SizesInRange l
    → HeaderInRange h
    → Acceptable l h ms bs
    → header_ok l (build_header h ms bs ++ tail) ≡ true
unfolding header_ok
header_ok-build_header l h ms bs tail u r a =
    let s = announces h ms bs tail r (omega arith) (omega arith) in ground (arith, s)

pub length-wire : (f : Frame) → length (wire f) ≡ 32 + length f.metadata + length f.body
unfolding wire
length-wire f = omega (
  arith,
  length-append (build_header f.header (length f.metadata) (length f.body)) (f.metadata ++ f.body),
  length-append f.metadata f.body,
  length-build_header f.header (length f.metadata) (length f.body),
)
