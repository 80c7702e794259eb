-- ===== src/Protocol/Frame.antt =====
-- The constants and the data types of rpc_src/protocol/frame.h, and the fixed header of frame.cpp.
pub mod Header
use coro_rpc.Base.{
  ℕ, ◌<◌, ◌==◌, leb, Bool, ◌&&◌, ◌||◌, Option, none, some, [], ◌∷◌, ◌++◌, String, IsU32, IsU64,
}
use coro_rpc.Protocol.Wire.{Bytes, put}
use coro_rpc.Protocol.MessageType

abbrev pub magic : ℕ
magic = 0x52504352

abbrev pub version : ℕ
version = 1

abbrev pub fixed_header_size : ℕ
fixed_header_size = 32

pub record FrameHeader : Type 0 where
  pub flags : ℕ
  pub message_type : ℕ
  pub request_id : ℕ

-- `Frame` owns its strings and `FrameView` borrows them; as values they are the same.
pub record Frame : Type 0 where
  pub header : FrameHeader
  pub metadata : Bytes
  pub body : Bytes

-- The header of a default-constructed frame.
abbrev pub default_header : FrameHeader
default_header = record { flags = 0; message_type = MessageType.request_type; request_id = 0 }

abbrev pub default_frame : Frame
default_frame = record { header = default_header; metadata = []; body = [] }

-- The ranges of the header's fields in C++.
pub record HeaderInRange (h : FrameHeader) : Type 0 where
  pub flags_range : IsU32 h.flags
  pub type_range : h.message_type < 256
  pub id_range : IsU64 h.request_id

unfoldable pub is_valid_message_type : ℕ → Bool
is_valid_message_type value = leb MessageType.request_type value && leb value MessageType.pong_type

-- `REQUEST` and `RESPONSE` frames with no request id, which both ends refuse.
unfoldable pub lacks_request_id : FrameHeader → Bool
lacks_request_id h =
    (h.message_type == MessageType.request_type || h.message_type == MessageType.response_type)
    && (h.request_id == 0)

-- `BuildHeader`: the 32 bytes it writes, in the order of their offsets 0, 4, 6, 8, 12 to 15, 16, 24
-- and 28.
unfoldable pub build_header : FrameHeader → ℕ → ℕ → Bytes
build_header h metadata_size body_size =
    put 4 magic
    ++ (put 2 version
        ++ (put 2 fixed_header_size
            ++ (put 4 h.flags
                ++ (h.message_type
                    ∷ 0
                    ∷ 0
                    ∷ 0
                    ∷ (put 8 h.request_id ++ (put 4 metadata_size ++ put 4 body_size))))))

-- `SetError`: the caller's error string, or no string where the pointer is null.
unfoldable pub set_error : Option String → String → Option String
set_error none message = none
set_error (some old) message = some message

-- What an encoder leaves behind: its result, `output` and `*error`.
pub record Encoded : Type 0 where
  pub success : Bool
  pub output : Bytes
  pub error : Option String
