-- ===== src/Server/Keys.antt =====
-- `BuildIdempotencyKey` and `BodyFingerprint` of rpc_src/transport/rpc_server.cpp.
pub mod Injective
use coro_rpc.Protocol.Wire.{Bytes}
use coro_rpc.Base.{ℕ, zero, suc, ◌+◌, ◌*◌, ◌/◌, ◌%◌, ◌^◌, ltb, if◌then◌else◌, [], ◌∷◌, ◌++◌, length}
use Prim.Native.Nat.{bit_xor}

-- `std::to_string` on fuel for its digits.
unfoldable pub digits : ℕ → ℕ → Bytes
digits zero n = []
digits (suc fuel) n =
    let before = digits fuel (n / 10) in (if ltb n 10 then [] else before) ++ (b'0' + n % 10) ∷ []

-- A 64-bit number has at most twenty digits.
unfoldable pub to_string : ℕ → Bytes
to_string n = digits 20 n

unfoldable pub append_key_part : Bytes → Bytes → Bytes
append_key_part key value = ((key ++ to_string (length value)) ++ b':' ∷ []) ++ value

unfoldable pub build_idempotency_key : Bytes → Bytes → Bytes → Bytes → Bytes
build_idempotency_key caller_scope service method key =
    append_key_part
      (append_key_part (append_key_part (append_key_part [] caller_scope) service) method) key

unfoldable pub hash_bytes : ℕ → Bytes → ℕ
hash_bytes hash [] = hash
hash_bytes hash (byte ∷ body) = hash_bytes (bit_xor hash byte * 1099511628211 % 2 ^ 64) body

unfoldable pub body_fingerprint : Bytes → ℕ
body_fingerprint body = hash_bytes 1469598103934665603 body
