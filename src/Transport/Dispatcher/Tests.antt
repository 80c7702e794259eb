-- ===== src/Transport/Dispatcher/Tests.antt =====
-- Concrete runs of the dispatcher, and its theorems at concrete inputs.
use coro_rpc.Protocol.Wire.{Bytes}
use coro_rpc.Protocol.Metadata.{same_bytes}
use coro_rpc.Transport.Dispatcher.{
  ServiceDispatcher, RpcHandler, MethodCapability, register, find_method, lookup_method,
  new_dispatcher, publish, method_key, empty_cache, RpcExecutionMode, unregister, erase_method,
}
use coro_rpc.Base.{add64, ◌≡◌, refl, true, false, some, [], ◌∷◌, arith}
use coro_rpc.Transport.Dispatcher.Cached.{
  lookup_method-find_method, lookup_method_reused, registration, registered, register-find_method,
  began,
}
use coro_rpc.Transport.Dispatcher.Tables.{IsLine}

abbrev echo : RpcHandler
echo request = request.frame

abbrev raw_bytes : MethodCapability
raw_bytes = record {
  service_version = b'v' ∷ b'1' ∷ [];
  codec = b'r' ∷ [];
  request_schema = [];
  response_schema = [];
}

abbrev math_name : Bytes
math_name = b'm' ∷ []

abbrev add_name : Bytes
add_name = b'a' ∷ []

abbrev with_add : ServiceDispatcher
with_add =
    (register (new_dispatcher 64) math_name add_name (some echo) RpcExecutionMode.cpu_pool
      raw_bytes).0

add_registered :
    (register
      (new_dispatcher 64)
      math_name
      add_name
      (some echo)
      RpcExecutionMode.cpu_pool
      raw_bytes).1
    ≡ true
unfolding register publish find_method method_key add64
add_registered = refl

-- A second registration under the same names is refused.
add_twice :
    (register with_add math_name add_name (some echo) RpcExecutionMode.io_coroutine raw_bytes).1
    ≡ false
unfolding register publish find_method method_key add64 same_bytes
add_twice = refl

add_removed : (unregister with_add math_name add_name).0.methods ≡ []
unfolding register publish unregister find_method erase_method method_key add64 same_bytes
add_removed = refl

register-find_method_example :
    (find_method (method_key math_name add_name) with_add.methods
      ≡ some (registration math_name add_name echo RpcExecutionMode.cpu_pool raw_bytes))
    × ((s m : Bytes)
        → IsLine s
        → ¬ ((s ≡ math_name) × (m ≡ add_name))
        → find_method (method_key s m) with_add.methods ≡ find_method (method_key s m) [])
register-find_method_example =
    register-find_method (new_dispatcher 64) math_name add_name echo RpcExecutionMode.cpu_pool
      raw_bytes add_registered (omega arith)

lookup_method-find_method_example :
    (lookup_method with_add empty_cache math_name add_name).1
    ≡ find_method (method_key math_name add_name) with_add.methods
lookup_method-find_method_example =
    lookup_method-find_method with_add empty_cache math_name add_name (
      registered math_name add_name (some echo) RpcExecutionMode.cpu_pool raw_bytes (omega arith)
        (began 64 empty_cache refl))

-- Another dispatcher at the same address, after one registration of another method.
abbrev successor : ServiceDispatcher
successor =
    (register (new_dispatcher 64) add_name math_name (some echo) RpcExecutionMode.cpu_pool
      raw_bytes).0

same_generation : successor.generation ≡ with_add.generation
unfolding register publish find_method method_key add64
same_generation = refl

same_address : successor.address ≡ with_add.address
unfolding register publish find_method method_key add64
same_address = refl

lookup_method_reused_example :
    (lookup_method successor
      (lookup_method with_add empty_cache math_name add_name).0
      math_name
      add_name).1
    ≡ (lookup_method with_add empty_cache math_name add_name).1
lookup_method_reused_example =
    lookup_method_reused with_add successor empty_cache math_name add_name same_address
      same_generation
