-- ===== src/Transport/Dispatcher.antt =====
-- `ServiceDispatcher` of rpc_src/transport/service_dispatcher.cpp, with `MethodCapability` of
-- service_endpoint.h. Each operation runs as a whole. A name is its list of bytes, the method table an
-- association list, and a dispatcher's address a number, which `Lookup` compares.
pub mod Tables
pub mod Cached
mod Tests
use coro_rpc.Protocol.Wire.{Bytes}
use coro_rpc.Protocol.MessageType
use coro_rpc.Protocol.Frame.{Frame, default_frame}
use coro_rpc.Protocol.Metadata.{same_bytes, RequestMetadata}
use coro_rpc.Base.{
  ◌==◌, if◌then◌else◌, add64, ℕ, Bool, true, false, not, ◌&&◌, ◌||◌, Option, none, some, List, [],
  ◌∷◌, ◌++◌,
}
use coro_rpc.Transport.Connection.Closing.{is_empty}

pub record MethodCapability : Type 0 where
  pub service_version : Bytes
  pub codec : Bytes
  pub request_schema : Bytes
  pub response_schema : Bytes

abbrev pub is_valid_capability : MethodCapability → Bool
is_valid_capability c = not (is_empty c.service_version) && not (is_empty c.codec)

pub data RpcExecutionMode : Type 0 where
  cpu_pool io_coroutine network_inline : RpcExecutionMode

-- What a handler is given, less its context. A view has the same contents.
pub record ServerRequest : Type 0 where
  pub request_id : ℕ
  pub deadline_ms : ℕ
  pub metadata : RequestMetadata
  pub frame : Frame

abbrev pub RpcHandler : Type 0
RpcHandler = ServerRequest → Frame

pub record Method : Type 0 where
  pub handler : RpcHandler
  pub view_handler : Option RpcHandler
  pub mode : RpcExecutionMode
  pub capability : MethodCapability
  pub service : Bytes
  pub method : Bytes

abbrev pub MethodTable : Type 0
MethodTable = List (Bytes × Method)

pub record ServiceDispatcher : Type 0 where
  pub address : ℕ
  pub methods : MethodTable
  pub generation : ℕ

abbrev pub new_dispatcher : ℕ → ServiceDispatcher
new_dispatcher address = record { address = address; methods = []; generation = 1 }

-- `Key`.
unfoldable pub method_key : Bytes → Bytes → Bytes
method_key service method = service ++ (b'\n' ∷ method)

unfoldable pub find_method : Bytes → MethodTable → Option Method
find_method key [] = none
find_method key ((k, m) ∷ t) = if same_bytes key k then some m else find_method key t

unfoldable pub erase_method : Bytes → MethodTable → MethodTable
erase_method key [] = []
erase_method key ((k, m) ∷ t) = if same_bytes key k then t else (k, m) ∷ erase_method key t

-- The part of `Register` and `RegisterInline` that holds the lock.
unfoldable pub publish : ServiceDispatcher → Method → ServiceDispatcher × Bool
publish d entry =
    let key = method_key entry.service entry.method in
    elim (find_method key d.methods) [
      | some m ↦ (d, false)
      | none ↦
          (record d { methods = (key, entry) ∷ d.methods; generation = add64 d.generation 1 }, true)
    ]

-- `Register`. An empty `std::function` is `none`.
unfoldable pub register :
    ServiceDispatcher
    → Bytes
    → Bytes
    → Option RpcHandler
    → RpcExecutionMode
    → MethodCapability
    → ServiceDispatcher × Bool
register d service method none mode capability = (d, false)
register d service method (some handler) mode capability =
    if is_empty service || (is_empty method || not (is_valid_capability capability))
    then (d, false)
    else publish d (record {
      handler = handler;
      view_handler = none;
      mode = mode;
      capability = capability;
      service = service;
      method = method;
    })

-- `RegisterInline`.
unfoldable pub register_inline :
    ServiceDispatcher
    → Bytes
    → Bytes
    → Option RpcHandler
    → Option RpcHandler
    → MethodCapability
    → ServiceDispatcher × Bool
register_inline d service method none view_handler capability = (d, false)
register_inline d service method (some handler) none capability = (d, false)
register_inline d service method (some handler) (some view_handler) capability =
    if is_empty service || (is_empty method || not (is_valid_capability capability))
    then (d, false)
    else publish d (record {
      handler = handler;
      view_handler = some view_handler;
      mode = RpcExecutionMode.network_inline;
      capability = capability;
      service = service;
      method = method;
    })

unfoldable pub unregister : ServiceDispatcher → Bytes → Bytes → ServiceDispatcher × Bool
unregister d service method =
    let key = method_key service method in
    elim (find_method key d.methods) [
      | none ↦ (d, false)
      | some m ↦ (
        record d { methods = erase_method key d.methods; generation = add64 d.generation 1 },
        true,
      )
    ]

unfoldable pub contains : ServiceDispatcher → Bytes → Bytes → Bool
contains d service method = elim (find_method (method_key service method) d.methods) [
  | none ↦ false
  | some m ↦ true
]

-- The thread's `Cache` in `Lookup`. It keeps its table alive, so the method it points to is a value.
pub record LookupCache : Type 0 where
  pub owner : Option ℕ
  pub generation : ℕ
  pub service : Bytes
  pub method_name : Bytes
  pub method : Option Method

abbrev pub empty_cache : LookupCache
empty_cache = record { owner = none; generation = 0; service = []; method_name = []; method = none }

abbrev pub is_owner : Option ℕ → ℕ → Bool
is_owner none address = false
is_owner (some owner) address = owner == address

-- `Lookup`: the cache behind it, and its result.
unfoldable pub lookup_method :
    ServiceDispatcher → LookupCache → Bytes → Bytes → LookupCache × Option Method
lookup_method d cache service method =
    let found = find_method (method_key service method) d.methods in
    if is_owner cache.owner d.address
      && ((cache.generation == d.generation)
          && (same_bytes cache.service service && same_bytes cache.method_name method))
    then (cache, cache.method)
    else (
      record {
        owner = some d.address;
        generation = d.generation;
        service = service;
        method_name = method;
        method = found;
      },
      found,
    )

unfoldable pub execution_mode :
    ServiceDispatcher → LookupCache → RequestMetadata → LookupCache × RpcExecutionMode
execution_mode d cache metadata =
    let (next, found) = lookup_method d cache metadata.service metadata.method in
    elim found [ none ↦ (next, RpcExecutionMode.cpu_pool) | some m ↦ (next, m.mode) ]

abbrev pub rpc_unimplemented : ℕ
rpc_unimplemented = 10

-- A response with the status UNIMPLEMENTED.
abbrev pub unimplemented_response : Frame
unimplemented_response = record default_frame {
  header = record {
    flags = rpc_unimplemented;
    message_type = MessageType.request_type;
    request_id = 0;
  };
}

unfoldable pub dispatch : ServiceDispatcher → LookupCache → ServerRequest → LookupCache × Frame
dispatch d cache request =
    let (next, found) = lookup_method d cache request.metadata.service request.metadata.method in
    elim found [ none ↦ (next, unimplemented_response) | some m ↦ (next, m.handler request) ]

unfoldable pub dispatch_inline :
    ServiceDispatcher → LookupCache → ServerRequest → LookupCache × Frame
dispatch_inline d cache request =
    let (next, found) = lookup_method d cache request.metadata.service request.metadata.method in
    elim found [
      | none ↦ (next, unimplemented_response)
      | some m ↦ elim m.view_handler [
        | none ↦ (next, unimplemented_response)
        | some view ↦ (next, view request)
      ]
    ]
