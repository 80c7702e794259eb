-- ===== src/Transport/Dispatcher/Cached.antt =====
-- Lookups through a thread's cache, and what registrations change.
use coro_rpc.Protocol.Wire.{Bytes}
use coro_rpc.Transport.Dispatcher.{
  ServiceDispatcher, Method, LookupCache, is_owner, publish, register, register_inline, unregister,
  lookup_method, find_method, new_dispatcher, RpcHandler, method_key, RpcExecutionMode,
  MethodCapability, same_bytes,
}
use coro_rpc.Base.{
  Option-cases, add64_exact, ℕ, ◌+◌, ◌^◌, ◌<◌, ◌≡◌, ap, ◌∙◌, ◌≢◌, ◌⊎◌, inl, inr, false, Option,
  none, some, arith, if◌then◌else◌, Bool-cases, refl, Bool, true,
}
use coro_rpc.Transport.Dispatcher.Tables.{
  same_bytes_iff, erase_method-OneEach, OneEach, key_of, IsLine, method_key_injective, publish_lem,
}

-- The cache holds nothing of the dispatcher, or something of an earlier generation, or what the table
-- holds.
pub record CacheValid (d : ServiceDispatcher) (c : LookupCache) : Type 0 where
  pub current :
      (is_owner c.owner d.address ≡ false)
      ⊎ ((c.generation < d.generation)
          ⊎ ((c.generation ≡ d.generation)
              × (c.method ≡ find_method (method_key c.service c.method_name) d.methods)))
  pub one_each : OneEach d.methods

-- The dispatcher and the cache that any sequence of operations leads to, in a thread that uses other
-- dispatchers too. The generation does not come to the end of its 64 bits.
pub data Serves : ServiceDispatcher → LookupCache → Type 0 where
  began :
      (address : ℕ) (c : LookupCache)
      → is_owner c.owner address ≡ false
      → Serves (new_dispatcher address) c
  registered :
      {d : ServiceDispatcher} {c : LookupCache} (service method : Bytes)
      (handler : Option RpcHandler) (mode : RpcExecutionMode) (capability : MethodCapability)
      → d.generation + 1 < 2 ^ 64
      → Serves d c
      → Serves (register d service method handler mode capability).0 c
  registered_inline :
      {d : ServiceDispatcher} {c : LookupCache} (service method : Bytes)
      (handler view_handler : Option RpcHandler) (capability : MethodCapability)
      → d.generation + 1 < 2 ^ 64
      → Serves d c
      → Serves (register_inline d service method handler view_handler capability).0 c
  unregistered :
      {d : ServiceDispatcher} {c : LookupCache} (service method : Bytes)
      → d.generation + 1 < 2 ^ 64
      → Serves d c
      → Serves (unregister d service method).0 c
  looked_up :
      {d : ServiceDispatcher} {c : LookupCache} (service method : Bytes)
      → Serves d c
      → Serves d (lookup_method d c service method).0
  elsewhere :
      {d : ServiceDispatcher} {c : LookupCache} (other : ServiceDispatcher) (service method : Bytes)
      → other.address ≢ d.address
      → Serves d c
      → Serves d (lookup_method other c service method).0

publish-CacheValid :
    (d : ServiceDispatcher) (c : LookupCache) (entry : Method)
    → d.generation + 1 < 2 ^ 64
    → CacheValid d c
    → CacheValid (publish d entry).0 c
unfolding publish
publish-CacheValid d c entry g v =
    let a = add64_exact d.generation 1 g in
    elim (Option-cases (find_method (key_of entry) d.methods)) [
      | inr (x, e) ↦ rw (e, publish) v
      | inl n ↦ rw (n, publish) (record { current = ground arith; one_each = (n, v.one_each) })
    ]

register-CacheValid :
    (d : ServiceDispatcher) (c : LookupCache) (service method : Bytes) (handler : Option RpcHandler)
    (mode : RpcExecutionMode) (capability : MethodCapability)
    → d.generation + 1 < 2 ^ 64
    → CacheValid d c
    → CacheValid (register d service method handler mode capability).0 c
unfolding register
register-CacheValid d c service method none mode capability g v = v
register-CacheValid d c service method (some handler) mode capability g v =
    let p =
      publish-CacheValid d c
        (record {
          handler = handler;
          view_handler = none;
          mode = mode;
          capability = capability;
          service = service;
          method = method;
        })
        g v in
    ground arith

register_inline-CacheValid :
    (d : ServiceDispatcher) (c : LookupCache) (service method : Bytes)
    (handler view_handler : Option RpcHandler) (capability : MethodCapability)
    → d.generation + 1 < 2 ^ 64
    → CacheValid d c
    → CacheValid (register_inline d service method handler view_handler capability).0 c
unfolding register_inline
register_inline-CacheValid d c service method none view_handler capability g v = v
register_inline-CacheValid d c service method (some handler) none capability g v = v
register_inline-CacheValid d c service method (some handler) (some view) capability g v =
    let p =
      publish-CacheValid d c
        (record {
          handler = handler;
          view_handler = some view;
          mode = RpcExecutionMode.network_inline;
          capability = capability;
          service = service;
          method = method;
        })
        g v in
    ground arith

unregister-CacheValid :
    (d : ServiceDispatcher) (c : LookupCache) (service method : Bytes)
    → d.generation + 1 < 2 ^ 64
    → CacheValid d c
    → CacheValid (unregister d service method).0 c
unfolding unregister
unregister-CacheValid d c service method g v =
    let a = add64_exact d.generation 1 g in
    let key = method_key service method in
    elim (Option-cases (find_method key d.methods)) [
      | inl n ↦ rw (n, unregister) v
      | inr (x, e) ↦
          rw (e, unregister)
            (record {
              current = ground arith;
              one_each = erase_method-OneEach key d.methods v.one_each;
            })
    ]

-- One lookup with a valid cache.
lookup_valid :
    (d : ServiceDispatcher) (c : LookupCache) (service method : Bytes)
    → CacheValid d c
    → ((lookup_method d c service method).1 ≡ find_method (method_key service method) d.methods)
      × CacheValid d (lookup_method d c service method).0
unfolding lookup_method
lookup_valid d c service method v =
    let a = same_bytes_iff c.service service in
    let b = same_bytes_iff c.method_name method in
    let key : (c.service ≡ service)
        → (c.method_name ≡ method)
        → method_key c.service c.method_name ≡ method_key service method =
      λ e f. ap (λ x. method_key x c.method_name) e ∙ ap (method_key service) f in
    let found : (c.service ≡ service)
        → (c.method_name ≡ method)
        → find_method (method_key c.service c.method_name) d.methods
          ≡ find_method (method_key service method) d.methods =
      λ e f. ap (λ k. find_method k d.methods) (key e f) in
    ground arith

lookup_elsewhere :
    (d other : ServiceDispatcher) (c : LookupCache) (service method : Bytes)
    → other.address ≢ d.address
    → CacheValid d c
    → CacheValid d (lookup_method other c service method).0
unfolding lookup_method
lookup_elsewhere d other c service method ne v = ground arith

Serves-CacheValid : (d : ServiceDispatcher) (c : LookupCache) → Serves d c → CacheValid d c
Serves-CacheValid _ _ (began address c h) = record { current = inl h; one_each = tt }
Serves-CacheValid _ _ (registered {d} {c} service method handler mode capability g r) =
    register-CacheValid d c service method handler mode capability g (Serves-CacheValid d c r)
Serves-CacheValid _ _ (registered_inline {d} {c} service method handler view capability g r) =
    register_inline-CacheValid d c service method handler view capability g
      (Serves-CacheValid d c r)
Serves-CacheValid _ _ (unregistered {d} {c} service method g r) =
    unregister-CacheValid d c service method g (Serves-CacheValid d c r)
Serves-CacheValid _ _ (looked_up {d} {c} service method r) =
    (lookup_valid d c service method (Serves-CacheValid d c r)).1
Serves-CacheValid _ _ (elsewhere {d} {c} other service method ne r) =
    lookup_elsewhere d other c service method ne (Serves-CacheValid d c r)

-- In a thread whose cache at the start does not name this dispatcher's address, and whose other
-- dispatchers have other addresses, a lookup through the cache gives what the method table holds
-- now, after any sequence of registrations, removals and lookups in which the generation does not
-- wrap around.
pub lookup_method-find_method :
    (d : ServiceDispatcher) (c : LookupCache) (service method : Bytes)
    → Serves d c
    → (lookup_method d c service method).1 ≡ find_method (method_key service method) d.methods
lookup_method-find_method d c service method r =
    (lookup_valid d c service method (Serves-CacheValid d c r)).0

-- What `Register` publishes.
abbrev pub registration : Bytes → Bytes → RpcHandler → RpcExecutionMode → MethodCapability → Method
registration service method handler mode capability = record {
  handler = handler;
  view_handler = none;
  mode = mode;
  capability = capability;
  service = service;
  method = method;
}

other_key :
    (s t m n : Bytes)
    → IsLine s
    → IsLine t
    → ¬ ((s ≡ t) × (m ≡ n))
    → same_bytes (method_key s m) (method_key t n) ≡ false
other_key s t m n h k ne = elim (Bool-cases (same_bytes (method_key s m) (method_key t n))) [
  | inr f ↦ f
  | inl e ↦ absurd (
      ne
        (method_key_injective s t m n h k ((same_bytes_iff (method_key s m) (method_key t n)).0 e)))
]

register_publishes :
    (d : ServiceDispatcher) (service method : Bytes) (handler : RpcHandler)
    (mode : RpcExecutionMode) (capability : MethodCapability)
    → (register d service method (some handler) mode capability).1 ≡ true
    → (register d service method (some handler) mode capability
        ≡ publish d (registration service method handler mode capability))
      × ((publish d (registration service method handler mode capability)).1 ≡ true)
unfolding register
register_publishes d service method handler mode capability h = ground arith

-- A registration that succeeds makes its method found under its names, and changes nothing for any
-- other method, where the service names have no line break.
pub register-find_method :
    (d : ServiceDispatcher) (service method : Bytes) (handler : RpcHandler)
    (mode : RpcExecutionMode) (capability : MethodCapability)
    → (register d service method (some handler) mode capability).1 ≡ true
    → IsLine service
    → (find_method
          (method_key service method)
          (register d service method (some handler) mode capability).0.methods
        ≡ some (registration service method handler mode capability))
      × ((s m : Bytes)
          → IsLine s
          → ¬ ((s ≡ service) × (m ≡ method))
          → find_method
              (method_key s m)
              (register d service method (some handler) mode capability).0.methods
            ≡ find_method (method_key s m) d.methods)
register-find_method d service method handler mode capability h line =
    let entry = registration service method handler mode capability in
    let (e, ok) = register_publishes d service method handler mode capability h in
    let table = λ (k : Bytes). ap (λ (r : ServiceDispatcher × Bool). find_method k r.0.methods) e in
    let key = method_key service method in
    (
      table key
          ∙ publish_lem d entry ok service method
          ∙ ap (λ b. if b then some entry else find_method key d.methods)
              ((same_bytes_iff key key).1 refl),
      λ s m sl ne.
          table (method_key s m)
          ∙ publish_lem d entry ok s m
          ∙ ap (λ b. if b then some entry else find_method (method_key s m) d.methods)
              (other_key s service m method sl line ne),
    )

-- A dispatcher at the address of an earlier one, with the same number of updates, is taken for it: a
-- lookup that repeats the thread's last one gives the method of the earlier dispatcher, whatever the
-- table of the new one holds.
pub lookup_method_reused :
    (d e : ServiceDispatcher) (c : LookupCache) (service method : Bytes)
    → e.address ≡ d.address
    → e.generation ≡ d.generation
    → (lookup_method e (lookup_method d c service method).0 service method).1
      ≡ (lookup_method d c service method).1
unfolding lookup_method
lookup_method_reused d e c service method a g =
    let s = (same_bytes_iff service service).1 refl in
    let m = (same_bytes_iff method method).1 refl in ground arith
