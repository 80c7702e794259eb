-- ===== src/Server/Valid.antt =====
-- The invariant of a server: requests in flight, connections and records are counted and limited.
use coro_rpc.Protocol.Wire.{Bytes}
use coro_rpc.Server.{RpcServer, RpcServerOptions, RequestState, IdempotencyRecord}
use coro_rpc.Server.Closing.{Records, put_record, erase_record, release_waiter, leave_record}
use coro_rpc.Server.Finishing.{erase_completed, prune}
use coro_rpc.Base.{
  ℕ, length, if◌then◌else◌, IsU64, find_entry, put_entry, erase_entry, get_elem?, set, zero, suc,
  ◌≤◌, ◌≡◌, refl, ◌⊎◌, true, false, some, List, [], ◌∷◌, ◌++◌, arith,
}

-- The requests that are not completed.
abbrev pub open_count : List RequestState → ℕ
open_count [] = 0
open_count (r ∷ rs) = if r.completed then open_count rs else suc (open_count rs)

-- The limits are numbers of `std::size_t`.
pub record OptionsInRange (o : RpcServerOptions) : Type 0 where
  pub connections_range : IsU64 o.max_connections
  pub requests_range : IsU64 o.max_inflight_requests

pub record ServerValid (o : RpcServerOptions) (s : RpcServer) : Type 0 where
  pub inflight : s.inflight_count ≡ open_count s.states
  pub active : s.active_connections ≡ length s.connections
  pub inflight_limit : s.inflight_count ≤ o.max_inflight_requests
  pub active_limit : s.active_connections ≤ o.max_connections
  pub records_limit : length s.idempotency ≤ o.max_idempotency_entries
  pub stopped_refuses : (s.stopped ≡ false) ⊎ (s.accepting ≡ false)

pub open_count-set_done :
    (rs : List RequestState) (i : ℕ) (r q : RequestState)
    → get_elem? rs i ≡ some r
    → r.completed ≡ false
    → q.completed ≡ true
    → suc (open_count (set rs i q)) ≡ open_count rs
unfolding get_elem? set
open_count-set_done [] i r q h c d = cc
open_count-set_done (p ∷ rs) zero r q h c d = ground arith
open_count-set_done (p ∷ rs) (suc i) r q h c d =
    let e = open_count-set_done rs i r q h c d in ground arith

pub open_count-set_same :
    (rs : List RequestState) (i : ℕ) (r q : RequestState)
    → get_elem? rs i ≡ some r
    → q.completed ≡ r.completed
    → open_count (set rs i q) ≡ open_count rs
unfolding get_elem? set
open_count-set_same [] i r q h c = cc
open_count-set_same (p ∷ rs) zero r q h c = ground arith
open_count-set_same (p ∷ rs) (suc i) r q h c =
    let e = open_count-set_same rs i r q h c in ground arith

pub open_count-append :
    (rs : List RequestState) (r : RequestState)
    → r.completed ≡ false
    → open_count (rs ++ r ∷ []) ≡ suc (open_count rs)
open_count-append [] r h = ground arith
open_count-append (p ∷ rs) r h = let e = open_count-append rs r h in ground arith

module _ {A : Type 0} where
  pub length-put_entry : (k : ℕ) (v : A) (m : List (ℕ × A)) → length (put_entry k v m) ≡ length m
  unfolding put_entry
  length-put_entry k v [] = refl
  length-put_entry k v ((j, w) ∷ m) = ground (arith, length-put_entry k v m)

  pub length-erase_entry :
      (k : ℕ) (v : A) (m : List (ℕ × A))
      → find_entry k m ≡ some v
      → suc (length (erase_entry k m)) ≡ length m
  unfolding find_entry erase_entry
  length-erase_entry k v [] h = cc
  length-erase_entry k v ((j, w) ∷ m) h = ground (arith, length-erase_entry k v m)

pub length-put_record :
    (key : Bytes) (r : IdempotencyRecord) (m : Records) → length (put_record key r m) ≡ length m
unfolding put_record
length-put_record key r [] = refl
length-put_record key r ((k, q) ∷ m) = ground (arith, length-put_record key r m)

pub length-erase_record : (key : Bytes) (m : Records) → length (erase_record key m) ≤ length m
unfolding erase_record
length-erase_record key [] = omega arith
length-erase_record key ((k, q) ∷ m) = ground (arith, length-erase_record key m)

pub length-leave_record :
    (address : ℕ) (key : Bytes) (m : Records) → length (leave_record address key m) ≤ length m
unfolding leave_record release_waiter
length-leave_record address key m = grind (arith, length-erase_record, length-put_record)

length-erase_completed : (key : Bytes) (m : Records) → length (erase_completed key m) ≤ length m
unfolding erase_completed
length-erase_completed key m = ground (arith, length-erase_record key m)

pub length-prune :
    (limit : ℕ) (keys : List Bytes) (m : Records) → length (prune limit keys m).0 ≤ length m
unfolding prune
length-prune limit [] m = omega arith
length-prune limit (key ∷ keys) m =
    let e = length-prune limit keys (erase_completed key m) in
    let d = length-erase_completed key m in ground arith
