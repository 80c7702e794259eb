-- ===== src/Transport/Connection/Valid.antt =====
-- The invariant of a connection, and that completing calls and closing keep it.
use coro_rpc.Transport.Connection.{
  Connection, PendingCall, Pending, OutboundFrame, find, update, erase, has_unfinished, is_down,
  create, ConnectionLimits, ConnectionState, wake_writer, is_closing,
}
use coro_rpc.Base.{
  length, ◌==◌, if◌then◌else◌, ==_iff, IsU64, ℕ, ◌+◌, ◌≤◌, ◌≡◌, refl, ◌⊎◌, false, none, some, List,
  [], ◌∷◌, arith, Bool-cases, suc, inl, inr, true,
}
use coro_rpc.Transport.Connection.Closing.{
  close_with, drain_loop, maybe_finish_drain, unfinished_ids, complete_all, drain_is_over,
  complete_each,
}

-- The bytes that wait to be written.
abbrev pub total_bytes : List OutboundFrame → ℕ
total_bytes [] = 0
total_bytes (f ∷ fs) = length f.bytes + total_bytes fs

-- No two pending calls have the same request id.
abbrev pub Distinct : Pending → Type 0
Distinct [] = Unit {0}
Distinct ((j, p) ∷ m) = (find j m ≡ none) × Distinct m

-- The queued bytes are counted and within their limit, so are the pending calls, and a connection
-- that is down holds no descriptor and no bytes.
pub record Kept (c : Connection) : Type 0 where
  pub limit_range : IsU64 c.limits.max_outbound_bytes
  pub counted : c.outbound_bytes ≡ total_bytes c.outbound
  pub bytes_in : c.outbound_bytes ≤ c.limits.max_outbound_bytes
  pub calls_in : length c.pending_calls ≤ c.limits.max_pending_calls
  pub distinct : Distinct c.pending_calls
  pub released : (is_down c.state ≡ false) ⊎ ((c.fd ≡ none) × (c.outbound ≡ []))

-- Besides, no call waits on a connection that is down.
pub record ConnectionValid (c : Connection) : Type 0 where
  pub kept : Kept c
  pub settled : (is_down c.state ≡ false) ⊎ (has_unfinished c.pending_calls ≡ false)

-- Writes through a pointer and removals change neither the number of calls nor the other ids.
pub length-update : (id : ℕ) (q : PendingCall) (m : Pending) → length (update id q m) ≡ length m
unfolding update
length-update id q [] = refl
length-update id q ((j, p) ∷ m) = ground (arith, length-update id q m)

pub find-update :
    (k id : ℕ) (q : PendingCall) (m : Pending)
    → find k (update id q m)
      ≡ (if k == id then elim (find id m) [ none ↦ none | some p ↦ some q ] else find k m)
unfolding find update
find-update k id q [] = ground arith
find-update k id q ((j, p) ∷ m) = ground (arith, find-update k id q m)

pub update-Distinct :
    (id : ℕ) (q : PendingCall) (m : Pending) → Distinct m → Distinct (update id q m)
unfolding update
update-Distinct id q [] h = tt
update-Distinct id q ((j, p) ∷ m) h =
    ground (arith, update-Distinct id q m h.1, find-update j id q m)

-- To complete calls, to write to completed ones and to remove calls leaves no new call waiting.
pub has_unfinished-update :
    (id : ℕ) (q : PendingCall) (m : Pending)
    → q.completed ≡ true
    → has_unfinished m ≡ false
    → has_unfinished (update id q m) ≡ false
unfolding has_unfinished update
has_unfinished-update id q [] d h = refl
has_unfinished-update id q ((j, p) ∷ m) d h = ground (arith, has_unfinished-update id q m d)

pub has_unfinished-erase :
    (id : ℕ) (m : Pending) → has_unfinished m ≡ false → has_unfinished (erase id m) ≡ false
unfolding has_unfinished erase
has_unfinished-erase id [] h = refl
has_unfinished-erase id ((j, p) ∷ m) h = ground (arith, has_unfinished-erase id m)

pub length-erase : (id : ℕ) (m : Pending) → length (erase id m) ≤ length m
unfolding erase
length-erase id [] = omega arith
length-erase id ((j, p) ∷ m) = ground (arith, length-erase id m)

pub find-erase-none : (k id : ℕ) (m : Pending) → find k m ≡ none → find k (erase id m) ≡ none
unfolding find erase
find-erase-none k id [] h = refl
find-erase-none k id ((j, p) ∷ m) h = ground (arith, find-erase-none k id m)

pub erase-Distinct : (id : ℕ) (m : Pending) → Distinct m → Distinct (erase id m)
unfolding erase
erase-Distinct id [] h = tt
erase-Distinct id ((j, p) ∷ m) h = ground (arith, erase-Distinct id m h.1, find-erase-none j id m)

-- After `erase` the id is free again.
pub find-erase : (id : ℕ) (m : Pending) → Distinct m → find id (erase id m) ≡ none
unfolding find erase
find-erase id [] h = refl
find-erase id ((j, p) ∷ m) h = ground (arith, find-erase id m h.1, ==_iff id j)

pub create-ConnectionValid :
    (l : ConnectionLimits) (c : Connection)
    → IsU64 l.max_outbound_bytes
    → create l ≡ some c
    → ConnectionValid c
unfolding create has_unfinished find
create-ConnectionValid l c r h = ground arith

pub unfinished_ids_nil : (m : Pending) → has_unfinished m ≡ false → unfinished_ids m ≡ []
unfolding has_unfinished unfinished_ids
unfinished_ids_nil [] h = refl
unfinished_ids_nil ((j, p) ∷ m) h = ground (arith, unfinished_ids_nil m)

-- The connection that a finished drain leaves, before its writer is woken.
abbrev pub shut : Connection → Connection
shut c = record c { fd = none; outbound = []; outbound_bytes = 0; state = ConnectionState.closed }

close_with_idle :
    (drain : Connection → Connection) (c : Connection)
    → is_closing c.state ≡ true
    → has_unfinished c.pending_calls ≡ false
    → close_with drain c ≡ wake_writer (shut c)
unfolding close_with complete_all complete_each
close_with_idle drain c s h = let n = unfinished_ids_nil c.pending_calls h in ground arith

-- A drain that is over shuts the connection at once, with any number of rounds left.
drain_loop_lem :
    (fuel : ℕ) (c : Connection)
    → drain_loop (suc fuel) c ≡ (if drain_is_over c then wake_writer (shut c) else c)
unfolding drain_loop
drain_loop_lem fuel c = elim (Bool-cases (drain_is_over c)) [
  | inl h ↦ rw h (close_with_idle (drain_loop fuel) c (ground arith) (ground arith))
  | inr h ↦ rw h refl
]

pub maybe_finish_drain_lem :
    (c : Connection) → maybe_finish_drain c ≡ (if drain_is_over c then wake_writer (shut c) else c)
unfolding maybe_finish_drain
maybe_finish_drain_lem c = drain_loop_lem 0 c

pub state-wake_writer : (c : Connection) → (wake_writer c).state ≡ c.state
unfolding wake_writer
state-wake_writer c = ground arith

pub pending_calls-wake_writer : (c : Connection) → (wake_writer c).pending_calls ≡ c.pending_calls
unfolding wake_writer
pending_calls-wake_writer c = ground arith

pub wake_writer-Kept : (c : Connection) → Kept c → Kept (wake_writer c)
unfolding wake_writer
wake_writer-Kept c v = ground arith

pub wake_writer-ConnectionValid :
    (c : Connection) → ConnectionValid c → ConnectionValid (wake_writer c)
unfolding wake_writer
wake_writer-ConnectionValid c v = ground arith

shut-Kept : (c : Connection) → Kept c → Kept (shut c)
shut-Kept c v = ground arith

pub maybe_finish_drain-Kept : (c : Connection) → Kept c → Kept (maybe_finish_drain c)
maybe_finish_drain-Kept c v =
    let w = wake_writer-Kept (shut c) (shut-Kept c v) in
    rw (maybe_finish_drain_lem c) (ground arith)

pub maybe_finish_drain-ConnectionValid :
    (c : Connection) → ConnectionValid c → ConnectionValid (maybe_finish_drain c)
maybe_finish_drain-ConnectionValid c v =
    rw (maybe_finish_drain_lem c) (elim (Bool-cases (drain_is_over c)) [
      | inl h ↦ rw h (
          wake_writer-ConnectionValid (shut c)
            (record { kept = shut-Kept c v.kept; settled = inr (ground arith) }))
      | inr h ↦ rw h v
    ])

-- A finished drain touches no call.
pub pending_calls-maybe_finish_drain :
    (c : Connection) → (maybe_finish_drain c).pending_calls ≡ c.pending_calls
unfolding wake_writer
pending_calls-maybe_finish_drain c = rw (maybe_finish_drain_lem c) (ground arith)
