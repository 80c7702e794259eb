-- ===== src/Runtime/MpscQueue.antt =====
-- `MpscQueue` of rpc_src/runtime/mpsc_queue.h. Nodes are numbers, and `next` is the field of that name
-- in each. A step of a producer is one access to `head_` or to its node. `TryPop` is one step: behind
-- its exchange it touches only nodes that nobody else knows.
pub mod Chains
pub mod Fifo
pub mod Pops
pub mod Runs
use coro_rpc.Base.{
  ℕ, Bool, ◌==◌, if◌then◌else◌, zero, suc, true, false, not, ◌&&◌, Option, none, some, map,
}

-- Where a node is: not in use, held by a producer that has read `head_` and has or has not stored it
-- in the node, or pushed.
pub data Stage : Type 0 where
  idle loaded stored queued : Stage

-- `expected n` is the variable `old` of the producer of `n`.
pub record MpscQueue : Type 0 where
  pub head : Option ℕ
  pub drained : Option ℕ
  pub next : ℕ → Option ℕ
  pub stage : ℕ → Stage
  pub expected : ℕ → Option ℕ

abbrev pub new_queue : MpscQueue
new_queue = record {
  head = none;
  drained = none;
  next = λ n. none;
  stage = λ n. Stage.idle;
  expected = λ n. none;
}

abbrev pub write_at {ℓ} : {A : Type ℓ} → (ℕ → A) → ℕ → A → ℕ → A
write_at f k v n = if n == k then v else f n

abbrev pub same_node : Option ℕ → Option ℕ → Bool
same_node none none = true
same_node none (some b) = false
same_node (some a) none = false
same_node (some a) (some b) = a == b

-- `head_.load` of `Push`, for a node that is not in use.
unfoldable pub push_load : ℕ → MpscQueue → Option MpscQueue
push_load n q = elim (q.stage n) [
  | Stage.idle ↦ some (record q {
    stage = write_at q.stage n Stage.loaded;
    expected = write_at q.expected n q.head;
  })
  | _ ↦ none
]

-- `node->next.store`.
unfoldable pub push_store : ℕ → MpscQueue → Option MpscQueue
push_store n q = elim (q.stage n) [
  | Stage.loaded ↦ some (record q {
    stage = write_at q.stage n Stage.stored;
    next = write_at q.next n (q.expected n);
  })
  | _ ↦ none
]

-- `compare_exchange_weak`, which may fail without a reason (`spurious`). Where it fails, it has read
-- `head_` again.
unfoldable pub push_exchange : Bool → ℕ → MpscQueue → Option MpscQueue
push_exchange spurious n q =
    let pushed = record q { head = some n; stage = write_at q.stage n Stage.queued } in
    let again = record q {
      stage = write_at q.stage n Stage.loaded;
      expected = write_at q.expected n q.head;
    } in
    elim (q.stage n) [
      | Stage.stored ↦
          some (if not spurious && same_node q.head (q.expected n) then pushed else again)
      | _ ↦ none
    ]

-- The loop of `TakeAllReversed`, on fuel: the links behind it, and the last node.
unfoldable pub reverse_nodes :
    ℕ → (ℕ → Option ℕ) → Option ℕ → Option ℕ → Option ((ℕ → Option ℕ) × Option ℕ)
reverse_nodes fuel next none previous = some (next, previous)
reverse_nodes zero next (some n) previous = none
reverse_nodes (suc fuel) next (some n) previous =
    reverse_nodes fuel (write_at next n previous) (next n) (some n)

-- `TakeAllReversed`, and the assignment to `drained_`.
unfoldable pub drain_head : ℕ → MpscQueue → Option MpscQueue
drain_head fuel q = elim (reverse_nodes fuel q.next q.head none) [
  | none ↦ none
  | some (next, last) ↦ some (record q { head = none; next = next; drained = last })
]

-- The end of `TryPop`, and what it pops.
unfoldable pub pop_drained : MpscQueue → MpscQueue × Option ℕ
pop_drained q = elim q.drained [
  | none ↦ (q, none)
  | some n ↦ (
    record q {
      drained = q.next n;
      next = write_at q.next n none;
      stage = write_at q.stage n Stage.idle;
    },
    some n,
  )
]

unfoldable pub try_pop : ℕ → MpscQueue → Option (MpscQueue × Option ℕ)
try_pop fuel q =
    let refilled : Option (MpscQueue × Option ℕ) = elim (drain_head fuel q) [
      | none ↦ none
      | some r ↦ some (pop_drained r)
    ] in
    elim q.drained [ none ↦ refilled | some n ↦ some (pop_drained q) ]
