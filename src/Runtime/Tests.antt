-- ===== src/Runtime/Tests.antt =====
-- A queue with two producers (rpc_src/runtime/mpsc_queue.h).
use coro_rpc.Runtime.MpscQueue.{MpscQueue, push_load, push_store, push_exchange, try_pop}
use coro_rpc.Runtime.MpscQueue.Pops.{first}
use coro_rpc.Runtime.MpscQueue.Runs.{Run, start, load, store, exchange, try_pop-Run}
use coro_rpc.Base.{ℕ, ◌≤◌, ◌≡◌, refl, false, some, List, [], ◌∷◌, ◌++◌}

abbrev both_nodes : List ℕ
both_nodes = 5 ∷ 6 ∷ []

-- Both producers read `head_`, the exchange of the node 6 fails, and it is pushed at the second try.
contended_queue : (q : MpscQueue) × Run q both_nodes []
unfolding push_load push_store push_exchange
contended_queue = (
  _,
  exchange false 6
      (store 6
        (exchange false 6
          (exchange false 5 (store 6 (store 5 (load 6 (load 5 start refl) refl) refl) refl) refl)
          refl)
        refl)
      refl,
)

try_pop-Run_example :
    (waiting : List ℕ) × (both_nodes ≡ [] ++ waiting)
    × ((fuel : ℕ)
        → 2 ≤ fuel
        → (r : MpscQueue) × (try_pop fuel contended_queue.0 ≡ some (r, first waiting)))
try_pop-Run_example = try_pop-Run contended_queue.0 both_nodes [] contended_queue.1
