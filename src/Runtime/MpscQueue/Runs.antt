-- ===== src/Runtime/MpscQueue/Runs.antt =====
-- `MpscQueue` as a queue: nodes come out in the order in which their exchange succeeded.
use mathlib.Core.Path.{subst}
use coro_rpc.Runtime.MpscQueue.{
  MpscQueue, Stage, new_queue, write_at, same_node, push_load, push_store, push_exchange, try_pop,
}
use coro_rpc.Runtime.MpscQueue.Fifo.{Holds, waiting_nodes, load-Holds, store-Holds, exchange-Holds}
use coro_rpc.Runtime.MpscQueue.Pops.{first, try_pop-Popped}
use coro_rpc.Base.{
  ℕ, Bool, length, drop, length-append, length-reverse, if◌then◌else◌, ==_iff, Bool-cases, ◌≤◌, ◌≡◌,
  refl, sym, ap, ◌∙◌, ◌≢◌, ◌⊎◌, inl, inr, true, false, not, ◌&&◌, Option, none, some, List, [], ◌∷◌,
  ◌++◌, reverse, reverse-cons, append_assoc, arith,
}

abbrev is_queued : Stage → Bool
is_queued Stage.queued = true
is_queued _ = false

abbrev popped_list : Option ℕ → List ℕ
popped_list none = []
popped_list (some n) = n ∷ []

-- Any interleaving of the producers' steps and of the consumer's pops, with the nodes whose exchange
-- succeeded and the nodes that were popped, each in order. A pop has a round for each node ever pushed.
pub data Run : MpscQueue → List ℕ → List ℕ → Type 0 where
  start : Run new_queue [] []
  load :
      {q r : MpscQueue} {pushed popped : List ℕ} (n : ℕ)
      → Run q pushed popped
      → push_load n q ≡ some r
      → Run r pushed popped
  store :
      {q r : MpscQueue} {pushed popped : List ℕ} (n : ℕ)
      → Run q pushed popped
      → push_store n q ≡ some r
      → Run r pushed popped
  exchange :
      {q r : MpscQueue} {pushed popped : List ℕ} (spurious : Bool) (n : ℕ)
      → Run q pushed popped
      → push_exchange spurious n q ≡ some r
      → Run r (if is_queued (r.stage n) then pushed ++ n ∷ [] else pushed) popped
  pop :
      {q r : MpscQueue} {pushed popped : List ℕ} {given : Option ℕ} (fuel : ℕ)
      → Run q pushed popped
      → length pushed ≤ fuel
      → try_pop fuel q ≡ some (r, given)
      → Run r pushed (popped ++ popped_list given)

-- A queue after a run.
record Fifo (q : MpscQueue) (pushed popped : List ℕ) : Type 0 where
  drained : List ℕ
  stacked : List ℕ
  holds : Holds q drained stacked
  order : pushed ≡ popped ++ waiting_nodes drained stacked

load-Fifo :
    (q r : MpscQueue) (pushed popped : List ℕ) (n : ℕ)
    → Fifo q pushed popped
    → push_load n q ≡ some r
    → Fifo r pushed popped
unfolding push_load
load-Fifo q r pushed popped n f e =
    let out : q.stage n ≢ Stage.queued = λ g. ground arith in
    let h = load-Holds q f.drained f.stacked f.holds n out in
    let s : r ≡ (record q {
      stage = write_at q.stage n Stage.loaded;
      expected = write_at q.expected n q.head;
    }) =
      ground arith in
    record {
      drained = f.drained;
      stacked = f.stacked;
      holds = subst (λ t. Holds t f.drained f.stacked) (sym s) h;
      order = f.order;
    }

store-Fifo :
    (q r : MpscQueue) (pushed popped : List ℕ) (n : ℕ)
    → Fifo q pushed popped
    → push_store n q ≡ some r
    → Fifo r pushed popped
unfolding push_store
store-Fifo q r pushed popped n f e =
    let out : q.stage n ≢ Stage.queued = λ g. ground arith in
    let h = store-Holds q f.drained f.stacked f.holds n out in
    let s : r ≡ (record q {
      stage = write_at q.stage n Stage.stored;
      next = write_at q.next n (q.expected n);
    }) =
      ground arith in
    record {
      drained = f.drained;
      stacked = f.stacked;
      holds = subst (λ t. Holds t f.drained f.stacked) (sym s) h;
      order = f.order;
    }

same_node→eq : (a b : Option ℕ) → same_node a b ≡ true → a ≡ b
same_node→eq none none h = refl
same_node→eq none (some b) h = cc
same_node→eq (some a) none h = cc
same_node→eq (some a) (some b) h = ground arith

-- A retry, and a success.
exchange_cases :
    (q r : MpscQueue) (spurious : Bool) (n : ℕ)
    → push_exchange spurious n q ≡ some r
    → (q.stage n ≡ Stage.stored)
      × ((r ≡ record q {
        stage = write_at q.stage n Stage.loaded;
        expected = write_at q.expected n q.head;
      })
          ⊎ ((r ≡ record q { head = some n; stage = write_at q.stage n Stage.queued })
              × (same_node q.head (q.expected n) ≡ true)))
unfolding push_exchange
exchange_cases q r spurious n e =
    elim (Bool-cases (not spurious && same_node q.head (q.expected n))) [
      | inl g ↦ (ground arith, inr (ground arith, ground arith))
      | inr g ↦ (ground arith, inl (ground arith))
    ]

exchange-Fifo :
    (q r : MpscQueue) (pushed popped : List ℕ) (spurious : Bool) (n : ℕ)
    → Fifo q pushed popped
    → push_exchange spurious n q ≡ some r
    → Fifo r (if is_queued (r.stage n) then pushed ++ n ∷ [] else pushed) popped
exchange-Fifo q r pushed popped spurious n f e =
    let (stage, cases) = exchange_cases q r spurious n e in
    let out : q.stage n ≢ Stage.queued = λ g. ground arith in
    let ds = f.drained in
    let ss = f.stacked in
    elim cases [
      | inl s ↦
          let k : is_queued (r.stage n) ≡ false = ground (arith, ==_iff n n) in
          rw k (record {
            drained = ds;
            stacked = ss;
            holds = subst (λ t. Holds t ds ss) (sym s) (load-Holds q ds ss f.holds n out);
            order = f.order;
          })
      | inr (s, g) ↦
          let k : is_queued (r.stage n) ≡ true = ground (arith, ==_iff n n) in
          let same = same_node→eq q.head (q.expected n) g ∙ sym (f.holds.stored_nodes n stage) in
          rw k (record {
            drained = ds;
            stacked = n ∷ ss;
            holds =
                subst (λ t. Holds t ds (n ∷ ss)) (sym s)
                  (exchange-Holds q ds ss f.holds n out same);
            order = rw (f.order, reverse-cons n ss) (simp append_assoc);
          })
    ]

first-drop : (w : List ℕ) → popped_list (first w) ++ drop 1 w ≡ w
first-drop [] = refl
first-drop (x ∷ w) = refl

length-stacked :
    (q : MpscQueue) (pushed popped : List ℕ) (f : Fifo q pushed popped)
    → length f.stacked ≤ length pushed
length-stacked q pushed popped f = omega (
  arith,
  ap length f.order,
  length-append popped (waiting_nodes f.drained f.stacked),
  length-append f.drained (reverse f.stacked),
  length-reverse f.stacked,
)

pop-Fifo :
    (q r : MpscQueue) (pushed popped : List ℕ) (given : Option ℕ) (fuel : ℕ)
    → Fifo q pushed popped
    → length pushed ≤ fuel
    → try_pop fuel q ≡ some (r, given)
    → Fifo r pushed (popped ++ popped_list given)
pop-Fifo q r pushed popped given fuel f l e =
    let p =
      try_pop-Popped fuel q f.drained f.stacked (omega (arith, length-stacked q pushed popped f))
        f.holds in
    let w = waiting_nodes f.drained f.stacked in
    let s : r ≡ p.queue = ground (arith, p.result) in
    let g : given ≡ first w = ground (arith, p.result, p.oldest) in
    record {
      drained = p.drained;
      stacked = p.stacked;
      holds = subst (λ t. Holds t p.drained p.stacked) (sym s) p.holds;
      order =
          f.order
          ∙ (ap (◌++◌ popped) (sym (first-drop w))
              ∙ (sym (append_assoc popped (popped_list (first w)) (drop 1 w))
                  ∙ (ap (λ o. (popped ++ popped_list o) ++ drop 1 w) (sym g)
                      ∙ ap (λ t. (popped ++ popped_list given) ++ t) p.others)));
    }

Run-Fifo : (q : MpscQueue) (pushed popped : List ℕ) → Run q pushed popped → Fifo q pushed popped
Run-Fifo _ _ _ start = record {
  drained = [];
  stacked = [];
  holds = record {
    drained_chain = tt;
    head_chain = tt;
    distinct = tt;
    queued_nodes = tt;
    stored_nodes = λ n h. cc;
  };
  order = refl;
}
Run-Fifo _ _ _ (load {q} {r} {pushed} {popped} n u e) =
    load-Fifo q r pushed popped n (Run-Fifo q pushed popped u) e
Run-Fifo _ _ _ (store {q} {r} {pushed} {popped} n u e) =
    store-Fifo q r pushed popped n (Run-Fifo q pushed popped u) e
Run-Fifo _ _ _ (exchange {q} {r} {pushed} {popped} spurious n u e) =
    exchange-Fifo q r pushed popped spurious n (Run-Fifo q pushed popped u) e
Run-Fifo _ _ _ (pop {q} {r} {pushed} {popped} {given} fuel u l e) =
    pop-Fifo q r pushed popped given fuel (Run-Fifo q pushed popped u) l e

-- The queue is first-in first-out under every interleaving of its producers: whatever steps they have
-- taken, failed and retried exchanges included, the nodes that were popped so far are, in order, the
-- first of those whose exchange succeeded, and the next `TryPop` ends within a round for
-- each pushed node, gives the first of the others, and fails exactly where there is none.
pub try_pop-Run :
    (q : MpscQueue) (pushed popped : List ℕ)
    → Run q pushed popped
    → (waiting : List ℕ) × (pushed ≡ popped ++ waiting)
      × ((fuel : ℕ)
          → length pushed ≤ fuel
          → (r : MpscQueue) × (try_pop fuel q ≡ some (r, first waiting)))
try_pop-Run q pushed popped u =
    let f = Run-Fifo q pushed popped u in
    (
      waiting_nodes f.drained f.stacked,
      f.order,
      λ fuel l.
          let p =
            try_pop-Popped fuel q f.drained f.stacked
              (omega (arith, length-stacked q pushed popped f)) f.holds in
          (p.queue, p.result ∙ ap (λ o. some (p.queue, o)) p.oldest),
    )
