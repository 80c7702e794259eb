-- ===== src/Runtime/MpscQueue/Pops.antt =====
-- A pop of `MpscQueue`.
use mathlib.Core.Path.{subst}
use coro_rpc.Runtime.MpscQueue.{MpscQueue, Stage, write_at, pop_drained, drain_head, try_pop}
use coro_rpc.Runtime.MpscQueue.Chains.{
  Chain, Avoids, Distinct, Chain-write_at, Avoids-left, Avoids-right, Avoids-append,
  reverse_nodes-Chain,
}
use coro_rpc.Base.{
  ℕ, All, ◌==◌, Bool-cases, ◌≡◌, refl, sym, ◌∙◌, inl, inr, some, List, [], ◌∷◌, ◌++◌, reverse,
  arith, drop, Option-cases, Option, none, reverse-cons, append-nil, length, All-append,
  All-reverse, ◌≤◌, ap,
}
use coro_rpc.Runtime.MpscQueue.Fifo.{
  All-write_at, Avoids-of_stage, Distinct-insert, Holds, waiting_nodes,
}

Avoids-reverse : (n : ℕ) (xs : List ℕ) → Avoids n xs → Avoids n (reverse xs ++ [])
Avoids-reverse n [] a = tt
Avoids-reverse n (x ∷ xs) a =
    rw (append-nil (reverse (x ∷ xs)), reverse-cons x xs)
      (Avoids-append n (reverse xs) (x ∷ [])
        (Avoids-left n (reverse xs) [] (Avoids-reverse n xs a.1)) (a.0, tt))

Distinct-reverse : (xs : List ℕ) → Distinct xs → Distinct (reverse xs ++ [])
Distinct-reverse [] d = tt
Distinct-reverse (x ∷ xs) d =
    rw (append-nil (reverse (x ∷ xs)), reverse-cons x xs)
      (Distinct-insert x (reverse xs) [] (Avoids-reverse x xs d.0) (Distinct-reverse xs d.1))

Avoids-nothing : (xs : List ℕ) → All (λ x. Avoids x []) xs
Avoids-nothing [] = tt
Avoids-nothing (x ∷ xs) = (tt, Avoids-nothing xs)

-- The oldest of some nodes, and the others.
abbrev pub first : List ℕ → Option ℕ
first [] = none
first (x ∷ xs) = some x

-- A pop: the queue behind it, its nodes, and what it gave.
pub record Popped (o : Option (MpscQueue × Option ℕ)) (ds ss : List ℕ) : Type 0 where
  pub queue : MpscQueue
  pub popped : Option ℕ
  pub drained : List ℕ
  pub stacked : List ℕ
  pub result : o ≡ some (queue, popped)
  pub oldest : popped ≡ first (waiting_nodes ds ss)
  pub holds : Holds queue drained stacked
  pub others : drop 1 (waiting_nodes ds ss) ≡ waiting_nodes drained stacked

pop_front :
    (q : MpscQueue) (n x : ℕ) (ds ss : List ℕ)
    → q.drained ≡ some n
    → n ≡ x
    → Holds q (x ∷ ds) ss
    → Holds
        (record q {
          drained = q.next n;
          next = write_at q.next n none;
          stage = write_at q.stage n Stage.idle;
        })
        ds
        ss
pop_front q n x ds ss e f v =
    let c : Chain q.next (q.next x) ds =
      (subst (λ o. Chain q.next o (x ∷ ds)) e v.drained_chain).1 in
    subst
      (λ m.
        Holds
          (record q {
            drained = q.next m;
            next = write_at q.next m none;
            stage = write_at q.stage m Stage.idle;
          })
          ds ss)
      (sym f)
      (record {
        drained_chain =
            Chain-write_at q.next x none (q.next x) ds (Avoids-left x ds ss v.distinct.0) c;
        head_chain =
            Chain-write_at q.next x none q.head ss (Avoids-right x ds ss v.distinct.0) v.head_chain;
        distinct = v.distinct.1;
        queued_nodes = All-write_at q.stage x Stage.idle (ds ++ ss) v.distinct.0 v.queued_nodes.1;
        stored_nodes = λ m h. elim (Bool-cases (m == x)) [
          | inl g ↦ absurd (ground arith)
          | inr g ↦ let w = v.stored_nodes m in ground arith
        ];
      })

pop_drained-empty : (q : MpscQueue) → Holds q [] [] → Popped (some (pop_drained q)) [] []
unfolding pop_drained
pop_drained-empty q v = elim (Option-cases q.drained) [
  | inl e ↦ record {
    queue = q;
    popped = none;
    drained = [];
    stacked = [];
    result = ground arith;
    oldest = refl;
    holds = v;
    others = refl;
  }
  | inr (n, e) ↦ elim (subst (λ o. Chain q.next o []) e v.drained_chain) [ ]
]

pop_drained-Popped :
    (q : MpscQueue) (x : ℕ) (ds ss : List ℕ)
    → Holds q (x ∷ ds) ss
    → Popped (some (pop_drained q)) (x ∷ ds) ss
unfolding pop_drained
pop_drained-Popped q x ds ss v = elim (Option-cases q.drained) [
  | inl e ↦ elim (subst (λ o. Chain q.next o (x ∷ ds)) e v.drained_chain) [ ]
  | inr (n, e) ↦
      let f : n ≡ x = (subst (λ o. Chain q.next o (x ∷ ds)) e v.drained_chain).0 in
      record {
        queue = record q {
          drained = q.next n;
          next = write_at q.next n none;
          stage = write_at q.stage n Stage.idle;
        };
        popped = some n;
        drained = ds;
        stacked = ss;
        result = ground arith;
        oldest = ap some f;
        holds = pop_front q n x ds ss e f v;
        others = refl;
      }
]

-- What the exchange of the consumer leaves.
drain_head-Holds :
    (fuel : ℕ) (q : MpscQueue) (ss : List ℕ)
    → length ss ≤ fuel
    → Holds q [] ss
    → (r : MpscQueue) × (drain_head fuel q ≡ some r) × Holds r (reverse ss ++ []) []
unfolding drain_head
drain_head-Holds fuel q ss l v =
    let (next, last, e, chain, same) =
      reverse_nodes-Chain fuel q.next q.head none ss [] l v.head_chain tt v.distinct
        (Avoids-nothing ss) in
    (
      record q { head = none; next = next; drained = last },
      ground arith,
      record {
        drained_chain = chain;
        head_chain = tt;
        distinct = rw (append-nil (reverse ss ++ [])) (Distinct-reverse ss v.distinct);
        queued_nodes = rw (append-nil (reverse ss ++ [])) (
            All-append (λ n. q.stage n ≡ Stage.queued) (reverse ss) []
              (All-reverse (λ n. q.stage n ≡ Stage.queued) ss v.queued_nodes) tt);
        stored_nodes = λ n h.
            same n (Avoids-of_stage q.stage n ss (λ e. ground arith) v.queued_nodes)
            ∙ v.stored_nodes n h;
      },
    )

pop_drained_cases :
    (q : MpscQueue) (ds : List ℕ) → Holds q ds [] → Popped (some (pop_drained q)) ds []
pop_drained_cases q [] v = pop_drained-empty q v
pop_drained_cases q (x ∷ ds) v = pop_drained-Popped q x ds [] v

try_pop_drained :
    (fuel : ℕ) (q : MpscQueue) (x : ℕ) (ds ss : List ℕ)
    → Holds q (x ∷ ds) ss
    → try_pop fuel q ≡ some (pop_drained q)
unfolding try_pop
try_pop_drained fuel q x ds ss v = elim (Option-cases q.drained) [
  | inl e ↦ elim (subst (λ o. Chain q.next o (x ∷ ds)) e v.drained_chain) [ ]
  | inr (n, e) ↦ ground arith
]

try_pop_refilled :
    (fuel : ℕ) (q r : MpscQueue) (ss : List ℕ)
    → Holds q [] ss
    → drain_head fuel q ≡ some r
    → try_pop fuel q ≡ some (pop_drained r)
unfolding try_pop
try_pop_refilled fuel q r ss v d = elim (Option-cases q.drained) [
  | inl e ↦ ground arith
  | inr (n, e) ↦ elim (subst (λ o. Chain q.next o []) e v.drained_chain) [ ]
]

pub try_pop-Popped :
    (fuel : ℕ) (q : MpscQueue) (ds ss : List ℕ)
    → length ss ≤ fuel
    → Holds q ds ss
    → Popped (try_pop fuel q) ds ss
try_pop-Popped fuel q [] ss l v =
    let (r, e, h) = drain_head-Holds fuel q ss l v in
    let p = pop_drained_cases r (reverse ss ++ []) h in
    let w : waiting_nodes (reverse ss ++ []) [] ≡ reverse ss =
      append-nil (reverse ss ++ []) ∙ append-nil (reverse ss) in
    record {
      queue = p.queue;
      popped = p.popped;
      drained = p.drained;
      stacked = p.stacked;
      result = try_pop_refilled fuel q r ss v e ∙ p.result;
      oldest = p.oldest ∙ ap first w;
      holds = p.holds;
      others = ap (drop 1) (sym w) ∙ p.others;
    }
try_pop-Popped fuel q (x ∷ ds) ss l v =
    subst (λ o. Popped o (x ∷ ds) ss) (sym (try_pop_drained fuel q x ds ss v))
      (pop_drained-Popped q x ds ss v)
