-- ===== src/Runtime/MpscQueue/Fifo.antt =====
-- The steps of the producers of `MpscQueue`, and the nodes that its two lists hold.
use mathlib.Core.Path.{subst}
use coro_rpc.Runtime.MpscQueue.{MpscQueue, Stage, write_at}
use coro_rpc.Runtime.MpscQueue.Chains.{
  Chain, Avoids, Distinct, Chain-write_at, Avoids-left, Avoids-right,
}
use coro_rpc.Base.{
  ℕ, All, ◌==◌, ==_iff, Bool-cases, ◌≡◌, refl, sym, ◌∙◌, ◌≢◌, inl, inr, some, List, [], ◌∷◌, ◌++◌,
  reverse, arith,
}

-- The nodes of both lists, the drained ones `ds` first to last, the others `ss` last to first.
pub record Holds (q : MpscQueue) (ds ss : List ℕ) : Type 0 where
  pub drained_chain : Chain q.next q.drained ds
  pub head_chain : Chain q.next q.head ss
  pub distinct : Distinct (ds ++ ss)
  pub queued_nodes : All (λ n. q.stage n ≡ Stage.queued) (ds ++ ss)
  pub stored_nodes : (n : ℕ) → q.stage n ≡ Stage.stored → q.next n ≡ q.expected n

-- The nodes that wait, the next one first.
abbrev pub waiting_nodes : List ℕ → List ℕ → List ℕ
waiting_nodes ds ss = ds ++ reverse ss

pub Avoids-of_stage :
    (stage : ℕ → Stage) (n : ℕ) (xs : List ℕ)
    → stage n ≢ Stage.queued
    → All (λ m. stage m ≡ Stage.queued) xs
    → Avoids n xs
Avoids-of_stage stage n [] h a = tt
Avoids-of_stage stage n (x ∷ xs) h a =
    (λ e. h (subst (λ m. stage m ≡ Stage.queued) e a.0), Avoids-of_stage stage n xs h a.1)

write_at_other {ℓ} : {A : Type ℓ} (f : ℕ → A) (n m : ℕ) (v : A) → m ≢ n → write_at f n v m ≡ f m
write_at_other f n m v h = elim (Bool-cases (m == n)) [
  | inl e ↦ absurd (h ((==_iff m n).0 e))
  | inr e ↦ rw e
]

write_at_here {ℓ} : {A : Type ℓ} (f : ℕ → A) (n : ℕ) (v : A) → write_at f n v n ≡ v
write_at_here f n v = rw ((==_iff n n).1 refl)

pub All-write_at :
    (stage : ℕ → Stage) (n : ℕ) (v : Stage) (xs : List ℕ)
    → Avoids n xs
    → All (λ m. stage m ≡ Stage.queued) xs
    → All (λ m. write_at stage n v m ≡ Stage.queued) xs
All-write_at stage n v [] a h = tt
All-write_at stage n v (x ∷ xs) a h =
    (write_at_other stage n x v a.0 ∙ h.0, All-write_at stage n v xs a.1 h.1)

pub Distinct-insert :
    (n : ℕ) (ds ss : List ℕ) → Avoids n (ds ++ ss) → Distinct (ds ++ ss) → Distinct (ds ++ n ∷ ss)
Distinct-insert n [] ss a d = (a, d)
Distinct-insert n (x ∷ ds) ss a d = (Avoids-insert x ds a.0 d.0, Distinct-insert n ds ss a.1 d.1)
  where
    Avoids-insert : (x : ℕ) (ds : List ℕ) → x ≢ n → Avoids x (ds ++ ss) → Avoids x (ds ++ n ∷ ss)
    Avoids-insert x [] h b = (λ e. h (sym e), b)
    Avoids-insert x (y ∷ ys) h b = (b.0, Avoids-insert x ys h b.1)

All-insert :
    (P : ℕ → Type 0) (n : ℕ) (ds ss : List ℕ) → P n → All P (ds ++ ss) → All P (ds ++ n ∷ ss)
All-insert P n [] ss p a = (p, a)
All-insert P n (x ∷ ds) ss p a = (a.0, All-insert P n ds ss p a.1)

-- A node that is not in the queue.
module _ (q : MpscQueue) (ds ss : List ℕ) (v : Holds q ds ss) (n : ℕ)
    (out : q.stage n ≢ Stage.queued) where
  apart : Avoids n (ds ++ ss)
  apart = Avoids-of_stage q.stage n (ds ++ ss) out v.queued_nodes

  pub load-Holds :
      Holds
        (record q {
          stage = write_at q.stage n Stage.loaded;
          expected = write_at q.expected n q.head;
        })
        ds
        ss
  load-Holds = record {
    drained_chain = v.drained_chain;
    head_chain = v.head_chain;
    distinct = v.distinct;
    queued_nodes = All-write_at q.stage n Stage.loaded (ds ++ ss) apart v.queued_nodes;
    stored_nodes = λ m h. elim (Bool-cases (m == n)) [
      | inl e ↦ absurd (ground arith)
      | inr e ↦ let w = v.stored_nodes m in ground arith
    ];
  }

  pub store-Holds :
      Holds
        (record q {
          stage = write_at q.stage n Stage.stored;
          next = write_at q.next n (q.expected n);
        })
        ds
        ss
  store-Holds = record {
    drained_chain =
        Chain-write_at q.next n (q.expected n) q.drained ds (Avoids-left n ds ss apart)
          v.drained_chain;
    head_chain =
        Chain-write_at q.next n (q.expected n) q.head ss (Avoids-right n ds ss apart) v.head_chain;
    distinct = v.distinct;
    queued_nodes = All-write_at q.stage n Stage.stored (ds ++ ss) apart v.queued_nodes;
    stored_nodes = λ m h. elim (Bool-cases (m == n)) [
      | inl e ↦ rw e (rw ((==_iff m n).0 e))
      | inr e ↦ let w = v.stored_nodes m in ground arith
    ];
  }

  pub exchange-Holds :
      q.head ≡ q.next n
      → Holds (record q { head = some n; stage = write_at q.stage n Stage.queued }) ds (n ∷ ss)
  exchange-Holds f = record {
    drained_chain = v.drained_chain;
    head_chain = (refl, subst (λ h. Chain q.next h ss) f v.head_chain);
    distinct = Distinct-insert n ds ss apart v.distinct;
    queued_nodes =
        All-insert (λ m. write_at q.stage n Stage.queued m ≡ Stage.queued) n ds ss
          (write_at_here q.stage n Stage.queued)
          (All-write_at q.stage n Stage.queued (ds ++ ss) apart v.queued_nodes);
    stored_nodes = λ m h. elim (Bool-cases (m == n)) [
      | inl e ↦ absurd (ground arith)
      | inr e ↦ let w = v.stored_nodes m in ground arith
    ];
  }
