-- ===== src/Runtime/MpscQueue/Chains.antt =====
-- Linked lists of nodes in a memory.
use coro_rpc.Runtime.MpscQueue.{write_at, reverse_nodes}
use mathlib.Core.Path.{subst}
use coro_rpc.Base.{
  ℕ, length, All, ==_iff, zero, suc, ◌≤◌, ◌≡◌, refl, ◌≢◌, Option, none, some, List, [], ◌∷◌, ◌++◌,
  reverse, arith, sym, ◌∙◌, reverse-cons, append_assoc,
}

-- The nodes that `next` leads to from `first`.
abbrev pub Chain : (ℕ → Option ℕ) → Option ℕ → List ℕ → Type 0
Chain next none [] = Unit {0}
Chain next none (x ∷ xs) = ⊥
Chain next (some n) [] = ⊥
Chain next (some n) (x ∷ xs) = (n ≡ x) × Chain next (next x) xs

abbrev pub Avoids : ℕ → List ℕ → Type 0
Avoids n [] = Unit {0}
Avoids n (x ∷ xs) = (x ≢ n) × Avoids n xs

abbrev pub Distinct : List ℕ → Type 0
Distinct [] = Unit {0}
Distinct (x ∷ xs) = Avoids x xs × Distinct xs

-- A write to another node.
pub Chain-write_at :
    (next : ℕ → Option ℕ) (n : ℕ) (v first : Option ℕ) (xs : List ℕ)
    → Avoids n xs
    → Chain next first xs
    → Chain (write_at next n v) first xs
Chain-write_at next n v none [] a c = tt
Chain-write_at next n v none (x ∷ xs) a c = c
Chain-write_at next n v (some m) [] a c = c
Chain-write_at next n v (some m) (x ∷ xs) a c = (
  c.0,
  let e : write_at next n v x ≡ next x = ground (arith, ==_iff x n) in
      rw e (Chain-write_at next n v (next x) xs a.1 c.1),
)

pub Avoids-append : (n : ℕ) (xs ys : List ℕ) → Avoids n xs → Avoids n ys → Avoids n (xs ++ ys)
Avoids-append n [] ys a b = b
Avoids-append n (x ∷ xs) ys a b = (a.0, Avoids-append n xs ys a.1 b)

pub Avoids-left : (n : ℕ) (xs ys : List ℕ) → Avoids n (xs ++ ys) → Avoids n xs
Avoids-left n [] ys a = tt
Avoids-left n (x ∷ xs) ys a = (a.0, Avoids-left n xs ys a.1)

pub Avoids-right : (n : ℕ) (xs ys : List ℕ) → Avoids n (xs ++ ys) → Avoids n ys
Avoids-right n [] ys a = a
Avoids-right n (x ∷ xs) ys a = Avoids-right n xs ys a.1

Avoids-cons :
    (n : ℕ) (xs ys : List ℕ)
    → Avoids n xs
    → All (λ x. Avoids x ys) xs
    → All (λ x. Avoids x (n ∷ ys)) xs
Avoids-cons n [] ys a b = tt
Avoids-cons n (x ∷ xs) ys a b = ((λ e. a.0 (sym e), b.0), Avoids-cons n xs ys a.1 b.1)

-- What the loop leaves: the nodes of one chain, in the opposite order, in front of another one.
abbrev pub Reversed : ℕ → (ℕ → Option ℕ) → Option ℕ → Option ℕ → List ℕ → List ℕ → Type 0
Reversed fuel next first previous xs ys =
    (next' : ℕ → Option ℕ) × (last : Option ℕ) × (reverse_nodes fuel next first previous
      ≡ some (next', last))
    × Chain next' last (reverse xs ++ ys)
    × ((n : ℕ) → Avoids n xs → next' n ≡ next n)

pub reverse_nodes-Chain :
    (fuel : ℕ) (next : ℕ → Option ℕ) (first previous : Option ℕ) (xs ys : List ℕ)
    → length xs ≤ fuel
    → Chain next first xs
    → Chain next previous ys
    → Distinct xs
    → All (λ x. Avoids x ys) xs
    → Reversed fuel next first previous xs ys
unfolding reverse_nodes
reverse_nodes-Chain fuel next none previous [] ys l c d u a = (next, previous, refl, d, λ n _. refl)
reverse_nodes-Chain fuel next none previous (x ∷ xs) ys l c d u a = elim c [ ]
reverse_nodes-Chain fuel next (some n) previous [] ys l c d u a = elim c [ ]
reverse_nodes-Chain zero next (some n) previous (x ∷ xs) ys l c d u a = absurd (omega arith)
reverse_nodes-Chain (suc fuel) next (some n) previous (x ∷ xs) ys l c u d a =
    let written = write_at next x previous in
    let here : written x ≡ previous = ground (arith, ==_iff x x) in
    let rest : Chain written (next x) xs = Chain-write_at next x previous (next x) xs d.0 c.1 in
    let back : Chain written (some x) (x ∷ ys) =
      (refl, rw here (Chain-write_at next x previous previous ys a.0 u)) in
    let (next', last, e, chain, same) =
      reverse_nodes-Chain fuel written (next x) (some x) xs (x ∷ ys) (omega arith) rest back d.1
        (Avoids-cons x xs ys d.0 a.1) in
    subst (λ m. Reversed (suc fuel) next (some m) previous (x ∷ xs) ys) (sym c.0)
      (
        next',
        last,
        e,
        rw (reverse-cons x xs, append_assoc (reverse xs) (x ∷ []) ys) chain,
        λ m k. same m k.1 ∙ (ground (arith, ==_iff m x)),
      )
