-- ===== src/Task/CoroResult/Waits.antt =====
-- What a coroutine that waits on a `CoroResult` sees of the routines that end.
use coro_rpc.Task.CoroResult.{
  Exception, CoroResult, finish_slot, done, keep_first, set_exception, catch_error, end_routine,
  end_routines, Waited, wait,
}
use mathlib.Core.Path.{subst}
use coro_rpc.Base.{
  true, ◌==◌, if◌then◌else◌, ◌+◌, ◌-◌, Option, none, some, List, [], ◌∷◌, ◌≡◌, ◌≢◌, refl, arith,
  length, ◌≤◌, ap, ◌∙◌, Bool-cases, inl, inr, ◌<◌, sym, false,
}

-- The first exception that a routine throws.
unfoldable pub first_thrown : Option Exception → List (Option Exception) → Option Exception
first_thrown (some first) outcomes = some first
first_thrown none [] = none
first_thrown none (o ∷ outcomes) = first_thrown o outcomes

unfoldable after_routines : List (Option Exception) → CoroResult → CoroResult
after_routines outcomes r = record r {
  remaining = r.remaining - length outcomes;
  first_error = first_thrown r.first_error outcomes;
  resumed = if r.remaining == length outcomes then r.resumed + 1 else r.resumed;
}

end_routine-more :
    (o : Option Exception) (r : CoroResult)
    → r.remaining ≢ 0
    → r.remaining ≢ 1
    → end_routine r.runtime o r
      ≡ record r { remaining = r.remaining - 1; first_error = first_thrown r.first_error (o ∷ []) }
unfolding end_routine catch_error set_exception done finish_slot keep_first first_thrown
end_routine-more o r n m = ground arith

end_routine-last :
    (o : Option Exception) (r : CoroResult)
    → r.waiting ≡ true
    → r.remaining ≡ 1
    → end_routine r.runtime o r ≡ after_routines (o ∷ []) r
unfolding end_routine catch_error set_exception done finish_slot keep_first first_thrown
    after_routines
end_routine-last o r w m = ground arith

first_thrown-first_thrown :
    (first o : Option Exception) (outcomes : List (Option Exception))
    → first_thrown (first_thrown first (o ∷ [])) outcomes ≡ first_thrown first (o ∷ outcomes)
unfolding first_thrown
first_thrown-first_thrown none none outcomes = refl
first_thrown-first_thrown none (some e) outcomes = refl
first_thrown-first_thrown (some e) o outcomes = refl

after_routines-more :
    (o : Option Exception) (outcomes : List (Option Exception)) (r : CoroResult)
    → r.remaining ≢ 0
    → after_routines outcomes (record r {
      remaining = r.remaining - 1;
      first_error = first_thrown r.first_error (o ∷ []);
    })
      ≡ after_routines (o ∷ outcomes) r
unfolding after_routines
after_routines-more o outcomes r n =
    let e = first_thrown-first_thrown r.first_error o outcomes in ground arith

after_routines-none : (r : CoroResult) → r.remaining ≢ 0 → r ≡ after_routines [] r
unfolding after_routines first_thrown
after_routines-none r m = ground arith

after_routines-one :
    (o : Option Exception) (r : CoroResult)
    → r.waiting ≡ true
    → r.remaining ≢ 0
    → end_routine r.runtime o r ≡ after_routines (o ∷ []) r
after_routines-one o r w n = elim (Bool-cases (r.remaining == 1)) [
  | inl a ↦ end_routine-last o r w (ground arith)
  | inr b ↦
      end_routine-more o r n (ground arith)
      ∙ (after_routines-none
            (record r {
              remaining = r.remaining - 1;
              first_error = first_thrown r.first_error (o ∷ []);
            })
            (ground arith)
          ∙ after_routines-more o [] r n)
]

end_routines-after_routines :
    (outcomes : List (Option Exception)) (r : CoroResult)
    → r.waiting ≡ true
    → r.remaining ≢ 0
    → length outcomes ≤ r.remaining
    → end_routines outcomes r ≡ after_routines outcomes r
unfolding end_routines
end_routines-after_routines [] r w n l = after_routines-none r n
end_routines-after_routines (o ∷ []) r w n l = after_routines-one o r w n
end_routines-after_routines (o ∷ p ∷ outcomes) r w n l =
    ap (end_routines (p ∷ outcomes)) (end_routine-more o r n (ground arith))
    ∙ (end_routines-after_routines (p ∷ outcomes)
          (record r {
            remaining = r.remaining - 1;
            first_error = first_thrown r.first_error (o ∷ []);
          })
          w (ground arith) (ground arith)
        ∙ after_routines-more o (p ∷ outcomes) r n)

-- What `Wait` ends with.
abbrev pub ends_with : Option Exception → CoroResult → Waited
ends_with first r = elim first [ none ↦ Waited.returned r | some e ↦ Waited.rethrown e r ]

after_routines-all :
    (outcomes : List (Option Exception)) (r : CoroResult)
    → r.remaining ≡ length outcomes
    → ((after_routines outcomes r).resumed ≡ r.resumed + 1)
      × (wait r.runtime r.parent (after_routines outcomes r)
          ≡ ends_with
              (first_thrown r.first_error outcomes)
              (record (after_routines outcomes r) { waiting = false }))
unfolding after_routines wait
after_routines-all outcomes r m = ground arith

after_routines-some :
    (outcomes : List (Option Exception)) (r : CoroResult)
    → length outcomes < r.remaining
    → ((after_routines outcomes r).resumed ≡ r.resumed)
      × (wait r.runtime r.parent (after_routines outcomes r)
          ≡ Waited.suspended (record (after_routines outcomes r) { waiting = true }))
unfolding after_routines wait
after_routines-some outcomes r m = ground arith

-- Where a coroutine waits on a result with open slots, the routines of all these slots, whatever they
-- return or throw, resume it exactly once; its `Wait` then ends, with the first exception in the order
-- in which the routines ended, if there is one.
pub wait-end_routines :
    (outcomes : List (Option Exception)) (r : CoroResult)
    → r.waiting ≡ true
    → r.remaining ≢ 0
    → r.remaining ≡ length outcomes
    → ((end_routines outcomes r).resumed ≡ r.resumed + 1)
      × (wait r.runtime r.parent (end_routines outcomes r)
          ≡ ends_with
              (first_thrown r.first_error outcomes)
              (record (end_routines outcomes r) { waiting = false }))
wait-end_routines outcomes r w n m =
    subst
      (λ h.
        (h.resumed ≡ r.resumed + 1)
        × (wait r.runtime r.parent h
            ≡ ends_with (first_thrown r.first_error outcomes) (record h { waiting = false })))
      (sym (end_routines-after_routines outcomes r w n (ground arith)))
      (after_routines-all outcomes r m)

-- As long as fewer routines have ended than there were open slots, the waiting coroutine is not resumed,
-- and `Wait` suspends it, also where one of them has thrown.
pub wait-end_routines_open :
    (outcomes : List (Option Exception)) (r : CoroResult)
    → r.waiting ≡ true
    → length outcomes < r.remaining
    → ((end_routines outcomes r).resumed ≡ r.resumed)
      × (wait r.runtime r.parent (end_routines outcomes r)
          ≡ Waited.suspended (record (end_routines outcomes r) { waiting = true }))
wait-end_routines_open outcomes r w l =
    subst
      (λ h.
        (h.resumed ≡ r.resumed)
        × (wait r.runtime r.parent h ≡ Waited.suspended (record h { waiting = true })))
      (sym (end_routines-after_routines outcomes r w (ground arith) (ground arith)))
      (after_routines-some outcomes r l)
