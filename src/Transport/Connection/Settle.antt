-- ===== src/Transport/Connection/Settle.antt =====
-- What completing all calls does to the pending calls and to their coroutines.
use coro_rpc.Protocol.Frame.{Frame, default_frame}
use coro_rpc.Transport.Status.{CallStatus}
use coro_rpc.Transport.Connection.{
  Connection, PendingCall, Pending, Resumed, caller, writer, find, update, has_unfinished,
  wake_writer, count_completion,
}
use coro_rpc.Transport.Connection.Valid.{
  Distinct, maybe_finish_drain_lem, pending_calls-maybe_finish_drain, shut,
}
use coro_rpc.Base.{
  if◌then◌else◌, ℕ, ◌≡◌, refl, sym, true, Option, none, some, List, [], ◌∷◌, ◌++◌, append-nil,
  arith, All, ◌==◌, ap, ◌∙◌, false, append_assoc, Bool-cases, inl, inr,
}
use coro_rpc.Transport.Connection.Closing.{
  maybe_finish_drain, complete_found, complete_pending, complete_each, unfinished_ids, complete_all,
}

-- A call that ends with a status and no response.
abbrev pub ended_call : CallStatus → PendingCall → PendingCall
ended_call status p = record p { completed = true; status = status; response = default_frame }

-- Every call that was not completed is, with this status; the others stay as they are.
abbrev pub settle : CallStatus → Pending → Pending
settle status [] = []
settle status ((j, p) ∷ m) = (j, if p.completed then p else ended_call status p) ∷ settle status m

-- The coroutines that wait for an answer.
abbrev pub waiting_callers : Pending → List ℕ
waiting_callers [] = []
waiting_callers ((j, p) ∷ m) =
    if p.completed then waiting_callers m else p.coroutine ∷ waiting_callers m

-- The callers among the coroutines that were resumed.
abbrev pub callers : List Resumed → List ℕ
callers [] = []
callers (caller k ∷ rs) = k ∷ callers rs
callers (writer ∷ rs) = callers rs

pub callers-append : (rs ts : List Resumed) → callers (rs ++ ts) ≡ callers rs ++ callers ts
callers-append [] ts = refl
callers-append (caller k ∷ rs) ts = rw (callers-append rs ts)
callers-append (writer ∷ rs) ts = callers-append rs ts

-- One round, for the id `id` and what is kept under it.
settle_found : CallStatus → ℕ → Option PendingCall → Pending → Pending
settle_found status id none m = m
settle_found status id (some p) m = if p.completed then m else update id (ended_call status p) m

unfoldable pub woken : Option PendingCall → List ℕ
woken none = []
woken (some p) = if p.completed then [] else p.coroutine ∷ []

settle_each : CallStatus → List ℕ → Pending → Pending
settle_each status [] m = m
settle_each status (id ∷ ids) m = settle_each status ids (settle_found status id (find id m) m)

woken_each : CallStatus → List ℕ → Pending → List ℕ
woken_each status [] m = []
woken_each status (id ∷ ids) m =
    woken (find id m) ++ woken_each status ids (settle_found status id (find id m) m)

pub callers-wake_writer : (c : Connection) → callers (wake_writer c).resumed ≡ callers c.resumed
unfolding wake_writer
callers-wake_writer c =
    ground (arith, callers-append c.resumed (writer ∷ []), append-nil (callers c.resumed))

pub callers-maybe_finish_drain :
    (c : Connection) → callers (maybe_finish_drain c).resumed ≡ callers c.resumed
callers-maybe_finish_drain c =
    let w = callers-wake_writer (shut c) in rw (maybe_finish_drain_lem c) (ground arith)

pub callers-complete_pending :
    (c : Connection) (id : ℕ) (p : PendingCall) (status : CallStatus) (response : Frame)
    → callers (complete_pending maybe_finish_drain none c id p status response).resumed
      ≡ callers c.resumed ++ woken (some p)
unfolding complete_pending woken
callers-complete_pending c id p status response =
    let done = record p { completed = true; status = status; response = response } in
    let e : Connection = record c {
      pending_calls = update id done c.pending_calls;
      metrics = count_completion status c.metrics;
    } in
    let k = callers-maybe_finish_drain e in
    ground (
      arith,
      callers-append (maybe_finish_drain e).resumed (caller p.coroutine ∷ []),
      append-nil (callers c.resumed),
    )

pub pending_calls-complete_pending :
    (c : Connection) (id : ℕ) (p : PendingCall) (status : CallStatus) (response : Frame)
    → (complete_pending maybe_finish_drain none c id p status response).pending_calls ≡ (
        if p.completed
        then c.pending_calls
        else update id
            (record p { completed = true; status = status; response = response })
            c.pending_calls)
unfolding complete_pending
pending_calls-complete_pending c id p status response =
    let done = record p { completed = true; status = status; response = response } in
    let e : Connection = record c {
      pending_calls = update id done c.pending_calls;
      metrics = count_completion status c.metrics;
    } in
    let k = pending_calls-maybe_finish_drain e in ground arith

pending_calls-complete_found :
    (status : CallStatus) (c : Connection) (id : ℕ) (found : Option PendingCall)
    → (complete_found maybe_finish_drain none status c id found).pending_calls
      ≡ settle_found status id found c.pending_calls
unfolding complete_found settle_found
pending_calls-complete_found status c id none = refl
pending_calls-complete_found status c id (some p) =
    ground (arith, pending_calls-complete_pending c id p status default_frame)

callers-complete_found :
    (status : CallStatus) (c : Connection) (id : ℕ) (found : Option PendingCall)
    → callers (complete_found maybe_finish_drain none status c id found).resumed
      ≡ callers c.resumed ++ woken found
unfolding complete_found woken
callers-complete_found status c id none = sym (append-nil (callers c.resumed))
callers-complete_found status c id (some p) =
    let k = callers-complete_pending c id p status default_frame in
    let n = append-nil (callers c.resumed) in ground arith

pending_calls-complete_each :
    (status : CallStatus) (ids : List ℕ) (c : Connection)
    → (complete_each maybe_finish_drain none status ids c).0.pending_calls
      ≡ settle_each status ids c.pending_calls
unfolding complete_each settle_each
pending_calls-complete_each status [] c = refl
pending_calls-complete_each status (id ∷ ids) c =
    let found = find id c.pending_calls in
    pending_calls-complete_each status ids
      (complete_found maybe_finish_drain none status c id found)
    ∙ ap (settle_each status ids) (pending_calls-complete_found status c id found)

callers-complete_each :
    (status : CallStatus) (ids : List ℕ) (c : Connection)
    → callers (complete_each maybe_finish_drain none status ids c).0.resumed
      ≡ callers c.resumed ++ woken_each status ids c.pending_calls
unfolding complete_each woken_each
callers-complete_each status [] c = sym (append-nil (callers c.resumed))
callers-complete_each status (id ∷ ids) c =
    let found = find id c.pending_calls in
    let next = complete_found maybe_finish_drain none status c id found in
    let rest = callers-complete_each status ids next in
    let first = callers-complete_found status c id found in
    let same = ap (woken_each status ids) (pending_calls-complete_found status c id found) in
    rest
    ∙ ap (λ xs. xs ++ woken_each status ids next.pending_calls) first
    ∙ ap (λ xs. (callers c.resumed ++ woken found) ++ xs) same
    ∙ append_assoc (callers c.resumed) (woken found)
        (woken_each status ids (settle_found status id found c.pending_calls))

-- Rounds for other ids leave the first call alone.
abbrev Others : ℕ → List ℕ → Type 0
Others j ids = All (λ i. (i == j) ≡ false) ids

unfinished_ids-Others : (j : ℕ) (m : Pending) → find j m ≡ none → Others j (unfinished_ids m)
unfolding find unfinished_ids
unfinished_ids-Others j [] h = tt
unfinished_ids-Others j ((k, p) ∷ m) h = ground (arith, unfinished_ids-Others j m)

settle_found_other :
    (status : CallStatus) (i j : ℕ) (p : PendingCall) (found : Option PendingCall) (m : Pending)
    → (i == j) ≡ false
    → settle_found status i found ((j, p) ∷ m) ≡ (j, p) ∷ settle_found status i found m
unfolding settle_found update
settle_found_other status i j p none m h = refl
settle_found_other status i j p (some q) m h = ground arith

find_other :
    (i j : ℕ) (p : PendingCall) (m : Pending) → (i == j) ≡ false → find i ((j, p) ∷ m) ≡ find i m
unfolding find
find_other i j p m h = ground arith

settle_each-Others :
    (status : CallStatus) (ids : List ℕ) (j : ℕ) (p : PendingCall) (m : Pending)
    → Others j ids
    → settle_each status ids ((j, p) ∷ m) ≡ (j, p) ∷ settle_each status ids m
unfolding settle_each
settle_each-Others status [] j p m h = refl
settle_each-Others status (i ∷ ids) j p m h = rw (find_other i j p m h.0) (
    rw (settle_found_other status i j p (find i m) m h.0)
      (settle_each-Others status ids j p (settle_found status i (find i m) m) h.1))

woken_each-Others :
    (status : CallStatus) (ids : List ℕ) (j : ℕ) (p : PendingCall) (m : Pending)
    → Others j ids
    → woken_each status ids ((j, p) ∷ m) ≡ woken_each status ids m
unfolding woken_each
woken_each-Others status [] j p m h = refl
woken_each-Others status (i ∷ ids) j p m h = rw (find_other i j p m h.0) (
    rw (settle_found_other status i j p (find i m) m h.0) (
      ap (λ xs. woken (find i m) ++ xs)
        (woken_each-Others status ids j p (settle_found status i (find i m) m) h.1)))

find_head : (j : ℕ) (p : PendingCall) (m : Pending) → find j ((j, p) ∷ m) ≡ some p
unfolding find
find_head j p m = ground arith

settle_found_head :
    (status : CallStatus) (j : ℕ) (p : PendingCall) (m : Pending)
    → p.completed ≡ false
    → settle_found status j (some p) ((j, p) ∷ m) ≡ (j, ended_call status p) ∷ m
unfolding settle_found update
settle_found_head status j p m h = ground arith

settle_each-unfinished_ids :
    (status : CallStatus) (m : Pending)
    → Distinct m
    → (settle_each status (unfinished_ids m) m ≡ settle status m)
      × (woken_each status (unfinished_ids m) m ≡ waiting_callers m)
unfolding settle_each woken_each unfinished_ids woken
settle_each-unfinished_ids status [] h = (refl, refl)
settle_each-unfinished_ids status ((j, p) ∷ m) h =
    let ids = unfinished_ids m in
    let others = unfinished_ids-Others j m h.0 in
    let rest = settle_each-unfinished_ids status m h.1 in
    let ended = ended_call status p in
    elim (Bool-cases p.completed) [
      | inl c ↦
          let kept = settle_each-Others status ids j p m others in
          let woke = woken_each-Others status ids j p m others in (ground arith, ground arith)
      | inr c ↦
          let one =
            ap (λ found. settle_found status j found ((j, p) ∷ m)) (find_head j p m)
            ∙ settle_found_head status j p m c in
          let first = ap (settle_each status ids) one in
          let first_woken = ap (woken_each status ids) one in
          let head = ap woken (find_head j p m) in
          let kept = settle_each-Others status ids j ended m others in
          let woke = woken_each-Others status ids j ended m others in (ground arith, ground arith)
    ]

-- `CompleteAllPending` completes exactly the calls that wait, with its status and no response, and
-- resumes exactly their coroutines, each once.
pub complete_all_lem :
    (c : Connection) (status : CallStatus)
    → Distinct c.pending_calls
    → ((complete_all maybe_finish_drain none c status).0.pending_calls
        ≡ settle status c.pending_calls)
      × (callers (complete_all maybe_finish_drain none c status).0.resumed
          ≡ callers c.resumed ++ waiting_callers c.pending_calls)
unfolding complete_all
complete_all_lem c status h =
    let ids = unfinished_ids c.pending_calls in
    let both = settle_each-unfinished_ids status c.pending_calls h in
    (
      pending_calls-complete_each status ids c ∙ both.0,
      callers-complete_each status ids c ∙ ap (λ xs. callers c.resumed ++ xs) both.1,
    )

pub has_unfinished-settle :
    (status : CallStatus) (m : Pending) → has_unfinished (settle status m) ≡ false
unfolding has_unfinished
has_unfinished-settle status [] = refl
has_unfinished-settle status ((j, p) ∷ m) = ground (arith, has_unfinished-settle status m)

-- Where no call is running, no `Resume` throws.
complete_each_calm :
    (status : CallStatus) (ids : List ℕ) (c : Connection)
    → (complete_each maybe_finish_drain none status ids c).1 ≡ false
unfolding complete_each
complete_each_calm status [] c = refl
complete_each_calm status (id ∷ ids) c =
    complete_each_calm status ids
      (complete_found maybe_finish_drain none status c id (find id c.pending_calls))

pub complete_all_calm :
    (c : Connection) (status : CallStatus)
    → (complete_all maybe_finish_drain none c status).1 ≡ false
unfolding complete_all
complete_all_calm c status = complete_each_calm status (unfinished_ids c.pending_calls) c
