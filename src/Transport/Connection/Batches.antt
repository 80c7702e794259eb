-- ===== src/Transport/Connection/Batches.antt =====
-- What the writer of a connection sends: a prefix of its queue, in order, in bounded batches.
use coro_rpc.Protocol.Wire.{Bytes}
use coro_rpc.Transport.Connection.{
  Connection, Pending, OutboundFrame, PendingCall, find, update, is_ready, is_closing,
}
use coro_rpc.Base.{
  ◌==◌, if◌then◌else◌, ==_iff, Bool-cases, ℕ, ◌≡◌, refl, ap, ◌∙◌, inl, inr, Bool, true, false, not,
  ◌||◌, none, some, List, [], ◌∷◌, ◌++◌, arith, length, leb, Option-cases, sub64, ◌+◌, sym,
  append-nil, append_assoc, length-append, suc, ◌≤◌, ◌≢◌, ◌⊎◌, ◌&&◌, ◌*◌,
}
use coro_rpc.Transport.Connection.Writer.{
  take_front, fill_batch, write_batch_bytes, run_writer, Writing, ended, idle, write, writer_turn,
}
use coro_rpc.Transport.Connection.Valid.{find-update}
use coro_rpc.Protocol.Decoder.Session.{nil_of_length}

-- A frame that is still worth sending: a cancellation, or the request of a call that waits.
abbrev pub waits : Pending → OutboundFrame → Bool
waits m f = f.control || elim (find f.request_id m) [ none ↦ false | some p ↦ not p.completed ]

-- The bytes of the frames that are worth sending, one behind the other.
abbrev pub payload : Pending → List OutboundFrame → Bytes
payload m [] = []
payload m (f ∷ fs) = if waits m f then f.bytes ++ payload m fs else payload m fs

-- Marking a request as sent changes nothing about which calls wait.
update-waits :
    (m : Pending) (id : ℕ) (p : PendingCall) (g : OutboundFrame)
    → find id m ≡ some p
    → waits (update id (record p { sent = true }) m) g ≡ waits m g
update-waits m id p g h =
    let u = find-update g.request_id id (record p { sent = true }) m in
    let same = ==_iff g.request_id id in
    elim (Bool-cases (g.request_id == id)) [
      | inl e ↦
          let k : g.request_id ≡ id = same.0 e in let f = ap (λ i. find i m) k ∙ h in ground arith
      | inr e ↦ ground arith
    ]

take_front_lem :
    (c : Connection) (f : OutboundFrame)
    → ((take_front c f).1 ≡ waits c.pending_calls f)
      × ((g : OutboundFrame) → waits (take_front c f).0.pending_calls g ≡ waits c.pending_calls g)
unfolding take_front
take_front_lem c f = elim (Option-cases (find f.request_id c.pending_calls)) [
  | inl n ↦ (ground arith, λ g. ground arith)
  | inr (p, e) ↦
      (ground arith, λ g. let u = update-waits c.pending_calls f.request_id p g e in ground arith)
]

payload-waits :
    (m n : Pending) (fs : List OutboundFrame)
    → ((g : OutboundFrame) → waits m g ≡ waits n g)
    → payload m fs ≡ payload n fs
payload-waits m n [] h = refl
payload-waits m n (f ∷ fs) h = let k = h f in let r = payload-waits m n fs h in ground arith

-- The frames `sent` hold the bytes of one frame only, which is the last of them.
pub record Alone (m : Pending) (sent : List OutboundFrame) (bytes : Bytes) : Type 0 where
  pub before : List OutboundFrame
  pub frame : OutboundFrame
  pub last : sent ≡ before ++ frame ∷ []
  pub nothing_before : payload m before ≡ []
  pub its_bytes : bytes ≡ frame.bytes

-- How long a batch gets that starts with the bytes `batch`.
abbrev Bounded : Pending → Bytes → List OutboundFrame → Bytes → Type 0
Bounded m batch sent bytes =
    (length bytes ≤ 64 * 1024)
    ⊎ (((length batch ≢ 0) × (sent ≡ [])) ⊎ ((length batch ≡ 0) × Alone m sent bytes))

-- The part `sent` of a queue that a batch takes, and the part `kept` that it leaves.
pub record Batched (c : Connection) (frames : List OutboundFrame) (batch : Bytes)
    (out : Connection × Bytes) : Type 0 where
  pub sent : List OutboundFrame
  pub kept : List OutboundFrame
  pub split : frames ≡ sent ++ kept
  pub left : out.0.outbound ≡ kept
  pub bytes : out.1 ≡ batch ++ payload c.pending_calls sent
  pub whole : length out.1 ≡ 0 → kept ≡ []
  pub bounded : Bounded c.pending_calls batch sent out.1

popped : Connection → OutboundFrame → List OutboundFrame → Connection
popped c frame rest = record c {
  outbound = rest;
  outbound_bytes = sub64 c.outbound_bytes (length frame.bytes);
}

Bounded-nil : (m : Pending) (batch : Bytes) → Bounded m batch [] batch
Bounded-nil m batch = elim (Bool-cases (length batch == 0)) [
  | inl z ↦ inl (ground arith)
  | inr nz ↦ inr (inl (ground arith, refl))
]

-- One frame more, with the bytes `next` of the batch behind it.
Bounded-cons :
    (m n : Pending) (f : OutboundFrame) (sent : List OutboundFrame) (batch next bytes : Bytes)
    → ((g : OutboundFrame) → waits n g ≡ waits m g)
    → next ≡ (if waits m f then batch ++ f.bytes else batch)
    → (length batch ≡ 0) ⊎ (length batch + length f.bytes ≤ 64 * 1024)
    → bytes ≡ next ++ payload n sent
    → Bounded n next sent bytes
    → Bounded m batch (f ∷ sent) bytes
Bounded-cons m n f sent batch next bytes same e test whole (inl short) = inl short
Bounded-cons m n f sent batch next bytes same e (inr room) whole (inr (inl (nz, none_sent))) =
    let l = length-append batch f.bytes in
    let nothing = ap (payload n) none_sent in let whole' = append-nil next in inl (ground arith)
Bounded-cons m n f sent batch next bytes same e (inl empty) whole (inr (inl (nz, none_sent))) =
    let b : batch ≡ [] = nil_of_length batch empty in
    let nothing = ap (payload n) none_sent in
    let whole' = append-nil next in
    elim (Bool-cases (waits m f)) [
      | inl sends ↦ inr (
          inr (
            empty,
            record {
              before = [];
              frame = f;
              last = ap (◌∷◌ f) none_sent;
              nothing_before = refl;
              its_bytes = ground arith;
            },
          ))
      | inr skips ↦ absurd (ground arith)
    ]
Bounded-cons m n f sent batch next bytes same e test whole (inr (inr (z, alone))) =
    let l = length-append batch f.bytes in
    let p = payload-waits n m alone.before same in
    let empty : length batch ≡ 0 = elim (Bool-cases (waits m f)) [
      | inl sends ↦ ground arith
      | inr skips ↦ ground arith
    ] in
    inr (
      inr (
        empty,
        record {
          before = f ∷ alone.before;
          frame = alone.frame;
          last = ap (◌∷◌ f) alone.last;
          nothing_before = elim (Bool-cases (waits m f)) [
            | inl sends ↦ let k = nil_of_length f.bytes (ground arith) in ground arith
            | inr skips ↦ ground arith
          ];
          its_bytes = alone.its_bytes;
        },
      ))

fill_batch-Batched :
    (frames : List OutboundFrame) (c : Connection) (batch : Bytes)
    → Batched c frames batch (fill_batch frames c batch)
unfolding fill_batch popped
fill_batch-Batched [] c batch = record {
  sent = [];
  kept = [];
  split = refl;
  left = refl;
  bytes = sym (append-nil batch);
  whole = λ h. refl;
  bounded = Bounded-nil c.pending_calls batch;
}
fill_batch-Batched (f ∷ rest) c batch =
    let taken = take_front (popped c f rest) f in
    let next = if taken.1 then batch ++ f.bytes else batch in
    let more = fill_batch-Batched rest taken.0 next in
    let marks = take_front_lem (popped c f rest) f in
    let test = (length batch == 0) || leb (length batch + length f.bytes) write_batch_bytes in
    elim (Bool-cases test) [
      | inl on ↦
          let same = payload-waits taken.0.pending_calls c.pending_calls more.sent marks.1 in
          let assoc = append_assoc batch f.bytes (payload c.pending_calls more.sent) in
          rw (on, fill_batch)
            (record {
              sent = f ∷ more.sent;
              kept = more.kept;
              split = ap (◌∷◌ f) more.split;
              left = more.left;
              bytes = more.bytes ∙ ground arith;
              whole = more.whole;
              bounded =
                  Bounded-cons c.pending_calls taken.0.pending_calls f more.sent batch next
                    (fill_batch rest taken.0 next).1 marks.1 (ground arith) (ground arith)
                    more.bytes more.bounded;
            })
      | inr off ↦
          rw (off, fill_batch)
            (record {
              sent = [];
              kept = f ∷ rest;
              split = refl;
              left = refl;
              bytes = sym (append-nil batch);
              whole = λ h. absurd (ground arith);
              bounded = Bounded-nil c.pending_calls batch;
            })
    ]

-- A batch is what the frames at the front of the queue that are worth sending hold, in their order,
-- and the rest of the queue is kept; it is empty only where the whole queue was taken. It is within
-- 64 KiB, or it holds the bytes of one frame alone, the last one that was taken.
pub fill_batch_lem :
    (c : Connection)
    → (taken : Batched c c.outbound [] (fill_batch c.outbound c [])) × ((length
            (fill_batch c.outbound c []).1
          ≤ 64 * 1024)
        ⊎ Alone c.pending_calls taken.sent (fill_batch c.outbound c []).1)
fill_batch_lem c =
    let taken = fill_batch-Batched c.outbound c [] in
    (
      taken,
      elim taken.bounded [
        | inl short ↦ inl short
        | inr (inl (nz, e)) ↦ absurd (nz refl)
        | inr (inr (z, alone)) ↦ inr alone
      ],
    )

-- A run of the writer that comes to a wait or to the end.
abbrev Settles : ℕ → Connection → Type 0
Settles fuel c = (d : Connection) × ((w : Writing) × (run_writer fuel c ≡ some (d, w)))

runs : Connection → Bool
runs c = not (is_ready c.state) && not (is_closing c.state)

run_writer_ended : (fuel : ℕ) (c : Connection) → runs c ≡ true → Settles (suc fuel) c
unfolding run_writer runs
run_writer_ended fuel c h = (c, (ended, rw (h, run_writer) refl))

run_writer_idle :
    (fuel : ℕ) (c : Connection) → runs c ≡ false → c.outbound ≡ [] → Settles (suc fuel) c
unfolding run_writer runs
run_writer_idle fuel c h e = (record c { writer_waits = true }, (idle, ground arith))

run_writer_empty : (fuel : ℕ) (c : Connection) → c.outbound ≡ [] → Settles (suc fuel) c
run_writer_empty fuel c e = elim (Bool-cases (runs c)) [
  | inl h ↦ run_writer_ended fuel c h
  | inr h ↦ run_writer_idle fuel c h e
]

run_writer_frames :
    (fuel : ℕ) (c : Connection) (f : OutboundFrame) (rest : List OutboundFrame)
    → runs c ≡ false
    → c.outbound ≡ f ∷ rest
    → Settles fuel (fill_batch c.outbound c []).0 ⊎ (length (fill_batch c.outbound c []).1 ≢ 0)
    → Settles (suc fuel) c
unfolding run_writer runs
run_writer_frames fuel c f rest h e (inl (d, (w, again))) =
    elim (Bool-cases (length (fill_batch c.outbound c []).1 == 0)) [
      | inl z ↦ (d, (w, ground arith))
      | inr z ↦
          ((fill_batch c.outbound c []).0, (write (fill_batch c.outbound c []).1, ground arith))
    ]
run_writer_frames fuel c f rest h e (inr z) =
    ((fill_batch c.outbound c []).0, (write (fill_batch c.outbound c []).1, ground arith))

queue_cases :
    (fs : List OutboundFrame)
    → (fs ≡ []) ⊎ ((f : OutboundFrame) × ((rest : List OutboundFrame) × (fs ≡ f ∷ rest)))
queue_cases [] = inl refl
queue_cases (f ∷ rest) = inr (f, (rest, refl))

-- The writer always comes to a wait or to its end: rounds that write nothing do not go on.
pub writer_turn_total :
    (c : Connection) → (d : Connection) × ((w : Writing) × (writer_turn c ≡ some (d, w)))
unfolding writer_turn
writer_turn_total c =
    let filled = fill_batch-Batched c.outbound c [] in
    let batch = (fill_batch c.outbound c []).1 in
    elim (Bool-cases (runs c)) [
      | inl h ↦ run_writer_ended 1 c h
      | inr h ↦ elim (queue_cases c.outbound) [
        | inl e ↦ run_writer_idle 1 c h e
        | inr (f, (rest, e)) ↦
            run_writer_frames 1 c f rest h e (elim (Bool-cases (length batch == 0)) [
              | inl z ↦ inl (
                  run_writer_empty 0 (fill_batch c.outbound c []).0
                    (filled.left ∙ filled.whole (ground arith)))
              | inr z ↦ inr (ground arith)
            ])
      ]
    ]
