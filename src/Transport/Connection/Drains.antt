-- ===== src/Transport/Connection/Drains.antt =====
-- A drain whose last queued requests have timed out: the writer drops them and waits for ever.
use coro_rpc.Transport.Connection.{
  Connection, OutboundFrame, Pending, has_unfinished, find, PendingCall, is_closing,
}
use coro_rpc.Base.{
  length, All, Option-cases, sub64, ℕ, ◌≡◌, refl, inl, inr, true, false, some, List, [], ◌∷◌, arith,
  ap, ◌∙◌,
}
use coro_rpc.Transport.Connection.Writer.{take_front, fill_batch, writer_turn, run_writer, idle}
use coro_rpc.Transport.Connection.Batches.{waits}

take_front_skips :
    (c : Connection) (f : OutboundFrame)
    → waits c.pending_calls f ≡ false
    → take_front c f ≡ (c, false)
unfolding take_front
take_front_skips c f h = elim (Option-cases (find f.request_id c.pending_calls)) [
  | inl n ↦ ground arith
  | inr (p, e) ↦ ground arith
]

-- No queued frame is worth sending.
abbrev Stale : Pending → List OutboundFrame → Type 0
Stale m frames = All (λ f. waits m f ≡ false) frames

fill_batch_skips :
    (frames : List OutboundFrame) (c : Connection)
    → Stale c.pending_calls frames
    → ((fill_batch frames c []).1 ≡ [])
      × (((fill_batch frames c []).0.state ≡ c.state)
          × (((fill_batch frames c []).0.pending_calls ≡ c.pending_calls)
              × ((fill_batch frames c []).0.outbound ≡ [])))
unfolding fill_batch
fill_batch_skips [] c h = (refl, (refl, (refl, refl)))
fill_batch_skips (f ∷ rest) c h =
    let popped : Connection = record c {
      outbound = rest;
      outbound_bytes = sub64 c.outbound_bytes (length f.bytes);
    } in
    let skip = take_front_skips popped f h.0 in
    let more = fill_batch_skips rest popped h.1 in rw (skip, fill_batch) more

-- The requests of calls that have all ended are not worth sending.
pub has_unfinished-find :
    (id : ℕ) (m : Pending) (p : PendingCall)
    → has_unfinished m ≡ false
    → find id m ≡ some p
    → p.completed ≡ true
unfolding has_unfinished find
has_unfinished-find id [] p h e = absurd (ground arith)
has_unfinished-find id ((j, q) ∷ m) p h e = ground (arith, has_unfinished-find id m p)

ended-waits :
    (m : Pending) (f : OutboundFrame)
    → has_unfinished m ≡ false
    → f.control ≡ false
    → waits m f ≡ false
ended-waits m f h c = elim (Option-cases (find f.request_id m)) [
  | inl n ↦ ground arith
  | inr (p, e) ↦ let d = has_unfinished-find f.request_id m p h e in ground arith
]

abbrev pub Requests : List OutboundFrame → Type 0
Requests frames = All (λ f. f.control ≡ false) frames

ended-Stale :
    (m : Pending) (frames : List OutboundFrame)
    → has_unfinished m ≡ false
    → Requests frames
    → Stale m frames
ended-Stale m [] h r = tt
ended-Stale m (f ∷ fs) h r = (ended-waits m f h r.0, ended-Stale m fs h r.1)

-- The writer that has dropped a whole queue.
abbrev dropped : Connection → Connection
dropped c = record (fill_batch c.outbound c []).0 { writer_waits = true }

writer_drops :
    (c : Connection) (f : OutboundFrame) (rest : List OutboundFrame)
    → is_closing c.state ≡ true
    → c.outbound ≡ f ∷ rest
    → Stale c.pending_calls c.outbound
    → (writer_turn c ≡ some (dropped c, idle))
      × (((dropped c).state ≡ c.state)
          × (((dropped c).pending_calls ≡ c.pending_calls) × ((dropped c).outbound ≡ [])))
unfolding writer_turn run_writer
writer_drops c f rest s q h = let skips = fill_batch_skips c.outbound c h in (ground arith, skips.1)

-- A drain that is over never closes its connection where the last requests of the queue have timed
-- out before they were sent: the writer drops them and waits, and the connection stays in CLOSING
-- with an empty queue and no call that waits.
pub writer_turn_stuck :
    (c : Connection) (f : OutboundFrame) (rest : List OutboundFrame)
    → is_closing c.state ≡ true
    → c.outbound ≡ f ∷ rest
    → Requests c.outbound
    → has_unfinished c.pending_calls ≡ false
    → (d : Connection) × ((writer_turn c ≡ some (d, idle))
        × ((is_closing d.state ≡ true)
            × ((d.outbound ≡ []) × (has_unfinished d.pending_calls ≡ false))))
writer_turn_stuck c f rest s q r h =
    let drops = writer_drops c f rest s q (ended-Stale c.pending_calls c.outbound h r) in
    (
      dropped c,
      (drops.0, (ap is_closing drops.1.0 ∙ s, (drops.1.1.1, ap has_unfinished drops.1.1.0 ∙ h))),
    )
