-- ===== src/Protocol/Decoder/Session/Frames.antt =====
-- A session over any cut of a frame stream into chunks delivers its frames.
use mathlib.Core.Path.{ap₂, subst}
use coro_rpc.Base.{
  ◌≡◌, length, take, All, All-append, IsByte, ◌+◌, ◌≤◌, refl, sym, ap, ◌∙◌, [], ◌∷◌, ◌++◌,
  append_assoc, length-append, ◌<◌, ◌≢◌, true, some, List, append-nil, arith,
}
use coro_rpc.Protocol.Wire.{Bytes}
use coro_rpc.Protocol.Frame.{Frame}
use coro_rpc.Protocol.Encoder.Laws.{wire}
use coro_rpc.Protocol.Decoder.{
  FrameLimits, Decoder, State, read_fixed_header, read_metadata, failed, prepare_writable,
  commit_writable, init,
}
use coro_rpc.Protocol.Decoder.Buffer.{unread, prepare-commit, Appended, LimitsInRange, init-Valid}
use coro_rpc.Protocol.Decoder.Spec.{Good, length-wire}
use coro_rpc.Protocol.Decoder.Refine.{Running, HeldIn, held, stream}
use coro_rpc.Protocol.Decoder.Session.{
  read_size, Standing, waiting, poll, session, wires, joined, Settled, poll-Progress, subst,
}

-- A chunk is what one `Read` into the prepared region can return.
pub record Chunk (c : Bytes) : Type 0 where
  pub fits : length c ≤ read_size
  pub bytes : All IsByte c

-- The limits leave room for a read behind an incomplete frame of the largest size.
abbrev pub RoomToRead : FrameLimits → Type 0
RoomToRead l = 32 + l.max_metadata_size + l.max_body_size + read_size ≤ l.max_buffer_size

held_kept :
    (s : State) (d e : Decoder)
    → e ≡ record d {
      buffer = e.buffer;
      capacity = e.capacity;
      read_offset = e.read_offset;
      prepared_size = 0;
    }
    → HeldIn s d
    → (held s e ≡ held s d) × HeldIn s e
held_kept read_fixed_header d e k h = (refl, tt)
held_kept read_metadata d e k h =
    rw k (refl, record { in_range = h.in_range; acceptable = h.acceptable })
held_kept failed d e k h = absurd h

take_all : (xs : Bytes) → take (length xs) xs ≡ xs
take_all [] = refl
take_all (x ∷ xs) = ap (◌∷◌ x) (take_all xs)

-- The decoder behind a read.
record Read (d c : Decoder) (chunk : Bytes) : Type 0 where
  running : Running c
  idle : c.prepared_size ≡ 0
  limits : c.limits ≡ d.limits
  longer : stream c ≡ stream d ++ chunk

Appended-Read :
    (d c : Decoder) (chunk : Bytes)
    → Running d
    → Chunk chunk
    → Appended d c (take (length chunk) chunk)
    → Read d c chunk
Appended-Read d c chunk r k a =
    let same_state : c.state ≡ d.state = ap (λ (x : Decoder). x.state) a.kept in
    let (same_held, h) = held_kept d.state d c a.kept r.holds in
    let more : unread c ≡ unread d ++ chunk =
      a.more_unread ∙ ap (◌++◌ (unread d)) (take_all chunk) in
    record {
      running = record {
        valid = a.still_valid;
        holds = subst (λ s. HeldIn s c) (sym same_state) h;
        bytes = rw more (All-append IsByte (unread d) chunk r.bytes k.bytes);
      };
      idle = a.idle;
      limits = ap (λ (x : Decoder). x.limits) a.kept;
      longer =
          ap (λ s. held s c ++ unread c) same_state
          ∙ ap₂ ◌++◌ same_held more
          ∙ sym (append_assoc (held d.state d) (unread d) chunk);
    }

-- One round of a session whose `poll` waits for more.
session_round :
    (d c w : Decoder) (chunk : Bytes) (chunks : List Bytes) (got left : List Frame) (o : Standing)
    → (prepare_writable d read_size).1 ≡ true
    → (commit_writable (prepare_writable d read_size).0 chunk (length chunk)).0 ≡ c
    → poll (length (stream c) + 1) c ≡ some (got, waiting w)
    → session w chunks ≡ some (left, o)
    → session d (chunk ∷ chunks) ≡ some (got ++ left, o)
unfolding session
session_round d c w chunk chunks got left o writable committed polled later =
    rw (writable, committed, polled, later)

session_ends : (d : Decoder) (fs : List Frame) → Settled d fs → stream d ++ [] ≡ wires fs → fs ≡ []
session_ends d [] t e = refl
session_ends d (f ∷ fs) t e =
    absurd
      (omega (arith, ap length e, length-append (stream d) [], length-append (wire f) (wires fs)))

not_failed : (d : Decoder) → Running d → d.state ≢ failed
not_failed d r e = subst (λ s. HeldIn s d) e r.holds

All-right {ℓ κ} : {A : Type ℓ} (P : A → Type κ) (xs ys : List A) → All P (xs ++ ys) → All P ys
All-right P [] ys h = h
All-right P (x ∷ xs) ys h = All-right P xs ys h.1

-- The frames of a stream, however it is cut.
session-frames :
    (chunks : List Bytes) (d : Decoder) (fs : List Frame)
    → Running d
    → d.prepared_size ≡ 0
    → RoomToRead d.limits
    → All (Good d.limits) fs
    → All Chunk chunks
    → Settled d fs
    → length (stream d) < 32 + d.limits.max_metadata_size + d.limits.max_body_size
    → stream d ++ joined chunks ≡ wires fs
    → (e : Decoder) × (session d chunks ≡ some (fs, waiting e)) × (stream e ≡ [])
session-frames [] d fs r idle room g k t small e =
    let ended = session_ends d fs t e in
    let none_left : stream d ≡ [] = sym (append-nil _) ∙ e ∙ ap wires ended in
    rw ended (d, unfold session in refl, none_left)
session-frames (chunk ∷ chunks) d fs r idle room g (k, ks) t small e =
    let fits : length (unread d) + read_size ≤ d.limits.max_buffer_size =
      omega (arith, length-append (held d.state d) (unread d)) in
    let (writable, committed, a) =
      prepare-commit d read_size r.valid idle chunk (length chunk) (not_failed d r) (omega arith)
        k.fits (omega arith) fits in
    let c = (commit_writable (prepare_writable d read_size).0 chunk (length chunk)).0 in
    let read = Appended-Read d c chunk r k a in
    let more : stream c ++ joined chunks ≡ wires fs =
      ap (λ (xs : Bytes). xs ++ joined chunks) read.longer
      ∙ append_assoc (stream d) chunk (joined chunks)
      ∙ e in
    let p =
      poll-Progress fs (length (stream c) + 1) c (joined chunks) read.running
        (subst (λ l. All (Good l) fs) (sym read.limits) g) (omega arith) more in
    let same : p.decoder.limits ≡ d.limits = p.same_limits ∙ read.limits in
    let still : RoomToRead p.decoder.limits = subst RoomToRead (sym same) room in
    let goods : All (Good p.decoder.limits) p.left =
      subst (λ l. All (Good l) p.left) (sym same)
        (All-right (Good d.limits) p.got p.left (rw p.split at g)) in
    let bound : length (stream p.decoder)
        < 32 + p.decoder.limits.max_metadata_size + p.decoder.limits.max_body_size =
      subst (λ l. length (stream p.decoder) < 32 + l.max_metadata_size + l.max_body_size)
        (sym p.same_limits) p.small in
    let (x, out, empty) =
      session-frames chunks p.decoder p.left p.running (p.idle ∙ read.idle) still goods ks p.settled
        bound p.streams in
    (
      x,
      session_round d c p.decoder chunk chunks p.got p.left (waiting x) writable refl p.out_is out
          ∙ ap (λ (gs : List Frame). some (gs, waiting x)) (sym p.split),
      empty,
    )

-- A new decoder.
module _ (l : FrameLimits) where
  limits-init : RoomToRead l → (init l).limits ≡ l
  unfolding init
  limits-init room = ground arith

  stream-init : stream (init l) ≡ []
  unfolding init
  stream-init = refl

  init-idle : (init l).prepared_size ≡ 0
  unfolding init
  init-idle = refl

  pub init-Running : LimitsInRange l → Running (init l)
  unfolding init
  init-Running range = record { valid = init-Valid l range; holds = tt; bytes = tt }

Settled-stream : (d : Decoder) (fs : List Frame) → stream d ≡ [] → Settled d fs
Settled-stream d [] e = e
Settled-stream d (f ∷ fs) e = omega (arith, ap length e, length-wire f)

-- A new decoder delivers exactly the frames that were encoded, in order, however their bytes are cut
-- into reads, and is left with nothing.
pub session-wires :
    (l : FrameLimits) (fs : List Frame) (chunks : List Bytes)
    → LimitsInRange l
    → RoomToRead l
    → All (Good l) fs
    → All Chunk chunks
    → joined chunks ≡ wires fs
    → (e : Decoder) × (session (init l) chunks ≡ some (fs, waiting e)) × (stream e ≡ [])
session-wires l fs chunks range room g k e =
    let same = sym (limits-init l room) in
    session-frames chunks (init l) fs (init-Running l range) (init-idle l)
      (subst RoomToRead same room) (subst (λ x. All (Good x) fs) same g) k
      (Settled-stream (init l) fs (stream-init l)) (omega (arith, ap length (stream-init l)))
      (ap (λ (xs : Bytes). xs ++ joined chunks) (stream-init l) ∙ e)
