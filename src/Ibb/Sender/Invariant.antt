-- ===== src/Ibb/Sender/Invariant.antt =====
-- Every event keeps what holds of the sending streams and of the session's budget.
use xmpp_httpx.Prelude.{
  ℕ, ◌<◌, ◌≡◌, refl, Option, none, some, Option-cases, Bool, true, false, Bool-cases, inl, inr,
  if◌then◌else◌, arith,
}
use xmpp_httpx.Errors.{ErrorCode}
use xmpp_httpx.JsMap.{nat_key, get?, has, weigh-put}
use xmpp_httpx.JsMap.Entries.{Each-put}
use xmpp_httpx.Ibb.Scheduler.{Sender, Session}
use xmpp_httpx.Ibb.Scheduler.Ledger.{end_send_slot-Ledger, reclaim_fires-Ledger}
use xmpp_httpx.Ibb.Scheduler.Busy.{end_send_slot-IsBusy, reclaim_fires-IsBusy}
use xmpp_httpx.Ibb.Sender.{new, set_stream}
use xmpp_httpx.Ibb.Sender.Events.{
  Event, opened, wrote, resumed, close_called, close_woken, close_reply, aborted_with,
  closed_at_peer, answered, reclaim_fired, step, call, on_stream, answer_at, settle, settled, abort,
  peer_closed, new_session,
}
use xmpp_httpx.Ibb.Sender.Blocks.{IsStream, new-IsStream}
use xmpp_httpx.Ibb.Sender.Pump.{AnyStream, Balanced}
use xmpp_httpx.Ibb.Sender.Rounds.{Turned}
use xmpp_httpx.Ibb.Sender.Closing.{
  pump-Turned, changed-Balanced, write-Turned, close-Turned, close_resumed-Turned,
  close_answered-Turned,
}

abort-Balanced :
    (id : ℕ) (reason : ErrorCode) (t : Sender) (s : Session)
    → Balanced s
    → get? id s.streams ≡ some t
    → Balanced (set_stream id (abort reason t) s)
unfolding abort
abort-Balanced id reason t s v e = either _
  where
    either :
        (b : Bool)
        → Balanced (
            set_stream id
              (if b then t else record t {
                failed = some (record { ordinal = none; error = reason });
                close_sent = true;
              })
              s)
    either true = changed-Balanced id t _ s v e (v.0.each id t e) refl
    either false = changed-Balanced id t _ s v e (v.0.each id t e) refl

settle-Balanced :
    (now slot : ℕ) (answer : Option ErrorCode) (id : ℕ) (t : Sender) (ordinal : ℕ) (s : Session)
    → Balanced s
    → get? id s.streams ≡ some t
    → Balanced (settle now slot answer id t ordinal s)
unfolding settle
settle-Balanced now slot answer id t ordinal s v e = (
  end_send_slot-Ledger AnyStream (λ j g u p. p) now slot _ _ kept.0,
  end_send_slot-IsBusy now slot _ _ kept.1,
)
  where
    sound : IsStream t
    sound = v.0.each id t e

    kept : Balanced (set_stream id (settled ordinal answer t) s)
    kept =
        changed-Balanced id t (settled ordinal answer t) s v e
          (record {
            blocks = sound.blocks;
            buffer = sound.buffer;
            on_wire = sound.on_wire;
            kept = sound.kept;
            seq_of = sound.seq_of;
            dispatched_of = sound.dispatched_of;
            sizes = sound.sizes;
            positive = sound.positive;
            in_window = omega (arith, sound.in_window);
          })
          refl

call-Turned :
    (now : ℕ) (event : Event) (id : ℕ) (t : Sender) (s : Session)
    → Balanced s
    → get? id s.streams ≡ some t
    → Turned (call now event id t s)
unfolding call peer_closed
call-Turned now (wrote i bytes) id t s v e = write-Turned now id bytes t s v e
call-Turned now (resumed i) id t s v e = pump-Turned now id s v
call-Turned now (close_called i) id t s v e = close-Turned now id t s v e
call-Turned now (close_woken i) id t s v e = close_resumed-Turned now id t.phase t s v e
call-Turned now (close_reply i answer) id t s v e = close_answered-Turned id answer t.phase t s v e
call-Turned now (aborted_with i reason) id t s v e = (abort-Balanced id reason t s v e, tt)
call-Turned now (closed_at_peer i) id t s v e =
    (changed-Balanced id t _ s v e (v.0.each id t e) refl, tt)
call-Turned now (opened i window block_size flush) id t s v e = (v, tt)
call-Turned now (answered slot answer) id t s v e = (v, tt)
call-Turned now reclaim_fired id t s v e = (v, tt)

on_stream-Turned :
    (now : ℕ) (event : Event) (id : ℕ) (s : Session)
    → Balanced s
    → Turned (on_stream now event id s)
on_stream-Turned now event id s v = elim (Option-cases (get? id s.streams)) [
  | inl e ↦ rw (e, on_stream) (v, tt)
  | inr (t, e) ↦ rw (e, on_stream) (call-Turned now event id t s v e)
]

opened-Balanced :
    (id window block_size : ℕ) (flush : Bool) (s : Session)
    → Balanced s
    → 0 < block_size
    → Balanced (if has id s.streams then s else set_stream id (new window block_size flush) s)
opened-Balanced id window block_size flush s (v, busy) pos = elim (Bool-cases (has id s.streams)) [
  | inl there ↦ rw there (v, busy)
  | inr absent ↦ rw absent (
    record {
      sums = omega (
        arith,
        v.sums,
        weigh-put (λ (x : Sender). x.granted) id (new window block_size flush) s.streams absent,
      );
      bounded = v.bounded;
      distinct = v.distinct;
      unused = v.unused;
      each = Each-put AnyStream id _ s.streams v.each (new-IsStream window block_size flush pos);
    },
    busy,
  )
]

answer_at-Balanced :
    (now slot : ℕ) (answer : Option ErrorCode) (at : Option (ℕ × ℕ)) (s : Session)
    → Balanced s
    → Balanced (answer_at now slot answer at s)
answer_at-Balanced now slot answer none s v = v
answer_at-Balanced now slot answer (some (id, ordinal)) s v =
    elim (Option-cases (get? id s.streams)) [
      | inl e ↦ rw (e, answer_at) v
      | inr (t, e) ↦ rw (e, answer_at) (settle-Balanced now slot answer id t ordinal s v e)
    ]

-- A stream is opened for blocks of at least one byte.
abbrev pub Opens : Event → Type 0
Opens (opened id window block_size flush) = 0 < block_size
Opens (wrote id bytes) = Unit
Opens (resumed id) = Unit
Opens (close_called id) = Unit
Opens (close_woken id) = Unit
Opens (close_reply id answer) = Unit
Opens (aborted_with id reason) = Unit
Opens (closed_at_peer id) = Unit
Opens (answered slot answer) = Unit
Opens reclaim_fired = Unit

-- Every event on a session, with a block size of at least 1 where it opens a stream, keeps this: the
-- budget in use is the number of counted blocks plus the grants that streams hold, and at most the
-- limit; while a stream waits in the queue the budget is used up; each stream has put its blocks on
-- the wire numbered in order from 0 modulo 65536, of 1 to `block_size` bytes, these and the bytes
-- still buffered are exactly what was written, and no more blocks than its window are in flight.
-- And no call runs out of fuel or meets a RangeError of `take`: it returns, throws or waits.
pub step-Turned :
    (now : ℕ) (event : Event) (s : Session) → Balanced s → Opens event → Turned (step now event s)
unfolding step
step-Turned now (opened id window block_size flush) s v pos =
    (opened-Balanced id window block_size flush s v pos, tt)
step-Turned now (answered slot answer) s v h =
    (answer_at-Balanced now slot answer (get? slot s.outstanding) s v, tt)
step-Turned now reclaim_fired s v h =
    ((reclaim_fires-Ledger AnyStream (λ j g u p. p) now s v.0, reclaim_fires-IsBusy now s), tt)
step-Turned now (wrote id bytes) s v h = on_stream-Turned now (wrote id bytes) id s v
step-Turned now (resumed id) s v h = on_stream-Turned now (resumed id) id s v
step-Turned now (close_called id) s v h = on_stream-Turned now (close_called id) id s v
step-Turned now (close_woken id) s v h = on_stream-Turned now (close_woken id) id s v
step-Turned now (close_reply id answer) s v h = on_stream-Turned now (close_reply id answer) id s v
step-Turned now (aborted_with id reason) s v h =
    on_stream-Turned now (aborted_with id reason) id s v
step-Turned now (closed_at_peer id) s v h = on_stream-Turned now (closed_at_peer id) id s v

pub new_session-Balanced : (limit park_floor_ms : ℕ) → Balanced (new_session limit park_floor_ms)
new_session-Balanced limit park_floor_ms = (
  record {
    sums = refl;
    bounded = omega arith;
    distinct = tt;
    unused = λ k le. refl;
    each = λ k t h. absurd (ground (arith, h));
  },
  inl refl,
)
