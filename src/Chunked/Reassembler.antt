-- ===== src/Chunked/Reassembler.antt =====
-- The class `ChunkReassembler` of src/transport/chunked.ts, and the idle timer that it arms.
-- The bytes that the readable stream holds or has handed out are the list `out`, in the order in
-- which they were enqueued.
pub mod Invariant
pub mod Step
pub mod Order
mod Tests
use xmpp_httpx.Prelude.{
  ℕ, zero, suc, ◌+◌, ◌-◌, List, [], ◌∷◌, ◌++◌, Option, none, some, Bool, true, false, ◌||◌, ltb,
  ◌==◌, if◌then◌else◌, length,
}
use xmpp_httpx.Errors.{ErrorCode, stream_error, payload_too_large, timeout}
use xmpp_httpx.JsMap.{nat_key, get?, has, put, delete}
use xmpp_httpx.Bytes.Buffer.{Bytes}
use xmpp_httpx.Base64.{Text, Decoded, ok, bad_length, bad_character, decode_base64}

pub record Entry : Type 0 where
  pub bytes : Bytes
  pub last : Bool

-- How the readable stream stands: open, closed by the last chunk, errored, or cancelled by its
-- consumer.
pub data End : Type 0 where
  open_stream closed cancelled : End
  errored : ErrorCode → End

pub record Reassembler : Type 0 where
  pub pending : List (ℕ × Entry)
  pub pending_bytes : ℕ
  pub next_nr : ℕ
  pub last_nr : Option ℕ
  pub finished : Bool
  pub timer_armed : Bool
  pub max_buffered_bytes : ℕ
  pub out : List Bytes
  pub end : End
  pub finish_calls : ℕ  -- how often `onFinished` was invoked

-- The constructor arms the idle timer.
abbrev pub new : ℕ → Reassembler
new max_buffered_bytes = record {
  pending = [];
  pending_bytes = 0;
  next_nr = 0;
  last_nr = none;
  finished = false;
  timer_armed = true;
  max_buffered_bytes = max_buffered_bytes;
  out = [];
  end = open_stream;
  finish_calls = 0;
}

unfoldable pub finish : Reassembler → Reassembler
finish r = if r.finished then r else record r {
  finished = true;
  timer_armed = false;
  pending = [];
  pending_bytes = 0;
  finish_calls = r.finish_calls + 1;
}

unfoldable pub abort : ErrorCode → Reassembler → Reassembler
abort code r = if r.finished then r else finish (record r { end = errored code })

-- `controller.enqueue`, for bytes that are not empty.
abbrev enqueue : Bytes → List Bytes → List Bytes
enqueue bytes out = if length bytes == 0 then out else out ++ (bytes ∷ [])

-- One round of the loop of `#drain` at the entry that is next.
unfoldable pub take_entry : Entry → Reassembler → Reassembler
take_entry entry r = record r {
  pending = delete r.next_nr r.pending;
  pending_bytes = r.pending_bytes - length entry.bytes;
  next_nr = r.next_nr + 1;
  out = enqueue entry.bytes r.out;
}

-- The loop of `#drain`. A round takes an entry out, so one more than their number is fuel enough.
unfoldable pub drain_loop : ℕ → Reassembler → Reassembler
drain_loop zero r = r
drain_loop (suc fuel) r = elim (get? r.next_nr r.pending) [
  | none ↦ r
  | some entry ↦
      let taken = take_entry entry r in
      let rest = drain_loop fuel taken in
      if entry.last then finish (record taken { end = closed }) else rest
]

unfoldable pub drain : Reassembler → Reassembler
drain r = drain_loop (suc (length r.pending)) r

-- `#resetIdleTimer`
unfoldable pub reset_idle_timer : Reassembler → Reassembler
reset_idle_timer r = if r.finished then r else record r { timer_armed = true }

-- `this.#lastNr !== undefined && nr > this.#lastNr`
abbrev past_last : Option ℕ → ℕ → Bool
past_last none nr = false
past_last (some last) nr = ltb last nr

-- The state once a decoded chunk is in `pending`.
unfoldable pub store : ℕ → Bool → Bytes → Reassembler → Reassembler
store nr last bytes r = record r {
  last_nr = if last then some nr else r.last_nr;
  pending = put nr (record { bytes = bytes; last = last }) r.pending;
  pending_bytes = r.pending_bytes + length bytes;
}

unfoldable pub accept : ℕ → Bool → Bytes → Reassembler → Reassembler
accept nr last bytes r =
    let stored = store nr last bytes r in
    if ltb stored.max_buffered_bytes stored.pending_bytes
    then abort payload_too_large stored
    else drain stored

-- `decodeBase64` throws on what is not `ok`.
unfoldable pub accept_decoded : ℕ → Bool → Decoded → Reassembler → Reassembler
accept_decoded nr last (ok bytes) r = accept nr last bytes r
accept_decoded nr last bad_length r = abort stream_error r
accept_decoded nr last (bad_character i) r = abort stream_error r

-- A chunk that is refused as a duplicate, or as one after the last.
abbrev pub refused : ℕ → Reassembler → Bool
refused nr r = ltb nr r.next_nr || has nr r.pending || past_last r.last_nr nr

-- `push` behind its early return, with the timer reset.
unfoldable pub push_alive : ℕ → Bool → Text → Reassembler → Reassembler
push_alive nr last payload r =
    if refused nr r then abort stream_error r else accept_decoded nr last (decode_base64 payload) r

unfoldable pub push : ℕ → Bool → Text → Reassembler → Reassembler
push nr last payload r = if r.finished then r else push_alive nr last payload (reset_idle_timer r)

-- The timer callback.
unfoldable pub timer_fires : Reassembler → Reassembler
timer_fires r = if r.timer_armed then abort timeout r else r

-- How the stream stands once its consumer has cancelled it: what ended it before stays.
abbrev pub cancelled_end : End → End
cancelled_end open_stream = cancelled
cancelled_end closed = closed
cancelled_end cancelled = cancelled
cancelled_end (errored code) = errored code

-- The `cancel` of the readable stream. It is also called on a stream that is closed and has chunks
-- left to read, so that it relies on the early return of `#finish`.
unfoldable pub cancel : Reassembler → Reassembler
cancel r = finish (record r { end = cancelled_end r.end })
