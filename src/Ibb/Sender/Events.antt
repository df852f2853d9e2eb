-- ===== src/Ibb/Sender/Events.antt =====
-- `abort` and the events of a sending stream of src/ibb/ibb.ts, and those of its session.
use xmpp_httpx.Prelude.{
  ℕ, ◌-◌, [], Option, none, some, Bool, true, false, ◌&&◌, ◌||◌, not, ltb, if◌then◌else◌,
}
use xmpp_httpx.Errors.{ErrorCode, not_found}
use xmpp_httpx.JsMap.{nat_key, get?, has, delete}
use xmpp_httpx.Bytes.Buffer.{Bytes}
use xmpp_httpx.Ibb.Scheduler.{Failure, Sender, Session, end_send_slot, reclaim_fires, is_some}
use xmpp_httpx.Ibb.Sender.{new, Turn, done, set_stream}
use xmpp_httpx.Ibb.Sender.Calls.{pump, write}
-- `inFlight > 0 && !closedByPeer && failed?.ordinal !== -1`
use xmpp_httpx.Ibb.Sender.Close.{close, close_resumed, close_answered}

-- `abort`. What its own `<close/>` is answered with makes no difference.
unfoldable pub abort : ErrorCode → Sender → Sender
abort reason stream =
    if stream.close_sent || is_some stream.failed || stream.closed_by_peer
    then stream
    else record stream {
      failed = some (record { ordinal = none; error = reason });
      close_sent = true;
    }

unfoldable pub peer_closed : Sender → Sender
peer_closed stream = record stream { closed_by_peer = true }

abbrev is_not_found : ErrorCode → Bool
is_not_found not_found = true
is_not_found other = false

-- `!failed || ordinal < failed.ordinal`
abbrev is_earlier : ℕ → Option Failure → Bool
is_earlier ordinal none = true
is_earlier ordinal (some failure) = elim failure.ordinal [
  | none ↦ false
  | some other ↦ ltb ordinal other
]

abbrev pub after_answer : ℕ → Option ErrorCode → Sender → Option Failure
after_answer ordinal none stream = stream.failed
after_answer ordinal (some error) stream =
    if not (stream.closed_by_peer && is_not_found error) && is_earlier ordinal stream.failed
    then some (record { ordinal = some ordinal; error = error })
    else stream.failed

abbrev pub settled : ℕ → Option ErrorCode → Sender → Sender
settled ordinal answer stream = record stream {
  failed = after_answer ordinal answer stream;
  in_flight = stream.in_flight - 1;
}

-- The request of a block is answered: `none` is an ack, anything else the error it maps to.
unfoldable pub settle : ℕ → ℕ → Option ErrorCode → ℕ → Sender → ℕ → Session → Session
settle now slot answer id stream ordinal s = end_send_slot now slot (not (is_some answer)) (
    set_stream id (settled ordinal answer stream)
      (record s { outstanding = delete slot s.outstanding }))

-- What happens to a session. A pump that is parked is woken, or goes on later, by `resumed`.
pub data Event : Type 0 where
  opened : ℕ → ℕ → ℕ → Bool → Event
  wrote : ℕ → Bytes → Event
  resumed : ℕ → Event
  close_called : ℕ → Event
  close_woken : ℕ → Event
  close_reply : ℕ → Option ErrorCode → Event
  aborted_with : ℕ → ErrorCode → Event
  closed_at_peer : ℕ → Event
  answered : ℕ → Option ErrorCode → Event
  reclaim_fired : Event

-- A call on a stream of the session.
unfoldable pub call : ℕ → Event → ℕ → Sender → Session → Turn × Session
call now (wrote id bytes) at stream s = write now at bytes stream s
call now (resumed id) at stream s = pump now at s
call now (close_called id) at stream s = close now at stream s
call now (close_woken id) at stream s = close_resumed now at stream.phase stream s
call now (close_reply id answer) at stream s = close_answered at answer stream.phase stream s
call now (aborted_with id reason) at stream s = (done, set_stream at (abort reason stream) s)
call now (closed_at_peer id) at stream s = (done, set_stream at (peer_closed stream) s)
call now (opened id window block_size flush) at stream s = (done, s)
call now (answered slot answer) at stream s = (done, s)
call now reclaim_fired at stream s = (done, s)

abbrev pub on_stream : ℕ → Event → ℕ → Session → Turn × Session
on_stream now event id s = elim (get? id s.streams) [
  | none ↦ (done, s)
  | some stream ↦ call now event id stream s
]

abbrev pub answer_at : ℕ → ℕ → Option ErrorCode → Option (ℕ × ℕ) → Session → Session
answer_at now slot answer none s = s
answer_at now slot answer (some (id, ordinal)) s = elim (get? id s.streams) [
  | none ↦ s
  | some stream ↦ settle now slot answer id stream ordinal s
]

-- The session at the time `now`, after an event.
unfoldable pub step : ℕ → Event → Session → Turn × Session
step now (opened id window block_size flush) s =
    (done, if has id s.streams then s else set_stream id (new window block_size flush) s)
step now (answered slot answer) s = (done, answer_at now slot answer (get? slot s.outstanding) s)
step now reclaim_fired s = (done, reclaim_fires now s)
step now (wrote id bytes) s = on_stream now (wrote id bytes) id s
step now (resumed id) s = on_stream now (resumed id) id s
step now (close_called id) s = on_stream now (close_called id) id s
step now (close_woken id) s = on_stream now (close_woken id) id s
step now (close_reply id answer) s = on_stream now (close_reply id answer) id s
step now (aborted_with id reason) s = on_stream now (aborted_with id reason) id s
step now (closed_at_peer id) s = on_stream now (closed_at_peer id) id s

-- A session before its first stream.
abbrev pub new_session : ℕ → ℕ → Session
new_session limit park_floor_ms = record {
  limit = limit;
  park_floor_ms = park_floor_ms;
  send_in_flight = 0;
  send_queue = [];
  counted = [];
  ack_latency = none;
  reclaim_timer = none;
  streams = [];
  next_slot = 0;
  outstanding = [];
}
