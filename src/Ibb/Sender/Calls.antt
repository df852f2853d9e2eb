-- ===== src/Ibb/Sender/Calls.antt =====
-- The calls on a sending stream of src/ibb/ibb.ts, its events, and those of the session.
-- A call that awaits ends its turn there; what resumes it is an event of its own.
use xmpp_httpx.Prelude.{
  ℕ, zero, suc, ◌+◌, ◌-◌, ◌++◌, Option, none, some, ltb, if◌then◌else◌, length,
}
use xmpp_httpx.Errors.{ErrorCode, stream_error}
use xmpp_httpx.JsMap.{nat_key, get?}
use xmpp_httpx.Bytes.Buffer.{Bytes, size, push}
use xmpp_httpx.Ibb.Scheduler.{Sender, Session, release_send_slot}
use xmpp_httpx.Ibb.Sender.{
  Turn, done, parked, out_of_fuel, take_failed, threw, set_stream, error_of, pump_loop,
}

abbrev pub granted_of : Option Sender → ℕ
granted_of none = 0
granted_of (some stream) = stream.granted

-- One turn of the loop of `giveBack`.
unfoldable pub give_one_back : ℕ → ℕ → Sender → Session → Session
give_one_back now id stream s =
    release_send_slot now (set_stream id (record stream { granted = stream.granted - 1 }) s)

unfoldable pub give_back_loop : ℕ → ℕ → ℕ → Session → Session
give_back_loop zero now id s = s
give_back_loop (suc fuel) now id s = elim (get? id s.streams) [
  | none ↦ s
  | some stream ↦
      let later = give_back_loop fuel now id (give_one_back now id stream s) in
      if ltb 0 stream.granted then later else s
]

-- Each turn takes a grant, and gives one only by taking an entry from the queue.
unfoldable pub give_back : ℕ → ℕ → Session → Session
give_back now id s = give_back_loop (granted_of (get? id s.streams) + length s.send_queue) now id s

-- The `finally` of `pump`, which a pump that is parked has not reached.
abbrev pub finally_give_back : ℕ → ℕ → Turn × Session → Turn × Session
finally_give_back now id (parked, s) = (parked, s)
finally_give_back now id (out_of_fuel, s) = (out_of_fuel, s)
finally_give_back now id (done, s) = (done, give_back now id s)
finally_give_back now id (take_failed, s) = (take_failed, give_back now id s)
finally_give_back now id (threw error, s) = (threw error, give_back now id s)

abbrev pub buffered_of : Option Sender → ℕ
buffered_of none = 0
buffered_of (some stream) = size stream.buffered

-- Every round but the last sends a byte.
unfoldable pub pump : ℕ → ℕ → Session → Turn × Session
pump now id s =
    finally_give_back now id (pump_loop (suc (buffered_of (get? id s.streams))) now id s)

abbrev pub ensure_usable : Sender → Option ErrorCode
ensure_usable stream = elim (error_of stream.failed stream.closed_by_peer) [
  | some error ↦ some error
  | none ↦ if stream.closed then some stream_error else none
]

-- What a call does with a stream that is usable.
abbrev pub when_usable : Option ErrorCode → Session → Turn × Session → Turn × Session
when_usable (some error) s next = (threw error, s)
when_usable none s next = next

abbrev pub with_bytes : Bytes → Sender → Sender
with_bytes bytes stream = record stream {
  buffered = push bytes stream.buffered;
  written = stream.written ++ bytes;
}

unfoldable pub write : ℕ → ℕ → Bytes → Sender → Session → Turn × Session
write now id bytes stream s =
    when_usable (ensure_usable stream) s (pump now id (set_stream id (with_bytes bytes stream) s))
