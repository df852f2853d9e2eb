-- ===== src/Ibb/Sender/Close.antt =====
-- `close` of a sending stream of src/ibb/ibb.ts, in its steps between one `await` and the next.
use xmpp_httpx.Prelude.{ℕ, Option, none, some, Bool, true, false, ◌&&◌, not, ltb, if◌then◌else◌}
use xmpp_httpx.Errors.{ErrorCode, stream_error}
use xmpp_httpx.JsMap.{nat_key, get?}
use xmpp_httpx.Ibb.Scheduler.{
  Failure, Phase, before, pumping, draining, caught, sending, over, Sender, Session, is_some,
}
use xmpp_httpx.Ibb.Sender.{Turn, done, parked, out_of_fuel, take_failed, threw, set_stream}
use xmpp_httpx.Ibb.Sender.Calls.{pump, when_usable}

-- `inFlight > 0 && !closedByPeer && failed?.ordinal !== -1`
abbrev is_aborted : Option Failure → Bool
is_aborted none = false
is_aborted (some failure) = not (is_some failure.ordinal)

abbrev pub must_drain : Sender → Bool
must_drain stream =
    ltb 0 stream.in_flight && not stream.closed_by_peer && not (is_aborted stream.failed)

abbrev pub in_phase : Phase → Sender → Sender
in_phase phase stream = record stream { phase = phase }

-- `sendClose` puts the `<close/>` on the wire.
abbrev pub closing_sent : Sender → Sender
closing_sent stream = record stream { close_sent = true; phase = sending }

-- `close`, from the wait for the blocks in flight to the `<close/>`.
abbrev pub close_drained : ℕ → Option Failure → Sender → Session → Turn × Session
close_drained id (some failure) stream s =
    (threw failure.error, set_stream id (in_phase over stream) s)
close_drained id none stream s =
    if stream.closed_by_peer
    then (done, set_stream id (in_phase over stream) s)
    else (parked, set_stream id (closing_sent stream) s)

unfoldable pub close_drains : ℕ → Sender → Session → Turn × Session
close_drains id stream s =
    if must_drain stream
    then (parked, set_stream id (in_phase draining stream) s)
    else close_drained id stream.failed stream s

-- `close`, in the `catch` of its pump.
unfoldable pub close_caught : ℕ → ErrorCode → Sender → Session → Turn × Session
close_caught id error stream s = (
  if not (is_some stream.failed) && stream.closed_by_peer then done else threw error,
  set_stream id (in_phase over stream) s,
)

-- `close`, after its pump gave up control. It awaits the pump also where that has ended, so that
-- other steps may come between the end of the pump and what `close` does next.
abbrev pub close_after : ℕ → Turn → Sender → Session → Turn × Session
close_after id done stream s = (parked, set_stream id (in_phase draining stream) s)
close_after id (threw error) stream s = (parked, set_stream id (in_phase (caught error) stream) s)
close_after id take_failed stream s = (take_failed, set_stream id (in_phase over stream) s)
close_after id parked stream s = (parked, s)
close_after id out_of_fuel stream s = (out_of_fuel, s)

unfoldable pub close_pumped : ℕ → Turn × Session → Turn × Session
close_pumped id (turn, s) = elim (get? id s.streams) [
  | none ↦ (turn, s)
  | some stream ↦ close_after id turn stream s
]

abbrev pub closing : Sender → Sender
closing stream = record stream { closed = true; phase = pumping }

abbrev pub close_usable : ℕ → ℕ → Sender → Session → Turn × Session
close_usable now id stream s =
    when_usable (if stream.closed then some stream_error else none) s
      (close_pumped id (pump now id (set_stream id (closing stream) s)))

abbrev pub close_unfailed : ℕ → ℕ → Option Failure → Sender → Session → Turn × Session
close_unfailed now id (some failure) stream s = (threw failure.error, s)
close_unfailed now id none stream s =
    if stream.closed_by_peer then (done, s) else close_usable now id stream s

unfoldable pub close : ℕ → ℕ → Sender → Session → Turn × Session
close now id stream s = close_unfailed now id stream.failed stream s

-- The pump of `close` is woken, its pump has ended, or its wait for the blocks in flight.
unfoldable pub close_resumed : ℕ → ℕ → Phase → Sender → Session → Turn × Session
close_resumed now id pumping stream s = close_pumped id (pump now id s)
close_resumed now id draining stream s = close_drains id stream s
close_resumed now id (caught error) stream s = close_caught id error stream s
close_resumed now id before stream s = (parked, s)
close_resumed now id sending stream s = (parked, s)
close_resumed now id over stream s = (parked, s)

-- `failed ??= { ordinal: dispatched, error }`
abbrev pub or_failed : Option Failure → Failure → Failure
or_failed none failure = failure
or_failed (some earlier) failure = earlier

-- The refusal of the `<close/>`; it is nothing if the peer closed too.
abbrev pub close_crossed : Bool → Failure → Sender → Turn × Sender
close_crossed true failure stream = (done, stream)
close_crossed false failure stream = (threw failure.error, record stream { failed = some failure })

abbrev pub close_refused : Option ErrorCode → Sender → Turn × Sender
close_refused none stream = (done, stream)
close_refused (some error) stream =
    close_crossed stream.closed_by_peer
      (or_failed stream.failed (record { ordinal = some stream.dispatched; error = error })) stream

abbrev pub close_result : ℕ → Turn × Sender → Session → Turn × Session
close_result id (turn, stream) s = (turn, set_stream id (in_phase over stream) s)

-- The answer to the `<close/>` of `close`: `none` is a result.
unfoldable pub close_answered : ℕ → Option ErrorCode → Phase → Sender → Session → Turn × Session
close_answered id answer sending stream s = close_result id (close_refused answer stream) s
close_answered id answer before stream s = (parked, s)
close_answered id answer pumping stream s = (parked, s)
close_answered id answer draining stream s = (parked, s)
close_answered id answer (caught error) stream s = (parked, s)
close_answered id answer over stream s = (parked, s)
