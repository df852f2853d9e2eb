-- ===== src/Ibb/Sender.antt =====
-- `#createOutStream` of src/ibb/ibb.ts: the windowed sender, on the session's scheduler.
-- A pump runs from one `await` to the next in one step. A pump that is parked may run again at any
-- time; that is one of the events.
pub mod Calls
pub mod Close
pub mod Events
mod Tests
pub mod Blocks
pub mod Pump
pub mod Rounds
pub mod Returns
pub mod Closing
pub mod Invariant
pub mod Evolution
pub mod PumpQuiet
pub mod LoopQuiet
pub mod Quiet
pub mod CloseLast
pub mod Silence
pub mod Silent
use xmpp_httpx.Prelude.{
  ℕ, zero, suc, ◌+◌, ◌-◌, ◌*◌, ◌%◌, min, max, List, [], ◌∷◌, ◌++◌, Option, none, some, Bool, true,
  false, ◌&&◌, ◌||◌, not, ltb, leb, ◌==◌, if◌then◌else◌, length,
}
use xmpp_httpx.Errors.{ErrorCode, stream_error, not_found}
use xmpp_httpx.JsMap.{nat_key, get?, put, delete}
use xmpp_httpx.Bytes.Buffer.{
  Bytes, BlockBuffer, Taken, size, push, take_block, block, range_error, undefined_part,
}
use xmpp_httpx.Bytes.Buffer as Buffer
use xmpp_httpx.Ibb.Scheduler.{
  Failure, Phase, before, Sender, Session, has_block, acquire_send_slot, release_send_slot,
  end_send_slot, reclaim_fires,
}

-- A stream that was just opened.
abbrev pub new : ℕ → ℕ → Bool → Sender
new window block_size flush_each_write = record {
  window = window;
  block_size = block_size;
  flush_each_write = flush_each_write;
  seq = 0;
  dispatched = 0;
  buffered = Buffer.new;
  closed = false;
  closed_by_peer = false;
  failed = none;
  in_flight = 0;
  granted = 0;
  close_sent = false;
  phase = before;
  wire = [];
  written = [];
}

-- How a call stands when it gives up control.
pub data Turn : Type 0 where
  done parked out_of_fuel take_failed : Turn
  threw : ErrorCode → Turn

abbrev pub set_stream : ℕ → Sender → Session → Session
set_stream id stream s = record s { streams = put id stream s.streams }

-- The block is numbered and on the wire, with a slot of the session.
abbrev pub sent : Bytes → BlockBuffer → Sender → Sender
sent bytes rest stream = record stream {
  seq = (stream.seq + 1) % 65536;
  dispatched = stream.dispatched + 1;
  in_flight = stream.in_flight + 1;
  buffered = rest;
  wire = stream.wire ++ ((stream.seq, bytes) ∷ []);
}

-- `dispatch`, of the block that `take` took.
unfoldable pub dispatch : ℕ → ℕ → Bytes → BlockBuffer → Sender → Session → Session
dispatch now id bytes rest stream s = record (set_stream id (sent bytes rest stream) s) {
  counted = put s.next_slot now s.counted;
  outstanding = (s.next_slot, (id, stream.dispatched)) ∷ s.outstanding;
  next_slot = s.next_slot + 1;
}

abbrev pub error_of : Option Failure → Bool → Option ErrorCode
error_of (some failure) closed_by_peer = some failure.error
error_of none closed_by_peer = if closed_by_peer then some stream_error else none

-- What a block that is taken leads to; the other results are what `take` throws.
abbrev pub took : ℕ → ℕ → Sender → Session → Taken → Option Session
took now id stream s (block bytes rest) = some (dispatch now id bytes rest stream s)
took now id stream s range_error = none
took now id stream s undefined_part = none

-- `dispatch(take())`
unfoldable pub send_block : ℕ → ℕ → Sender → Session → Option Session
send_block now id stream s =
    took now id stream s (take_block (min stream.block_size (size stream.buffered)) stream.buffered)

-- A slot of the session for a stream: its grant, or one that is free.
unfoldable pub reserve : ℕ → ℕ → Sender → Session → Bool × Session
reserve now id stream s =
    if ltb 0 stream.granted
    then (true, set_stream id (record stream { granted = stream.granted - 1 }) s)
    else acquire_send_slot now id s

-- What a round of the pump comes to.
pub data Round : Type 0 where
  ends : Turn → Session → Round
  goes_on : Session → Round

abbrev pub after_send : Session → Option Session → Round
after_send s none = ends take_failed s
after_send s (some after) = goes_on after

unfoldable pub sent_round : ℕ → ℕ → Session → Round
sent_round now id s = elim (get? id s.streams) [
  | none ↦ ends done s
  | some stream ↦ after_send s (send_block now id stream s)
]

abbrev pub reserved_round : ℕ → ℕ → Bool × Session → Round
reserved_round now id (granted, s) = if granted then sent_round now id s else ends parked s

abbrev pub open_round : ℕ → ℕ → Sender → Session → Round
open_round now id stream s =
    if leb stream.window stream.in_flight
    then ends parked s
    else reserved_round now id (reserve now id stream s)

abbrev pub usable_round : ℕ → ℕ → Option ErrorCode → Sender → Session → Round
usable_round now id none stream s = open_round now id stream s
usable_round now id (some error) stream s = ends (threw error) s

unfoldable pub pump_round : ℕ → ℕ → Session → Round
pump_round now id s = elim (get? id s.streams) [
  | none ↦ ends done s
  | some stream ↦
      if has_block stream
      then usable_round now id (error_of stream.failed stream.closed_by_peer) stream s
      else ends done s
]

abbrev pub after_round : (Session → Turn × Session) → Round → Turn × Session
after_round next (ends turn after) = (turn, after)
after_round next (goes_on after) = next after

-- The loop of `pump`, up to the point where it returns, throws or parks.
unfoldable pub pump_loop : ℕ → ℕ → ℕ → Session → Turn × Session
pump_loop zero now id s = (out_of_fuel, s)
pump_loop (suc fuel) now id s = after_round (pump_loop fuel now id) (pump_round now id s)
