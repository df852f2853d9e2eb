-- ===== src/Ibb/Inbound.antt =====
-- The receiving side of `IbbManager` in src/ibb/ibb.ts.
-- A stream state is an object in a heap, known by its address; `in_streams` is the map from keys to
-- addresses. A handler that withholds its answer is known by a number: it waits in the
-- `pull_waiters` of its stream, and is `runnable` once its promise is resolved. What the hooks of a
-- duplex stream are called with is kept in order as `hooks`.
pub mod Data
pub mod Events
pub mod Registry
pub mod Steps
pub mod Openings
pub mod Invariant
pub mod Delivery
mod Tests
use xmpp_httpx.Prelude.{
  ℕ, zero, suc, ◌+◌, ◌-◌, ◌*◌, ◌%◌, List, [], ◌∷◌, ◌++◌, Option, none, some, Bool, true, false,
  ◌&&◌, ◌||◌, not, ltb, leb, ◌==◌, if◌then◌else◌, length,
}
use xmpp_httpx.Errors.{ErrorCode, stream_error, timeout, aborted, payload_too_large}
use xmpp_httpx.JsMap.{text_key, text_beq, get?, has, put, delete}
use xmpp_httpx.Base64.{Text, Decoded, ok, bad_length, bad_character, decode_base64}
use xmpp_httpx.Bytes.Buffer.{Bytes}
use xmpp_httpx.Session.{bare_jid}
use xmpp_httpx.Ibb.Windows.{
  Integer, nonneg, minus, is_redelivery, receive_buffer_bytes, stalled_timeout_ms,
  default_max_buffered_bytes,
}

-- How the readable stream of a state stands.
pub data End : Type 0 where
  open_stream closed : End
  errored : ErrorCode → End

-- `IbbIdleTimeout`
pub data IdleTimeout : Type 0 where
  off : IdleTimeout
  after_ms : ℕ → IdleTimeout

pub record InStream : Type 0 where
  pub key : Text  -- the key that the closures of the stream hold
  pub expected_seq : ℕ
  pub finished : Bool
  pub cancelled : Bool
  pub idle_timer : Option ℕ  -- the time that the timer was armed with
  pub pull_waiters : List ℕ
  pub idle_timeout : Option IdleTimeout
  pub duplex : Bool  -- whether the three hooks are there
  pub out : List Bytes  -- what was enqueued, in order
  pub queued : ℕ  -- the bytes of it that the consumer has not read
  pub high_water_mark : ℕ
  pub end : End

-- What a state calls its duplex with, and the `<close/>` that a cancelled plain stream sends.
pub data Hook : Type 0 where
  sends_close : ℕ → Hook
  on_peer_close : ℕ → Hook
  on_fail : ℕ → ErrorCode → Hook
  on_cancel : ℕ → Hook

-- A handler that withholds its answer to a `<data/>`: the key and the address it works on.
pub record Parked : Type 0 where
  pub key : Text
  pub stream : ℕ

-- What an expectation builds of the `<open/>` that arrives: a plain stream or a duplex.
pub record Wish : Type 0 where
  pub duplex : Bool
  pub idle_timeout : Option IdleTimeout

pub record Manager : Type 0 where
  pub in_streams : List (Text × ℕ)
  pub parked_opens : List (Text × ℕ)  -- with the block size
  pub expectations : List (Text × Wish)
  pub heap : ℕ → InStream
  pub next_stream : ℕ
  pub handlers : ℕ → Parked
  pub next_handler : ℕ
  pub runnable : List ℕ
  pub hooks : List Hook
  pub idle_timeout_ms : ℕ
  pub receive_window : ℕ  -- `receiveWindowBlocks`, clamped

abbrev pub set_stream : ℕ → InStream → Manager → Manager
set_stream id state m = record m { heap = λ j. if id == j then state else m.heap j }

pub data Reply : Type 0 where
  result : Reply
  bad_request resource_constraint not_acceptable item_not_found unexpected_request : Reply
  withheld : Reply

-- `#dropInStream`: the entry goes if it is still that of the stream.
unfoldable pub without_stream : Text → ℕ → List (Text × ℕ) → List (Text × ℕ)
without_stream key id streams = elim (get? key streams) [
  | none ↦ streams
  | some registered ↦ if registered == id then delete key streams else streams
]

abbrev pub drop_in_stream : Text → ℕ → Manager → Manager
drop_in_stream key id m = record m { in_streams = without_stream key id m.in_streams }

-- The deadline of a stream, if any: `state.idleTimeoutMs ?? this.idleTimeoutMs`.
abbrev pub idle_of : Option IdleTimeout → ℕ → IdleTimeout
idle_of none manager_ms = after_ms manager_ms
idle_of (some idle) manager_ms = idle

abbrev pub timer_for : IdleTimeout → ℕ → Bool → Option ℕ
timer_for off window stalled = none
timer_for (after_ms idle) window stalled =
    some (if stalled then stalled_timeout_ms window idle else idle)

-- The state with its idle timer armed again.
abbrev pub armed : ℕ → ℕ → Bool → InStream → InStream
armed manager_ms window stalled state = record state {
  idle_timer =
      if state.finished
      then state.idle_timer
      else timer_for (idle_of state.idle_timeout manager_ms) window stalled;
}

abbrev pub arm_idle_timer : ℕ → Bool → Manager → Manager
arm_idle_timer id stalled m =
    set_stream id (armed m.idle_timeout_ms m.receive_window stalled (m.heap id)) m

-- `controller.error` and `controller.close`, which throw on a stream that is not open.
abbrev pub ended : End → End → End
ended open_stream end = end
ended closed end = closed
ended (errored e) end = errored e

abbrev pub end_with : Option ErrorCode → InStream → End
end_with none state = state.end
end_with (some error) state = if state.cancelled then state.end else ended state.end (errored error)

abbrev pub fail_hook : ℕ → Option ErrorCode → Bool → List Hook
fail_hook id none duplex = []
fail_hook id (some error) duplex = if duplex then on_fail id error ∷ [] else []

-- `#finishInStream`. The deferred call of `onFail` is put at the end of the hooks.
unfoldable pub finish_in_stream : Text → ℕ → Option ErrorCode → Manager → Manager
finish_in_stream key id error m =
    let state = m.heap id in
    if state.finished
    then drop_in_stream key id m
    else drop_in_stream key id
        (record (set_stream id
          (record state {
            finished = true;
            idle_timer = none;
            pull_waiters = [];
            end = end_with error state;
          })
          m) {
            runnable = m.runnable ++ state.pull_waiters;
            hooks = m.hooks ++ fail_hook id error state.duplex;
          })

-- `#key`
unfoldable pub key_of : Text → Text → Text
key_of from sid = bare_jid from ++ (b'\n' ∷ sid)

abbrev pub new_stream : Text → Option IdleTimeout → Bool → ℕ → InStream
new_stream key idle_timeout duplex high_water_mark = record {
  key = key;
  expected_seq = 0;
  finished = false;
  cancelled = false;
  idle_timer = none;
  pull_waiters = [];
  idle_timeout = idle_timeout;
  duplex = duplex;
  out = [];
  queued = 0;
  high_water_mark = high_water_mark;
  end = open_stream;
}

-- `#createInStream`
unfoldable pub create_in_stream : Text → ℕ → Option IdleTimeout → Bool → Manager → Manager
create_in_stream key block_size idle_timeout duplex m =
    let id = m.next_stream in
    let state =
      new_stream key idle_timeout duplex (receive_buffer_bytes m.receive_window block_size) in
    record (set_stream id (armed m.idle_timeout_ms m.receive_window false state) m) {
      in_streams = put key id m.in_streams;
      next_stream = id + 1;
    }

-- The `build` of an expectation: a duplex has its watchdog off unless it asks for one.
abbrev pub duplex_timeout : Option IdleTimeout → Option IdleTimeout
duplex_timeout none = some off
duplex_timeout (some idle) = some idle

abbrev pub build : Text → ℕ → Wish → Manager → Manager
build key block_size wish m =
    create_in_stream key block_size
      (if wish.duplex then duplex_timeout wish.idle_timeout else wish.idle_timeout) wish.duplex m

-- `#expect`: the parked `<open/>` is claimed at once, with whether it was there.
unfoldable pub expect : Text → Wish → Manager → Bool × Manager
expect key wish m = elim (get? key m.parked_opens) [
  | some block_size ↦
      (true, build key block_size wish (record m { parked_opens = delete key m.parked_opens }))
  | none ↦ (false, record m { expectations = put key wish m.expectations })
]

-- The timer of an expectation, and that of a parked `<open/>`.
unfoldable pub expectation_times_out : Text → Manager → Manager
expectation_times_out key m = record m { expectations = delete key m.expectations }

unfoldable pub parked_open_times_out : Text → Manager → Manager
parked_open_times_out key m = record m { parked_opens = delete key m.parked_opens }

-- `openDuplex` as far as it registers; `none` is the refusal of a sid in use.
unfoldable pub open_duplex : Text → ℕ → Option IdleTimeout → Manager → Option Manager
open_duplex key block_size idle_timeout m =
    if has key m.in_streams || has key m.parked_opens || has key m.expectations
    then none
    else some (build key block_size (record { duplex = true; idle_timeout = idle_timeout }) m)

-- `#onOpen` for a `from` and a `sid` that are there and a block size that is a positive integer.
unfoldable pub open_checked : Text → ℕ → Manager → Reply × Manager
open_checked key block_size m =
    if ltb 65536 block_size
    then (resource_constraint, m)
    else if has key m.in_streams || has key m.parked_opens
    then (not_acceptable, m)
    else elim (get? key m.expectations) [
      | some wish ↦ (
        result,
        build key block_size wish (record m { expectations = delete key m.expectations }),
      )
      | none ↦ (withheld, record m { parked_opens = put key block_size m.parked_opens })
    ]

-- What JavaScript takes for false, of an attribute.
abbrev pub filled : Option Text → Bool
filled none = false
filled (some t) = not (length t == 0)

abbrev pub text_of : Option Text → Text
text_of none = []
text_of (some t) = t

abbrev pub open_sized : Text → Option Integer → Manager → Reply × Manager
open_sized key none m = (bad_request, m)
open_sized key (some (nonneg n)) m = if n == 0 then (bad_request, m) else open_checked key n m
open_sized key (some (minus n)) m = (bad_request, m)

-- `#onOpen`. `integer` is `Number` of an attribute where that is an integer.
unfoldable pub on_open :
    (Option Text → Option Integer) → (from sid block_size : Option Text) → Manager → Reply × Manager
on_open integer from sid block_size m =
    if not (filled from && filled sid)
    then (bad_request, m)
    else open_sized (key_of (text_of from) (text_of sid)) (integer block_size) m
