-- ===== src/Ibb/Inbound/Data.antt =====
-- The handlers of `<data/>` and `<close/>`, and what the consumer of a stream does.
use xmpp_httpx.Prelude.{
  ℕ, ◌+◌, ◌-◌, ◌%◌, List, [], ◌∷◌, ◌++◌, Option, none, some, Bool, true, false, ◌&&◌, not, ltb, leb,
  ◌==◌, if◌then◌else◌, length,
}
use xmpp_httpx.Errors.{ErrorCode, stream_error, timeout, aborted, payload_too_large}
use xmpp_httpx.JsMap.{text_key, get?}
use xmpp_httpx.Base64.{Text, ok, bad_length, bad_character, decode_base64}
use xmpp_httpx.Bytes.Buffer.{Bytes}
use xmpp_httpx.Ibb.Windows.{Integer, nonneg, minus, is_redelivery, default_max_buffered_bytes}
use xmpp_httpx.Ibb.Inbound.{
  closed, errored, ended, drop_in_stream, InStream, sends_close, on_peer_close, on_cancel, Manager,
  set_stream, Reply, result, bad_request, item_not_found, unexpected_request, withheld, armed,
  arm_idle_timer, finish_in_stream, key_of, filled, text_of,
}

-- What a block is to a stream that is not finished.
pub data Verdict : Type 0 where
  redelivered mismatch undecodable : Verdict
  taken : Bytes → Verdict

abbrev pub decode : Text → Verdict
decode payload = elim (decode_base64 payload) [
  | ok bytes ↦ taken bytes
  | bad_length ↦ undecodable
  | bad_character i ↦ undecodable
]

abbrev pub is_expected : Integer → ℕ → Bool
is_expected (nonneg seq) expected_seq = seq == expected_seq
is_expected (minus seq) expected_seq = false

unfoldable pub judge : Option Integer → Text → ℕ → Verdict
judge none payload expected_seq = mismatch
judge (some seq) payload expected_seq =
    if is_redelivery seq expected_seq
    then redelivered
    else if is_expected seq expected_seq
    then decode payload
    else mismatch

-- A block that is taken: the sequence number goes on, and the bytes are enqueued.
abbrev pub enqueued : Bytes → InStream → InStream
enqueued bytes state = record state {
  expected_seq = (state.expected_seq + 1) % 65536;
  out = if length bytes == 0 then state.out else state.out ++ (bytes ∷ []);
  queued = state.queued + length bytes;
}

abbrev pub take_bytes : ℕ → Bytes → Manager → Manager
take_bytes id bytes m =
    set_stream id (enqueued bytes (armed m.idle_timeout_ms m.receive_window false (m.heap id))) m

-- `(state.controller.desiredSize ?? 1) <= 0` of a stream that is not finished
abbrev pub is_full : InStream → Bool
is_full state = leb state.high_water_mark state.queued

-- The handler waits for the consumer.
abbrev pub wait : ℕ → Text → ℕ → Manager → Manager
wait handler key id m =
    let stalled = armed m.idle_timeout_ms m.receive_window true (m.heap id) in
    record (set_stream id (record stalled { pull_waiters = stalled.pull_waiters ++ (handler ∷ []) })
      m) {
        handlers = λ h. if handler == h then record { key = key; stream = id } else m.handlers h;
      }

abbrev pub answer_of : InStream → Reply
answer_of state = if state.finished && not state.cancelled then item_not_found else result

-- The loop that withholds the ack, from its test on; and what follows it.
unfoldable pub settle : ℕ → Text → ℕ → Manager → Reply × Manager
settle handler key id m =
    let state = m.heap id in
    if not state.finished && is_full state then (withheld, wait handler key id m) else (
      answer_of state,
      (if length state.pull_waiters == 0 then arm_idle_timer id false m else m),
    )

unfoldable pub follow : Verdict → Text → ℕ → Manager → Reply × Manager
follow redelivered key id m = (result, m)
follow mismatch key id m = (unexpected_request, finish_in_stream key id (some stream_error) m)
follow undecodable key id m = (bad_request, finish_in_stream key id (some stream_error) m)
follow (taken bytes) key id m =
    settle m.next_handler key id
      (record (take_bytes id bytes m) { next_handler = m.next_handler + 1 })

-- `#onData` from the state on.
unfoldable pub data_for : Text → Option Integer → Text → Manager → Reply × Manager
data_for key seq payload m = elim (get? key m.in_streams) [
  | none ↦ (item_not_found, m)
  | some id ↦
      let state = m.heap id in
      if state.finished
      then (if state.cancelled then result else item_not_found, m)
      else follow (judge seq payload state.expected_seq) key id m
]

unfoldable pub on_data :
    (Option Text → Option Integer) → (from sid seq : Option Text) → Text → Manager → Reply × Manager
on_data integer from sid seq payload m =
    if not (filled from && filled sid)
    then (bad_request, m)
    else data_for (key_of (text_of from) (text_of sid)) (integer seq) payload m

abbrev pub without : ℕ → List ℕ → List ℕ
without h [] = []
without h (i ∷ is) = if i == h then is else i ∷ without h is

-- A handler whose promise was resolved goes on.
unfoldable pub resume : ℕ → Manager → Reply × Manager
resume handler m =
    let parked = m.handlers handler in
    settle handler parked.key parked.stream (record m { runnable = without handler m.runnable })

-- The `pull` of the readable stream.
unfoldable pub pull : ℕ → Manager → Manager
pull id m =
    let again = armed m.idle_timeout_ms m.receive_window false (m.heap id) in
    record (set_stream id (record again { pull_waiters = [] }) m) {
      runnable = m.runnable ++ (m.heap id).pull_waiters;
    }

-- The consumer reads: the platform's queue has fewer bytes.
unfoldable pub read : ℕ → ℕ → Manager → Manager
read id n m = set_stream id (record (m.heap id) { queued = (m.heap id).queued - n }) m

-- The `cancel` of the readable stream, which the platform has closed.
unfoldable pub cancel : ℕ → Manager → Manager
cancel id m =
    let state = record (m.heap id) { end = ended (m.heap id).end closed } in
    if state.duplex
    then record (set_stream id state m) { hooks = m.hooks ++ (on_cancel id ∷ []) }
    else let finished =
        finish_in_stream state.key id none (set_stream id (record state { cancelled = true }) m) in
      record finished { hooks = finished.hooks ++ (sends_close id ∷ []) }

abbrev pub tell_peer_close : ℕ → Manager → Manager
tell_peer_close id m =
    if (m.heap id).duplex then record m { hooks = m.hooks ++ (on_peer_close id ∷ []) } else m

-- `#onClose` from the state on.
unfoldable pub close_for : Text → Manager → Reply × Manager
close_for key m = elim (get? key m.in_streams) [
  | none ↦ (item_not_found, m)
  | some id ↦
      let state = m.heap id in
      if state.finished then (result, tell_peer_close id m) else (
        result,
        tell_peer_close id (
            finish_in_stream key id none
              (set_stream id (record state { end = ended state.end closed }) m)),
      )
]

unfoldable pub on_close : (from sid : Option Text) → Manager → Reply × Manager
on_close from sid m =
    if not (filled from && filled sid)
    then (bad_request, m)
    else close_for (key_of (text_of from) (text_of sid)) m

-- The cap on what message-carried data may leave unread.
abbrev pub cap_buffer : Text → ℕ → Manager → Manager
cap_buffer key id m =
    if ltb ((m.heap id).high_water_mark + default_max_buffered_bytes) (m.heap id).queued
    then finish_in_stream key id (some payload_too_large) m
    else m

unfoldable pub follow_message : Verdict → Text → ℕ → Manager → Manager
follow_message redelivered key id m = m
follow_message mismatch key id m = finish_in_stream key id (some stream_error) m
follow_message undecodable key id m = finish_in_stream key id (some stream_error) m
follow_message (taken bytes) key id m = cap_buffer key id (take_bytes id bytes m)

unfoldable pub message_data_for : Text → Option Integer → Text → Manager → Manager
message_data_for key seq payload m = elim (get? key m.in_streams) [
  | none ↦ m
  | some id ↦
      if (m.heap id).finished
      then m
      else follow_message (judge seq payload (m.heap id).expected_seq) key id m
]

-- `#handleMessageData`, of a message with a `<data/>`.
unfoldable pub handle_message_data :
    (Option Text → Option Integer) → (from sid seq : Option Text) → Text → Manager → Manager
handle_message_data integer from sid seq payload m =
    if not (filled from && filled sid)
    then m
    else message_data_for (key_of (text_of from) (text_of sid)) (integer seq) payload m

-- The callback of the idle timer.
unfoldable pub idle_fires : ℕ → Manager → Manager
idle_fires id m = elim (m.heap id).idle_timer [
  | none ↦ m
  | some ms ↦ finish_in_stream (m.heap id).key id (some timeout) m
]

-- `retireInbound` of a duplex, with or without a tombstone.
abbrev pub retired : Option ErrorCode → InStream → InStream
retired error state = record state {
  cancelled = true;
  finished = true;
  idle_timer = none;
  pull_waiters = [];
  end = elim error [ none ↦ ended state.end closed | some e ↦ ended state.end (errored e) ];
}

unfoldable pub retire_inbound : Option ErrorCode → Bool → ℕ → Manager → Manager
retire_inbound error keep_tombstone id m =
    let state = m.heap id in
    let after = record (set_stream id (retired error state) m) {
      runnable = m.runnable ++ state.pull_waiters;
    } in
    if state.finished
    then m
    else if keep_tombstone
    then after
    else drop_in_stream state.key id after

-- `removeTombstone` of a duplex.
abbrev pub remove_tombstone : ℕ → Manager → Manager
remove_tombstone id m = drop_in_stream (m.heap id).key id m

-- The first loop of `release`, and what it clears.
unfoldable pub finish_all : List (Text × ℕ) → Manager → Manager
finish_all [] m = m
finish_all ((key, id) ∷ entries) m = finish_all entries (finish_in_stream key id (some aborted) m)

unfoldable pub close_manager : Manager → Manager
close_manager m = record (finish_all m.in_streams m) { expectations = [] }
