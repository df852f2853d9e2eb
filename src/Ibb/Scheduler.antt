-- ===== src/Ibb/Scheduler.antt =====
-- The session scheduler of `IbbManager` in src/ibb/ibb.ts, and the state of the sending streams that
-- it reads. A block in flight is known by the number of its slot: it is in `counted`, with the time
-- at which it was dispatched, as long as its `SendSlot` is counted. A pump that is woken runs on in
-- a later turn, so waking changes nothing here.
pub mod Ledger
pub mod Busy
use xmpp_httpx.Prelude.{
  ℕ, zero, suc, ◌+◌, ◌-◌, ◌*◌, ◌/◌, min, max, List, [], ◌∷◌, ◌++◌, Option, none, some, Bool, true,
  false, ◌&&◌, ◌||◌, not, ltb, leb, ◌==◌, if◌then◌else◌, length,
}
use xmpp_httpx.Errors.{ErrorCode}
use xmpp_httpx.JsMap.{nat_key, get?, has, put, delete}
use xmpp_httpx.Bytes.Buffer.{Bytes, BlockBuffer, size}

-- The failure of a stream. The ordinal -1 of an abort is `none`.
pub record Failure : Type 0 where
  pub ordinal : Option ℕ
  pub error : ErrorCode

-- How far the call of `close` is that closed the stream; `caught` is at the error of its pump.
pub data Phase : Type 0 where
  before pumping draining sending over : Phase
  caught : ErrorCode → Phase

-- The local state of `#createOutStream`, what it has put on the wire, and what `write` was given.
pub record Sender : Type 0 where
  pub window : ℕ
  pub block_size : ℕ
  pub flush_each_write : Bool
  pub seq : ℕ
  pub dispatched : ℕ
  pub buffered : BlockBuffer
  pub closed : Bool
  pub closed_by_peer : Bool
  pub failed : Option Failure
  pub in_flight : ℕ
  pub granted : ℕ
  pub close_sent : Bool
  pub phase : Phase
  pub wire : List (ℕ × Bytes)
  pub written : Bytes

-- A time of `sum / count` milliseconds: the smoothed latency is an exact fraction.
pub record Latency : Type 0 where
  pub sum : ℕ
  pub count : ℕ

pub record Session : Type 0 where
  pub limit : ℕ  -- `#sendLimit()`, of a `sendWindowBlocks` that stays as it is
  pub park_floor_ms : ℕ
  pub send_in_flight : ℕ
  pub send_queue : List ℕ
  pub counted : List (ℕ × ℕ)
  pub ack_latency : Option Latency
  pub reclaim_timer : Option ℕ
  pub streams : List (ℕ × Sender)
  pub next_slot : ℕ
  pub outstanding : List (ℕ × (ℕ × ℕ))  -- of each slot the stream and the ordinal of its block

abbrev pub is_some {ℓ} : {A : Type ℓ} → Option A → Bool
is_some none = false
is_some (some a) = true

-- `hasBlock`
abbrev pub has_block : Sender → Bool
has_block s =
    leb s.block_size (size s.buffered)
    || ((s.closed || s.flush_each_write) && ltb 0 (size s.buffered))

-- The `wants` of a stream's entry.
unfoldable pub wants : Sender → Bool
wants s =
    not (is_some s.failed)
    && not s.closed_by_peer
    && has_block s
    && ltb (s.in_flight + s.granted) s.window

-- `dispatchedAt <= now() - #parkThresholdMs()`
abbrev is_parked : ℕ → ℕ → Latency → ℕ → Bool
is_parked park_floor_ms now latency at =
    leb (at + park_floor_ms) now && leb (at * latency.count + 4 * latency.sum) (now * latency.count)

-- The loop of `#reclaimParked`: the counted slots and the budget in use after it.
unfoldable pub reclaim_loop : ℕ → ℕ → Latency → List (ℕ × ℕ) → ℕ → List (ℕ × ℕ) × ℕ
reclaim_loop park_floor_ms now latency [] in_flight = ([], in_flight)
reclaim_loop park_floor_ms now latency ((slot, at) ∷ counted) in_flight =
    let swept = reclaim_loop park_floor_ms now latency counted (in_flight - 1) in
    if is_parked park_floor_ms now latency at then swept else ((slot, at) ∷ counted, in_flight)

abbrev pub with_counted : List (ℕ × ℕ) × ℕ → Session → Session
with_counted (counted, in_flight) s = record s { counted = counted; send_in_flight = in_flight }

unfoldable pub reclaim_parked : ℕ → Session → Session
reclaim_parked now s = elim s.ack_latency [
  | none ↦ s
  | some latency ↦
      with_counted (reclaim_loop s.park_floor_ms now latency s.counted s.send_in_flight) s
]

-- `Math.max(1, Math.ceil(due))`, for the time of the oldest counted slot.
abbrev due_in : ℕ → ℕ → Latency → ℕ → ℕ
due_in park_floor_ms now latency at = max 1 (
    (at * latency.count
      + max (park_floor_ms * latency.count) (4 * latency.sum)
      - now * latency.count
      + latency.count
      - 1)
    / latency.count)

abbrev reclaim_due : ℕ → ℕ → Option Latency → List (ℕ × ℕ) → Option ℕ
reclaim_due park_floor_ms now none counted = none
reclaim_due park_floor_ms now (some latency) [] = none
reclaim_due park_floor_ms now (some latency) ((slot, at) ∷ counted) =
    some (due_in park_floor_ms now latency at)

abbrev pub armed_reclaim : ℕ → Session → Option ℕ
armed_reclaim now s =
    if is_some s.reclaim_timer || length s.send_queue == 0
    then s.reclaim_timer
    else reclaim_due s.park_floor_ms now s.ack_latency s.counted

-- `#armReclaim`
abbrev pub arm_reclaim : ℕ → Session → Session
arm_reclaim now s = record s { reclaim_timer = armed_reclaim now s }

-- One entry is taken from the queue: it is granted a slot if it wants one.
unfoldable pub offer : ℕ → Session → Session
offer id s = elim (get? id s.streams) [
  | none ↦ s
  | some stream ↦
      if wants stream
      then record s {
        send_in_flight = s.send_in_flight + 1;
        streams = put id (record stream { granted = stream.granted + 1 }) s.streams;
      }
      else s
]

-- The loop of `#grantSendSlots`, which goes along the queue.
unfoldable pub grant_loop : List ℕ → Session → Session
grant_loop [] s = s
grant_loop (id ∷ queue) s =
    let later = grant_loop queue (offer id (record s { send_queue = queue })) in
    if ltb s.send_in_flight s.limit then later else s

unfoldable pub grant_send_slots : ℕ → Session → Session
grant_send_slots now s = arm_reclaim now (grant_loop s.send_queue s)

abbrev includes : ℕ → List ℕ → Bool
includes id [] = false
includes id (other ∷ queue) = other == id || includes id queue

-- `#acquireSendSlot`
unfoldable pub acquire_send_slot : ℕ → ℕ → Session → Bool × Session
acquire_send_slot now id s =
    let granted = grant_send_slots now (reclaim_parked now s) in
    if ltb granted.send_in_flight granted.limit
    then (true, record granted { send_in_flight = granted.send_in_flight + 1 })
    else (
      false,
      arm_reclaim now (record granted {
        send_queue =
            if includes id granted.send_queue
            then granted.send_queue
            else granted.send_queue ++ (id ∷ []);
      }),
    )

-- `#releaseSendSlot`
unfoldable pub release_send_slot : ℕ → Session → Session
release_send_slot now s = grant_send_slots now (record s { send_in_flight = s.send_in_flight - 1 })

-- The latency with one more sample, `latency + (sample - latency) / 8`.
abbrev smoothed : Option Latency → ℕ → Latency
smoothed none sample = record { sum = sample; count = 1 }
smoothed (some latency) sample = record {
  sum = 7 * latency.sum + sample * latency.count;
  count = 8 * latency.count;
}

-- `#endSendSlot`
unfoldable pub end_send_slot : ℕ → ℕ → Bool → Session → Session
end_send_slot now slot acked s = elim (get? slot s.counted) [
  | none ↦ s
  | some at ↦ release_send_slot now (record s {
    counted = delete slot s.counted;
    ack_latency = if acked then some (smoothed s.ack_latency (now - at)) else s.ack_latency;
  })
]

-- The callback of the reclaim timer.
unfoldable pub reclaim_fires : ℕ → Session → Session
reclaim_fires now s = grant_send_slots now (reclaim_parked now (record s { reclaim_timer = none }))
