-- ===== src/Ibb/Windows.antt =====
-- The sizes and windows of src/ibb/ibb.ts, and the test for a block that was taken before.
use xmpp_httpx.Prelude.{
  ℕ, ◌+◌, ◌-◌, ◌*◌, ◌%◌, min, max, Option, none, some, Bool, false, ◌&&◌, ltb, leb, if◌then◌else◌,
}

abbrev pub max_ibb_window : ℕ
max_ibb_window = 256

abbrev pub default_ibb_window : ℕ
default_ibb_window = 8

abbrev pub default_ibb_session_window : ℕ
default_ibb_session_window = 16

abbrev pub default_max_buffered_bytes : ℕ
default_max_buffered_bytes = 1048576

-- A JavaScript number as a window: NaN or an infinity, a number below 0, or one above that with
-- this for its integer part.
pub data WindowNumber : Type 0 where
  not_finite negative : WindowNumber
  at_least : ℕ → WindowNumber

abbrev floor_window : WindowNumber → ℕ → ℕ
floor_window not_finite fallback = fallback
floor_window negative fallback = max 1 (min max_ibb_window 0)
floor_window (at_least n) fallback = max 1 (min max_ibb_window n)

-- `clampWindow`, for a fallback that is a finite integer.
unfoldable pub clamp_window : Option WindowNumber → ℕ → ℕ
clamp_window none fallback = floor_window (at_least fallback) fallback
clamp_window (some value) fallback = floor_window value fallback

abbrev pub redelivery_window : ℕ
redelivery_window = 64

-- An integer, `minus n` being -n.
pub data Integer : Type 0 where
  nonneg minus : ℕ → Integer

abbrev within_window : ℕ → Bool
within_window behind = ltb 0 behind && leb behind redelivery_window

-- `isRedelivery`. The remainder of a negative difference is not positive.
unfoldable pub is_redelivery : Integer → ℕ → Bool
is_redelivery (nonneg seq) expected_seq =
    if leb seq (expected_seq + 65536)
    then within_window ((expected_seq + 65536 - seq) % 65536)
    else false
is_redelivery (minus seq) expected_seq = within_window ((expected_seq + seq + 65536) % 65536)

-- `#receiveBufferBytes`, of a clamped window.
unfoldable pub receive_buffer_bytes : ℕ → ℕ → ℕ
receive_buffer_bytes window block_size =
    min default_max_buffered_bytes (max (64 * 1024) ((window + 1) * block_size))

-- `#stalledTimeoutMs`
unfoldable pub stalled_timeout_ms : ℕ → ℕ → ℕ
stalled_timeout_ms window idle_timeout_ms = idle_timeout_ms * (window + 1)
