-- ===== src/Ibb/Inbound/Events.antt =====
-- What happens to the receiving side of a manager, one event at a time.
use xmpp_httpx.Prelude.{ℕ, [], Option, none, some, Bool, false}
use xmpp_httpx.Errors.{ErrorCode}
use xmpp_httpx.Base64.{Text}
use xmpp_httpx.Ibb.Windows.{Integer}
use xmpp_httpx.Ibb.Inbound.{
  IdleTimeout, Wish, Manager, new_stream, on_open, expect, expectation_times_out,
  parked_open_times_out, open_duplex,
}
use xmpp_httpx.Ibb.Inbound.Data.{
  on_data, resume, pull, read, cancel, on_close, handle_message_data, idle_fires, retire_inbound,
  remove_tombstone, close_manager,
}

-- A manager with its two timeouts and windows, and no stream.
abbrev pub new : ℕ → ℕ → Manager
new idle_timeout_ms receive_window = record {
  in_streams = [];
  parked_opens = [];
  expectations = [];
  heap = λ id. new_stream [] none false 0;
  next_stream = 0;
  handlers = λ h. record { key = []; stream = 0 };
  next_handler = 0;
  runnable = [];
  hooks = [];
  idle_timeout_ms = idle_timeout_ms;
  receive_window = receive_window;
}

-- A call of a handler or of a method, a timer, or what the consumer of a stream does.
pub data Event : Type 0 where
  opened : (from sid block_size : Option Text) → Event
  data_arrived : (from sid seq : Option Text) → Text → Event
  message_arrived : (from sid seq : Option Text) → Text → Event
  close_arrived : (from sid : Option Text) → Event
  expected : Text → Wish → Event
  duplex_opened : Text → ℕ → Option IdleTimeout → Event
  expectation_timed_out parked_open_timed_out : Text → Event
  resumed pulled cancelled idle_fired tombstone_removed : ℕ → Event
  has_read : ℕ → ℕ → Event
  retired : Option ErrorCode → Bool → ℕ → Event
  released : Event

abbrev pub or_same : Manager → Option Manager → Manager
or_same m none = m
or_same m (some after) = after

unfoldable pub handle : (Option Text → Option Integer) → Manager → Event → Manager
handle integer m (opened from sid block_size) = (on_open integer from sid block_size m).1
handle integer m (data_arrived from sid seq payload) = (on_data integer from sid seq payload m).1
handle integer m (message_arrived from sid seq payload) =
    handle_message_data integer from sid seq payload m
handle integer m (close_arrived from sid) = (on_close from sid m).1
handle integer m (expected key wish) = (expect key wish m).1
handle integer m (duplex_opened key block_size idle) = or_same m (open_duplex key block_size idle m)
handle integer m (expectation_timed_out key) = expectation_times_out key m
handle integer m (parked_open_timed_out key) = parked_open_times_out key m
handle integer m (resumed handler) = (resume handler m).1
handle integer m (pulled id) = pull id m
handle integer m (cancelled id) = cancel id m
handle integer m (idle_fired id) = idle_fires id m
handle integer m (tombstone_removed id) = remove_tombstone id m
handle integer m (has_read id n) = read id n m
handle integer m (retired error keep id) = retire_inbound error keep id m
handle integer m released = close_manager m
