-- ===== src/Ibb/Sender/Tests.antt =====
-- The sender on concrete calls: blocks of 2 bytes in a session of 2 slots.
use xmpp_httpx.Prelude.{ℕ, ◌≡◌, refl, List, [], ◌∷◌, Option, none, some, true, false, arith}
use xmpp_httpx.Errors.{timeout}
use xmpp_httpx.JsMap.{nat_key, get?}
use xmpp_httpx.Bytes.Buffer.{push, take_block}
use xmpp_httpx.Ibb.Scheduler.{
  Sender, Session, wants, offer, grant_loop, grant_send_slots, reclaim_parked, reclaim_loop,
  acquire_send_slot, release_send_slot, end_send_slot,
}
use xmpp_httpx.Ibb.Sender.{new, send_block, dispatch, reserve, sent_round, pump_round, pump_loop}
use xmpp_httpx.Ibb.Sender.Calls.{write, pump, give_back, give_back_loop, give_one_back}
use xmpp_httpx.Ibb.Sender.Close.{close, close_pumped, close_drains, close_resumed}
use xmpp_httpx.Ibb.Sender.Events.{
  Event, opened, wrote, resumed, close_called, close_woken, answered, aborted_with, step, call,
  abort, settle, new_session,
}
use xmpp_httpx.Ibb.Sender.Pump.{Balanced}
use xmpp_httpx.Ibb.Sender.Rounds.{Turned}
use xmpp_httpx.Ibb.Sender.Silent.{steps, wire-steps}
use xmpp_httpx.Ibb.Sender.Returns.{Pumped, pump-Pumped}
use xmpp_httpx.Ibb.Sender.Invariant.{Opens, step-Turned, new_session-Balanced}

unfoldable after : ℕ → Event → Session → Session
unfolding step
after now event s = (step now event s).1

after-Balanced :
    (now : ℕ) (event : Event) (s : Session)
    → Balanced s
    → Opens event
    → Balanced (after now event s)
unfolding after
after-Balanced now event s v h = (step-Turned now event s v h).0

abbrev one_stream : Session
one_stream = after 0 (opened 7 2 2 false) (new_session 2 500)

abbrev five_bytes : Session
five_bytes = after 10 (wrote 7 (1 ∷ 2 ∷ 3 ∷ 4 ∷ 5 ∷ [])) one_stream

-- Two blocks fill the window; the call of `close` sends the rest once an ack is there.
abbrev closing_call : Session
closing_call = after 20 (close_called 7) five_bytes

abbrev all_sent : Session
all_sent = after 40 (close_woken 7) (after 30 (answered 0 none) closing_call)

one_stream-Balanced : Balanced one_stream
one_stream-Balanced =
    after-Balanced 0 (opened 7 2 2 false) (new_session 2 500) (new_session-Balanced 2 500)
      (omega arith)

five_bytes-Balanced : Balanced five_bytes
five_bytes-Balanced =
    after-Balanced 10 (wrote 7 (1 ∷ 2 ∷ 3 ∷ 4 ∷ 5 ∷ [])) one_stream one_stream-Balanced tt

all_sent-Balanced : Balanced all_sent
all_sent-Balanced =
    after-Balanced 40 (close_woken 7) _
      (after-Balanced 30 (answered 0 none) _
        (after-Balanced 20 (close_called 7) _ five_bytes-Balanced tt) tt)
      tt

abbrev wire_of : Option Sender → List (ℕ × List ℕ)
wire_of none = []
wire_of (some t) = t.wire

all_sent_wire :
    wire_of (get? 7 all_sent.streams) ≡ (0, 1 ∷ 2 ∷ []) ∷ (1, 3 ∷ 4 ∷ []) ∷ (2, 5 ∷ []) ∷ []
unfolding after step call write close close_pumped close_resumed close_drains settle pump give_back
    give_back_loop give_one_back pump_loop pump_round send_block dispatch reserve sent_round wants
    offer grant_loop grant_send_slots reclaim_parked reclaim_loop acquire_send_slot
    release_send_slot end_send_slot push take_block
all_sent_wire = refl

step-Turned_example : Turned (step 50 (aborted_with 7 timeout) five_bytes)
step-Turned_example = step-Turned 50 (aborted_with 7 timeout) five_bytes five_bytes-Balanced tt

pump-Pumped_example : Pumped 7 (pump 60 7 closing_call)
pump-Pumped_example =
    pump-Pumped 60 7 closing_call
      (after-Balanced 20 (close_called 7) five_bytes five_bytes-Balanced tt)

abbrev five_bytes_then_abort : List (ℕ × Event)
five_bytes_then_abort =
    (0, opened 7 2 2 false)
    ∷ (10, wrote 7 (1 ∷ 2 ∷ 3 ∷ 4 ∷ 5 ∷ []))
    ∷ (20, aborted_with 7 timeout)
    ∷ []

abbrev a_late_ack : List (ℕ × Event)
a_late_ack = (30, answered 0 none) ∷ (40, resumed 7) ∷ []

abbrev aborted : Sender
aborted = record (new 2 2 false) {
  seq = 2;
  dispatched = 2;
  buffered = record { parts = (5 ∷ []) ∷ []; bytes = 1 };
  failed = some (record { ordinal = none; error = timeout });
  in_flight = 2;
  close_sent = true;
  wire = (0, 1 ∷ 2 ∷ []) ∷ (1, 3 ∷ 4 ∷ []) ∷ [];
  written = 1 ∷ 2 ∷ 3 ∷ 4 ∷ 5 ∷ [];
}

wire-steps_example :
    (u : Sender) × (get? 7
        (steps a_late_ack (steps five_bytes_then_abort (new_session 2 500))).streams
      ≡ some u)
    × (u.wire ≡ aborted.wire)
unfolding step call write pump give_back give_back_loop give_one_back pump_loop pump_round
    send_block dispatch reserve sent_round wants offer grant_loop grant_send_slots reclaim_parked
    reclaim_loop acquire_send_slot release_send_slot end_send_slot push take_block abort
wire-steps_example = wire-steps 2 500 five_bytes_then_abort a_late_ack 7 aborted refl refl
