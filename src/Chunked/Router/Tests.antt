-- ===== src/Chunked/Router/Tests.antt =====
-- The theorems on the router at concrete inputs.
use xmpp_httpx.Prelude.{ℕ, ◌≡◌, refl, List, [], ◌∷◌, Option, none, some, true, false, arith}
use xmpp_httpx.Base64.{Text}
use xmpp_httpx.Session.{bare_jid}
use xmpp_httpx.Chunked.Reassembler as Reassembler
use xmpp_httpx.Chunked.Router.{
  OrphanChunk, Router, Receiver, new, handle_event, acquired, expected_from, stanza_at,
  chunk_message, expect, key_of,
}
use xmpp_httpx.Chunked.Router.Accounting.{IsValid, new-IsValid, handle_event-IsValid}
use xmpp_httpx.Chunked.Router.Replay.{route_all}
use xmpp_httpx.Chunked.Router.Orders.{expect-route_all}

abbrev peer : Text
peer = b'a' ∷ b'@' ∷ b'b' ∷ b'/' ∷ b'r' ∷ []

abbrev stream_id : Text
stream_id = b's' ∷ []

abbrev key : Text
key = b'a' ∷ b'@' ∷ b'b' ∷ b'\n' ∷ b's' ∷ []

abbrev receivers : ℕ → Receiver
receivers id = record { stream_id = stream_id; state = Reassembler.new 100; hooks = [] }

abbrev always_zero : Option Text → Option ℕ
always_zero attribute = some 0

abbrev held : Router
held = handle_event always_zero (new receivers) acquired

held-IsValid : IsValid held
held-IsValid = handle_event-IsValid always_zero (new receivers) acquired (new-IsValid receivers)

abbrev buffering : Router
buffering = handle_event always_zero held (
    stanza_at 5
      (chunk_message (some peer) (some stream_id) (some (b'0' ∷ [])) none (b'Q' ∷ b'Q' ∷ [])))

buffering-IsValid : IsValid buffering
buffering-IsValid =
    handle_event-IsValid always_zero held
      (stanza_at 5
        (chunk_message (some peer) (some stream_id) (some (b'0' ∷ [])) none (b'Q' ∷ b'Q' ∷ [])))
      held-IsValid

-- The chunk that was buffered is replayed.
handle_event-IsValid_example : IsValid (handle_event always_zero buffering (expected_from peer 3))
handle_event-IsValid_example =
    handle_event-IsValid always_zero buffering (expected_from peer 3) buffering-IsValid

abbrev chunks : List OrphanChunk
chunks =
    record { nr = 1; last = true; payload = b'Q' ∷ b'U' ∷ b'I' ∷ b'=' ∷ []; arrived_at = 20 }
    ∷ record { nr = 0; last = false; payload = b'Q' ∷ b'Q' ∷ []; arrived_at = 21 }
    ∷ []

key_example : key_of peer stream_id ≡ key
unfolding key_of bare_jid
key_example = refl

expect-route_all_example :
    ((expect peer 3 (route_all key chunks (new receivers))).heap 3).state
    ≡ ((route_all key chunks (expect peer 3 (new receivers))).heap 3).state
expect-route_all_example =
    expect-route_all 15 peer 3 chunks (new receivers) key key_example refl refl
      ((omega arith, omega arith), ((omega arith, omega arith), tt)) (omega arith)
