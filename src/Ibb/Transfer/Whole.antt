-- ===== src/Ibb/Transfer/Whole.antt =====
-- A whole transfer: all the blocks of a sender arrive at a stream that was just opened.
use xmpp_httpx.Prelude.{
  ℕ, suc, ◌<◌, ◌≡◌, refl, sym, subst, ap, ◌∙◌, List, [], ◌∷◌, ◌++◌, Option, some, false, arith,
  length, take_all, concat, append-nil, All,
}
use xmpp_httpx.JsMap.{text_key, get?}
use xmpp_httpx.Base64.{Text}
use xmpp_httpx.Base64.RoundTrip.{IsByte}
use xmpp_httpx.Bytes.Buffer.{Bytes, size}
use xmpp_httpx.Bytes.Buffer.Contents.{contents}
use xmpp_httpx.Ibb.Windows.{Integer, nonneg}
use xmpp_httpx.Ibb.Inbound.{Manager, key_of}
use xmpp_httpx.Ibb.Inbound.Delivery.{Receives}
use xmpp_httpx.Ibb.Scheduler.{Sender}
use xmpp_httpx.Ibb.Sender.Blocks.{number, FitsBlock, IsStream}
use xmpp_httpx.Ibb.Transfer.{Arrival, Arrives, arrive_all, arrive_all-At}

All-left : (P : ℕ → Type 0) (xs ys : Bytes) → All P (xs ++ ys) → All P xs
All-left P [] ys all = tt
All-left P (x ∷ xs) ys all = (all.0, All-left P xs ys all.1)

All-right : (P : ℕ → Type 0) (xs ys : Bytes) → All P (xs ++ ys) → All P ys
All-right P [] ys all = all
All-right P (x ∷ xs) ys all = All-right P xs ys all.1

All-blocks : (P : ℕ → Type 0) (blocks : List Bytes) → All P (concat blocks) → All (All P) blocks
All-blocks P [] all = tt
All-blocks P (b ∷ blocks) all =
    (All-left P b (concat blocks) all, All-blocks P blocks (All-right P b (concat blocks) all))

All-positive :
    (block_size : ℕ) (blocks : List Bytes)
    → All (FitsBlock block_size) blocks
    → All (λ (b : Bytes). 0 < length b) blocks
All-positive block_size [] all = tt
All-positive block_size (b ∷ blocks) ((pos, le), all) = (pos, All-positive block_size blocks all)

length-number : (from : ℕ) (blocks : List Bytes) → length (number from blocks) ≡ length blocks
length-number from [] = refl
length-number from (b ∷ blocks) = ap suc (length-number (suc from) blocks)

contents-empty : (b : Bytes) → length b ≡ 0 → b ≡ []
contents-empty [] e = refl
contents-empty (x ∷ b) e = absurd (omega (arith, e))

-- A sender, sound as every event of a session keeps it, has sent all it was given to write, bytes,
-- and buffers nothing more. Its blocks come to a stream that was just opened for its sid, in order,
-- up to the last, any of the last 64 again at any time, and any pulls, reads and handlers that go on
-- in between. Then the stream is not finished, and what its consumer got is what was written.
-- `integer` and `print` are `Number` of an attribute and `String` of a number, which agree.
pub written-read :
    (integer : Option Text → Option Integer) (print : ℕ → Text)
    → ((k : ℕ) → integer (some (print k)) ≡ some (nonneg k))
    → (sender sid : Text) → 0 < length sender
    → 0 < length sid
    → (t : Sender) → IsStream t
    → All IsByte t.written
    → size t.buffered ≡ 0
    → (id : ℕ) (m : Manager) → get? (key_of sender sid) m.in_streams ≡ some id
    → (m.heap id).finished ≡ false
    → (m.heap id).expected_seq ≡ 0
    → (m.heap id).out ≡ []
    → (arrivals : List Arrival) → Arrives (length t.wire) 0 arrivals (length t.wire)
    → (((arrive_all integer print sender sid t.wire m arrivals).heap id).finished ≡ false)
      × (concat ((arrive_all integer print sender sid t.wire m arrivals).heap id).out ≡ t.written)
written-read integer print parses sender sid sender_given sid_given t v bytes sent id m registered
      live at_start no_bytes arrivals arrives =
    rw v.on_wire (
      at_end.got.0,
      ap concat at_end.got.2
          ∙ ap concat (take_all (length v.blocks) v.blocks (omega arith))
          ∙ all_sent,
    )
  where
    same_length : length t.wire ≡ length v.blocks
    same_length = ap length v.on_wire ∙ length-number 0 v.blocks

    all_sent : concat v.blocks ≡ t.written
    all_sent =
        sym (append-nil (concat v.blocks))
        ∙ ap (λ c. concat v.blocks ++ c)
            (sym (contents-empty (contents t.buffered) (sym v.buffer.counted ∙ sent)))
        ∙ v.kept

    at_end :
        Receives
          (key_of sender sid)
          id
          (length v.blocks)
          v.blocks
          (arrive_all integer print sender sid (number 0 v.blocks) m arrivals)
    at_end =
        arrive_all-At integer print sender sid parses sender_given sid_given id v.blocks
          (All-blocks IsByte v.blocks (rw all_sent bytes))
          (All-positive t.block_size v.blocks v.sizes) 0 (length v.blocks) arrivals m
          (subst (λ n. Arrives n 0 arrivals n) same_length arrives) (omega arith)
          (record { registered = registered; got = (live, at_start, no_bytes) })
