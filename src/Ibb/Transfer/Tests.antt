-- ===== src/Ibb/Transfer/Tests.antt =====
-- A whole transfer of three bytes in two blocks, the first of which is delivered twice.
use xmpp_httpx.Prelude.{ℕ, ◌≡◌, refl, List, [], ◌∷◌, Option, none, some, false, concat, arith}
use xmpp_httpx.JsMap.{text_key}
use xmpp_httpx.Base64.{Text, codes}
use xmpp_httpx.Bytes.Buffer.Contents.{new-IsValid}
use xmpp_httpx.Session.{bare_jid}
use xmpp_httpx.Ibb.Windows.{Integer, nonneg}
use xmpp_httpx.Ibb.Inbound.{Manager, key_of, create_in_stream}
use xmpp_httpx.Ibb.Inbound.Events as Events
use xmpp_httpx.Ibb.Scheduler.{Sender}
use xmpp_httpx.Ibb.Sender as Sending
use xmpp_httpx.Ibb.Sender.Blocks.{IsStream}
use xmpp_httpx.Ibb.Transfer.{
  Arrival, block_comes, consumer_pulls, consumer_reads, Arrives, all_there, next, again, pulls,
  reads, arrive_all,
}
use xmpp_httpx.Ibb.Transfer.Whole.{written-read}

-- Numbers written with one character each.
abbrev print : ℕ → Text
print k = k ∷ []

abbrev integer : Option Text → Option Integer
integer (some (k ∷ [])) = some (nonneg k)
integer other = none

abbrev peer : Text
peer = codes "a@b/c"

abbrev sid : Text
sid = codes "s"

abbrev sent : Sender
sent = record (Sending.new 2 2 false) {
  seq = 2;
  dispatched = 2;
  in_flight = 1;
  wire = (0, 1 ∷ 2 ∷ []) ∷ (1, 3 ∷ []) ∷ [];
  written = 1 ∷ 2 ∷ 3 ∷ [];
}

sent-IsStream : IsStream sent
sent-IsStream = record {
  blocks = (1 ∷ 2 ∷ []) ∷ (3 ∷ []) ∷ [];
  buffer = new-IsValid;
  on_wire = refl;
  kept = refl;
  seq_of = refl;
  dispatched_of = refl;
  sizes = omega arith;
  positive = omega arith;
  in_window = omega arith;
}

abbrev receiver : Manager
receiver = create_in_stream (key_of peer sid) 2 none false (Events.new 30000 8)

abbrev arrivals : List Arrival
arrivals =
    block_comes 0 ∷ consumer_pulls 0 ∷ block_comes 0 ∷ consumer_reads 0 2 ∷ block_comes 1 ∷ []

arrivals-Arrives : Arrives 2 0 arrivals 2
arrivals-Arrives =
    next (omega arith)
      (pulls 0 (again (omega arith) (omega arith) (reads 0 2 (next (omega arith) all_there))))

written-read_example :
    (((arrive_all integer print peer sid sent.wire receiver arrivals).heap 0).finished ≡ false)
    × (concat ((arrive_all integer print peer sid sent.wire receiver arrivals).heap 0).out
        ≡ 1 ∷ 2 ∷ 3 ∷ [])
unfolding create_in_stream key_of bare_jid
written-read_example =
    written-read integer print (λ k. refl) peer sid (omega arith) (omega arith) sent sent-IsStream
      (omega arith) refl 0 receiver refl refl refl refl arrivals arrivals-Arrives
