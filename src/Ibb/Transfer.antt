-- ===== src/Ibb/Transfer.antt =====
-- The sending side and the receiving side of src/ibb/ibb.ts together: what was written is what the
-- peer's consumer reads.
pub mod Whole
mod Tests
use xmpp_httpx.Prelude.{
  ℕ, zero, suc, ◌+◌, ◌-◌, ◌%◌, ◌≤◌, ◌<◌, ◌≡◌, refl, sym, subst, ap, ◌∙◌, List, [], ◌∷◌, ◌++◌,
  Option, none, some, Bool, true, false, ◌&&◌, not, arith, length, take, get_or, concat, All,
  take_all, append-nil, if◌then◌else◌, ◌==◌, ==_self,
}
use xmpp_httpx.JsMap.{text_key, get?}
use xmpp_httpx.Base64.{Text, encode_base64}
use xmpp_httpx.Base64.RoundTrip.{decode-encode, IsByte}
use xmpp_httpx.Bytes.Buffer.{Bytes, size}
use xmpp_httpx.Bytes.Buffer.Contents.{contents}
use xmpp_httpx.Ibb.Windows.{Integer, nonneg}
use xmpp_httpx.Ibb.Inbound.{InStream, Manager, Reply, key_of, text_of, filled}
use xmpp_httpx.Ibb.Inbound.Data.{
  Verdict, redelivered, taken, judge, decode, follow, data_for, on_data, pull, read, resume,
}
use xmpp_httpx.Ibb.Inbound.Events.{Event, data_arrived, pulled, has_read, resumed, handle}
use xmpp_httpx.Ibb.Inbound.Delivery.{
  Got, Receives, is_redelivery-again, is_redelivery-next, same-Got, at_same, settle-Receives,
  taken-Receives,
}
use xmpp_httpx.Ibb.Scheduler.{Sender}
use xmpp_httpx.Ibb.Sender.Blocks.{number, FitsBlock, IsStream}

-- What reaches the receiver: the block of some place on the wire, or a turn of its consumer or of a
-- handler that waits for it.
pub data Arrival : Type 0 where
  block_comes : ℕ → Arrival
  consumer_pulls handler_goes_on : ℕ → Arrival
  consumer_reads : ℕ → ℕ → Arrival

-- The blocks of a wire of `count` blocks arrive in order, from block `from` up to block `to`; one of
-- the last 64 that were there already may come again.
pub data Arrives (count : ℕ) : ℕ → List Arrival → ℕ → Type 0 where
  all_there : {k : ℕ} → Arrives count k [] k
  next :
      {k to : ℕ} {rest : List Arrival}
      → k < count
      → Arrives count (suc k) rest to
      → Arrives count k (block_comes k ∷ rest) to
  again :
      {k to i : ℕ} {rest : List Arrival}
      → i < k
      → k ≤ i + 64
      → Arrives count k rest to
      → Arrives count k (block_comes i ∷ rest) to
  pulls :
      {k to : ℕ} {rest : List Arrival} (id : ℕ)
      → Arrives count k rest to
      → Arrives count k (consumer_pulls id ∷ rest) to
  goes_on :
      {k to : ℕ} {rest : List Arrival} (handler : ℕ)
      → Arrives count k rest to
      → Arrives count k (handler_goes_on handler ∷ rest) to
  reads :
      {k to : ℕ} {rest : List Arrival} (id n : ℕ)
      → Arrives count k rest to
      → Arrives count k (consumer_reads id n ∷ rest) to

get_or-number :
    (from i : ℕ) (blocks : List Bytes)
    → i < length blocks
    → get_or (number from blocks) i (0, []) ≡ ((from + i) % 65536, get_or blocks i [])
get_or-number from i [] lt = absurd (omega (arith, lt))
get_or-number from zero (b ∷ blocks) lt = ap (λ (k : ℕ). (k % 65536, b)) (omega arith)
get_or-number from (suc i) (b ∷ blocks) lt =
    get_or-number (suc from) i blocks (omega (arith, lt))
    ∙ ap (λ (k : ℕ). (k % 65536, get_or blocks i [])) (omega arith)

get_or-number_zero :
    (i : ℕ) (blocks : List Bytes)
    → i < length blocks
    → get_or (number 0 blocks) i (0, []) ≡ (i % 65536, get_or blocks i [])
get_or-number_zero i blocks lt =
    get_or-number 0 i blocks lt ∙ ap (λ (k : ℕ). (k % 65536, get_or blocks i [])) (omega arith)

not_zero : (n : ℕ) → 0 < n → (n == 0) ≡ false
not_zero n pos = ground (arith, pos)

All-get_or :
    (P : Bytes → Type 0) (blocks : List Bytes) (i : ℕ)
    → i < length blocks
    → All P blocks
    → P (get_or blocks i [])
All-get_or P [] i lt all = absurd (omega (arith, lt))
All-get_or P (b ∷ blocks) zero lt all = all.0
All-get_or P (b ∷ blocks) (suc i) lt all = All-get_or P blocks i (omega (arith, lt)) all.1

-- `integer` is `Number` of an attribute, `print` is `String` of a number.
module _ (integer : Option Text → Option Integer) (print : ℕ → Text) (sender sid : Text) where
  abbrev pub data_event : ℕ × Bytes → Event
  data_event entry =
      data_arrived (some sender) (some sid) (some (print entry.0)) (encode_base64 entry.1)

  abbrev pub arrive : List (ℕ × Bytes) → Manager → Arrival → Manager
  arrive wire m (block_comes i) = handle integer m (data_event (get_or wire i (0, [])))
  arrive wire m (consumer_pulls id) = handle integer m (pulled id)
  arrive wire m (handler_goes_on handler) = handle integer m (resumed handler)
  arrive wire m (consumer_reads id n) = handle integer m (has_read id n)

  abbrev pub arrive_all : List (ℕ × Bytes) → Manager → List Arrival → Manager
  arrive_all wire m [] = m
  arrive_all wire m (a ∷ arrivals) = arrive_all wire (arrive wire m a) arrivals

  module _ (parses : (k : ℕ) → integer (some (print k)) ≡ some (nonneg k))
      (sender_given : 0 < length sender) (sid_given : 0 < length sid) (id : ℕ) (blocks : List Bytes)
      (bytes : All (All IsByte) blocks) (no_empty : All (λ (b : Bytes). 0 < length b) blocks) where
    abbrev At : ℕ → Manager → Type 0
    At k m = Receives (key_of sender sid) id k blocks m

    data_for-follow :
        (i k : ℕ) (payload : Text) (m : Manager) (verdict : Verdict)
        → At k m
        → judge (some (nonneg (i % 65536))) payload (k % 65536) ≡ verdict
        → data_for (key_of sender sid) (some (nonneg (i % 65536))) payload m
          ≡ follow verdict (key_of sender sid) id m
    unfolding data_for
    data_for-follow i k payload m verdict v judged =
        rw (v.registered, data_for, v.got.0, v.got.1, judged) refl

    on_data-follow :
        (i k : ℕ) (payload : Text) (m : Manager) (verdict : Verdict)
        → At k m
        → judge (some (nonneg (i % 65536))) payload (k % 65536) ≡ verdict
        → on_data integer (some sender) (some sid) (some (print (i % 65536))) payload m
          ≡ follow verdict (key_of sender sid) id m
    unfolding on_data
    on_data-follow i k payload m verdict v judged =
        rw
          (
            not_zero (length sender) sender_given,
            not_zero (length sid) sid_given,
            parses (i % 65536),
          )
          (data_for-follow i k payload m verdict v judged)

    on_data_block :
        (i k : ℕ) (m : Manager) (verdict : Verdict)
        → At k m
        → judge (some (nonneg (i % 65536))) (encode_base64 (get_or blocks i [])) (k % 65536)
          ≡ verdict
        → handle integer m (data_event (i % 65536, get_or blocks i []))
          ≡ (follow verdict (key_of sender sid) id m).1
    unfolding handle
    on_data_block i k m verdict v judged =
        ap (λ (r : Reply × Manager). r.1) (on_data-follow i k _ m verdict v judged)

    judge-next :
        (k : ℕ)
        → k < length blocks
        → judge (some (nonneg (k % 65536))) (encode_base64 (get_or blocks k [])) (k % 65536)
          ≡ taken (get_or blocks k [])
    unfolding judge
    judge-next k lt =
        rw
          (
            is_redelivery-next k,
            ==_self (k % 65536),
            decode,
            decode-encode (get_or blocks k []) (All-get_or (All IsByte) blocks k lt bytes),
          )
          refl

    judge-again :
        (i k : ℕ) (payload : Text)
        → i < k
        → k ≤ i + 64
        → judge (some (nonneg (i % 65536))) payload (k % 65536) ≡ redelivered
    unfolding judge
    judge-again i k payload lt le = rw (is_redelivery-again i k lt le) refl

    arrive-next :
        (k : ℕ) (m : Manager)
        → k < length blocks
        → At k m
        → At (suc k) (arrive (number 0 blocks) m (block_comes k))
    arrive-next k m lt v =
        rw (get_or-number_zero k blocks lt, on_data_block k k m _ v (judge-next k lt))
          (taken-Receives (key_of sender sid) id k blocks m v lt no_empty)

    arrive-again :
        (i k : ℕ) (m : Manager)
        → i < k
        → k ≤ i + 64
        → k ≤ length blocks
        → At k m
        → At k (arrive (number 0 blocks) m (block_comes i))
    unfolding follow
    arrive-again i k m lt le in_range v =
        rw
          (
            get_or-number_zero i blocks (omega (arith, lt, in_range)),
            on_data_block i k m _ v (judge-again i k _ lt le),
          )
          v

    local-At :
        (other k : ℕ) (state : InStream) (m : Manager)
        → At k m
        → (Got k blocks (m.heap other) → Got k blocks state)
        → Got k blocks (if other == id then state else m.heap id)
    local-At other k state m v new =
        same-Got other id k blocks state m (λ e got. new (at_same (Got k blocks) other id m e got))
          v.got

    pub arrive_all-At :
        (k to : ℕ) (arrivals : List Arrival) (m : Manager)
        → Arrives (length blocks) k arrivals to
        → k ≤ length blocks
        → At k m
        → At to (arrive_all (number 0 blocks) m arrivals)
    unfolding handle pull read resume
    arrive_all-At k to arrivals m all_there le v = v
    arrive_all-At k to arrivals m (next lt rest) le v =
        arrive_all-At (suc k) to _ _ rest (omega (arith, lt)) (arrive-next k m lt v)
    arrive_all-At k to arrivals m (again {i = i} lt near rest) le v =
        arrive_all-At k to _ _ rest le (arrive-again i k m lt near le v)
    arrive_all-At k to arrivals m (pulls other rest) le v =
        arrive_all-At k to _ _ rest le
          (record { registered = v.registered; got = local-At other k _ m v (λ got. got) })
    arrive_all-At k to arrivals m (goes_on handler rest) le v = arrive_all-At k to _ _ rest le (
        settle-Receives handler _ (key_of sender sid) _ id k blocks _
          (record { registered = v.registered; got = v.got }))
    arrive_all-At k to arrivals m (reads other n rest) le v =
        arrive_all-At k to _ _ rest le
          (record { registered = v.registered; got = local-At other k _ m v (λ got. got) })
