-- ===== src/Ibb/Sender/Pump.antt =====
-- The pump of a sending stream: its sums, its end, and that `take` never throws.
use xmpp_httpx.Prelude.{
  ℕ, ◌+◌, min, ◌≤◌, ◌<◌, ◌≡◌, refl, ap, List, some, true, false, Bool-cases, inl, inr, ltb, ltb→lt,
  arith, length, length-drop,
}
use xmpp_httpx.JsMap.{nat_key, get?, has, put, get?-put, has-put, DistinctKeys-put}
use xmpp_httpx.JsMap.Entries.{length-put_absent}
use xmpp_httpx.Bytes.Buffer.{
  Bytes, BlockBuffer, size, Taken, block, range_error, undefined_part, take_block,
}
use xmpp_httpx.Bytes.Buffer.Contents.{contents, Takes, take_block-Takes}
use xmpp_httpx.Ibb.Scheduler.{Sender, Session, has_block}
use xmpp_httpx.Ibb.Scheduler.Ledger.{
  IsLedger, Ledger, Acquired, put-IsLedger, acquire_send_slot-Acquired,
}
use xmpp_httpx.Ibb.Scheduler.Busy.{IsBusy, acquire_send_slot-IsBusy}
use xmpp_httpx.Ibb.Sender.{
  Turn, done, parked, out_of_fuel, take_failed, threw, sent, dispatch, took, send_block, after_send,
  reserve, Round, ends, goes_on,
}
use xmpp_httpx.Ibb.Sender.Calls.{buffered_of}
use xmpp_httpx.Ibb.Sender.Blocks.{IsStream, sent-IsStream, block_length}

abbrev pub AnyStream : ℕ → Sender → Type 0
AnyStream id t = IsStream t

-- The stream `id` has a block to send, of `held` bytes, and room in its window.
abbrev pub Ready : ℕ → ℕ → ℕ → Sender → Type 0
Ready id held j t =
    IsStream t
    × (j ≡ id → (has_block t ≡ true) × (t.in_flight < t.window) × (size t.buffered ≡ held))

-- A turn that ends as the code intends.
abbrev pub IsRegular : Turn → Type 0
IsRegular done = Unit
IsRegular parked = Unit
IsRegular (threw error) = Unit
IsRegular out_of_fuel = ⊥
IsRegular take_failed = ⊥

abbrev pub Balanced : Session → Type 0
Balanced s = Ledger AnyStream 0 s × IsBusy s

abbrev pub Rounded : ℕ → ℕ → Round → Type 0
Rounded id held (ends turn s) = Balanced s × IsRegular turn
Rounded id held (goes_on s) = Balanced s × (buffered_of (get? id s.streams) < held)

buffered_of-put :
    (id : ℕ) (t : Sender) (streams : List (ℕ × Sender))
    → buffered_of (get? id (put id t streams)) ≡ size t.buffered
buffered_of-put id t streams = rw get?-put (ground arith)

dispatch-Ledger :
    (now id held n : ℕ) (bytes : Bytes) (rest : BlockBuffer) (t : Sender) (s : Session)
    → Ledger (Ready id held) 1 s
    → get? id s.streams ≡ some t
    → 0 < n
    → n ≤ t.block_size
    → Takes n (contents t.buffered) (block bytes rest)
    → Ledger AnyStream 0 (dispatch now id bytes rest t s)
unfolding dispatch
dispatch-Ledger now id held n bytes rest t s v e pos le takes = record {
  sums = omega (arith, put_it.sums, length-put_absent s.next_slot now s.counted fresh);
  bounded = v.bounded;
  distinct = DistinctKeys-put s.next_slot now s.counted fresh v.distinct;
  unused = λ k le. later k le;
  each = put_it.each;
}
  where
    fresh : has s.next_slot s.counted ≡ false
    fresh = v.unused s.next_slot (omega arith)

    put_it :
        IsLedger AnyStream 1 s.limit s.send_in_flight s.counted s.next_slot
          (put id (sent bytes rest t) s.streams)
    put_it =
        put-IsLedger AnyStream 1 1 s.limit s.send_in_flight s.next_slot s.counted s.streams id t _
          s.send_in_flight
          (record {
            sums = v.sums;
            bounded = v.bounded;
            distinct = v.distinct;
            unused = v.unused;
            each = λ j u h. (v.each j u h).0;
          })
          e (sent-IsStream n bytes rest t (v.each id t e).0 ((v.each id t e).1 refl).1 pos le takes)
          (omega arith) v.bounded

    later : (k : ℕ) → s.next_slot + 1 ≤ k → has k (put s.next_slot now s.counted) ≡ false
    later k le =
        rw (has-put s.next_slot k now s.counted, v.unused k (omega (arith, le)))
          (ground (arith, le))

-- A block is taken and sent by a stream that is ready, with a slot that is pending.
pub send_block-Rounded :
    (now id held : ℕ) (t : Sender) (s : Session)
    → Ledger (Ready id held) 1 s
    → IsBusy s
    → get? id s.streams ≡ some t
    → Rounded id held (after_send s (send_block now id t s))
unfolding send_block dispatch
send_block-Rounded now id held t s v busy e = case (take_block n t.buffered) (
    take_block-Takes n t.buffered stream.buffer (block_length t stream.positive ready.0)
      (omega arith))
  where
    n : ℕ
    n = min t.block_size (size t.buffered)

    stream : IsStream t
    stream = (v.each id t e).0

    ready : (has_block t ≡ true) × (t.in_flight < t.window) × (size t.buffered ≡ held)
    ready = (v.each id t e).1 refl

    busy_after : (bytes : Bytes) (rest : BlockBuffer) → IsBusy (dispatch now id bytes rest t s)
    busy_after bytes rest = busy

    shorter :
        (bytes : Bytes) (rest : BlockBuffer)
        → Takes n (contents t.buffered) (block bytes rest)
        → buffered_of (get? id (dispatch now id bytes rest t s).streams) < held
    shorter bytes rest (out, len, left, valid) = omega (
      arith,
      buffered_of-put id (sent bytes rest t) s.streams,
      valid.counted,
      ap length left,
      length-drop n (contents t.buffered),
      stream.buffer.counted,
      ready.2,
      block_length t stream.positive ready.0,
    )

    case :
        (taken : Taken)
        → Takes n (contents t.buffered) taken
        → Rounded id held (after_send s (took now id t s taken))
    case (block bytes rest) takes = (
      (
        dispatch-Ledger now id held n bytes rest t s v e (block_length t stream.positive ready.0)
            (omega arith) takes,
        busy_after bytes rest,
      ),
      shorter bytes rest takes,
    )
    case range_error impossible = absurd impossible
    case undefined_part impossible = absurd impossible

pub reserve-Acquired :
    (now id held : ℕ) (t : Sender) (s : Session)
    → Ledger (Ready id held) 0 s
    → IsBusy s
    → get? id s.streams ≡ some t
    → Acquired (Ready id held) (λ j g u p. p) 0 (reserve now id t s) × IsBusy (reserve now id t s).1
unfolding reserve
reserve-Acquired now id held t s v busy e = elim (Bool-cases (ltb 0 t.granted)) [
  | inl has_grant ↦ rw has_grant (
    put-IsLedger (Ready id held) 0 1 s.limit s.send_in_flight s.next_slot s.counted s.streams id t _
        s.send_in_flight v e (v.each id t e) (omega (arith, ltb→lt 0 t.granted has_grant))
        v.bounded,
    busy,
  )
  | inr no_grant ↦ rw no_grant (
    acquire_send_slot-Acquired (Ready id held) (λ j g u p. p) 0 now id s v,
    acquire_send_slot-IsBusy now id s,
  )
]

pub forget :
    {pending limit in_use next id held : ℕ} {counted : List (ℕ × ℕ)} {streams : List (ℕ × Sender)}
    → IsLedger (Ready id held) pending limit in_use counted next streams
    → IsLedger AnyStream pending limit in_use counted next streams
forget v = record {
  sums = v.sums;
  bounded = v.bounded;
  distinct = v.distinct;
  unused = v.unused;
  each = λ j u h. (v.each j u h).0;
}
