-- ===== src/Chunked/Reassembler/Invariant.antt =====
-- What holds of a reassembler between two calls.
use xmpp_httpx.Prelude.{
  ℕ, zero, suc, ◌+◌, ◌≤◌, ◌<◌, ◌≡◌, ◌≢◌, refl, ap, ◌∙◌, [], some, Option-cases, Bool, true, false,
  Bool-cases, inl, inr, ltb, ltb_false→le, if◌then◌else◌, arith, length,
}
use xmpp_httpx.Errors.{ErrorCode, stream_error, payload_too_large}
use xmpp_httpx.JsMap.{
  nat_key, get?, has, weigh, DistinctKeys, has-put, has-delete, weigh-put, weigh-delete,
  DistinctKeys-put, DistinctKeys-delete, not-has_of_get?, length-delete,
}
use xmpp_httpx.Base64.{Text, Decoded, ok, bad_length, bad_character, decode_base64}
use xmpp_httpx.Bytes.Buffer.{Bytes}
use xmpp_httpx.Chunked.Reassembler.{
  Entry, open_stream, closed, Reassembler, new, finish, abort, take_entry, drain_loop, drain,
  refused, store, accept, accept_decoded, push, push_alive, reset_idle_timer,
}

abbrev pub entry_size : Entry → ℕ
entry_size e = length e.bytes

-- An unfinished reassembler, also in the middle of a call: the bytes of the pending chunks are
-- counted, each chunk is pending once and has not been taken, and the stream is open.
pub record IsOpen (r : Reassembler) : Type 0 where
  pub accounted : r.pending_bytes ≡ weigh entry_size r.pending
  pub distinct : DistinctKeys r.pending
  pub ahead : (k : ℕ) → has k r.pending ≡ true → r.next_nr ≤ k
  pub unfinished : r.finished ≡ false
  pub armed : r.timer_armed ≡ true
  pub calls : r.finish_calls ≡ 0
  pub end_open : r.end ≡ open_stream

-- Between two calls the chunk that is next is not pending, and the buffer is within its limit.
pub record IsWaiting (r : Reassembler) : Type 0 where
  pub is_open : IsOpen r
  pub gap : has r.next_nr r.pending ≡ false
  pub bounded : r.pending_bytes ≤ r.max_buffered_bytes

-- A finished reassembler holds nothing, has no timer, and has called `onFinished` once.
pub record IsDone (r : Reassembler) : Type 0 where
  pub finished : r.finished ≡ true
  pub emptied : r.pending ≡ []
  pub no_bytes : r.pending_bytes ≡ 0
  pub disarmed : r.timer_armed ≡ false
  pub called : r.finish_calls ≡ 1
  pub ended : r.end ≢ open_stream

pub data IsValid (r : Reassembler) : Type 0 where
  waiting : IsWaiting r → IsValid r
  done : IsDone r → IsValid r

pub new-IsWaiting : (limit : ℕ) → IsWaiting (new limit)
new-IsWaiting limit = record {
  is_open = record {
    accounted = refl;
    distinct = tt;
    ahead = λ k h. absurd (ground arith);
    unfinished = refl;
    armed = refl;
    calls = refl;
    end_open = refl;
  };
  gap = refl;
  bounded = omega arith;
}

pub finish-IsDone :
    (r : Reassembler)
    → r.finished ≡ false
    → r.finish_calls ≡ 0
    → r.end ≢ open_stream
    → IsDone (finish r)
unfolding finish
finish-IsDone r u c e = rw u (record {
  finished = refl;
  emptied = refl;
  no_bytes = refl;
  disarmed = refl;
  called = omega arith;
  ended = e;
})

pub end-finish : (r : Reassembler) → (finish r).end ≡ r.end
unfolding finish
end-finish r = ground arith

pub out-finish : (r : Reassembler) → (finish r).out ≡ r.out
unfolding finish
out-finish r = ground arith

pub abort-IsDone : (code : ErrorCode) (r : Reassembler) → IsOpen r → IsDone (abort code r)
unfolding abort finish
abort-IsDone code r v = ground (arith, v.unfinished, v.calls)

-- Taking the next entry out leaves the others.
pub take_entry-IsOpen :
    (entry : Entry) (r : Reassembler)
    → IsOpen r
    → get? r.next_nr r.pending ≡ some entry
    → IsOpen (take_entry entry r)
unfolding take_entry
take_entry-IsOpen entry r v found = record {
  accounted = omega (
    arith,
    v.accounted,
    weigh-delete entry_size r.next_nr {v = entry} r.pending v.distinct found,
  );
  distinct = DistinctKeys-delete r.next_nr r.pending v.distinct;
  ahead = λ k h. ground (arith, has-delete r.next_nr k r.pending, v.ahead k);
  unfinished = v.unfinished;
  armed = v.armed;
  calls = v.calls;
  end_open = v.end_open;
}

pub drain_loop-IsValid :
    (fuel : ℕ) (r : Reassembler)
    → IsOpen r
    → r.pending_bytes ≤ r.max_buffered_bytes
    → length r.pending < fuel
    → IsValid (drain_loop fuel r)
unfolding drain_loop take_entry
drain_loop-IsValid zero r v b h = absurd (omega arith)
drain_loop-IsValid (suc fuel) r v b h = elim (Option-cases (get? r.next_nr r.pending)) [
  | inl missing ↦
      rw (missing, drain_loop)
        (waiting
          (record { is_open = v; gap = not-has_of_get? r.next_nr r.pending missing; bounded = b }))
  | inr (entry, found) ↦
      let o = take_entry-IsOpen entry r v found in
      rw (found, drain_loop)
        (elim (Bool-cases entry.last) [
          | inl last ↦ rw last (
              done (
                finish-IsDone (record (take_entry entry r) { end = closed }) o.unfinished o.calls
                  (λ h'. cc)))
          | inr more ↦
              rw more (
                drain_loop-IsValid fuel (take_entry entry r) o (shrinks entry)
                  (shorter entry found))
        ])
]
  where
    shrinks : (entry : Entry) → (take_entry entry r).pending_bytes ≤ r.max_buffered_bytes
    shrinks entry = omega arith

    shorter :
        (entry : Entry)
        → get? r.next_nr r.pending ≡ some entry
        → length (take_entry entry r).pending < fuel
    shorter entry found = omega (arith, length-delete r.next_nr {v = entry} r.pending found)

drain-IsValid :
    (r : Reassembler) → IsOpen r → r.pending_bytes ≤ r.max_buffered_bytes → IsValid (drain r)
unfolding drain
drain-IsValid r v b = drain_loop-IsValid (suc (length r.pending)) r v b (omega arith)

pub store-IsOpen :
    (nr : ℕ) (last : Bool) (bytes : Bytes) (r : Reassembler)
    → IsOpen r
    → r.next_nr ≤ nr
    → has nr r.pending ≡ false
    → IsOpen (store nr last bytes r)
unfolding store
store-IsOpen nr last bytes r v h absent = record {
  accounted = omega (
    arith,
    v.accounted,
    weigh-put entry_size nr (record { bytes = bytes; last = last }) r.pending absent,
  );
  distinct =
      DistinctKeys-put nr (record { bytes = bytes; last = last }) r.pending absent v.distinct;
  ahead = λ k h'.
      ground (arith, has-put nr k (record { bytes = bytes; last = last }) r.pending, v.ahead k);
  unfinished = v.unfinished;
  armed = v.armed;
  calls = v.calls;
  end_open = v.end_open;
}

accept-IsValid :
    (nr : ℕ) (last : Bool) (bytes : Bytes) (r : Reassembler)
    → IsOpen r
    → r.next_nr ≤ nr
    → has nr r.pending ≡ false
    → IsValid (accept nr last bytes r)
unfolding accept store
accept-IsValid nr last bytes r v h absent =
    let o = store-IsOpen nr last bytes r v h absent in
    elim (Bool-cases (ltb r.max_buffered_bytes (r.pending_bytes + length bytes))) [
      | inl over ↦ rw over (done (abort-IsDone payload_too_large (store nr last bytes r) o))
      | inr fits ↦ rw fits (drain-IsValid (store nr last bytes r) o (ltb_false→le _ _ fits))
    ]

accept_decoded-IsValid :
    (nr : ℕ) (last : Bool) (d : Decoded) (r : Reassembler)
    → IsOpen r
    → r.next_nr ≤ nr
    → has nr r.pending ≡ false
    → IsValid (accept_decoded nr last d r)
unfolding accept_decoded
accept_decoded-IsValid nr last (ok bytes) r v h absent = accept-IsValid nr last bytes r v h absent
accept_decoded-IsValid nr last bad_length r v h absent = done (abort-IsDone stream_error r v)
accept_decoded-IsValid nr last (bad_character i) r v h absent = done (abort-IsDone stream_error r v)

refused-false :
    (nr : ℕ) (r : Reassembler)
    → refused nr r ≡ false
    → (r.next_nr ≤ nr) × (has nr r.pending ≡ false)
refused-false nr r h = ground arith

pub push_alive-IsValid :
    (nr : ℕ) (last : Bool) (payload : Text) (r : Reassembler)
    → IsWaiting r
    → IsValid (push_alive nr last payload r)
unfolding push_alive
push_alive-IsValid nr last payload r w = elim (Bool-cases (refused nr r)) [
  | inl bad ↦ rw bad (done (abort-IsDone stream_error r w.is_open))
  | inr good ↦
      let (ahead, absent) = refused-false nr r good in
      rw good (accept_decoded-IsValid nr last (decode_base64 payload) r w.is_open ahead absent)
]

reset_idle_timer-IsOpen : (r : Reassembler) → IsOpen r → reset_idle_timer r ≡ r
unfolding reset_idle_timer
reset_idle_timer-IsOpen r v = ground (arith, v.unfinished, v.armed)

-- On an unfinished reassembler the early return is not taken, and the timer is armed already.
pub push-IsOpen :
    (nr : ℕ) (last : Bool) (payload : Text) (r : Reassembler)
    → IsOpen r
    → push nr last payload r ≡ push_alive nr last payload r
unfolding push
push-IsOpen nr last payload r v =
    ap (λ b. if b then r else push_alive nr last payload (reset_idle_timer r)) v.unfinished
    ∙ ap (push_alive nr last payload) (reset_idle_timer-IsOpen r v)

-- A finished reassembler ignores what arrives.
pub push-IsDone :
    (nr : ℕ) (last : Bool) (payload : Text) (r : Reassembler)
    → IsDone r
    → push nr last payload r ≡ r
unfolding push
push-IsDone nr last payload r d =
    ap (λ b. if b then r else push_alive nr last payload (reset_idle_timer r)) d.finished
