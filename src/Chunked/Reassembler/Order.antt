-- ===== src/Chunked/Reassembler/Order.antt =====
-- Chunks that arrive in any order are put together in the order of their numbers.
use xmpp_httpx.Prelude.{
  ℕ, zero, suc, ◌+◌, ◌≤◌, ◌<◌, ◌≡◌, ◌≢◌, ◌⊎◌, refl, sym, ap, ap₂, ◌∙◌, List, [], ◌∷◌, ◌++◌, none,
  some, Option-cases, Bool, true, false, Bool-cases, ◌||◌, inl, inr, ltb, ◌==◌, ==_iff,
  le→ltb_false, if◌then◌else◌, arith, length, concat, concat-snoc, append-nil, length-append,
  suc-==-zero, All,
}
use xmpp_httpx.Errors.{stream_error, payload_too_large}
use xmpp_httpx.JsMap.{
  nat_key, get?, has, has-put, has-delete, get?-put, get?-delete, has_of_get?, not-has_of_get?,
  length-delete, weigh-delete,
}
use xmpp_httpx.Base64.{Decoded, ok, decode_base64}
use xmpp_httpx.Bytes.Buffer.{Bytes}
use xmpp_httpx.Chunked.Sender.{Chunk}
use xmpp_httpx.Chunked.Reassembler.{
  Entry, closed, Reassembler, finish, abort, enqueue, take_entry, drain_loop, drain, refused, store,
  accept, accept_decoded, push, push_alive,
}
use xmpp_httpx.Chunked.Reassembler.Invariant.{
  entry_size, IsOpen, IsWaiting, IsDone, take_entry-IsOpen, store-IsOpen, finish-IsDone, end-finish,
  out-finish, push-IsOpen, push-IsDone,
}

-- The chunk has arrived: it was taken, or it is pending.
abbrev pub seen : Reassembler → ℕ → Bool
seen r i = ltb i r.next_nr || has i r.pending

abbrev pub deliver : Reassembler → List Chunk → Reassembler
deliver r [] = r
deliver r (p ∷ ps) = deliver (push p.nr p.last p.payload r) ps

deliver-IsDone : (r : Reassembler) (ps : List Chunk) → IsDone r → deliver r ps ≡ r
deliver-IsDone r [] d = refl
deliver-IsDone r (p ∷ ps) d =
    ap (λ (t : Reassembler). deliver t ps) (push-IsDone p.nr p.last p.payload r d)
    ∙ deliver-IsDone r ps d

-- The chunk with this number is among them.
abbrev pub Comes : ℕ → List Chunk → Type 0
Comes j [] = ⊥
Comes j (p ∷ ps) = (p.nr ≡ j) ⊎ Comes j ps

-- No number comes twice.
abbrev pub DistinctNrs : List Chunk → Type 0
DistinctNrs [] = Unit
DistinctNrs (p ∷ ps) = All (λ (q : Chunk). q.nr ≢ p.nr) ps × DistinctNrs ps

module _ (c : ℕ → Bytes) (n_last : ℕ) where
  -- The bytes of the first `k` chunks.
  abbrev pub assembled : ℕ → Bytes
  assembled zero = []
  assembled (suc k) = assembled k ++ c k

  -- The state inside a call: what was taken is the body up to the next chunk, and what is pending
  -- is as it was sent. `fed` is the number of bytes that have arrived.
  pub record IsMid (fed : ℕ) (r : Reassembler) : Type 0 where
    pub is_open : IsOpen r
    pub in_order : concat r.out ≡ assembled r.next_nr
    pub genuine :
        (i : ℕ) (e : Entry) → get? i r.pending ≡ some e → (e.bytes ≡ c i) × (e.last ≡ (i == n_last))
    pub below : r.next_nr ≤ n_last
    pub last_known : (r.last_nr ≡ none) ⊎ (r.last_nr ≡ some n_last)
    pub counted : r.pending_bytes + length (concat r.out) ≡ fed

  -- The stream was closed, and nothing but the body was enqueued.
  pub record IsComplete (r : Reassembler) : Type 0 where
    pub is_done : IsDone r
    pub is_closed : r.end ≡ closed
    pub body : concat r.out ≡ assembled (suc n_last)

  -- What a call makes of a state in which the chunks of `arrived` have been seen.
  pub data Settles (fed limit : ℕ) (arrived : ℕ → Bool) (r : Reassembler) : Type 0 where
    goes_on :
        IsMid fed r
        → IsWaiting r
        → r.max_buffered_bytes ≡ limit
        → ((j : ℕ) → seen r j ≡ arrived j)
        → Settles fed limit arrived r
    completes : IsComplete r → Settles fed limit arrived r

  assembled_next : (k : ℕ) → assembled (k + 1) ≡ assembled k ++ c k
  assembled_next k = ap assembled {x = k + 1} {y = suc k} (omega arith)

  concat-enqueue :
      (bytes : Bytes) (out : List Bytes) → concat (enqueue bytes out) ≡ concat out ++ bytes
  concat-enqueue [] out = sym (append-nil (concat out))
  concat-enqueue (b ∷ bytes) out = rw (suc-==-zero (length bytes)) (concat-snoc out (b ∷ bytes))

  module _ (fed : ℕ) (r : Reassembler) (m : IsMid fed r) (entry : Entry)
      (found : get? r.next_nr r.pending ≡ some entry) where
    taken_bytes : concat (take_entry entry r).out ≡ assembled (r.next_nr + 1)
    unfolding take_entry
    taken_bytes =
        concat-enqueue entry.bytes r.out
        ∙ ap₂ ◌++◌ m.in_order (m.genuine r.next_nr entry found).0
        ∙ sym (assembled_next r.next_nr)

    taken-IsMid : r.next_nr ≢ n_last → IsMid fed (take_entry entry r)
    unfolding take_entry
    taken-IsMid ne = record {
      is_open = take_entry-IsOpen entry r m.is_open found;
      in_order = taken_bytes;
      genuine = λ i e h. m.genuine i e (ground (arith, h, get?-delete r.next_nr i r.pending));
      below = omega (arith, ne, m.below);
      last_known = m.last_known;
      counted = omega (
        arith,
        m.counted,
        m.is_open.accounted,
        weigh-delete entry_size r.next_nr {v = entry} r.pending m.is_open.distinct found,
        ap length (concat-enqueue entry.bytes r.out),
        length-append (concat r.out) entry.bytes,
      );
    }

    taken-seen : (j : ℕ) → seen (take_entry entry r) j ≡ seen r j
    unfolding take_entry
    taken-seen j =
        ground (
          arith,
          has-delete r.next_nr j r.pending,
          has_of_get? r.next_nr r.pending {v = entry} found,
        )

  drain_loop-Settles :
      (fuel fed limit : ℕ) (arrived : ℕ → Bool) (r : Reassembler)
      → IsMid fed r
      → r.max_buffered_bytes ≡ limit
      → r.pending_bytes ≤ limit
      → ((j : ℕ) → seen r j ≡ arrived j)
      → length r.pending < fuel
      → Settles fed limit arrived (drain_loop fuel r)
  unfolding drain_loop take_entry
  drain_loop-Settles zero fed limit arrived r m e b s h = absurd (omega arith)
  drain_loop-Settles (suc fuel) fed limit arrived r m e b s h =
      elim (Option-cases (get? r.next_nr r.pending)) [
        | inl missing ↦
            rw (missing, drain_loop)
              (goes_on m
                (record {
                  is_open = m.is_open;
                  gap = not-has_of_get? r.next_nr r.pending missing;
                  bounded = omega (arith, e);
                })
                e s)
        | inr (entry, found) ↦
            rw (found, drain_loop)
              (elim (Bool-cases entry.last) [
                | inl last ↦ rw last (completes (finished entry found (is_last entry found last)))
                | inr more ↦ rw more (
                    drain_loop-Settles fuel fed limit arrived (take_entry entry r)
                      (taken-IsMid fed r m entry found (not_last entry found more))
                      (same_limit entry) (shrinks entry)
                      (λ j. taken-seen fed r m entry found j ∙ s j) (shorter entry found))
              ])
      ]
    where
      finished :
          (entry : Entry)
          → get? r.next_nr r.pending ≡ some entry
          → r.next_nr ≡ n_last
          → IsComplete (finish (record (take_entry entry r) { end = closed }))
      finished entry found at =
          let last = record (take_entry entry r) { end = closed } in
          record {
            is_done = finish-IsDone last m.is_open.unfinished m.is_open.calls (λ h'. cc);
            is_closed = end-finish last;
            body =
                ap concat (out-finish last)
                ∙ taken_bytes fed r m entry found
                ∙ ap assembled {x = r.next_nr + 1} {y = suc n_last} (omega (arith, at));
          }

      is_last :
          (entry : Entry)
          → get? r.next_nr r.pending ≡ some entry
          → entry.last ≡ true
          → r.next_nr ≡ n_last
      is_last entry found last =
          (==_iff r.next_nr n_last).0 (sym (m.genuine r.next_nr entry found).1 ∙ last)

      not_last :
          (entry : Entry)
          → get? r.next_nr r.pending ≡ some entry
          → entry.last ≡ false
          → r.next_nr ≢ n_last
      not_last entry found more = λ at. ground (arith, m.genuine r.next_nr entry found, more, at)

      same_limit : (entry : Entry) → (take_entry entry r).max_buffered_bytes ≡ limit
      same_limit entry = e

      shrinks : (entry : Entry) → (take_entry entry r).pending_bytes ≤ limit
      shrinks entry = omega arith

      shorter :
          (entry : Entry)
          → get? r.next_nr r.pending ≡ some entry
          → length (take_entry entry r).pending < fuel
      shorter entry found = omega (arith, length-delete r.next_nr {v = entry} r.pending found)

  store-IsMid :
      (fed i : ℕ) (r : Reassembler)
      → IsMid fed r
      → seen r i ≡ false
      → IsMid (fed + length (c i)) (store i (i == n_last) (c i) r)
  unfolding store
  store-IsMid fed i r m new_chunk = record {
    is_open = store-IsOpen i (i == n_last) (c i) r m.is_open (ground arith) (ground arith);
    in_order = m.in_order;
    genuine = λ j e h. ground (
      arith,
      h,
      get?-put i j (record { bytes = c i; last = i == n_last }) r.pending,
      m.genuine j e,
    );
    below = m.below;
    last_known = elim (Bool-cases (i == n_last)) [
      | inl same ↦ rw same (inr (ap some ((==_iff i n_last).0 same)))
      | inr other ↦ rw other m.last_known
    ];
    counted = omega (arith, m.counted);
  }

  store-seen :
      (i : ℕ) (r : Reassembler) (j : ℕ)
      → seen (store i (i == n_last) (c i) r) j ≡ (seen r j || i == j)
  unfolding store
  store-seen i r j =
      ground (arith, has-put i j (record { bytes = c i; last = i == n_last }) r.pending)

  -- A chunk as it was sent: one of the `n_last + 1`, with its bytes, and marked if it is the last.
  pub record IsPiece (p : Chunk) : Type 0 where
    pub in_range : p.nr ≤ n_last
    pub marked : p.last ≡ (p.nr == n_last)
    pub decodes : decode_base64 p.payload ≡ ok (c p.nr)

  not_refused :
      (fed i : ℕ) (r : Reassembler)
      → IsMid fed r
      → seen r i ≡ false
      → i ≤ n_last
      → refused i r ≡ false
  not_refused fed i r m new_chunk h = elim m.last_known [
    | inl unknown ↦ rw unknown (ground arith)
    | inr known ↦ rw known (ground arith)
  ]

  push-eq :
      (fed limit : ℕ) (r : Reassembler) (p : Chunk)
      → IsMid fed r
      → r.max_buffered_bytes ≡ limit
      → IsPiece p
      → seen r p.nr ≡ false
      → fed + length (c p.nr) ≤ limit
      → push p.nr p.last p.payload r ≡ drain (store p.nr (p.nr == n_last) (c p.nr) r)
  unfolding push_alive accept_decoded accept store
  push-eq fed limit r p m e piece new_chunk fits =
      push-IsOpen p.nr p.last p.payload r m.is_open
      ∙ ap
          (λ b.
            if b
            then abort stream_error r
            else accept_decoded p.nr p.last (decode_base64 p.payload) r)
          (not_refused fed p.nr r m new_chunk piece.in_range)
      ∙ ap₂ (λ (d : Decoded) (l : Bool). accept_decoded p.nr l d r) piece.decodes piece.marked
      ∙ ap (λ b. if b then abort payload_too_large stored else drain stored)
          (le→ltb_false r.max_buffered_bytes (r.pending_bytes + length (c p.nr))
            (omega (arith, m.counted, e)))
    where
      stored : Reassembler
      stored = store p.nr (p.nr == n_last) (c p.nr) r

  -- One chunk that is new and fits into the buffer.
  push-Settles :
      (fed limit : ℕ) (r : Reassembler) (p : Chunk)
      → IsMid fed r
      → r.max_buffered_bytes ≡ limit
      → IsPiece p
      → seen r p.nr ≡ false
      → fed + length (c p.nr) ≤ limit
      → Settles
          (fed + length (c p.nr))
          limit
          (λ j. seen r j || p.nr == j)
          (push p.nr p.last p.payload r)
  unfolding drain store
  push-Settles fed limit r p m e piece new_chunk fits =
      let stored = store p.nr (p.nr == n_last) (c p.nr) r in
      rw (push-eq fed limit r p m e piece new_chunk fits) (
        drain_loop-Settles (suc (length stored.pending)) (fed + length (c p.nr)) limit
          (λ j. seen r j || p.nr == j) stored (store-IsMid fed p.nr r m new_chunk) e
          (omega (arith, m.counted)) (store-seen p.nr r) (omega arith))

  abbrev pub total_bytes : List Chunk → ℕ
  total_bytes [] = 0
  total_bytes (p ∷ ps) = length (c p.nr) + total_bytes ps

  still_new :
      (r r' : Reassembler) (p : Chunk) (ps : List Chunk)
      → ((j : ℕ) → seen r' j ≡ (seen r j || p.nr == j))
      → All (λ (q : Chunk). seen r q.nr ≡ false) ps
      → All (λ (q : Chunk). q.nr ≢ p.nr) ps
      → All (λ (q : Chunk). seen r' q.nr ≡ false) ps
  still_new r r' p [] s new_chunks distinct = tt
  still_new r r' p (q ∷ ps) s (new_chunk, new_chunks) (ne, distinct) =
      (ground (arith, s q.nr, new_chunk, ne), still_new r r' p ps s new_chunks distinct)

  pub deliver-IsComplete :
      (ps : List Chunk) (fed limit : ℕ) (r : Reassembler)
      → IsMid fed r
      → IsWaiting r
      → r.max_buffered_bytes ≡ limit
      → All IsPiece ps
      → All (λ (q : Chunk). seen r q.nr ≡ false) ps
      → DistinctNrs ps
      → fed + total_bytes ps ≤ limit
      → ((j : ℕ) → j ≤ n_last → (seen r j ≡ true) ⊎ Comes j ps)
      → IsComplete (deliver r ps)
  deliver-IsComplete [] fed limit r m w e pieces new_chunks distinct fits all =
      elim (all r.next_nr m.below) [
        | inl old ↦ absurd (ground (arith, old, w.gap))
        | inr never ↦ absurd never
      ]
  deliver-IsComplete (p ∷ ps) fed limit r m w e (piece, pieces) (new_chunk, new_chunks)
        (ne, distinct) fits all =
      go (push p.nr p.last p.payload r)
        (push-Settles fed limit r p m e piece new_chunk (omega arith))
        (λ r' m' w' e' s'.
          deliver-IsComplete ps (fed + length (c p.nr)) limit r' m' w' e' pieces
            (still_new r r' p ps s' new_chunks ne) distinct (omega arith)
            (λ j h. later r' s' j (all j h)))
    where
      later :
          (r' : Reassembler)
          → ((j : ℕ) → seen r' j ≡ (seen r j || p.nr == j))
          → (j : ℕ) → (seen r j ≡ true) ⊎ ((p.nr ≡ j) ⊎ Comes j ps)
          → (seen r' j ≡ true) ⊎ Comes j ps
      later r' s' j (inl old) = inl (ground (arith, s' j, old))
      later r' s' j (inr (inl now)) = inl (ground (arith, s' j, now))
      later r' s' j (inr (inr then_comes)) = inr then_comes

      go :
          (r' : Reassembler)
          → Settles (fed + length (c p.nr)) limit (λ j. seen r j || p.nr == j) r'
          → ((t : Reassembler)
              → IsMid (fed + length (c p.nr)) t
              → IsWaiting t
              → t.max_buffered_bytes ≡ limit
              → ((j : ℕ) → seen t j ≡ (seen r j || p.nr == j))
              → IsComplete (deliver t ps))
          → IsComplete (deliver r' ps)
      go r' (goes_on m' w' e' s') ih = ih r' m' w' e' s'
      go r' (completes done) ih = rw (deliver-IsDone r' ps done.is_done) done
