-- ===== src/Chunked/Sender/Abort.antt =====
-- What a `send` that throws has handed to the session.
use xmpp_httpx.Prelude.{
  ℕ, zero, suc, ◌≡◌, refl, subst, List, [], ◌∷◌, Bool, true, false, Bool-cases, inl, inr, ◌⊎◌, ◌++◌,
  ltb, All, All-append,
}
use xmpp_httpx.Bytes.Buffer.{
  Bytes, Taken, size, push, block, range_error, undefined_part, take_block,
}
use xmpp_httpx.Chunked.Sender.{
  Chunk, Sending, SendError, Outcome, going, thrown, out_of_fuel, ◌>>=◌, send_rejected, send_chunk,
  send_taken, send_block, push_loop, push_part, Body, whole, stream, broken_stream, send_parts,
  send_body, send_last, idle, send,
}

abbrev pub NoLast : Sending → Type 0
NoLast s = All (λ (c : Chunk). c.last ≡ false) s.sent

abbrev Keeps : Outcome → Type 0
Keeps (going s) = NoLast s
Keeps (thrown e s) = NoLast s
Keeps out_of_fuel = Unit

>>=-Keeps :
    (o : Outcome) (k : Sending → Outcome)
    → Keeps o
    → ((s : Sending) → NoLast s → Keeps (k s))
    → Keeps (o >>= k)
>>=-Keeps (going s) k h keep = keep s h
>>=-Keeps (thrown e s) k h keep = h
>>=-Keeps out_of_fuel k h keep = tt

module _ (accept : ℕ → Bool) (chunk_size : ℕ) where
  send_taken-Keeps : (t : Taken) (s : Sending) → NoLast s → Keeps (send_taken accept t s)
  unfolding send_chunk
  send_taken-Keeps (block out rest) s h = elim (Bool-cases (accept s.nr)) [
    | inl taken ↦ rw taken (All-append (λ (c : Chunk). c.last ≡ false) s.sent (_ ∷ []) h (refl, tt))
    | inr rejected ↦
        rw rejected (All-append (λ (c : Chunk). c.last ≡ false) s.sent (_ ∷ []) h (refl, tt))
  ]
  send_taken-Keeps range_error s h = h
  send_taken-Keeps undefined_part s h = h

  send_block-Keeps : (s : Sending) → NoLast s → Keeps (send_block accept chunk_size s)
  unfolding send_block
  send_block-Keeps s h = send_taken-Keeps (take_block chunk_size s.pending) s h

  push_loop-Keeps : (fuel : ℕ) (s : Sending) → NoLast s → Keeps (push_loop accept fuel chunk_size s)
  unfolding push_loop
  push_loop-Keeps zero s h = tt
  push_loop-Keeps (suc fuel) s h = elim (Bool-cases (ltb chunk_size (size s.pending))) [
    | inl more ↦
        rw more (
          >>=-Keeps (send_block accept chunk_size s) _ (send_block-Keeps s h)
            (push_loop-Keeps fuel))
    | inr done ↦ rw done h
  ]

  push_part-Keeps :
      (part : Bytes) (s : Sending) → NoLast s → Keeps (push_part accept chunk_size part s)
  unfolding push_part
  push_part-Keeps part s h =
      push_loop-Keeps (suc (size (push part s.pending)))
        (record s { pending = push part s.pending }) h

  send_parts-Keeps :
      (parts : List (Bool × Bytes)) (s : Sending)
      → NoLast s
      → Keeps (send_parts accept chunk_size parts s)
  unfolding send_parts
  send_parts-Keeps [] s h = h
  send_parts-Keeps ((true, part) ∷ parts) s h = h
  send_parts-Keeps ((false, part) ∷ parts) s h =
      >>=-Keeps (push_part accept chunk_size part s) _ (push_part-Keeps part s h)
        (send_parts-Keeps parts)

  send_body-Keeps : (body : Body) → Keeps (send_body accept chunk_size body idle)
  unfolding send_body
  send_body-Keeps (whole bytes) = push_part-Keeps bytes idle tt
  send_body-Keeps (stream parts) = send_parts-Keeps parts idle tt
  send_body-Keeps (broken_stream parts) =
      >>=-Keeps (send_parts accept chunk_size parts idle) _ (send_parts-Keeps parts idle tt)
        (λ s h. h)

  -- The chunk marked last is the one that the session rejected.
  pub record IsRejectedLast (e : SendError) (s : Sending) : Type 0 where
    pub rejected : e ≡ send_rejected
    pub refused : accept s.nr ≡ false
    pub before : List Chunk
    pub final : Chunk
    pub splits : s.sent ≡ before ++ (final ∷ [])
    pub no_last : All (λ (c : Chunk). c.last ≡ false) before

  abbrev pub Thrown : Outcome → Type 0
  Thrown (going s) = Unit
  Thrown (thrown e s) = NoLast s ⊎ IsRejectedLast e s
  Thrown out_of_fuel = Unit

  send_last-Thrown : (gone : Bool) (o : Outcome) → Keeps o → Thrown (o >>= send_last accept gone)
  unfolding send_last send_chunk
  send_last-Thrown true (going s) h = inl h
  send_last-Thrown false (going s) h = elim (Bool-cases (accept s.nr)) [
    | inl taken ↦ rw taken tt
    | inr rejected ↦ rw rejected (
        inr (record {
          rejected = refl;
          refused = rejected;
          before = s.sent;
          final = _;
          splits = refl;
          no_last = h;
        }))
  ]
  send_last-Thrown gone (thrown e s) h = inl h
  send_last-Thrown gone out_of_fuel h = tt

  -- Whatever the chunk size, the body, the abort signal and the messages that the session rejects: a
  -- `send` that throws has handed over no chunk marked as the last, so that the receiver does not
  -- take the body for complete; or it throws what `session.send` rejected with, for the message
  -- handed over last, and none before that was marked.
  pub send_thrown_unfinished :
      (body : Body) (gone : Bool) {e : SendError} {s : Sending}
      → send accept chunk_size body gone ≡ thrown e s
      → NoLast s ⊎ IsRejectedLast e s
  unfolding send
  send_thrown_unfinished body gone h =
      subst Thrown h
        (send_last-Thrown gone (send_body accept chunk_size body idle) (send_body-Keeps body))
