-- ===== src/Chunked/Sender/Accepted.antt =====
-- A `send` that succeeds would succeed just so if the session rejected nothing.
use xmpp_httpx.Prelude.{
  ℕ, zero, suc, ◌≡◌, refl, sym, subst, List, [], ◌∷◌, Bool, true, false, Bool-cases, inl, inr, ltb,
}
use xmpp_httpx.Bytes.Buffer.{
  Bytes, Taken, size, push, block, range_error, undefined_part, take_block,
}
use xmpp_httpx.Chunked.Sender.{
  Sending, Outcome, going, thrown, out_of_fuel, ◌>>=◌, send_chunk, send_taken, send_block,
  push_loop, push_part, Body, whole, stream, broken_stream, send_parts, send_body, send_last, idle,
  send,
}

abbrev Agrees : Outcome → Outcome → Type 0
Agrees (going s) o = o ≡ going s
Agrees (thrown e s) o = Unit
Agrees out_of_fuel o = Unit

>>=-Agrees :
    (o p : Outcome) (k l : Sending → Outcome)
    → Agrees o p
    → ((s : Sending) → Agrees (k s) (l s))
    → Agrees (o >>= k) (p >>= l)
>>=-Agrees (going s) p k l same later = subst (λ q. Agrees (k s) (q >>= l)) (sym same) (later s)
>>=-Agrees (thrown e s) p k l same later = tt
>>=-Agrees out_of_fuel p k l same later = tt

abbrev pub accept_all : ℕ → Bool
accept_all n = true

module _ (accept : ℕ → Bool) (chunk_size : ℕ) where
  send_chunk-Agrees :
      (last : Bool) (bytes : Bytes) (s : Sending)
      → Agrees (send_chunk accept last bytes s) (send_chunk accept_all last bytes s)
  unfolding send_chunk
  send_chunk-Agrees last bytes s = elim (Bool-cases (accept s.nr)) [
    | inl taken ↦ rw taken refl
    | inr rejected ↦ rw rejected tt
  ]

  send_taken-Agrees :
      (t : Taken) (s : Sending) → Agrees (send_taken accept t s) (send_taken accept_all t s)
  send_taken-Agrees (block out rest) s =
      >>=-Agrees (send_chunk accept false out (record s { pending = rest })) _ _ _
        (send_chunk-Agrees false out (record s { pending = rest })) (λ t. refl)
  send_taken-Agrees range_error s = tt
  send_taken-Agrees undefined_part s = tt

  push_loop-Agrees :
      (fuel : ℕ) (s : Sending)
      → Agrees (push_loop accept fuel chunk_size s) (push_loop accept_all fuel chunk_size s)
  unfolding push_loop send_block
  push_loop-Agrees zero s = tt
  push_loop-Agrees (suc fuel) s = elim (Bool-cases (ltb chunk_size (size s.pending))) [
    | inl more ↦ rw more (
        >>=-Agrees (send_block accept chunk_size s) _ _ _
          (send_taken-Agrees (take_block chunk_size s.pending) s) (push_loop-Agrees fuel))
    | inr over ↦ rw over refl
  ]

  push_part-Agrees :
      (part : Bytes) (s : Sending)
      → Agrees (push_part accept chunk_size part s) (push_part accept_all chunk_size part s)
  unfolding push_part
  push_part-Agrees part s =
      push_loop-Agrees (suc (size (push part s.pending)))
        (record s { pending = push part s.pending })

  send_parts-Agrees :
      (parts : List (Bool × Bytes)) (s : Sending)
      → Agrees (send_parts accept chunk_size parts s) (send_parts accept_all chunk_size parts s)
  unfolding send_parts
  send_parts-Agrees [] s = refl
  send_parts-Agrees ((true, part) ∷ parts) s = tt
  send_parts-Agrees ((false, part) ∷ parts) s =
      >>=-Agrees (push_part accept chunk_size part s) _ _ _ (push_part-Agrees part s)
        (send_parts-Agrees parts)

  send_body-Agrees :
      (body : Body)
      → Agrees (send_body accept chunk_size body idle) (send_body accept_all chunk_size body idle)
  unfolding send_body
  send_body-Agrees (whole bytes) = push_part-Agrees bytes idle
  send_body-Agrees (stream parts) = send_parts-Agrees parts idle
  send_body-Agrees (broken_stream parts) =
      >>=-Agrees (send_parts accept chunk_size parts idle) _ _ _ (send_parts-Agrees parts idle)
        (λ s. tt)

  send_last-Agrees :
      (gone : Bool) (s : Sending) → Agrees (send_last accept gone s) (send_last accept_all gone s)
  unfolding send_last
  send_last-Agrees true s = tt
  send_last-Agrees false s = send_chunk-Agrees true _ _

  send-Agrees :
      (body : Body) (gone : Bool)
      → Agrees (send accept chunk_size body gone) (send accept_all chunk_size body gone)
  unfolding send
  send-Agrees body gone =
      >>=-Agrees (send_body accept chunk_size body idle) _ _ _ (send_body-Agrees body)
        (send_last-Agrees gone)

  pub accepted_all :
      (body : Body) (gone : Bool) {s : Sending}
      → send accept chunk_size body gone ≡ going s
      → send accept_all chunk_size body gone ≡ going s
  accepted_all body gone h =
      subst (λ o. Agrees o (send accept_all chunk_size body gone)) h (send-Agrees body gone)
