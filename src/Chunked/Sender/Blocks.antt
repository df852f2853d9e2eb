-- ===== src/Chunked/Sender/Blocks.antt =====
-- How `ChunkedSender.send` cuts a body into chunks.
use xmpp_httpx.Prelude.{
  ℕ, zero, suc, ◌+◌, ◌≤◌, ◌<◌, ◌≡◌, refl, sym, ap, ap₂, subst, ◌∙◌, List, [], ◌∷◌, ◌++◌, Bool, true,
  false, Bool-cases, inl, inr, ltb, arith, ltb→lt, ltb_false→le, All, All-append, length, drop,
  concat, concat-snoc, append_assoc, append-nil, map, length-append, length-drop, take-append-drop,
}
use xmpp_httpx.Bytes.Buffer.{
  Bytes, BlockBuffer, size, push, Taken, block, range_error, undefined_part, take_block,
}
use xmpp_httpx.Bytes.Buffer.Contents.{
  contents, IsValid, new-IsValid, push-contents, Takes, take_block-Takes, drain-contents,
}
use xmpp_httpx.Base64.{encode_base64}
use xmpp_httpx.Chunked.Sender.{
  Chunk, Sending, Outcome, going, thrown, out_of_fuel, ◌>>=◌, send_block, push_loop, push_part,
  Body, whole, stream, broken_stream, send_chunk, send_parts, send_body, send_last, idle, send,
}

-- The chunk messages of these blocks, numbered from `i` on, none of them the last.
unfoldable pub numbered : ℕ → List Bytes → List Chunk
numbered i [] = []
numbered i (b ∷ bs) =
    record { nr = i; last = false; payload = encode_base64 b } ∷ numbered (i + 1) bs

numbered-snoc :
    (i : ℕ) (bs : List Bytes) (b : Bytes)
    → numbered i (bs ++ (b ∷ []))
      ≡ numbered i bs
        ++ (record { nr = i + length bs; last = false; payload = encode_base64 b } ∷ [])
unfolding numbered
numbered-snoc i [] b =
    ap (λ (n : ℕ). record { nr = n; last = false; payload = encode_base64 b } ∷ []) (omega arith)
numbered-snoc i (c ∷ bs) b =
    ap (λ (t : List Chunk). record { nr = i; last = false; payload = encode_base64 c } ∷ t)
      (numbered-snoc (i + 1) bs b
        ∙ ap
            (λ (n : ℕ).
              numbered (i + 1) bs
              ++ (record { nr = n; last = false; payload = encode_base64 b } ∷ []))
            (omega arith))

-- What has been sent of the bytes that were pushed: full blocks; the rest is pending.
pub record Sent (chunk_size : ℕ) (fed : Bytes) (blocks : List Bytes) (s : Sending) : Type 0 where
  pub messages : s.sent ≡ numbered 0 blocks
  pub next_nr : s.nr ≡ length blocks
  pub full : All (λ (b : Bytes). length b ≡ chunk_size) blocks
  pub valid : IsValid s.pending
  pub bytes : concat blocks ++ contents s.pending ≡ fed

abbrev Runs : ℕ → Bytes → Outcome → Type 0
Runs chunk_size fed (going s) =
    (blocks : List Bytes) × Sent chunk_size fed blocks s × (size s.pending ≤ chunk_size)
Runs chunk_size fed (thrown e s) = ⊥
Runs chunk_size fed out_of_fuel = ⊥

-- A round of the loop sends one full block and shrinks the buffer.
abbrev Advances : ℕ → Bytes → ℕ → Outcome → Type 0
Advances chunk_size fed before (going s) =
    (blocks : List Bytes) × Sent chunk_size fed blocks s × (size s.pending < before)
Advances chunk_size fed before (thrown e s) = ⊥
Advances chunk_size fed before out_of_fuel = ⊥

module _ (accept : ℕ → Bool) (accepts : (n : ℕ) → accept n ≡ true) (chunk_size : ℕ)
    (positive : 0 < chunk_size) where
  sent_block :
      (fed : Bytes) (blocks : List Bytes) (s : Sending) (out : Bytes) (rest : BlockBuffer)
      → Sent chunk_size fed blocks s
      → Takes chunk_size (contents s.pending) (block out rest)
      → Sent chunk_size fed (blocks ++ (out ∷ [])) (record s {
        sent = s.sent ++ (record { nr = s.nr; last = false; payload = encode_base64 out } ∷ []);
        nr = s.nr + 1;
        pending = rest;
      })
  sent_block fed blocks s out rest v (cut, len, left, valid) = record {
    messages =
        ap₂
          (λ (l : List Chunk) (n : ℕ).
            l ++ (record { nr = n; last = false; payload = encode_base64 out } ∷ []))
          v.messages (v.next_nr ∙ omega arith)
        ∙ sym (numbered-snoc 0 blocks out);
    next_nr = omega (arith, v.next_nr, length-append blocks (out ∷ []));
    full = All-append (λ (b : Bytes). length b ≡ chunk_size) blocks (out ∷ []) v.full (len, tt);
    valid = valid;
    bytes =
        ap₂ ◌++◌ (concat-snoc blocks out) left
        ∙ append_assoc (concat blocks) out (drop chunk_size (contents s.pending))
        ∙ ap (λ (t : Bytes). concat blocks ++ t)
            (ap (λ (t : Bytes). t ++ drop chunk_size (contents s.pending)) cut
              ∙ take-append-drop chunk_size (contents s.pending))
        ∙ v.bytes;
  }

  send_block-Advances :
      (fed : Bytes) (blocks : List Bytes) (s : Sending)
      → Sent chunk_size fed blocks s
      → chunk_size < size s.pending
      → Advances chunk_size fed (size s.pending) (send_block accept chunk_size s)
  unfolding send_block send_chunk
  send_block-Advances fed blocks s v more =
      go (take_block chunk_size s.pending) refl
        (take_block-Takes chunk_size s.pending v.valid positive (omega arith))
    where
      go :
          (t : Taken)
          → take_block chunk_size s.pending ≡ t
          → Takes chunk_size (contents s.pending) t
          → Advances chunk_size fed (size s.pending) (send_block accept chunk_size s)
      go (block out rest) e w =
          rw (e, send_block, accepts s.nr)
            (
              blocks ++ (out ∷ []),
              sent_block fed blocks s out rest v w,
              omega (
                arith,
                w.3.counted,
                ap length w.2,
                length-drop chunk_size (contents s.pending),
                v.valid.counted,
              ),
            )
      go range_error e w = absurd w
      go undefined_part e w = absurd w

  push_loop-Runs :
      (fuel : ℕ) (fed : Bytes) (blocks : List Bytes) (s : Sending)
      → Sent chunk_size fed blocks s
      → size s.pending < fuel
      → Runs chunk_size fed (push_loop accept fuel chunk_size s)
  unfolding push_loop
  push_loop-Runs zero fed blocks s v h = absurd (omega arith)
  push_loop-Runs (suc fuel) fed blocks s v h = elim (Bool-cases (ltb chunk_size (size s.pending))) [
    | inl more ↦ rw more (
        go (push_loop-Runs fuel fed) (send_block accept chunk_size s)
          (send_block-Advances fed blocks s v (ltb→lt _ _ more)))
    | inr done ↦ rw done (blocks, v, ltb_false→le _ _ done)
  ]
    where
      go :
          ((bs : List Bytes) (t : Sending)
            → Sent chunk_size fed bs t
            → size t.pending < fuel
            → Runs chunk_size fed (push_loop accept fuel chunk_size t))
          → (o : Outcome) → Advances chunk_size fed (size s.pending) o
          → Runs chunk_size fed (o >>= push_loop accept fuel chunk_size)
      go ih (going t) (bs, sent, less) = ih bs t sent (omega arith)
      go ih (thrown e t) a = absurd a
      go ih out_of_fuel a = absurd a

  push_part-Runs :
      (fed part : Bytes) (blocks : List Bytes) (s : Sending)
      → Sent chunk_size fed blocks s
      → Runs chunk_size (fed ++ part) (push_part accept chunk_size part s)
  unfolding push_part
  push_part-Runs fed part blocks s v =
      let (grown, valid) = push-contents part s.pending v.valid in
      push_loop-Runs (suc (size (push part s.pending))) (fed ++ part) blocks
        (record s { pending = push part s.pending })
        (record {
          messages = v.messages;
          next_nr = v.next_nr;
          full = v.full;
          valid = valid;
          bytes =
              ap (λ (t : Bytes). concat blocks ++ t) grown
              ∙ sym (append_assoc (concat blocks) (contents s.pending) part)
              ∙ ap (λ (t : Bytes). t ++ part) v.bytes;
        })
        (omega arith)

  -- The bytes of the parts of a stream that is not aborted.
  send_parts-Runs :
      (parts : List (Bool × Bytes)) (fed : Bytes) (blocks : List Bytes) (s : Sending)
      → Sent chunk_size fed blocks s
      → size s.pending ≤ chunk_size
      → All (λ (p : Bool × Bytes). p.0 ≡ false) parts
      → Runs chunk_size
          (fed ++ concat (map (λ (p : Bool × Bytes). p.1) parts))
          (send_parts accept chunk_size parts s)
  unfolding send_parts
  send_parts-Runs [] fed blocks s v small calm =
      (blocks, subst (λ (t : Bytes). Sent chunk_size t blocks s) (sym (append-nil fed)) v, small)
  send_parts-Runs ((gone, part) ∷ parts) fed blocks s v small (calm, rest) = rw calm (
      subst
        (λ (t : Bytes).
          Runs chunk_size t
            (push_part accept chunk_size part s >>= send_parts accept chunk_size parts))
        (append_assoc fed part (concat (map (λ (p : Bool × Bytes). p.1) parts)))
        (go (send_parts-Runs parts (fed ++ part)) (push_part accept chunk_size part s)
          (push_part-Runs fed part blocks s v)))
    where
      go :
          ((bs : List Bytes) (t : Sending)
            → Sent chunk_size (fed ++ part) bs t
            → size t.pending ≤ chunk_size
            → All (λ (p : Bool × Bytes). p.0 ≡ false) parts
            → Runs chunk_size
                ((fed ++ part) ++ concat (map (λ (p : Bool × Bytes). p.1) parts))
                (send_parts accept chunk_size parts t))
          → (o : Outcome) → Runs chunk_size (fed ++ part) o
          → Runs chunk_size
              ((fed ++ part) ++ concat (map (λ (p : Bool × Bytes). p.1) parts))
              (o >>= send_parts accept chunk_size parts)
      go ih (going t) (bs, sent, small') = ih bs t sent small' rest
      go ih (thrown e t) a = absurd a
      go ih out_of_fuel a = absurd a

abbrev pub body_bytes : Body → Bytes
body_bytes (whole bytes) = bytes
body_bytes (stream parts) = concat (map (λ (p : Bool × Bytes). p.1) parts)
body_bytes (broken_stream parts) = concat (map (λ (p : Bool × Bytes). p.1) parts)

-- The signal is not aborted when a part arrives, and the stream does not error.
abbrev pub IsCalm : Body → Type 0
IsCalm (whole bytes) = Unit
IsCalm (stream parts) = All (λ (p : Bool × Bytes). p.0 ≡ false) parts
IsCalm (broken_stream parts) = ⊥

-- The messages of full blocks and of the last chunk, as a list.
abbrev pub chunks_of : List Bytes → Bytes → List Chunk
chunks_of blocks rest =
    numbered 0 blocks
    ++ (record { nr = length blocks; last = true; payload = encode_base64 rest } ∷ [])

-- The chunks numbered from 0 without a gap, full but for the last, which alone is marked; their
-- bytes in that order are the body.
abbrev pub Delivers : ℕ → Bytes → Outcome → Type 0
Delivers chunk_size body (going s) =
    (blocks : List Bytes) × (rest : Bytes) × (s.sent ≡ chunks_of blocks rest)
    × All (λ (b : Bytes). length b ≡ chunk_size) blocks
    × (length rest ≤ chunk_size)
    × (concat blocks ++ rest ≡ body)
Delivers chunk_size body (thrown e s) = ⊥
Delivers chunk_size body out_of_fuel = ⊥

idle-Sent : (chunk_size : ℕ) → Sent chunk_size [] [] idle
unfolding numbered
idle-Sent chunk_size = record {
  messages = refl;
  next_nr = refl;
  full = tt;
  valid = new-IsValid;
  bytes = refl;
}

send_body-Runs :
    (accept : ℕ → Bool) (accepts : (n : ℕ) → accept n ≡ true) (chunk_size : ℕ) (body : Body)
    → 0 < chunk_size
    → IsCalm body
    → Runs chunk_size (body_bytes body) (send_body accept chunk_size body idle)
unfolding send_body
send_body-Runs accept accepts chunk_size (whole bytes) h calm =
    push_part-Runs accept accepts chunk_size h [] bytes [] idle (idle-Sent chunk_size)
send_body-Runs accept accepts chunk_size (broken_stream parts) h calm = absurd calm
send_body-Runs accept accepts chunk_size (stream parts) h calm =
    send_parts-Runs accept accepts chunk_size h parts [] [] idle (idle-Sent chunk_size)
      (omega arith) calm

send_last-Delivers :
    (accept : ℕ → Bool) (accepts : (n : ℕ) → accept n ≡ true) (chunk_size : ℕ) (body : Bytes)
    (o : Outcome)
    → Runs chunk_size body o
    → Delivers chunk_size body (o >>= send_last accept false)
unfolding send_last send_chunk
send_last-Delivers accept accepts chunk_size body (going s) (blocks, v, small) =
    rw (drain-contents s.pending, accepts s.nr)
      (
        blocks,
        contents s.pending,
        ap₂
            (λ (l : List Chunk) (n : ℕ).
              l
              ++ (record { nr = n; last = true; payload = encode_base64 (contents s.pending) }
                  ∷ []))
            v.messages v.next_nr,
        v.full,
        omega (arith, v.valid.counted),
        v.bytes,
      )
send_last-Delivers accept accepts chunk_size body (thrown e s) r = absurd r
send_last-Delivers accept accepts chunk_size body out_of_fuel r = absurd r

-- `send` with a positive chunk size, no abort, a body that does not error and a session that accepts
-- every message ends without an error. The chunks that it sent
-- are numbered from 0 without a gap; all but the last hold exactly `chunkSize` bytes, the last at
-- most that many; the last alone is marked so, and the bytes in order are the body.
pub send-Delivers :
    (accept : ℕ → Bool) (chunk_size : ℕ) (body : Body)
    → ((n : ℕ) → accept n ≡ true)
    → 0 < chunk_size
    → IsCalm body
    → Delivers chunk_size (body_bytes body) (send accept chunk_size body false)
unfolding send
send-Delivers accept chunk_size body accepts h calm =
    send_last-Delivers accept accepts chunk_size (body_bytes body)
      (send_body accept chunk_size body idle) (send_body-Runs accept accepts chunk_size body h calm)
