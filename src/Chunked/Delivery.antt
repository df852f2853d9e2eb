-- ===== src/Chunked/Delivery.antt =====
-- The sender and the reassembler together: a body arrives whole, in whatever order its chunks do.
mod Tests
use mathlib.Core.Logic.{∥∥₁_elim}
use mathlib.Core.List.{Perm, Permᴰ}
use mathlib.Core.HLevel.{×_prop}
use native.Mathlib.Decide.{ℕ_discrete}
use xmpp_httpx.Prelude.{
  Bool, ℕ, zero, suc, ◌+◌, ◌≤◌, ◌<◌, ◌≡◌, ◌≢◌, ◌⊎◌, refl, sym, ap, ap₂, subst, ◌∙◌, List, [], ◌∷◌,
  ◌++◌, inl, inr, Bool, true, false, ◌==◌, ==_self, arith, All, All-append, length, get_or, concat,
  length-append, append_assoc, append-nil,
}
use xmpp_httpx.Bytes.Buffer.{Bytes}
use xmpp_httpx.Base64.{ok, encode_base64, decode_base64}
use xmpp_httpx.Base64.RoundTrip.{IsByte, decode-encode}
use xmpp_httpx.Chunked.Sender.{Chunk, Sending, Outcome, going, Body, send}
use xmpp_httpx.Chunked.Sender.Accepted.{accept_all, accepted_all}
use xmpp_httpx.Chunked.Sender.Blocks.{
  numbered, chunks_of, body_bytes, IsCalm, Delivers, send-Delivers,
}
use xmpp_httpx.Chunked.Reassembler.{Reassembler, End, closed, new}
use xmpp_httpx.Chunked.Reassembler.Invariant.{new-IsWaiting}
use xmpp_httpx.Chunked.Reassembler.Order.{
  seen, assembled, IsMid, IsComplete, IsPiece, deliver, Comes, DistinctNrs, total_bytes,
  deliver-IsComplete,
}

-- What is said of the chunks carries over to another order of them.
All-permᴰ {ℓ κ} : {A : Type ℓ} (P : A → Type κ) {xs ys : List A} → Permᴰ xs ys → All P xs → All P ys
All-permᴰ P Permᴰ.nil h = h
All-permᴰ P (Permᴰ.cons e p) (h, hs) = (subst P e h, All-permᴰ P p hs)
All-permᴰ P (Permᴰ.swap e f) (h, (k, hs)) = (subst P f k, (subst P e h, hs))
All-permᴰ P (Permᴰ.trans p q) h = All-permᴰ P q (All-permᴰ P p h)

abbrev Differs : Chunk → List Chunk → Type 0
Differs p = All (λ (q : Chunk). q.nr ≢ p.nr)

DistinctNrs-permᴰ : {xs ys : List Chunk} → Permᴰ xs ys → DistinctNrs xs → DistinctNrs ys
DistinctNrs-permᴰ Permᴰ.nil h = h
DistinctNrs-permᴰ (Permᴰ.cons {b = b} {l₁ = l} e p) (ne, d) = (
  All-permᴰ (λ (q : Chunk). q.nr ≢ b.nr) p (subst (λ (t : Chunk). Differs t l) e ne),
  DistinctNrs-permᴰ p d,
)
DistinctNrs-permᴰ (Permᴰ.swap {a} {b} {a'} {b'} {l} e f) ((ne, more), (other, d)) = (
  (
    λ h. ne (ap (λ (t : Chunk). t.nr) f ∙ sym h ∙ sym (ap (λ (t : Chunk). t.nr) e)),
    subst (λ (t : Chunk). Differs t l) f other,
  ),
  (subst (λ (t : Chunk). Differs t l) e more, d),
)
DistinctNrs-permᴰ (Permᴰ.trans p q) h = DistinctNrs-permᴰ q (DistinctNrs-permᴰ p h)

total_bytes-permᴰ :
    (c : ℕ → Bytes) (n_last : ℕ) {xs ys : List Chunk}
    → Permᴰ xs ys
    → total_bytes c n_last xs ≡ total_bytes c n_last ys
total_bytes-permᴰ c n_last Permᴰ.nil = refl
total_bytes-permᴰ c n_last (Permᴰ.cons e p) =
    omega (arith, ap (λ (t : Chunk). length (c t.nr)) e, total_bytes-permᴰ c n_last p)
total_bytes-permᴰ c n_last (Permᴰ.swap e f) =
    omega (arith, ap (λ (t : Chunk). length (c t.nr)) e, ap (λ (t : Chunk). length (c t.nr)) f)
total_bytes-permᴰ c n_last (Permᴰ.trans p q) =
    total_bytes-permᴰ c n_last p ∙ total_bytes-permᴰ c n_last q

Comes-permᴰ : (j : ℕ) {xs ys : List Chunk} → Permᴰ xs ys → Comes j xs → Comes j ys
Comes-permᴰ j Permᴰ.nil h = h
Comes-permᴰ j (Permᴰ.cons e p) (inl h) = inl (sym (ap (λ (t : Chunk). t.nr) e) ∙ h)
Comes-permᴰ j (Permᴰ.cons e p) (inr h) = inr (Comes-permᴰ j p h)
Comes-permᴰ j (Permᴰ.swap e f) (inl h) = inr (inl (sym (ap (λ (t : Chunk). t.nr) e) ∙ h))
Comes-permᴰ j (Permᴰ.swap e f) (inr (inl h)) = inl (sym (ap (λ (t : Chunk). t.nr) f) ∙ h)
Comes-permᴰ j (Permᴰ.swap e f) (inr (inr h)) = inr (inr h)
Comes-permᴰ j (Permᴰ.trans p q) h = Comes-permᴰ j q (Comes-permᴰ j p h)

-- The pieces of a body, by their number.
abbrev piece : List Bytes → Bytes → ℕ → Bytes
piece blocks rest i = get_or (blocks ++ (rest ∷ [])) i []

get_or-append_left :
    (bs : List Bytes) (more : List Bytes) (k : ℕ)
    → k < length bs
    → get_or (bs ++ more) k [] ≡ get_or bs k []
get_or-append_left [] more k h = absurd (omega arith)
get_or-append_left (b ∷ bs) more zero h = refl
get_or-append_left (b ∷ bs) more (suc k) h = get_or-append_left bs more k (omega arith)

get_or-append_end :
    (bs : List Bytes) (rest : Bytes) → get_or (bs ++ (rest ∷ [])) (length bs) [] ≡ rest
get_or-append_end [] rest = refl
get_or-append_end (b ∷ bs) rest = get_or-append_end bs rest

module _ (c : ℕ → Bytes) (n_last : ℕ) where
  -- The blocks that the numbered chunks carry are those of `c`, from `i` on.
  abbrev Carries : ℕ → List Bytes → Type 0
  Carries i bs = (k : ℕ) → k < length bs → c (i + k) ≡ get_or bs k []

  Carries-head : (i : ℕ) (b : Bytes) (bs : List Bytes) → Carries i (b ∷ bs) → c i ≡ b
  Carries-head i b bs f = ap c {x = i} {y = i + 0} (omega arith) ∙ f 0 (omega arith)

  Carries-tail : (i : ℕ) (b : Bytes) (bs : List Bytes) → Carries i (b ∷ bs) → Carries (i + 1) bs
  Carries-tail i b bs f k h =
      ap c {x = i + 1 + k} {y = i + suc k} (omega arith) ∙ f (suc k) (omega arith)

  numbered-IsPiece :
      (i : ℕ) (bs : List Bytes)
      → Carries i bs
      → i + length bs ≤ n_last
      → All (λ (b : Bytes). All IsByte b) bs
      → All (IsPiece c n_last) (numbered i bs)
  unfolding numbered
  numbered-IsPiece i [] f h all = tt
  numbered-IsPiece i (b ∷ bs) f h (bytes, all) = (
    record {
      in_range = omega arith;
      marked = ground arith;
      decodes = decode-encode b bytes ∙ ap ok (sym (Carries-head i b bs f));
    },
    numbered-IsPiece (i + 1) bs (Carries-tail i b bs f) (omega arith) all,
  )

  numbered_above :
      (i j : ℕ) (bs : List Bytes) → j < i → All (λ (q : Chunk). q.nr ≢ j) (numbered i bs)
  unfolding numbered
  numbered_above i j [] h = tt
  numbered_above i j (b ∷ bs) h = (omega arith, numbered_above (i + 1) j bs (omega arith))

  numbered_below :
      (i j : ℕ) (bs : List Bytes)
      → i + length bs ≤ j
      → All (λ (q : Chunk). q.nr ≢ j) (numbered i bs)
  unfolding numbered
  numbered_below i j [] h = tt
  numbered_below i j (b ∷ bs) h = (omega arith, numbered_below (i + 1) j bs (omega arith))

  DistinctNrs-numbered :
      (i : ℕ) (bs : List Bytes) (p : Chunk)
      → i + length bs ≤ p.nr
      → DistinctNrs (numbered i bs ++ (p ∷ []))
  unfolding numbered
  DistinctNrs-numbered i [] p h = (tt, tt)
  DistinctNrs-numbered i (b ∷ bs) p h = (
    All-append (λ (q : Chunk). q.nr ≢ i) (numbered (i + 1) bs) (p ∷ [])
        (numbered_above (i + 1) i bs (omega arith)) ((omega arith), tt),
    DistinctNrs-numbered (i + 1) bs p (omega arith),
  )

  Comes-numbered :
      (i j : ℕ) (bs : List Bytes) (p : Chunk)
      → i ≤ j
      → j ≤ p.nr
      → p.nr ≡ i + length bs
      → Comes j (numbered i bs ++ (p ∷ []))
  unfolding numbered
  Comes-numbered i j [] p lo hi e = inl (omega arith)
  Comes-numbered i j (b ∷ bs) p lo hi e = elim (ℕ_discrete i j) [
    | yes here ↦ inl here
    | no later ↦ inr (Comes-numbered (i + 1) j bs p (omega arith) hi (omega arith))
  ]

  total_bytes-numbered :
      (i : ℕ) (bs : List Bytes) (p : Chunk)
      → Carries i bs
      → total_bytes c n_last (numbered i bs ++ (p ∷ [])) ≡ length (concat bs) + length (c p.nr)
  unfolding numbered
  total_bytes-numbered i [] p f = omega arith
  total_bytes-numbered i (b ∷ bs) p f = omega (
    arith,
    total_bytes-numbered (i + 1) bs p (Carries-tail i b bs f),
    ap length (Carries-head i b bs f),
    length-append b (concat bs),
  )

  assembled-Carries :
      (i : ℕ) (bs : List Bytes)
      → Carries i bs
      → assembled c n_last (i + length bs) ≡ assembled c n_last i ++ concat bs
  assembled-Carries i [] f =
      ap (assembled c n_last) {x = i + 0} {y = i} (omega arith)
      ∙ sym (append-nil (assembled c n_last i))
  assembled-Carries i (b ∷ bs) f =
      ap (assembled c n_last) {x = i + suc (length bs)} {y = i + 1 + length bs} (omega arith)
      ∙ assembled-Carries (i + 1) bs (Carries-tail i b bs f)
      ∙ ap (λ (t : Bytes). t ++ concat bs)
          (ap (assembled c n_last) {x = i + 1} {y = suc i} (omega arith)
            ∙ ap (λ (t : Bytes). assembled c n_last i ++ t) (Carries-head i b bs f))
      ∙ append_assoc (assembled c n_last i) b (concat bs)

module _ (blocks : List Bytes) (rest : Bytes) where
  at_end : piece blocks rest (length blocks) ≡ rest
  at_end = get_or-append_end blocks rest

  Carries-blocks : Carries (piece blocks rest) (length blocks) 0 blocks
  Carries-blocks k h =
      ap (piece blocks rest) {x = 0 + k} {y = k} (omega arith)
      ∙ get_or-append_left blocks (rest ∷ []) k h

  body-eq :
      assembled (piece blocks rest) (length blocks) (suc (length blocks)) ≡ concat blocks ++ rest
  body-eq =
      ap₂ ◌++◌
        (ap (assembled (piece blocks rest) (length blocks)) {x = length blocks}
            {y = 0 + length blocks} (omega arith)
          ∙ assembled-Carries (piece blocks rest) (length blocks) 0 blocks Carries-blocks)
        at_end

  chunks_of-IsPiece :
      All (λ (b : Bytes). All IsByte b) blocks
      → All IsByte rest
      → All (IsPiece (piece blocks rest) (length blocks)) (chunks_of blocks rest)
  chunks_of-IsPiece blocks_ok rest_ok =
      All-append (IsPiece (piece blocks rest) (length blocks)) (numbered 0 blocks) (_ ∷ [])
        (numbered-IsPiece (piece blocks rest) (length blocks) 0 blocks Carries-blocks (omega arith)
          blocks_ok)
        (
          record {
            in_range = omega arith;
            marked = sym (==_self (length blocks));
            decodes = decode-encode rest rest_ok ∙ ap ok (sym at_end);
          },
          tt,
        )

  -- The chunks of a sender that arrive in any order complete a new reassembler.
  deliver-chunks_of :
      (arrived : List Chunk) (limit : ℕ)
      → Permᴰ (chunks_of blocks rest) arrived
      → All (λ (b : Bytes). All IsByte b) blocks
      → All IsByte rest
      → length (concat blocks ++ rest) ≤ limit
      → IsComplete (piece blocks rest) (length blocks) (deliver (new limit) arrived)
  deliver-chunks_of arrived limit p blocks_ok rest_ok fits =
      deliver-IsComplete (piece blocks rest) (length blocks) arrived 0 limit (new limit)
        (record {
          is_open = (new-IsWaiting limit).is_open;
          in_order = refl;
          genuine = λ i e h. absurd (ground (arith, h));
          below = omega arith;
          last_known = inl refl;
          counted = refl;
        })
        (new-IsWaiting limit) refl
        (All-permᴰ (IsPiece (piece blocks rest) (length blocks)) p
          (chunks_of-IsPiece blocks_ok rest_ok))
        (all_new arrived)
        (DistinctNrs-permᴰ p
          (DistinctNrs-numbered (piece blocks rest) (length blocks) 0 blocks _ (omega arith)))
        (omega (
          arith,
          total_bytes-permᴰ (piece blocks rest) (length blocks) p,
          total_bytes-numbered (piece blocks rest) (length blocks) 0 blocks _ Carries-blocks,
          ap length at_end,
          length-append (concat blocks) rest,
        ))
        (λ j h. inr (
          Comes-permᴰ j p (
            Comes-numbered (piece blocks rest) (length blocks) 0 j blocks _ (omega arith) h
              (omega arith))))
    where
      all_new : (ps : List Chunk) → All (λ (q : Chunk). seen (new limit) q.nr ≡ false) ps
      all_new [] = tt
      all_new (q ∷ ps) = (ground arith, all_new ps)

All-append_left {ℓ κ} :
    {A : Type ℓ} (P : A → Type κ) (xs ys : List A) → All P (xs ++ ys) → All P xs × All P ys
All-append_left P [] ys h = (tt, h)
All-append_left P (x ∷ xs) ys (h, hs) = let (l, r) = All-append_left P xs ys hs in ((h, l), r)

All-blocks : (bs : List Bytes) → All IsByte (concat bs) → All (λ (b : Bytes). All IsByte b) bs
All-blocks [] h = tt
All-blocks (b ∷ bs) h =
    let (here, later) = All-append_left IsByte b (concat bs) h in (here, All-blocks bs later)

-- What a finished reassembler has made of a body.
pub record HasReceived (body : Bytes) (r : Reassembler) : Type 0 where
  pub is_closed : r.end ≡ closed
  pub bytes : concat r.out ≡ body
  pub told_once : r.finish_calls ≡ 1

HasReceived-prop : (body : Bytes) (r : Reassembler) → IsProp (HasReceived body r)
HasReceived-prop body r = hlevel

complete :
    (chunk_size limit : ℕ) (body : Bytes) (o : Outcome) (s : Sending) (arrived : List Chunk)
    → Delivers chunk_size body o
    → o ≡ going s
    → All IsByte body
    → length body ≤ limit
    → Permᴰ s.sent arrived
    → HasReceived body (deliver (new limit) arrived)
complete chunk_size limit body o s arrived d e bytes fits p =
    let (blocks, rest, sent, full, small, whole_body) = subst (Delivers chunk_size body) e d in
    let (in_blocks, in_rest) =
      All-append_left IsByte (concat blocks) rest (subst (All IsByte) (sym whole_body) bytes) in
    let done =
      deliver-chunks_of blocks rest arrived limit
        (subst (λ (l : List Chunk). Permᴰ l arrived) sent p) (All-blocks blocks in_blocks) in_rest
        (omega (arith, ap length whole_body, fits)) in
    record {
      is_closed = done.is_closed;
      bytes = done.body ∙ body-eq blocks rest ∙ whole_body;
      told_once = done.is_done.called;
    }

-- A body of at most `maxBufferedBytes` bytes that `ChunkedSender` has sent, with a positive chunk
-- size and without an abort, is received whole: whatever order its chunks arrive in, the new
-- reassembler that they are pushed to closes its stream, has enqueued exactly the bytes of the
-- body in their order, and has called `onFinished` once.
pub deliver-send :
    (accept : ℕ → Bool) (chunk_size limit : ℕ) (body : Body) (arrived : List Chunk) {s : Sending}
    → 0 < chunk_size
    → IsCalm body
    → All IsByte (body_bytes body)
    → length (body_bytes body) ≤ limit
    → send accept chunk_size body false ≡ going s
    → Perm s.sent arrived
    → HasReceived (body_bytes body) (deliver (new limit) arrived)
deliver-send accept chunk_size limit body arrived {s} positive calm bytes fits sent p =
    ∥∥₁_elim p (HasReceived-prop (body_bytes body) (deliver (new limit) arrived)) (
      complete chunk_size limit (body_bytes body) (send accept_all chunk_size body false) s arrived
        (send-Delivers accept_all chunk_size body (λ n. refl) positive calm)
        (accepted_all accept chunk_size body false sent) bytes fits)
