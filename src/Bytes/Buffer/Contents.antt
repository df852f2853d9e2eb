-- ===== src/Bytes/Buffer/Contents.antt =====
-- What a block buffer holds, and that its methods are those of a byte queue.
use xmpp_httpx.Prelude.{
  ℕ, ◌≤◌, ◌<◌, List, [], ◌∷◌, ◌++◌, ◌≡◌, refl, sym, ap, ◌∙◌, inl, inr, false, Bool-cases, ltb, ◌==◌,
  arith, suc-==-zero, ltb→lt, ltb_false→le, le→ltb_false, All, All-append, length, take, drop,
  concat, concat-snoc, append-nil, length-append, length-take, length-drop, take-append,
  drop-append, drop_all,
}
use xmpp_httpx.Bytes.Buffer.{
  Bytes, BlockBuffer, new, size, push, Taken, block, range_error, undefined_part, cut, take_from,
  take_block, drain_parts, drain,
}

abbrev pub contents : BlockBuffer → Bytes
contents b = concat b.parts

pub record IsValid (b : BlockBuffer) : Type 0 where
  pub counted : b.bytes ≡ length (contents b)
  pub no_empty : All (λ (p : Bytes). 0 < length p) b.parts

pub new-IsValid : IsValid new
new-IsValid = record { counted = refl; no_empty = tt }

-- `push` appends the part to the contents and keeps the invariant.
pub push-contents :
    (part : Bytes) (b : BlockBuffer)
    → IsValid b
    → (contents (push part b) ≡ contents b ++ part) × IsValid (push part b)
unfolding push
push-contents [] b v = (sym (append-nil (contents b)), v)
push-contents (x ∷ part) b v = rw (suc-==-zero (length part)) (
  concat-snoc b.parts (x ∷ part),
  record {
    counted = omega (
      arith,
      v.counted,
      length-append (contents b) (x ∷ part),
      ap length (concat-snoc b.parts (x ∷ part)),
    );
    no_empty =
        All-append (λ p. 0 < length p) b.parts ((x ∷ part) ∷ []) v.no_empty (omega arith, tt);
  },
)

-- What a `take` of `n` bytes has to return: the first `n` bytes, and a valid buffer of the others.
abbrev pub Takes : ℕ → Bytes → Taken → Type 0
Takes n held (block out b) =
    (out ≡ take n held) × (length out ≡ n) × (contents b ≡ drop n held) × IsValid b
Takes n held range_error = ⊥
Takes n held undefined_part = ⊥

cut-Takes :
    (n : ℕ) (head : Bytes) (rest : List Bytes) (bytes : ℕ)
    → n ≤ length head
    → bytes ≡ length (head ++ concat rest)
    → All (λ (p : Bytes). 0 < length p) rest
    → Takes n (head ++ concat rest) (cut n head rest bytes)
unfolding cut
cut-Takes n head rest bytes h e pos = elim (Bool-cases (ltb n (length head))) [
  | inl more ↦ rw more (
    sym (take-append n head (concat rest) h),
    omega (arith, length-take n head),
    sym (drop-append n head (concat rest) h),
    record {
      counted = omega (
        arith,
        length-append head (concat rest),
        length-append (drop n head) (concat rest),
        length-drop n head,
      );
      no_empty = (omega (arith, length-drop n head, ltb→lt n (length head) more), pos);
    },
  )
  | inr all ↦ rw all (
    sym (take-append n head (concat rest) h),
    omega (arith, length-take n head),
    sym (drop-append n head (concat rest) h ∙ gone (ltb_false→le n (length head) all)),
    record {
      counted = omega (arith, length-append head (concat rest), ltb_false→le n (length head) all);
      no_empty = pos;
    },
  )
]
  where
    gone : length head ≤ n → drop n head ++ concat rest ≡ concat rest
    gone le = rw (drop_all n head le)

take_from-Takes :
    (n : ℕ) (parts : List Bytes) (bytes : ℕ)
    → 0 < n
    → n ≤ bytes
    → bytes ≡ length (concat parts)
    → All (λ (p : Bytes). 0 < length p) parts
    → Takes n (concat parts) (take_from n parts bytes)
unfolding take_from
take_from-Takes n [] bytes pos h e all = absurd (omega arith)
take_from-Takes n (head ∷ rest) bytes pos h e all = elim (Bool-cases (ltb (length head) n)) [
  | inl short ↦ rw short (
      rw append-nil at
        (cut-Takes n (head ++ concat rest) [] bytes (omega (arith, e)) (rw append-nil e) tt))
  | inr long ↦ rw long (cut-Takes n head rest bytes (ltb_false→le (length head) n long) e all.1)
]

-- `take(n)` on a valid buffer, 0 < n ≤ size, returns the first n bytes of the contents and leaves
-- a valid buffer of exactly the others: it throws nothing, and meets no undefined part.
pub take_block-Takes :
    (n : ℕ) (b : BlockBuffer)
    → IsValid b
    → 0 < n
    → n ≤ size b
    → Takes n (contents b) (take_block n b)
unfolding take_block
take_block-Takes n b v pos h =
    rw (positive, le→ltb_false b.bytes n h)
      (take_from-Takes n b.parts b.bytes pos h v.counted v.no_empty)
  where
    positive : (n == 0) ≡ false
    positive = ground arith

-- `drain` returns the whole contents and leaves the empty buffer.
pub drain-contents : (b : BlockBuffer) → drain b ≡ (contents b, new)
unfolding drain
drain-contents b = ap (λ (t : Bytes). (t, new)) (drain_parts-concat b.parts)
  where
    drain_parts-concat : (parts : List Bytes) → drain_parts parts ≡ concat parts
    drain_parts-concat [] = refl
    drain_parts-concat (p ∷ []) = sym (append-nil p)
    drain_parts-concat (p ∷ q ∷ ps) = refl
