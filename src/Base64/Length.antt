-- ===== src/Base64/Length.antt =====
-- How long an encoding and a decoded text are, and which texts are decoded at all.
use xmpp_httpx.Prelude.{
  ℕ, zero, suc, ◌+◌, ◌*◌, ◌/◌, ◌%◌, ◌≤◌, ◌<◌, ◌≡◌, ◌≢◌, refl, ap, [], ◌∷◌, ◌++◌, reverse, true,
  false, Bool-cases, Option-cases, some, none, inl, inr, leb, ◌==◌, ==_iff, arith, All, length,
  take, length-reverse,
}
use xmpp_httpx.Bytes.Buffer.{Bytes}
use xmpp_httpx.Base64.{
  Text, digit_value, encode_base64, strip_spaces, Decoded, ok, bad_length, bad_character, unpadded,
  prepend, shift_in, held, emitted, decode_from, decode_clean, decode_base64, base64_length,
}
use xmpp_httpx.Base64.RoundTrip.{IsByte}

-- `base64Length(n)` is the length of the encoding of any n bytes.
pub length-encode_base64 : (bs : Bytes) → length (encode_base64 bs) ≡ base64_length (length bs)
unfolding encode_base64 base64_length
length-encode_base64 [] = refl
length-encode_base64 (a ∷ []) = refl
length-encode_base64 (a ∷ b ∷ []) = refl
length-encode_base64 (a ∷ b ∷ c ∷ rest) = omega (arith, length-encode_base64 rest)

-- What the decoder has consumed before the padding.
abbrev pub end_of : Text → ℕ
end_of text = unpadded 2 (reverse (strip_spaces text))

unpadded-le : (budget : ℕ) (xs : Text) → unpadded budget xs ≤ length xs
unfolding unpadded
unpadded-le budget [] = omega arith
unpadded-le zero (x ∷ xs) = omega arith
unpadded-le (suc budget) (x ∷ xs) = ground (arith, unpadded-le budget xs)

-- The character stands in the alphabet.
abbrev pub InAlphabet : ℕ → Type 0
InAlphabet c = (v : ℕ) × (digit_value c ≡ some v)

-- A decoded result of this many bytes, all of them below 256.
abbrev Fills : ℕ → Bytes → Type 0
Fills n out = (length out ≡ n) × All IsByte out

Fills-emitted :
    (acc bits n : ℕ) (rest : Bytes)
    → bits < 8
    → Fills ((held (bits + 6) + 6 * n) / 8) rest
    → Fills ((bits + 6 * suc n) / 8) (emitted acc (bits + 6) ++ rest)
Fills-emitted acc bits n rest h (len, all) = elim (Bool-cases (leb 8 (bits + 6))) [
  | inl full ↦ rw full (omega (arith, len, held_full full), (omega arith, all))
  | inr short ↦ rw short (omega (arith, len, held_short short), all)
]
  where
    held_full : leb 8 (bits + 6) ≡ true → held (bits + 6) + 8 ≡ bits + 6
    held_full full = ground arith

    held_short : leb 8 (bits + 6) ≡ false → (held (bits + 6) ≡ bits + 6) × (bits + 6 < 8)
    held_short short = ground arith

held-lt : (bits : ℕ) → bits < 8 → held (bits + 6) < 8
held-lt bits h = ground arith

-- The result of a decoding loop: bytes that fill the array, or the index of the first character
-- out of the alphabet.
abbrev Result : ℕ → ℕ → Text → ℕ → Decoded → Type 0
Result left i cs bits (ok out) = Fills ((bits + 6 * left) / 8) out × All InAlphabet (take left cs)
Result left i cs bits bad_length = ⊥
Result left i cs bits (bad_character j) =
    (before : Text) × (c : ℕ) × (after : Text) × (cs ≡ before ++ (c ∷ after))
    × (j ≡ i + length before)
    × (length before < left)
    × All InAlphabet before
    × (digit_value c ≡ none)

prepend-Result :
    (left i : ℕ) (c : ℕ) (cs : Text) (acc bits : ℕ) (d : Decoded)
    → bits < 8
    → InAlphabet c
    → Result left (i + 1) cs (held (bits + 6)) d
    → Result (suc left) i (c ∷ cs) bits (prepend (emitted acc (bits + 6)) d)
prepend-Result left i c cs acc bits (ok out) h a (fills, all) =
    (Fills-emitted acc bits left out h fills, (a, all))
prepend-Result left i c cs acc bits bad_length h a r = r
prepend-Result left i c cs acc bits (bad_character j) h a
      (before, x, after, split, at, less, all, bad) =
    (c ∷ before, x, after, ap (λ (t : Text). c ∷ t) split, omega arith, omega arith, (a, all), bad)

decode_from-Result :
    (cs : Text) (left i acc bits : ℕ)
    → bits < 8
    → left ≤ length cs
    → Result left i cs bits (decode_from cs left i acc bits)
unfolding decode_from
decode_from-Result cs zero i acc bits h le = ((omega arith, tt), tt)
decode_from-Result [] (suc left) i acc bits h le = absurd (omega arith)
decode_from-Result (c ∷ cs) (suc left) i acc bits h le = elim (Option-cases (digit_value c)) [
  | inl bad ↦ rw (bad, decode_from) ([], c, cs, refl, omega arith, omega arith, tt, bad)
  | inr (v, good) ↦
      rw (good, decode_from)
        (prepend-Result left i c cs (shift_in acc v) bits _ h (v, good)
          (decode_from-Result cs left (i + 1) (shift_in acc v) (held (bits + 6)) (held-lt bits h)
            (omega arith)))
]

end_of-le : (text : Text) → end_of text ≤ length (strip_spaces text)
end_of-le text =
    omega (arith, unpadded-le 2 (reverse (strip_spaces text)), length-reverse (strip_spaces text))

-- What a result of decoding means for the text.
abbrev pub Decodes : Text → Decoded → Type 0
Decodes text (ok out) =
    (end_of text % 4 ≢ 1)
    × All InAlphabet (take (end_of text) (strip_spaces text))
    × (length out ≡ end_of text * 3 / 4)
    × All IsByte out
Decodes text bad_length = end_of text % 4 ≡ 1
Decodes text (bad_character i) =
    (end_of text % 4 ≢ 1)
    × ((before : Text) × (c : ℕ) × (after : Text) × (strip_spaces text ≡ before ++ (c ∷ after))
        × (i ≡ length before)
        × (i < end_of text)
        × All InAlphabet before
        × (digit_value c ≡ none))

Result-Decodes :
    (text : Text) (d : Decoded)
    → end_of text % 4 ≢ 1
    → Result (end_of text) 0 (strip_spaces text) 0 d
    → Decodes text d
Result-Decodes text (ok out) h ((len, bytes), all) = (h, all, omega (arith, len), bytes)
Result-Decodes text bad_length h r = absurd r
Result-Decodes text (bad_character i) h (before, c, after, split, at, less, all, bad) =
    (h, (before, c, after, split, omega arith, omega arith, all, bad))

-- On every text `decodeBase64` returns ⌊end · 3 / 4⌋ bytes, all below 256, if `end` is not 1 modulo
-- 4 and the characters before it are in the alphabet; throws the length error if `end` is 1 modulo
-- 4; and otherwise names the first character out of the alphabet, which stands before `end`. Here
-- `end` is the length of the text without its whitespace and its last two `=`.
pub decode_base64-Decodes : (text : Text) → Decodes text (decode_base64 text)
unfolding decode_base64 decode_clean
decode_base64-Decodes text = elim (Bool-cases (end_of text % 4 == 1)) [
  | inl one ↦ rw one ((==_iff (end_of text % 4) 1).0 one)
  | inr other ↦ rw other (
      Result-Decodes text _ (ground arith)
        (decode_from-Result (strip_spaces text) (end_of text) 0 0 0 (omega arith) (end_of-le text)))
]
