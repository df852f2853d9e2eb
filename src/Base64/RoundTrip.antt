-- ===== src/Base64/RoundTrip.antt =====
-- Decoding gives back what was encoded, whatever whitespace stands in between.
use mathlib.Core.List.{reverse-append}
use xmpp_httpx.Prelude.{
  ℕ, zero, suc, ◌+◌, ◌*◌, ◌/◌, ◌%◌, ◌^◌, ◌≤◌, ◌<◌, ◌≡◌, ◌≢◌, refl, ap, ap₂, ◌∙◌, ◌≡⟨◌⟩◌, ◌∎,
  All-append, All-reverse, length-reverse, length-map, List, [], ◌∷◌, ◌++◌, map, reverse, false,
  ◌==◌, arith, All, length, replicate,
}
use xmpp_httpx.Bytes.Buffer.{Bytes}
use xmpp_httpx.Base64.{
  Text, digit, sextet, pad, encode_base64, is_space, strip_spaces, ok, unpadded, prepend, shift_in,
  held, emitted, decode_from, decode_clean, decode_base64,
}
use xmpp_httpx.Base64.Alphabet.{digit-IsReadable}

abbrev pub IsByte : ℕ → Type 0
IsByte b = b < 256

-- The values of the digits of the encoding, and the number of `=` behind them.
sextets : Bytes → List ℕ
sextets [] = []
sextets (a ∷ []) = sextet (a * 2 ^ 16) 18 ∷ sextet (a * 2 ^ 16) 12 ∷ []
sextets (a ∷ b ∷ []) = let n = a * 2 ^ 16 + b * 2 ^ 8 in sextet n 18 ∷ sextet n 12 ∷ sextet n 6 ∷ []
sextets (a ∷ b ∷ c ∷ rest) =
    let n = a * 2 ^ 16 + b * 2 ^ 8 + c in
    sextet n 18 ∷ sextet n 12 ∷ sextet n 6 ∷ sextet n 0 ∷ sextets rest

pads : Bytes → ℕ
pads [] = 0
pads (a ∷ []) = 2
pads (a ∷ b ∷ []) = 1
pads (a ∷ b ∷ c ∷ rest) = pads rest

encode_base64-eq :
    (bs : Bytes) → encode_base64 bs ≡ map digit (sextets bs) ++ replicate (pads bs) pad
unfolding encode_base64 sextets pads
encode_base64-eq [] = refl
encode_base64-eq (a ∷ []) = refl
encode_base64-eq (a ∷ b ∷ []) = refl
encode_base64-eq (a ∷ b ∷ c ∷ rest) = rw (encode_base64-eq rest)

sextets-lt : (bs : Bytes) → All (λ v. v < 64) (sextets bs)
unfolding sextets
sextets-lt [] = tt
sextets-lt (a ∷ []) = omega arith
sextets-lt (a ∷ b ∷ []) = omega arith
sextets-lt (a ∷ b ∷ c ∷ rest) =
    (omega arith, (omega arith, (omega arith, (omega arith, sextets-lt rest))))

pads-le : (bs : Bytes) → pads bs ≤ 2
unfolding pads
pads-le [] = omega arith
pads-le (a ∷ []) = omega arith
pads-le (a ∷ b ∷ []) = omega arith
pads-le (a ∷ b ∷ c ∷ rest) = pads-le rest

length-sextets : (bs : Bytes) → length (sextets bs) % 4 ≢ 1
unfolding sextets
length-sextets [] = omega arith
length-sextets (a ∷ []) = omega arith
length-sextets (a ∷ b ∷ []) = omega arith
length-sextets (a ∷ b ∷ c ∷ rest) = omega (arith, length-sextets rest)

-- The number of digits is never 1 modulo 4.
length-sextets-mod : (bs : Bytes) → (length (sextets bs) % 4 == 1) ≡ false
length-sextets-mod bs = ground (arith, length-sextets bs)

-- The bytes that the decoding loop emits for digits of these values.
regroup : List ℕ → ℕ → ℕ → Bytes
regroup [] acc bits = []
regroup (v ∷ vs) acc bits =
    emitted (shift_in acc v) (bits + 6) ++ regroup vs (shift_in acc v) (held (bits + 6))

decode_from-digits :
    (vs : List ℕ) (rest : Text) (i acc bits : ℕ)
    → All (λ v. v < 64) vs
    → decode_from (map digit vs ++ rest) (length vs) i acc bits ≡ ok (regroup vs acc bits)
unfolding decode_from regroup
decode_from-digits [] [] i acc bits h = refl
decode_from-digits [] (c ∷ rest) i acc bits h = refl
decode_from-digits (v ∷ vs) rest i acc bits h =
    let d = digit-IsReadable v h.0 in
    rw (d.valued, decode_from)
      (ap (prepend (emitted (shift_in acc v) (bits + 6)))
        (decode_from-digits vs rest (i + 1) (shift_in acc v) (held (bits + 6)) h.1))

-- The three bytes of four digits, whatever the accumulator held before.
first_byte :
    (acc v w : ℕ) → v < 64 → w < 64 → shift_in (shift_in acc v) w / 2 ^ 4 % 256 ≡ v * 4 + w / 16
first_byte acc v w hv hw = omega arith

second_byte :
    (acc v w : ℕ)
    → v < 64
    → w < 64
    → shift_in (shift_in acc v) w / 2 ^ 2 % 256 ≡ v % 16 * 16 + w / 4
second_byte acc v w hv hw = omega arith

third_byte :
    (acc v w : ℕ) → v < 64 → w < 64 → shift_in (shift_in acc v) w / 2 ^ 0 % 256 ≡ v % 4 * 64 + w
third_byte acc v w hv hw = omega arith

sextet-lt : (n k : ℕ) → sextet n k < 64
sextet-lt n k = omega arith

first-sextets :
    (a b c : ℕ)
    → b < 256
    → c < 256
    → a < 256
    → let n = a * 2 ^ 16 + b * 2 ^ 8 + c in sextet n 18 * 4 + sextet n 12 / 16 ≡ a
first-sextets a b c hb hc ha = omega arith

second-sextets :
    (a b c : ℕ)
    → b < 256
    → c < 256
    → let n = a * 2 ^ 16 + b * 2 ^ 8 + c in sextet n 12 % 16 * 16 + sextet n 6 / 4 ≡ b
second-sextets a b c hb hc = omega arith

third-sextets :
    (a b c : ℕ)
    → c < 256
    → let n = a * 2 ^ 16 + b * 2 ^ 8 + c in sextet n 6 % 4 * 64 + sextet n 0 ≡ c
third-sextets a b c hc = omega arith

regroup-sextets : (bs : Bytes) (acc : ℕ) → All IsByte bs → regroup (sextets bs) acc 0 ≡ bs
unfolding regroup sextets
regroup-sextets [] acc h = refl
regroup-sextets (a ∷ []) acc h =
    let n = a * 2 ^ 16 in
    ap (λ (t : ℕ). t ∷ [])
      (first_byte acc (sextet n 18) (sextet n 12) (sextet-lt n 18) (sextet-lt n 12) ∙ omega arith)
regroup-sextets (a ∷ b ∷ []) acc h =
    let n = a * 2 ^ 16 + b * 2 ^ 8 in
    let acc' = shift_in acc (sextet n 18) in
    ap₂ (λ (t u : ℕ). t ∷ u ∷ [])
      (first_byte acc (sextet n 18) (sextet n 12) (sextet-lt n 18) (sextet-lt n 12) ∙ omega arith)
      (second_byte acc' (sextet n 12) (sextet n 6) (sextet-lt n 12) (sextet-lt n 6) ∙ omega arith)
regroup-sextets (a ∷ b ∷ c ∷ rest) acc (ha, (hb, (hc, h))) =
    let n = a * 2 ^ 16 + b * 2 ^ 8 + c in
    let p = shift_in acc (sextet n 18) in
    let q = shift_in p (sextet n 12) in
    let r = shift_in q (sextet n 6) in
    ap₂ ◌∷◌
      (first_byte acc (sextet n 18) (sextet n 12) (sextet-lt n 18) (sextet-lt n 12)
        ∙ first-sextets a b c hb hc ha)
      (ap₂ ◌∷◌
        (second_byte p (sextet n 12) (sextet n 6) (sextet-lt n 12) (sextet-lt n 6)
          ∙ second-sextets a b c hb hc)
        (ap₂ ◌∷◌
          (third_byte q (sextet n 6) (sextet n 0) (sextet-lt n 6) (sextet-lt n 0)
            ∙ third-sextets a b c hc)
          (regroup-sextets rest (shift_in r (sextet n 0)) h)))

unpadded-pads :
    (budget p : ℕ) (xs : Text)
    → p ≤ budget
    → All (λ c. (c == pad) ≡ false) xs
    → unpadded budget (replicate p pad ++ xs) ≡ length xs
unfolding unpadded
unpadded-pads zero zero [] h all = refl
unpadded-pads zero zero (x ∷ xs) h all = refl
unpadded-pads (suc budget) zero [] h all = refl
unpadded-pads (suc budget) zero (x ∷ xs) h all = rw all.0
unpadded-pads zero (suc p) xs h all = absurd (omega arith)
unpadded-pads (suc budget) (suc p) xs h all = unpadded-pads budget p xs (omega arith) all

NotPad-digits : (vs : List ℕ) → All (λ v. v < 64) vs → All (λ c. (c == pad) ≡ false) (map digit vs)
NotPad-digits [] h = tt
NotPad-digits (v ∷ vs) h = ((digit-IsReadable v h.0).not_pad, NotPad-digits vs h.1)

reverse-pads : (p : ℕ) → p ≤ 2 → reverse (replicate p pad) ≡ replicate p pad
reverse-pads zero h = refl
reverse-pads (suc zero) h = refl
reverse-pads (suc (suc zero)) h = refl
reverse-pads (suc (suc (suc p))) h = absurd (omega arith)

-- Without its padding the encoding is as long as it has digits.
unpadded-encode : (bs : Bytes) → unpadded 2 (reverse (encode_base64 bs)) ≡ length (sextets bs)
unpadded-encode bs =
    let ds = map digit (sextets bs) in
    unpadded 2 (reverse (encode_base64 bs))
    ≡⟨ ap (λ (t : Text). unpadded 2 (reverse t)) (encode_base64-eq bs) ⟩
      unpadded 2 (reverse (ds ++ replicate (pads bs) pad))
    ≡⟨ ap (unpadded 2) (reverse-append ds (replicate (pads bs) pad)) ⟩
      unpadded 2 (reverse (replicate (pads bs) pad) ++ reverse ds)
    ≡⟨ ap (λ (t : Text). unpadded 2 (t ++ reverse ds)) (reverse-pads (pads bs) (pads-le bs)) ⟩
      unpadded 2 (replicate (pads bs) pad ++ reverse ds)
    ≡⟨ unpadded-pads 2 (pads bs) (reverse ds) (pads-le bs)
        (All-reverse (λ c. (c == pad) ≡ false) ds (NotPad-digits (sextets bs) (sextets-lt bs))) ⟩
      length (reverse ds)
    ≡⟨ length-reverse ds ∙ length-map digit (sextets bs) ⟩ length (sextets bs) ∎

decode_clean-encode : (bs : Bytes) → All IsByte bs → decode_clean (encode_base64 bs) ≡ ok bs
unfolding decode_clean
decode_clean-encode bs h =
    rw (unpadded-encode bs, length-sextets-mod bs, encode_base64-eq bs)
      (decode_from-digits (sextets bs) (replicate (pads bs) pad) 0 0 0 (sextets-lt bs)
        ∙ ap ok (regroup-sextets bs 0 h))

pub decode_base64-encode_base64 :
    (bs : Bytes) (text : Text)
    → All IsByte bs
    → strip_spaces text ≡ encode_base64 bs
    → decode_base64 text ≡ ok bs
unfolding decode_base64
decode_base64-encode_base64 bs text h e = ap decode_clean e ∙ decode_clean-encode bs h

All-encode : (bs : Bytes) → All (λ c. is_space c ≡ false) (encode_base64 bs)
All-encode bs = rw (encode_base64-eq bs) (
    All-append (λ c. is_space c ≡ false) (map digit (sextets bs)) (replicate (pads bs) pad)
      (digits (sextets bs) (sextets-lt bs)) (padding (pads bs)))
  where
    digits : (vs : List ℕ) → All (λ v. v < 64) vs → All (λ c. is_space c ≡ false) (map digit vs)
    digits [] h = tt
    digits (v ∷ vs) h = ((digit-IsReadable v h.0).not_space, digits vs h.1)

    padding : (p : ℕ) → All (λ c. is_space c ≡ false) (replicate p pad)
    padding zero = tt
    padding (suc p) = (refl, padding p)

strip_spaces-eq : (t : Text) → All (λ c. is_space c ≡ false) t → strip_spaces t ≡ t
unfolding strip_spaces
strip_spaces-eq [] h = refl
strip_spaces-eq (c ∷ cs) h = rw h.0 (ap (λ (t : Text). c ∷ t) (strip_spaces-eq cs h.1))

-- The encoding holds no whitespace, so it is decoded as it stands.
pub decode-encode : (bs : Bytes) → All IsByte bs → decode_base64 (encode_base64 bs) ≡ ok bs
decode-encode bs h =
    decode_base64-encode_base64 bs (encode_base64 bs) h
      (strip_spaces-eq (encode_base64 bs) (All-encode bs))
