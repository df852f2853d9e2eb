-- ===== src/Base64.antt =====
-- src/util/base64.ts. A text is the list of its UTF-16 code units.
pub mod Alphabet
pub mod Length
pub mod RoundTrip
mod Tests
use Prim.Native.Char.{code}
use Prim.Native.String.{String}
use xmpp_httpx.Prelude.{
  ℕ, zero, suc, ◌+◌, ◌-◌, ◌*◌, ◌/◌, ◌%◌, ◌^◌, List, [], ◌∷◌, ◌++◌, Option, none, some, Bool, true,
  false, ◌||◌, ltb, leb, ◌==◌, if◌then◌else◌, length, get_or, set, replicate, reverse,
}
use xmpp_httpx.Bytes.Buffer.{Bytes}

abbrev pub Text : Type 0
Text = List ℕ

abbrev pub codes : String → Text
codes String.[] = []
codes (String.◌∷◌ c s) = code c ∷ codes s

abbrev pub alphabet : Text
alphabet = codes "ABCDEFGHIJKLMNOPQRSTUVWXYZabcdefghijklmnopqrstuvwxyz0123456789+/"

-- The loop that fills `CODES`; an entry that stays -1 is `none`.
pub fill_codes : ℕ → Text → List (Option ℕ) → List (Option ℕ)
fill_codes i [] table = table
fill_codes i (c ∷ cs) table = fill_codes (i + 1) cs (set table c (some i))

pub code_table : List (Option ℕ)
unfolding fill_codes
code_table = fill_codes 0 alphabet (replicate 128 none)

-- `ALPHABET[n]`, for n < 64
unfoldable pub digit : ℕ → ℕ
digit n = get_or alphabet n 0

-- `code < 128 ? CODES[code] : -1`
unfoldable pub digit_value : ℕ → Option ℕ
unfolding code_table
digit_value c = if ltb c 128 then get_or code_table c none else none

-- `x >> k` and `x & 63` of the 24-bit word `n`.
abbrev pub sextet : ℕ → ℕ → ℕ
sextet n k = n / 2 ^ k % 64

abbrev pub pad : ℕ
pad = b'='

-- The bytes of one group have no bit in common once shifted, so `|` is `+`.
unfoldable pub encode_base64 : Bytes → Text
unfolding digit
encode_base64 [] = []
encode_base64 (a ∷ []) =
    let n = a * 2 ^ 16 in digit (sextet n 18) ∷ digit (sextet n 12) ∷ pad ∷ pad ∷ []
encode_base64 (a ∷ b ∷ []) =
    let n = a * 2 ^ 16 + b * 2 ^ 8 in
    digit (sextet n 18) ∷ digit (sextet n 12) ∷ digit (sextet n 6) ∷ pad ∷ []
encode_base64 (a ∷ b ∷ c ∷ rest) =
    let n = a * 2 ^ 16 + b * 2 ^ 8 + c in
    digit (sextet n 18)
    ∷ digit (sextet n 12)
    ∷ digit (sextet n 6)
    ∷ digit (sextet n 0)
    ∷ encode_base64 rest

abbrev pub is_space : ℕ → Bool
is_space c = c == b' ' || (c == 10 || (c == 13 || c == 9))

-- `clean`: the text without its ASCII whitespace.
unfoldable pub strip_spaces : Text → Text
strip_spaces [] = []
strip_spaces (c ∷ cs) = let rest = strip_spaces cs in if is_space c then rest else c ∷ rest

-- `i` is the index that a SyntaxError names.
pub data Decoded : Type 0 where
  ok : Bytes → Decoded
  bad_length : Decoded
  bad_character : ℕ → Decoded

-- `end`: the length without the last `=`, two at most; `cs` is the text read from its end.
unfoldable pub unpadded : ℕ → Text → ℕ
unpadded budget [] = 0
unpadded zero (c ∷ cs) = suc (length cs)
unpadded (suc budget) (c ∷ cs) = if c == pad then unpadded budget cs else suc (length cs)

abbrev pub prepend : Bytes → Decoded → Decoded
prepend bytes (ok rest) = ok (bytes ++ rest)
prepend bytes bad_length = bad_length
prepend bytes (bad_character i) = bad_character i

-- `acc = (acc << 6) | value`, as the 32-bit pattern of the int32 that it is.
abbrev pub shift_in : ℕ → ℕ → ℕ
shift_in acc value = acc * 64 % 2 ^ 32 + value

-- The bits still held once a byte is taken, and the byte taken, if there are 8 of them.
abbrev pub held : ℕ → ℕ
held bits = if leb 8 bits then bits - 8 else bits

abbrev pub emitted : ℕ → ℕ → Bytes
emitted acc bits = if leb 8 bits then (acc / 2 ^ (bits - 8) % 256) ∷ [] else []

-- The decoding loop over the first `end` characters: `i` counts them up, the fuel is `end - i`.
unfoldable pub decode_from : Text → ℕ → ℕ → ℕ → ℕ → Decoded
decode_from cs zero i acc bits = ok []
decode_from [] (suc left) i acc bits = ok []
decode_from (c ∷ cs) (suc left) i acc bits = elim (digit_value c) [
  | none ↦ bad_character i
  | some value ↦
      let acc' = shift_in acc value in
      prepend (emitted acc' (bits + 6)) (decode_from cs left (i + 1) acc' (held (bits + 6)))
]

unfoldable pub decode_clean : Text → Decoded
unfolding decode_from unpadded
decode_clean clean =
    let end = unpadded 2 (reverse clean) in
    if end % 4 == 1 then bad_length else decode_from clean end 0 0 0

unfoldable pub decode_base64 : Text → Decoded
unfolding decode_clean strip_spaces
decode_base64 text = decode_clean (strip_spaces text)

-- `Math.ceil(n / 3) * 4`
unfoldable pub base64_length : ℕ → ℕ
base64_length n = (n + 2) / 3 * 4
