-- ===== src/Bytes/Buffer.antt =====
-- `concatBytes` and the class `BlockBuffer` of src/util/bytes.ts.
-- A `Uint8Array` is the list of its bytes, a subarray is a sublist. Every method returns the new
-- buffer; what it throws is a value of `Taken`.
pub mod Contents
pub mod Copying
mod Tests
use xmpp_httpx.Prelude.{
  ℕ, zero, suc, ◌+◌, ◌-◌, List, [], ◌∷◌, ◌++◌, Bool, ◌||◌, ltb, ◌==◌, if◌then◌else◌, length, take,
  drop, concat,
}

abbrev pub Bytes : Type 0
Bytes = List ℕ

-- The loop that adds up the lengths of the parts.
unfoldable pub total_length : List Bytes → ℕ
total_length [] = 0
total_length (p ∷ ps) = length p + total_length ps

-- The result array holds the parts one after the other.
abbrev pub concat_bytes : List Bytes → Bytes
concat_bytes parts = concat parts

pub record BlockBuffer : Type 0 where
  pub parts : List Bytes
  pub bytes : ℕ

abbrev pub new : BlockBuffer
new = record { parts = []; bytes = 0 }

abbrev pub size : BlockBuffer → ℕ
size b = b.bytes

unfoldable pub push : Bytes → BlockBuffer → BlockBuffer
push part b =
    if length part == 0
    then b
    else record { parts = b.parts ++ (part ∷ []); bytes = b.bytes + length part }

-- `take` returns a block, throws a RangeError, or runs into `parts[0]!` being undefined.
pub data Taken : Type 0 where
  block : Bytes → BlockBuffer → Taken
  range_error : Taken
  undefined_part : Taken

-- The cut at the front part `head`, once it covers the block: the block is a view, the rest stays.
unfoldable pub cut : ℕ → Bytes → List Bytes → ℕ → Taken
cut n head rest bytes =
    block (take n head) (record {
      parts = if ltb n (length head) then drop n head ∷ rest else rest;
      bytes = bytes - n;
    })

-- `#bytes -= n` runs only at n ≤ #bytes. `take_block` is what `take` does with a whole number.
unfoldable pub take_from : ℕ → List Bytes → ℕ → Taken
unfolding cut
take_from n [] bytes = undefined_part
take_from n (head ∷ rest) bytes =
    if ltb (length head) n
    then cut n (concat_bytes (head ∷ rest)) [] bytes
    else cut n head rest bytes

unfoldable pub take_block : ℕ → BlockBuffer → Taken
unfolding take_from
take_block n b = if n == 0 || ltb b.bytes n then range_error else take_from n b.parts b.bytes

-- The argument of `take` as a number of the source: a whole one, or one that is refused.
pub data Amount : Type 0 where
  whole : ℕ → Amount
  negative fractional : Amount

-- `take`, with all the checks of its argument.
unfoldable pub take_amount : Amount → BlockBuffer → Taken
take_amount (whole n) b = take_block n b
take_amount negative b = range_error
take_amount fractional b = range_error

unfoldable pub drain_parts : List Bytes → Bytes
drain_parts (only ∷ []) = only
drain_parts parts = concat_bytes parts

unfoldable pub drain : BlockBuffer → Bytes × BlockBuffer
unfolding drain_parts
drain b = (drain_parts b.parts, new)
