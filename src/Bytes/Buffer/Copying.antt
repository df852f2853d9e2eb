-- ===== src/Bytes/Buffer/Copying.antt =====
-- The bytes that `BlockBuffer` copies (in `concatBytes`) over a sequence of calls.
use xmpp_httpx.Prelude.{ℕ, ◌+◌, ◌*◌, ◌≤◌, List, [], ◌∷◌, ltb, if◌then◌else◌, length}
use xmpp_httpx.Bytes.Buffer.{
  Bytes, BlockBuffer, new, push, Taken, block, range_error, undefined_part, total_length,
  take_block, drain,
}

pub data Call : Type 0 where
  put : Bytes → Call
  take_call : ℕ → Call
  drain_call : Call

-- A buffer with the bytes pushed to it and copied by it so far.
pub record Meter : Type 0 where
  pub buffer : BlockBuffer
  pub pushed : ℕ
  pub copied : ℕ

-- What `take(n)` copies: all the parts, if the front part alone does not cover the block.
abbrev take_copies : ℕ → List Bytes → ℕ
take_copies n [] = 0
take_copies n (head ∷ rest) = if ltb (length head) n then total_length (head ∷ rest) else 0

-- `drain` copies unless a single part is left.
abbrev drain_copies : List Bytes → ℕ
drain_copies (only ∷ []) = 0
drain_copies parts = total_length parts

after_take : ℕ → Meter → Taken → Meter
after_take n m (block out b) = record m {
  buffer = b;
  copied = m.copied + take_copies n m.buffer.parts;
}
after_take n m range_error = m
after_take n m undefined_part = m

meter : Meter → Call → Meter
unfolding after_take
meter m (put part) = record m { buffer = push part m.buffer; pushed = m.pushed + length part }
meter m (take_call n) = after_take n m (take_block n m.buffer)
meter m drain_call = record m {
  buffer = (drain m.buffer).1;
  copied = m.copied + drain_copies m.buffer.parts;
}

pub run : Meter → List Call → Meter
run m [] = m
run m (c ∷ cs) = run (meter m c) cs

abbrev pub start : Meter
start = record { buffer = new; pushed = 0; copied = 0 }

-- The bytes behind the front part.
abbrev behind : List Bytes → ℕ
behind [] = 0
behind (head ∷ rest) = total_length rest

-- Each byte pays twice: when it is pushed, and when it leaves.
abbrev Paid : Meter → Type 0
Paid m = m.copied + behind m.buffer.parts + total_length m.buffer.parts ≤ 2 * m.pushed

-- What a `take` copies it wins back: the parts that it leaves count for so much less.
abbrev Repaid : ℕ → List Bytes → Taken → Type 0
Repaid n ps (block out b) =
    take_copies n ps + behind b.parts + total_length b.parts ≤ behind ps + total_length ps
Repaid n ps range_error = Unit
Repaid n ps undefined_part = Unit
