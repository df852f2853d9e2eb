-- ===== src/Bytes/Buffer/Tests.antt =====
-- The block buffer on concrete bytes.
use xmpp_httpx.Prelude.{◌≡◌, refl, [], ◌∷◌, ◌++◌, arith}
use xmpp_httpx.Bytes.Buffer.{
  BlockBuffer, new, push, block, range_error, take_block, take_amount, fractional, drain,
}
use xmpp_httpx.Bytes.Buffer.Contents.{
  IsValid, contents, Takes, push-contents, take_block-Takes, drain-contents,
}

-- Two parts, the first shorter than a block of 3.
abbrev two_parts : BlockBuffer
two_parts = record { parts = (1 ∷ 2 ∷ []) ∷ (3 ∷ 4 ∷ 5 ∷ []) ∷ []; bytes = 5 }

two_parts-IsValid : IsValid two_parts
two_parts-IsValid = record { counted = refl; no_empty = omega arith }

coalesced :
    take_block 3 two_parts
    ≡ block (1 ∷ 2 ∷ 3 ∷ []) (record { parts = (4 ∷ 5 ∷ []) ∷ []; bytes = 2 })
unfolding take_block
coalesced = refl

viewed :
    take_block 2 two_parts
    ≡ block (1 ∷ 2 ∷ []) (record { parts = (3 ∷ 4 ∷ 5 ∷ []) ∷ []; bytes = 3 })
unfolding take_block
viewed = refl

push-contents_example :
    (contents (push (6 ∷ []) two_parts) ≡ contents two_parts ++ (6 ∷ []))
    × IsValid (push (6 ∷ []) two_parts)
push-contents_example = push-contents (6 ∷ []) two_parts two_parts-IsValid

take_block-Takes_example : Takes 3 (contents two_parts) (take_block 3 two_parts)
take_block-Takes_example =
    take_block-Takes 3 two_parts two_parts-IsValid (omega arith) (omega arith)

half_refused : take_amount fractional two_parts ≡ range_error
unfolding take_amount
half_refused = refl

drain-contents_example : drain two_parts ≡ (contents two_parts, new)
drain-contents_example = drain-contents two_parts
