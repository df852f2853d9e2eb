-- ===== src/Ibb/Sender/Blocks.antt =====
-- What a sending stream has put on the wire.
use xmpp_httpx.Prelude.{
  ℕ, suc, ◌+◌, ◌%◌, min, ◌≤◌, ◌<◌, ◌≡◌, refl, sym, ap, ◌∙◌, List, [], ◌∷◌, ◌++◌, Bool, true, arith,
  length, concat, concat-snoc, append_assoc, drop, take-append-drop, length-append, All, All-append,
}
use xmpp_httpx.Bytes.Buffer.{Bytes, BlockBuffer, size, block}
use xmpp_httpx.Bytes.Buffer.Contents.{IsValid, contents, new-IsValid, push-contents, Takes}
use xmpp_httpx.Ibb.Scheduler.{Sender, has_block}
use xmpp_httpx.Ibb.Sender.{new, sent}
use xmpp_httpx.Ibb.Sender.Calls.{with_bytes}

-- The blocks with their numbers, from the block `from` on.
abbrev pub number : ℕ → List Bytes → List (ℕ × Bytes)
number from [] = []
number from (b ∷ blocks) = (from % 65536, b) ∷ number (suc from) blocks

number-snoc :
    (from : ℕ) (blocks : List Bytes) (b : Bytes)
    → number from (blocks ++ (b ∷ []))
      ≡ number from blocks ++ (((from + length blocks) % 65536, b) ∷ [])
number-snoc from [] b = ap (λ (k : ℕ). (k % 65536, b) ∷ []) (omega arith)
number-snoc from (c ∷ blocks) b =
    ap (λ t. (from % 65536, c) ∷ t)
      (number-snoc (suc from) blocks b
        ∙ ap (λ (k : ℕ). number (suc from) blocks ++ ((k % 65536, b) ∷ [])) (omega arith))

abbrev pub FitsBlock : ℕ → Bytes → Type 0
FitsBlock block_size b = (0 < length b) × (length b ≤ block_size)

pub record IsWired (window block_size seq dispatched : ℕ) (buffered : BlockBuffer) (in_flight : ℕ)
    (wire : List (ℕ × Bytes)) (written : Bytes) : Type 0 where
  pub blocks : List Bytes
  pub buffer : IsValid buffered
  pub on_wire : wire ≡ number 0 blocks
  pub kept : concat blocks ++ contents buffered ≡ written
  pub seq_of : seq ≡ length blocks % 65536
  pub dispatched_of : dispatched ≡ length blocks
  pub sizes : All (FitsBlock block_size) blocks
  pub positive : 0 < block_size
  pub in_window : in_flight ≤ window

abbrev pub IsStream : Sender → Type 0
IsStream t =
    IsWired t.window t.block_size t.seq t.dispatched t.buffered t.in_flight t.wire t.written

pub new-IsStream :
    (window block_size : ℕ) (flush : Bool) → 0 < block_size → IsStream (new window block_size flush)
new-IsStream window block_size flush pos = record {
  blocks = [];
  buffer = new-IsValid;
  on_wire = refl;
  kept = refl;
  seq_of = refl;
  dispatched_of = refl;
  sizes = tt;
  positive = pos;
  in_window = omega arith;
}

pub with_bytes-IsStream : (bytes : Bytes) (t : Sender) → IsStream t → IsStream (with_bytes bytes t)
with_bytes-IsStream bytes t v = record {
  blocks = v.blocks;
  buffer = (push-contents bytes t.buffered v.buffer).1;
  on_wire = v.on_wire;
  kept =
      ap (λ x. concat v.blocks ++ x) (push-contents bytes t.buffered v.buffer).0
      ∙ sym (append_assoc (concat v.blocks) (contents t.buffered) bytes)
      ∙ ap (λ x. x ++ bytes) v.kept;
  seq_of = v.seq_of;
  dispatched_of = v.dispatched_of;
  sizes = v.sizes;
  positive = v.positive;
  in_window = v.in_window;
}

-- The stream after a block of `n` bytes.
pub sent-IsStream :
    (n : ℕ) (bytes : Bytes) (rest : BlockBuffer) (t : Sender)
    → IsStream t
    → t.in_flight < t.window
    → 0 < n
    → n ≤ t.block_size
    → Takes n (contents t.buffered) (block bytes rest)
    → IsStream (sent bytes rest t)
sent-IsStream n bytes rest t v room pos le (out, len, left, valid) = record {
  blocks = v.blocks ++ (bytes ∷ []);
  buffer = valid;
  on_wire =
      ap (λ w. w ++ ((t.seq, bytes) ∷ [])) v.on_wire
      ∙ ap (λ (k : ℕ). number 0 v.blocks ++ ((k, bytes) ∷ [])) number_of
      ∙ sym (number-snoc 0 v.blocks bytes);
  kept =
      ap (λ w. w ++ contents rest) (concat-snoc v.blocks bytes)
      ∙ append_assoc (concat v.blocks) bytes (contents rest)
      ∙ ap (λ w. concat v.blocks ++ (bytes ++ w)) left
      ∙ ap (λ w. concat v.blocks ++ (w ++ drop n (contents t.buffered))) out
      ∙ ap (λ w. concat v.blocks ++ w) (take-append-drop n (contents t.buffered))
      ∙ v.kept;
  seq_of = omega (arith, v.seq_of, length-append v.blocks (bytes ∷ []));
  dispatched_of = omega (arith, v.dispatched_of, length-append v.blocks (bytes ∷ []));
  sizes =
      All-append (FitsBlock t.block_size) v.blocks (bytes ∷ []) v.sizes
        ((omega (arith, len, pos), omega (arith, len, le)), tt);
  positive = v.positive;
  in_window = omega (arith, room);
}
  where
    number_of : t.seq ≡ (0 + length v.blocks) % 65536
    number_of = omega (arith, v.seq_of)

-- A block is never empty, and it is all there.
pub block_length :
    (t : Sender) → 0 < t.block_size → has_block t ≡ true → 0 < min t.block_size (size t.buffered)
block_length t pos h = ground (arith, h, pos)
