-- ===== src/Chunked/Sender.antt =====
-- The class `ChunkedSender` of src/transport/chunked.ts.
-- Every message goes to the same peer for the same stream id; what differs from one to the next is
-- a `Chunk`. `session.send` is the XMPP session's: the parameter `accept` tells of each number
-- whether it accepts the chunk of that number or rejects it.
pub mod Blocks
pub mod Abort
pub mod Accepted
mod Tests
use xmpp_httpx.Prelude.{
  ℕ, zero, suc, ◌+◌, List, [], ◌∷◌, ◌++◌, Bool, true, false, ltb, if◌then◌else◌,
}
use xmpp_httpx.Bytes.Buffer.{
  Bytes, BlockBuffer, Taken, new, size, push, block, range_error, undefined_part, take_block, drain,
}
use xmpp_httpx.Base64.{Text, encode_base64}

-- `nr`, whether `last='true'` is set, and the base64 text.
pub record Chunk : Type 0 where
  pub nr : ℕ
  pub last : Bool
  pub payload : Text

-- The local variables of `send`, and the messages handed to the session so far.
pub record Sending : Type 0 where
  pub nr : ℕ
  pub pending : BlockBuffer
  pub sent : List Chunk

pub data SendError : Type 0 where
  signal_aborted take_failed send_rejected body_failed : SendError

pub data Outcome : Type 0 where
  going : Sending → Outcome
  thrown : SendError → Sending → Outcome
  out_of_fuel : Outcome

infixl 5 ◌>>=◌
abbrev pub ◌>>=◌ : Outcome → (Sending → Outcome) → Outcome
going s >>= k = k s
thrown e s >>= k = thrown e s
out_of_fuel >>= k = out_of_fuel

-- The message is built and handed over; what it throws is what `session.send` rejects with.
unfoldable pub send_chunk : (ℕ → Bool) → Bool → Bytes → Sending → Outcome
send_chunk accept last bytes s =
    let handed = record s {
      sent = s.sent ++ (record { nr = s.nr; last = last; payload = encode_base64 bytes } ∷ []);
    } in
    if accept s.nr then going handed else thrown send_rejected handed

-- One round of the loop of `push`: a full block leaves the buffer, and `nr++`.
abbrev pub send_taken : (ℕ → Bool) → Taken → Sending → Outcome
send_taken accept (block out rest) s = do
  sent ← send_chunk accept false out (record s { pending = rest })
  going (record sent { nr = sent.nr + 1 })
send_taken accept range_error s = thrown take_failed s
send_taken accept undefined_part s = thrown take_failed s

unfoldable pub send_block : (ℕ → Bool) → ℕ → Sending → Outcome
send_block accept chunk_size s = send_taken accept (take_block chunk_size s.pending) s

-- `while (pending.size > chunkSize)`
unfoldable pub push_loop : (ℕ → Bool) → ℕ → ℕ → Sending → Outcome
push_loop accept zero chunk_size s = out_of_fuel
push_loop accept (suc fuel) chunk_size s =
    let next = send_block accept chunk_size s >>= push_loop accept fuel chunk_size in
    if ltb chunk_size (size s.pending) then next else going s

-- Each round takes a byte at least, so the size and one more is fuel enough.
unfoldable pub push_part : (ℕ → Bool) → ℕ → Bytes → Sending → Outcome
push_part accept chunk_size part s =
    let buffered = record s { pending = push part s.pending } in
    push_loop accept (suc (size buffered.pending)) chunk_size buffered

-- A `Uint8Array`, the parts of a stream, each with the state of the abort signal on its arrival, or
-- such parts of a stream that then errors.
pub data Body : Type 0 where
  whole : Bytes → Body
  stream broken_stream : List (Bool × Bytes) → Body

unfoldable pub send_parts : (ℕ → Bool) → ℕ → List (Bool × Bytes) → Sending → Outcome
send_parts accept chunk_size [] s = going s
send_parts accept chunk_size ((gone, part) ∷ parts) s =
    let next = push_part accept chunk_size part s >>= send_parts accept chunk_size parts in
    if gone then thrown signal_aborted s else next

unfoldable pub send_body : (ℕ → Bool) → ℕ → Body → Sending → Outcome
send_body accept chunk_size (whole bytes) s = push_part accept chunk_size bytes s
send_body accept chunk_size (stream parts) s = send_parts accept chunk_size parts s
send_body accept chunk_size (broken_stream parts) s =
    send_parts accept chunk_size parts s >>= thrown body_failed

-- The last chunk carries what is left, be it nothing.
unfoldable pub send_last : (ℕ → Bool) → Bool → Sending → Outcome
send_last accept gone s =
    let (out, rest) = drain s.pending in
    let sent = send_chunk accept true out (record s { pending = rest }) in
    if gone then thrown signal_aborted s else sent

abbrev pub idle : Sending
idle = record { nr = 0; pending = new; sent = [] }

-- `gone` is the state of the abort signal at the end of the body.
unfoldable pub send : (ℕ → Bool) → ℕ → Body → Bool → Outcome
send accept chunk_size body gone = do
  s ← send_body accept chunk_size body idle
  send_last accept gone s
