-- ===== src/Chunked/Sender/Tests.antt =====
-- The sender on a concrete body.
use xmpp_httpx.Prelude.{◌≡◌, refl, [], ◌∷◌, true, false, ◌⊎◌, arith}
use xmpp_httpx.Bytes.Buffer.{push, take_block}
use xmpp_httpx.Base64.{codes, encode_base64}
use xmpp_httpx.Chunked.Sender.{
  Chunk, Body, stream, thrown, signal_aborted, send, send_body, send_parts, push_loop, push_part,
  send_block, send_chunk, Sending,
}
use xmpp_httpx.Chunked.Sender.Abort.{NoLast, IsRejectedLast, send_thrown_unfinished}
use xmpp_httpx.Chunked.Sender.Accepted.{accept_all}
use xmpp_httpx.Chunked.Sender.Blocks.{body_bytes, Delivers, send-Delivers}

-- Five bytes in two parts.
abbrev sample : Body
sample = stream ((false, 1 ∷ 2 ∷ 3 ∷ []) ∷ (false, 4 ∷ 5 ∷ []) ∷ [])

-- The signal is aborted when the second part arrives.
abbrev aborted_sample : Body
aborted_sample = stream ((false, 1 ∷ 2 ∷ 3 ∷ []) ∷ (true, 4 ∷ 5 ∷ []) ∷ [])

abbrev first_chunk : Chunk
first_chunk = record { nr = 0; last = false; payload = codes "AQI=" }

send-Delivers_example : Delivers 2 (body_bytes sample) (send accept_all 2 sample false)
send-Delivers_example =
    send-Delivers accept_all 2 sample (λ n. refl) (omega arith) (refl, (refl, tt))

send_aborted :
    send accept_all 2 aborted_sample false
    ≡ thrown signal_aborted (record {
      nr = 1;
      pending = record { parts = (3 ∷ []) ∷ []; bytes = 1 };
      sent = first_chunk ∷ [];
    })
unfolding send send_body send_parts push_part push_loop send_block send_chunk push take_block
    encode_base64
send_aborted = refl

abbrev after_abort : Sending
after_abort = record {
  nr = 1;
  pending = record { parts = (3 ∷ []) ∷ []; bytes = 1 };
  sent = first_chunk ∷ [];
}

send_thrown_unfinished_example :
    NoLast after_abort ⊎ IsRejectedLast accept_all 2 signal_aborted after_abort
send_thrown_unfinished_example =
    send_thrown_unfinished accept_all 2 aborted_sample false send_aborted
