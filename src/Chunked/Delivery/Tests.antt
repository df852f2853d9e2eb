-- ===== src/Chunked/Delivery/Tests.antt =====
-- A body whose three chunks arrive in reverse order.
use mathlib.Core.List.{reverse_perm}
use mathlib.Core.List.Perm as Permutations
use xmpp_httpx.Prelude.{◌≡◌, refl, List, [], ◌∷◌, true, false, reverse, arith}
use xmpp_httpx.Bytes.Buffer.{new, push, take_block, drain}
use xmpp_httpx.Base64.{codes, encode_base64}
use xmpp_httpx.Chunked.Sender.{
  Chunk, Body, stream, going, send, send_body, send_parts, push_loop, push_part, send_block,
  send_last, send_chunk,
}
use xmpp_httpx.Chunked.Sender.Accepted.{accept_all}
use xmpp_httpx.Chunked.Reassembler as R
use xmpp_httpx.Chunked.Reassembler.Order.{deliver}
use xmpp_httpx.Chunked.Delivery.{HasReceived, deliver-send}

abbrev body : Body
body = stream ((false, 1 ∷ 2 ∷ 3 ∷ []) ∷ (false, 4 ∷ 5 ∷ []) ∷ [])

abbrev chunks : List Chunk
chunks =
    record { nr = 0; last = false; payload = codes "AQI=" }
    ∷ record { nr = 1; last = false; payload = codes "AwQ=" }
    ∷ record { nr = 2; last = true; payload = codes "BQ==" }
    ∷ []

sent_body : send accept_all 2 body false ≡ going (record { nr = 2; pending = new; sent = chunks })
unfolding send send_chunk send_body send_parts push_part push_loop send_block send_last push
    take_block drain encode_base64
sent_body = refl

deliver-send_example : HasReceived (1 ∷ 2 ∷ 3 ∷ 4 ∷ 5 ∷ []) (deliver (R.new 5) (reverse chunks))
deliver-send_example =
    deliver-send accept_all 2 5 body (reverse chunks) (omega arith) (refl, (refl, tt)) (omega arith)
      (omega arith) sent_body (Permutations.symm (reverse_perm chunks))
