-- ===== src/Select/Tests.antt =====
-- The theorems on encodings and sizes at concrete inputs.
use xmpp_httpx.Prelude.{length, ◌+◌, ◌≤◌, ◌≡◌, [], ◌∷◌, Option, none, true, false, not, arith}
use xmpp_httpx.Base64.{Text, base64_length}
use xmpp_httpx.Bytes.Buffer.{Bytes}
use xmpp_httpx.Select.{
  SelectInput, StreamAcceptFlags, bytes, ibb, jingle, select_stream, can_stream, stanza_budgets,
  escaped_length,
}
use xmpp_httpx.Select.Choice.{can_stream-eq-not-too_large, is_too_large}
use xmpp_httpx.Select.Sizes.{stanza_budgets-fit, escape, escaped_length-eq-length-escape}

abbrev flags : StreamAcceptFlags
flags = record {
  ibb_flag = false;
  chunked_flag = true;
  sipub_flag = false;
  jingle_flag = true;
  max_chunk_size = none;
}

abbrev input : SelectInput
input = record {
  body = bytes (1 ∷ 2 ∷ []);
  content_type = none;
  accept = flags;
  inline_budget_bytes = 3;
  preferred_streams = ibb ∷ jingle ∷ [];
}

abbrev no_text : Bytes → Option Text
no_text body = none

stanza_budgets-fit_example :
    ((stanza_budgets 262144).inline_budget + 2048 ≤ 262144)
    × (base64_length (stanza_budgets 262144).chunk_size + 510 ≤ 262144)
    × (256 ≤ (stanza_budgets 262144).chunk_size)
    × ((stanza_budgets 262144).chunk_size ≤ 65536)
stanza_budgets-fit_example = stanza_budgets-fit 262144 (omega arith)

escaped_length_example : escaped_length (b'a' ∷ b'&' ∷ []) ≡ length (escape (b'a' ∷ b'&' ∷ []))
escaped_length_example = escaped_length-eq-length-escape (b'a' ∷ b'&' ∷ [])

can_stream_example :
    can_stream flags (ibb ∷ jingle ∷ [])
    ≡ not (is_too_large (select_stream flags (ibb ∷ jingle ∷ [])))
can_stream_example = can_stream-eq-not-too_large flags (ibb ∷ jingle ∷ [])
