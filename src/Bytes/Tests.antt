-- ===== src/Bytes/Tests.antt =====
-- The caps on streams on concrete chunks.
use xmpp_httpx.Prelude.{
  ◌≡◌, refl, List, [], ◌∷◌, none, some, true, ltb, if◌then◌else◌, length, concat,
}
use xmpp_httpx.Bytes.Buffer.{Bytes}
use xmpp_httpx.Bytes.Streams.{
  collected, too_large, bytes_from_stream, limit_stream, Caps, bytes_from_stream_lem,
  limit_stream-Caps,
}

abbrev chunks : List Bytes
chunks = (1 ∷ 2 ∷ []) ∷ (3 ∷ []) ∷ (4 ∷ 5 ∷ []) ∷ []

stops_before_third :
    limit_stream 4 chunks ≡ record { passed = (1 ∷ 2 ∷ []) ∷ (3 ∷ []) ∷ []; errored = true }
unfolding limit_stream
stops_before_third = refl

bytes_from_stream_lem_example :
    (bytes_from_stream none chunks ≡ collected (concat chunks))
    × (bytes_from_stream (some 4) chunks
        ≡ (if ltb 4 (length (concat chunks)) then too_large else collected (concat chunks)))
bytes_from_stream_lem_example = bytes_from_stream_lem 4 chunks

limit_stream-Caps_example : Caps 4 0 chunks (limit_stream 4 chunks)
limit_stream-Caps_example = limit_stream-Caps 4 chunks
