-- ===== src/HopByHop/Tests.antt =====
-- A request with a Connection field that names a header of its own.
use xmpp_httpx.Prelude.{◌≡◌, refl, List, [], ◌∷◌}
use xmpp_httpx.JsMap.{text_key}
use xmpp_httpx.Base64.{Text, codes}
use xmpp_httpx.Select.{trim, trim_end, trim_start}
use xmpp_httpx.Negotiate.{first_piece, later_pieces}
use xmpp_httpx.HopByHop.{named_of, tokens_of, kept_tokens}

abbrev request : List (Text × Text)
request =
    (codes "connection", codes "X-Hop, close")
    ∷ (codes "x-hop", codes "1")
    ∷ (codes "accept", codes "*/*")
    ∷ []

named : named_of request ≡ codes "x-hop" ∷ codes "close" ∷ []
unfolding named_of tokens_of kept_tokens first_piece later_pieces trim trim_end trim_start
named = refl
