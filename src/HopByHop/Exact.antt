-- ===== src/HopByHop/Exact.antt =====
-- Exactly the hop-by-hop headers are taken out.
use xmpp_httpx.Prelude.{◌≡◌, List, [], ◌∷◌, ◌⊎◌}
use xmpp_httpx.JsMap.{text_key}
use xmpp_httpx.Base64.{Text, codes}
use xmpp_httpx.HopByHop.Tokens.{IsToken}

-- The headers that are hop-by-hop by definition.
pub data IsHopByHop (name : Text) : Type 0 where
  connection : name ≡ codes "connection" → IsHopByHop name
  keep_alive : name ≡ codes "keep-alive" → IsHopByHop name
  proxy_connection : name ≡ codes "proxy-connection" → IsHopByHop name
  proxy_authenticate : name ≡ codes "proxy-authenticate" → IsHopByHop name
  proxy_authorization : name ≡ codes "proxy-authorization" → IsHopByHop name
  te : name ≡ codes "te" → IsHopByHop name
  trailer : name ≡ codes "trailer" → IsHopByHop name
  transfer_encoding : name ≡ codes "transfer-encoding" → IsHopByHop name
  upgrade : name ≡ codes "upgrade" → IsHopByHop name

abbrev pub IsStripped : List (Text × Text) → Text → Type 0
IsStripped headers name = IsHopByHop name ⊎ IsToken headers name

abbrev Listed : Text → List Text → Type 0
Listed name [] = ⊥
Listed name (other ∷ names) = (name ≡ other) ⊎ Listed name names
