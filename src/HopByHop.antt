-- ===== src/HopByHop.antt =====
-- src/node/hop-by-hop.ts: the headers that describe one connection and that a proxy does not forward.
-- A `Headers` object is the map from its names, in lower case, to their values.
pub mod Tokens
pub mod Exact
mod Tests
use xmpp_httpx.Prelude.{
  ℕ, List, [], ◌∷◌, ◌++◌, Option, none, some, Bool, true, false, ◌==◌, if◌then◌else◌, length, map,
}
use xmpp_httpx.JsMap.{text_key, get?, delete}
use xmpp_httpx.Base64.{Text, codes}
use xmpp_httpx.Select.{trim, lower_case}
use xmpp_httpx.Negotiate.{first_piece, later_pieces}

abbrev pub hop_by_hop : List Text
hop_by_hop =
    codes "connection"
    ∷ codes "keep-alive"
    ∷ codes "proxy-connection"
    ∷ codes "proxy-authenticate"
    ∷ codes "proxy-authorization"
    ∷ codes "te"
    ∷ codes "trailer"
    ∷ codes "transfer-encoding"
    ∷ codes "upgrade"
    ∷ []

-- `text.split(",").map((token) => token.trim().toLowerCase())`
unfoldable pub tokens_of : Text → List Text
tokens_of text =
    map (λ token. lower_case (trim token)) (first_piece b',' text ∷ later_pieces b',' text)

-- `filter(Boolean)`
unfoldable pub kept_tokens : List Text → List Text
kept_tokens [] = []
kept_tokens (token ∷ tokens) =
    let rest = kept_tokens tokens in if length token == 0 then rest else token ∷ rest

abbrev pub text_or_empty : Option Text → Text
text_or_empty none = []
text_or_empty (some text) = text

unfoldable pub named_of : List (Text × Text) → List Text
named_of headers = kept_tokens (tokens_of (text_or_empty (get? (codes "connection") headers)))

unfoldable pub delete_each : List Text → List (Text × Text) → List (Text × Text)
delete_each [] headers = headers
delete_each (name ∷ names) headers = delete_each names (delete name headers)

unfoldable pub strip_hop_by_hop : List (Text × Text) → List (Text × Text)
strip_hop_by_hop headers = delete_each (hop_by_hop ++ named_of headers) headers
