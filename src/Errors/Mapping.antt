-- ===== src/Errors/Mapping.antt =====
-- Which HTTP status an error of the XMPP stack stands for.
use xmpp_httpx.Prelude.{ℕ, ◌≡◌, List, [], ◌∷◌, Option, none, some, Bool, true, false, ◌⊎◌}
use xmpp_httpx.JsMap.{text_key, get?}
use xmpp_httpx.Base64.{Text, codes}
use xmpp_httpx.Errors.{ErrorCode}
use xmpp_httpx.Errors.Conditions.{
  HttpxError, Mapped, Thrown, as_httpx_error, with_condition, timeout_error, abort_error,
  anything_else, condition_map, inherited,
}

abbrev pub Listed : Text → List Text → Type 0
Listed name [] = ⊥
Listed name (other ∷ names) = (name ≡ other) ⊎ Listed name names

-- The conditions by what they say, with the code and the HTTP status for each kind.
pub data Classified (condition : Text) : ErrorCode → ℕ → Type 0 where
  refused :
      Listed condition (
        codes "forbidden"
        ∷ codes "not-authorized"
        ∷ codes "not-allowed"
        ∷ codes "registration-required"
        ∷ codes "subscription-required"
        ∷ codes "policy-violation"
        ∷ [])
      → Classified condition ErrorCode.forbidden 403
  missing :
      Listed condition (codes "item-not-found" ∷ []) → Classified condition ErrorCode.not_found 404
  unsupported :
      Listed condition (codes "feature-not-implemented" ∷ [])
      → Classified condition ErrorCode.not_implemented 501
  unreachable :
      Listed condition (
        codes "service-unavailable"
        ∷ codes "recipient-unavailable"
        ∷ codes "remote-server-not-found"
        ∷ codes "gone"
        ∷ codes "redirect"
        ∷ codes "internal-server-error"
        ∷ codes "undefined-condition"
        ∷ [])
      → Classified condition ErrorCode.unavailable 502
  late :
      Listed condition (codes "remote-server-timeout" ∷ [])
      → Classified condition ErrorCode.timeout 504
  too_big :
      Listed condition (codes "resource-constraint" ∷ [])
      → Classified condition ErrorCode.payload_too_large 413
  malformed :
      Listed condition (codes "bad-request" ∷ codes "unexpected-request" ∷ [])
      → Classified condition ErrorCode.protocol_error 400
  unacceptable :
      Listed condition (codes "not-acceptable" ∷ [])
      → Classified condition ErrorCode.protocol_error 406
  conflicting :
      Listed condition (codes "conflict" ∷ []) → Classified condition ErrorCode.protocol_error 409

-- The conditions that happen to be the name of a property that every object has.
abbrev pub IsPrototypeName : Text → Type 0
IsPrototypeName condition = Listed condition inherited

-- What an error with a condition becomes.
abbrev pub ConditionMaps : Text → HttpxError → Type 0
ConditionMaps condition result =
    ((code : ErrorCode) × (http : ℕ) × Classified condition code http
      × (result ≡ record { code = some code; http_equivalent = some http }))
    ⊎ (IsPrototypeName condition × (result ≡ record { code = none; http_equivalent = none }))
    ⊎ ((¬ ((code : ErrorCode) × (http : ℕ) × Classified condition code http))
        × (¬ IsPrototypeName condition)
        × (result ≡ record { code = some ErrorCode.unavailable; http_equivalent = some 502 }))

abbrev pub Maps : Thrown → HttpxError → Type 0
Maps (as_httpx_error error) result = result ≡ error
Maps (with_condition condition) result = ConditionMaps condition result
Maps timeout_error result =
    result ≡ record { code = some ErrorCode.timeout; http_equivalent = some 504 }
Maps abort_error result =
    result ≡ record { code = some ErrorCode.aborted; http_equivalent = some 499 }
Maps anything_else result =
    result ≡ record { code = some ErrorCode.unavailable; http_equivalent = some 502 }

IsRow : Text × Mapped → Type 0
IsRow (condition, mapped) = Classified condition mapped.code mapped.http

abbrev is_found : Option Mapped → Bool
is_found none = false
is_found (some m) = true

-- Whether the map has an entry.
has_entry : Text → Bool
has_entry condition = is_found (get? condition condition_map)
