-- ===== src/Errors/Conditions.antt =====
-- `fromXmppError` and `CONDITION_MAP` of src/errors.ts, without the messages of the errors.
-- `CONDITION_MAP[condition]` also finds what the object inherits; the names of those properties are
-- the ones that ECMAScript gives to `Object.prototype`. None of them has a `code` or an `http`.
use xmpp_httpx.Prelude.{ℕ, List, [], ◌∷◌, Option, none, some, Bool, false, ◌||◌, if◌then◌else◌}
use xmpp_httpx.JsMap.{text_key, text_beq, get?}
use xmpp_httpx.Base64.{Text, codes}
use xmpp_httpx.Errors.{ErrorCode, default_http_equivalent}

-- A field is `none` where the source leaves it undefined.
pub record HttpxError : Type 0 where
  pub code : Option ErrorCode
  pub http_equivalent : Option ℕ

-- `new HttpxError(code, message, options)`, where either may be undefined.
abbrev pub new_httpx_error : Option ErrorCode → Option ℕ → HttpxError
new_httpx_error code (some http) = record { code = code; http_equivalent = some http }
new_httpx_error none none = record { code = none; http_equivalent = none }
new_httpx_error (some code) none = record {
  code = some code;
  http_equivalent = some (default_http_equivalent code);
}

pub record Mapped : Type 0 where
  pub code : ErrorCode
  pub http : ℕ

abbrev row : Text → ErrorCode → ℕ → Text × Mapped
row condition code http = (condition, record { code = code; http = http })

abbrev pub condition_map : List (Text × Mapped)
condition_map =
    row (codes "forbidden") ErrorCode.forbidden 403
    ∷ row (codes "not-authorized") ErrorCode.forbidden 403
    ∷ row (codes "not-allowed") ErrorCode.forbidden 403
    ∷ row (codes "registration-required") ErrorCode.forbidden 403
    ∷ row (codes "subscription-required") ErrorCode.forbidden 403
    ∷ row (codes "item-not-found") ErrorCode.not_found 404
    ∷ row (codes "feature-not-implemented") ErrorCode.not_implemented 501
    ∷ row (codes "service-unavailable") ErrorCode.unavailable 502
    ∷ row (codes "recipient-unavailable") ErrorCode.unavailable 502
    ∷ row (codes "remote-server-not-found") ErrorCode.unavailable 502
    ∷ row (codes "gone") ErrorCode.unavailable 502
    ∷ row (codes "redirect") ErrorCode.unavailable 502
    ∷ row (codes "remote-server-timeout") ErrorCode.timeout 504
    ∷ row (codes "resource-constraint") ErrorCode.payload_too_large 413
    ∷ row (codes "bad-request") ErrorCode.protocol_error 400
    ∷ row (codes "not-acceptable") ErrorCode.protocol_error 406
    ∷ row (codes "unexpected-request") ErrorCode.protocol_error 400
    ∷ row (codes "conflict") ErrorCode.protocol_error 409
    ∷ row (codes "policy-violation") ErrorCode.forbidden 403
    ∷ row (codes "internal-server-error") ErrorCode.unavailable 502
    ∷ row (codes "undefined-condition") ErrorCode.unavailable 502
    ∷ []

-- The properties of every object.
abbrev pub inherited : List Text
inherited =
    codes "constructor"
    ∷ codes "__defineGetter__"
    ∷ codes "__defineSetter__"
    ∷ codes "hasOwnProperty"
    ∷ codes "__lookupGetter__"
    ∷ codes "__lookupSetter__"
    ∷ codes "isPrototypeOf"
    ∷ codes "propertyIsEnumerable"
    ∷ codes "toString"
    ∷ codes "valueOf"
    ∷ codes "__proto__"
    ∷ codes "toLocaleString"
    ∷ []

abbrev pub is_one_of : Text → List Text → Bool
is_one_of name [] = false
is_one_of name (other ∷ names) = text_beq other name || is_one_of name names

-- What may be thrown: an error that is mapped already, one with a condition, whatever its name, one
-- with one of the two names, or anything else.
pub data Thrown : Type 0 where
  as_httpx_error : HttpxError → Thrown
  with_condition : Text → Thrown
  timeout_error abort_error anything_else : Thrown

-- A property of the map is an entry of it, or else inherited and without the two fields.
unfoldable pub from_condition : Text → HttpxError
from_condition condition = elim (get? condition condition_map) [
  | some mapped ↦ new_httpx_error (some mapped.code) (some mapped.http)
  | none ↦
      if is_one_of condition inherited
      then new_httpx_error none none
      else new_httpx_error (some ErrorCode.unavailable) none
]

unfoldable pub from_xmpp_error : Thrown → HttpxError
from_xmpp_error (as_httpx_error error) = error
from_xmpp_error (with_condition condition) = from_condition condition
from_xmpp_error timeout_error = new_httpx_error (some ErrorCode.timeout) none
from_xmpp_error abort_error = new_httpx_error (some ErrorCode.aborted) none
from_xmpp_error anything_else = new_httpx_error (some ErrorCode.unavailable) none
