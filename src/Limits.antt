-- ===== src/Limits.antt =====
-- src/transport/limits.ts: the stream limits that a server advertises, and the budgets they give.
-- An element is what the XML library finds in it: the texts of the two children of `<limits/>`.
pub mod Budgets
mod Tests
use xmpp_httpx.Prelude.{
  ℕ, ◌+◌, ◌-◌, ◌*◌, List, [], ◌∷◌, Option, none, some, Bool, true, false, ◌&&◌, not, ltb, leb, ◌==◌,
  if◌then◌else◌, length,
}
use xmpp_httpx.Base64.{Text}
use xmpp_httpx.Select.{StanzaBudgets, stanza_budgets, trim}

pub record StreamLimits : Type 0 where
  pub max_bytes : Option ℕ
  pub idle_seconds : Option ℕ

-- An element that is not `<features/>`, or has no `<limits/>`; or the texts of its limits.
pub data Nonza : Type 0 where
  without_limits : Nonza
  limits : (max_bytes idle_seconds : Option Text) → Nonza

abbrev pub is_digits : Text → Bool
is_digits [] = true
is_digits (c ∷ text) = leb 48 c && leb c 57 && is_digits text

-- `Number` of a text of decimal digits, `value` being that of the digits before.
abbrev pub number_from : ℕ → Text → ℕ
number_from value [] = value
number_from value (c ∷ text) = number_from (value * 10 + (c - 48)) text

abbrev pub max_safe_integer : ℕ
max_safe_integer = 9007199254740991

-- `Number` rounds above the safe integers, and stays above them.
abbrev pub usable : ℕ → Option ℕ
usable value = if leb value max_safe_integer && ltb 0 value then some value else none

unfoldable pub positive_integer : Option Text → Option ℕ
positive_integer none = none
positive_integer (some text) =
    let trimmed = trim text in
    if not (length trimmed == 0) && is_digits trimmed then usable (number_from 0 trimmed) else none

abbrev pub found_limits : Option ℕ → Option ℕ → Option StreamLimits
found_limits none none = none
found_limits none (some idle) = some (record { max_bytes = none; idle_seconds = some idle })
found_limits (some size) idle = some (record { max_bytes = some size; idle_seconds = idle })

unfoldable pub parse_stream_limits : Nonza → Option StreamLimits
parse_stream_limits without_limits = none
parse_stream_limits (limits max_bytes idle_seconds) =
    found_limits (positive_integer max_bytes) (positive_integer idle_seconds)

-- The watch and the target of `applyStreamLimits`: the limits last seen, and the budgets set.
pub record Watch : Type 0 where
  pub current : Option StreamLimits
  pub budgets : StanzaBudgets

abbrev pub budgets_after : Option ℕ → StanzaBudgets → StanzaBudgets
budgets_after none budgets = budgets
budgets_after (some size) budgets = stanza_budgets size

-- The listener of `watchStreamLimits` with the callback of `applyStreamLimits`.
unfoldable pub on_nonza : Watch → Nonza → Watch
on_nonza watch nonza = elim (parse_stream_limits nonza) [
  | none ↦ watch
  | some found ↦ record {
    current = some found;
    budgets = budgets_after found.max_bytes watch.budgets;
  }
]
