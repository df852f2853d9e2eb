-- ===== src/Negotiate.antt =====
-- src/server/negotiate.ts: the Accept header and the choice among the offered types.
-- A quality is counted in the units of a `scale`, which stands for 1. `Number` of a text is a
-- parameter: `none` where it is not finite.
pub mod Order
pub mod Governing
pub mod Best
pub mod Choice
mod Tests
use xmpp_httpx.Prelude.{
  ℕ, ◌+◌, min, List, [], ◌∷◌, ◌++◌, Option, none, some, Bool, true, false, ◌&&◌, ◌||◌, not, ltb,
  leb, ◌==◌, if◌then◌else◌, length,
}
use xmpp_httpx.JsMap.{text_beq}
use xmpp_httpx.Base64.{Text}
use xmpp_httpx.Select.{trim, lower_case, after_prefix}

pub data FiniteNumber : Type 0 where
  negative : FiniteNumber
  units : ℕ → FiniteNumber

pub record AcceptEntry : Type 0 where
  pub type : Text
  pub q : ℕ

-- `text.split(separator)`: the first piece, and the others.
unfoldable pub first_piece : ℕ → Text → Text
first_piece separator [] = []
first_piece separator (c ∷ text) =
    let piece = first_piece separator text in if c == separator then [] else c ∷ piece

unfoldable pub later_pieces : ℕ → Text → List Text
later_pieces separator [] = []
later_pieces separator (c ∷ text) =
    let others = later_pieces separator text in
    if c == separator then first_piece separator text ∷ others else others

-- `Math.min(1, Math.max(0, parsed))`
abbrev pub clamp : ℕ → FiniteNumber → ℕ
clamp scale negative = 0
clamp scale (units n) = min scale n

-- The second of the two pieces of `param.split("=", 2)`.
abbrev pub value_of : List Text → Option Text
value_of [] = none
value_of (piece ∷ others) = some (trim piece)

abbrev pub after_param : (Option Text → Option FiniteNumber) → ℕ → Text → ℕ → ℕ
after_param number scale param q =
    if text_beq (lower_case (trim (first_piece b'=' param))) (b'q' ∷ [])
    then elim (number (value_of (later_pieces b'=' param))) [
      | none ↦ q
      | some parsed ↦ clamp scale parsed
    ]
    else q

unfoldable pub quality_of : (Option Text → Option FiniteNumber) → ℕ → List Text → ℕ → ℕ
quality_of number scale [] q = q
quality_of number scale (param ∷ params) q =
    quality_of number scale params (after_param number scale param q)

-- The comparison puts the larger quality first and keeps the order of the header among equals, so
-- that an entry goes in front of those that follow it in the header and are no better.
unfoldable pub insert_entry : AcceptEntry → List AcceptEntry → List AcceptEntry
insert_entry entry [] = entry ∷ []
insert_entry entry (other ∷ others) =
    let later = insert_entry entry others in
    if leb other.q entry.q then entry ∷ other ∷ others else other ∷ later

unfoldable pub entries_of : (Option Text → Option FiniteNumber) → ℕ → List Text → List AcceptEntry
entries_of number scale [] = []
entries_of number scale (part ∷ parts) =
    let type = lower_case (trim (first_piece b';' part)) in
    let sorted = entries_of number scale parts in
    if length type == 0
    then sorted
    else insert_entry
        (record { type = type; q = quality_of number scale (later_pieces b';' part) scale }) sorted

-- `parseAccept`, of a header that may be missing or empty.
unfoldable pub parse_accept :
    (Option Text → Option FiniteNumber) → ℕ → Option Text → List AcceptEntry
parse_accept number scale none = []
parse_accept number scale (some header) =
    if length header == 0
    then []
    else entries_of number scale (first_piece b',' header ∷ later_pieces b',' header)

abbrev any_type : Text
any_type = b'*' ∷ b'/' ∷ b'*' ∷ []

-- `type.endsWith("/*")`, and `type.slice(0, -1)` for such a type.
abbrev pub any_subtype : Text → Bool
any_subtype [] = false
any_subtype (c ∷ text) = text_beq (c ∷ text) (b'/' ∷ b'*' ∷ []) || any_subtype text

abbrev without_last : Text → Text
without_last [] = []
without_last (c ∷ text) = let rest = without_last text in if length text == 0 then [] else c ∷ rest

unfoldable pub specificity : Text → ℕ
specificity type = if text_beq type any_type then 0 else if any_subtype type then 1 else 2

abbrev pub starts_with : Text → Text → Bool
starts_with prefix text = elim (after_prefix prefix text) [ none ↦ false | some rest ↦ true ]

unfoldable pub matches : Text → Text → Bool
matches pattern offered =
    if text_beq pattern any_type
    then true
    else if text_beq pattern offered
    then true
    else if any_subtype pattern
    then starts_with (without_last pattern) offered
    else false

abbrev pub is_more_specific : AcceptEntry → Option AcceptEntry → Bool
is_more_specific entry none = true
is_more_specific entry (some chosen) = ltb (specificity chosen.type) (specificity entry.type)

-- The loop over the entries for one offer.
unfoldable pub choose : Text → Option AcceptEntry → List AcceptEntry → Option AcceptEntry
choose normalized chosen [] = chosen
choose normalized chosen (entry ∷ entries) =
    choose normalized
      (if matches entry.type normalized && is_more_specific entry chosen
        then some entry
        else chosen)
      entries

abbrev pub normalize : Text → Text
normalize offer = lower_case (trim (first_piece b';' offer))

pub record Candidate : Type 0 where
  pub offer : Text
  pub quality : ℕ

-- What the entries make of an offer; `none` is a refusal, or no entry that matches.
unfoldable pub candidate_of : List AcceptEntry → Text → Option Candidate
candidate_of accepted offer = elim (choose (normalize offer) none accepted) [
  | none ↦ none
  | some chosen ↦
      if chosen.q == 0 then none else some (record { offer = offer; quality = chosen.q })
]

abbrev pub better : Option Candidate → Option Candidate → Option Candidate
better best none = best
better none (some candidate) = some candidate
better (some best) (some candidate) =
    if ltb best.quality candidate.quality then some candidate else some best

-- The loop over the offers.
unfoldable pub best_of : List AcceptEntry → Option Candidate → List Text → Option Candidate
best_of accepted best [] = best
best_of accepted best (offer ∷ offers) =
    best_of accepted (better best (candidate_of accepted offer)) offers

abbrev pub offer_of : Option Candidate → Option Text
offer_of none = none
offer_of (some best) = some best.offer

unfoldable pub negotiate_content_type :
    (Option Text → Option FiniteNumber) → ℕ → Option Text → List Text → Option Text
negotiate_content_type number scale header [] = none
negotiate_content_type number scale header (first ∷ offers) =
    elim (parse_accept number scale header) [
      | [] ↦ some first
      | entry ∷ entries ↦ offer_of (best_of (entry ∷ entries) none (first ∷ offers))
    ]
