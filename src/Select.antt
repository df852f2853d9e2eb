-- ===== src/Select.antt =====
-- src/transport/select.ts: how a body travels, and the sizes that a stanza limit gives.
-- An XML element is its serialized text. The text decoder of the platform is a parameter.
pub mod Choice
pub mod Sizes
mod Tests
use xmpp_httpx.Prelude.{
  ℕ, ◌+◌, ◌-◌, ◌*◌, ◌/◌, min, max, List, [], ◌∷◌, ◌++◌, Option, none, some, Bool, true, false, ◌&&◌,
  ◌||◌, not, ltb, leb, ◌==◌, if◌then◌else◌, length,
}
use xmpp_httpx.JsMap.{text_beq}
use xmpp_httpx.Base64.{Text, base64_length}
use xmpp_httpx.Bytes.Buffer.{Bytes}

pub data BodySource : Type 0 where
  empty : BodySource
  bytes : Bytes → BodySource
  element : Text → BodySource
  stream : Option ℕ → BodySource

pub data StreamMechanism : Type 0 where
  ibb chunked_base64 sipub jingle : StreamMechanism

pub data EncodingDecision : Type 0 where
  as_none as_sipub too_large : EncodingDecision
  as_text as_xml : Text → EncodingDecision
  as_base64 : Bytes → EncodingDecision
  as_ibb as_chunked as_jingle : ℕ → EncodingDecision

pub record StreamAcceptFlags : Type 0 where
  pub ibb_flag : Bool
  pub chunked_flag : Bool
  pub sipub_flag : Bool
  pub jingle_flag : Bool
  pub max_chunk_size : Option ℕ

pub record SelectInput : Type 0 where
  pub body : BodySource
  pub content_type : Option Text
  pub accept : StreamAcceptFlags
  pub inline_budget_bytes : ℕ
  pub preferred_streams : List StreamMechanism

abbrev pub min_chunk_size : ℕ
min_chunk_size = 256

abbrev pub max_chunk_size_bound : ℕ
max_chunk_size_bound = 65536

abbrev pub default_chunk_size : ℕ
default_chunk_size = 4096

abbrev pub safe_chunk_size_cap : ℕ
safe_chunk_size_cap = 8192

-- `requesterMax ?? Math.min(DEFAULT_CHUNK_SIZE, SAFE_CHUNK_SIZE_CAP)`
abbrev pub wanted_chunk_size : Option ℕ → ℕ
wanted_chunk_size none = min default_chunk_size safe_chunk_size_cap
wanted_chunk_size (some requester_max) = requester_max

unfoldable pub resolve_chunk_size : Option ℕ → ℕ
resolve_chunk_size requester_max =
    min max_chunk_size_bound (max min_chunk_size (wanted_chunk_size requester_max))

pub record StanzaBudgets : Type 0 where
  pub inline_budget : ℕ
  pub chunk_size : ℕ

-- A limit below the headroom gives a negative difference in the source, which `max` replaces.
unfoldable pub stanza_budgets : ℕ → StanzaBudgets
stanza_budgets max_stanza_bytes = record {
  inline_budget = max 1024 (max_stanza_bytes - 2048);
  chunk_size = min max_chunk_size_bound (max min_chunk_size ((max_stanza_bytes - 512) * 3 / 4));
}

-- The length after the XML entities for & < > " ' are put in.
abbrev pub escape_extra : ℕ → ℕ
escape_extra c =
    if c == b'&'
    then 4
    else if c == b'<' || c == b'>'
    then 3
    else if c == 34 || c == 39
    then 5
    else 0

unfoldable pub extra_length : Text → ℕ
extra_length [] = 0
extra_length (c ∷ text) = escape_extra c + extra_length text

unfoldable pub escaped_length : Text → ℕ
escaped_length text = length text + extra_length text

-- The control characters of XML_ILLEGAL.
abbrev pub is_xml_illegal : ℕ → Bool
is_xml_illegal c = leb c 8 || c == 11 || c == 12 || leb 14 c && leb c 31

abbrev pub has_xml_illegal : Text → Bool
has_xml_illegal [] = false
has_xml_illegal (c ∷ text) = is_xml_illegal c || has_xml_illegal text

-- What the white space of `String.prototype.trim` is.
abbrev pub is_trimmed : ℕ → Bool
is_trimmed c =
    leb 9 c && leb c 13
    || c == 32
    || c == 160
    || c == 5760
    || leb 8192 c && leb c 8202
    || c == 8232
    || c == 8233
    || c == 8239
    || c == 8287
    || c == 12288
    || c == 65279

unfoldable pub trim_start : Text → Text
trim_start [] = []
trim_start (c ∷ text) = let rest = trim_start text in if is_trimmed c then rest else c ∷ text

unfoldable pub trim_end : Text → Text
trim_end [] = []
trim_end (c ∷ text) =
    let rest = trim_end text in if length rest == 0 && is_trimmed c then [] else c ∷ rest

unfoldable pub trim : Text → Text
trim text = trim_end (trim_start text)

abbrev pub lower : ℕ → ℕ
lower c = if leb 65 c && leb c 90 then c + 32 else c

abbrev pub lower_case : Text → Text
lower_case [] = []
lower_case (c ∷ text) = lower c ∷ lower_case text

-- What follows a prefix.
abbrev pub after_prefix : Text → Text → Option Text
after_prefix [] text = some text
after_prefix (c ∷ prefix) [] = none
after_prefix (c ∷ prefix) (d ∷ text) = if c == d then after_prefix prefix text else none

-- `($|;)`
abbrev ends_type : Text → Bool
ends_type [] = true
ends_type (c ∷ text) = c == b';'

abbrev ends_type_after : Text → Text → Bool
ends_type_after word text = elim (after_prefix word text) [
  | none ↦ false
  | some rest ↦ ends_type rest
]

-- `\w`, and `[\w.+-]`, of lower-case text.
abbrev is_word : ℕ → Bool
is_word c = leb 97 c && leb c 122 || leb 48 c && leb c 57 || c == b'_'

abbrev is_token : ℕ → Bool
is_token c = is_word c || c == b'.' || c == b'+' || c == b'-'

-- The longest beginning of token characters, and what follows it.
abbrev token : Text → Text
token [] = []
token (c ∷ text) = let rest = token text in if is_token c then c ∷ rest else []

abbrev after_token : Text → Text
after_token [] = []
after_token (c ∷ text) = let rest = after_token text in if is_token c then rest else c ∷ text

abbrev ends_with : Text → Text → Bool
ends_with suffix [] = length suffix == 0
ends_with suffix (c ∷ text) = text_beq suffix (c ∷ text) || ends_with suffix text

-- `[\w.+-]*\+(json|xml)($|;)`: neither end can be inside the run of token characters.
abbrev is_structured_subtype : Text → Bool
is_structured_subtype text =
    (ends_with (b'+' ∷ b'j' ∷ b's' ∷ b'o' ∷ b'n' ∷ []) (token text)
      || ends_with (b'+' ∷ b'x' ∷ b'm' ∷ b'l' ∷ []) (token text))
    && ends_type (after_token text)

abbrev is_structured_type : Text → Bool
is_structured_type [] = false
is_structured_type (c ∷ text) = is_word c && elim (after_prefix (b'/' ∷ []) (after_token text)) [
  | none ↦ false
  | some subtype ↦ is_structured_subtype subtype
]

abbrev is_application_text : Text → Bool
is_application_text subtype =
    ends_type_after (b'j' ∷ b's' ∷ b'o' ∷ b'n' ∷ []) subtype
    || ends_type_after (b'j' ∷ b'a' ∷ b'v' ∷ b'a' ∷ b's' ∷ b'c' ∷ b'r' ∷ b'i' ∷ b'p' ∷ b't' ∷ [])
        subtype
    || ends_type_after (b'e' ∷ b'c' ∷ b'm' ∷ b'a' ∷ b's' ∷ b'c' ∷ b'r' ∷ b'i' ∷ b'p' ∷ b't' ∷ [])
        subtype
    || ends_type_after (b'x' ∷ b'm' ∷ b'l' ∷ []) subtype
    || ends_type_after
        (b'x' ∷ b'-' ∷ b'w' ∷ b'w' ∷ b'w' ∷ b'-' ∷ b'f' ∷ b'o' ∷ b'r' ∷ b'm' ∷ b'-' ∷ b'u' ∷ b'r'
          ∷ b'l' ∷ b'e' ∷ b'n' ∷ b'c' ∷ b'o' ∷ b'd' ∷ b'e' ∷ b'd' ∷ [])
        subtype

-- `TEXTUAL_TYPES.test`, of lower-case text.
abbrev is_textual : Text → Bool
is_textual text =
    (elim (after_prefix (b't' ∷ b'e' ∷ b'x' ∷ b't' ∷ b'/' ∷ []) text) [
      | none ↦ false
      | some rest ↦ true
    ])
    || (elim (after_prefix
        (b'a' ∷ b'p' ∷ b'p' ∷ b'l' ∷ b'i' ∷ b'c' ∷ b'a' ∷ b't' ∷ b'i' ∷ b'o' ∷ b'n' ∷ b'/' ∷ [])
        text) [ none ↦ false | some subtype ↦ is_application_text subtype ])
    || is_structured_type text

unfoldable pub is_textual_content_type : Option Text → Bool
is_textual_content_type none = false
is_textual_content_type (some content_type) = is_textual (lower_case (trim content_type))

-- One round of the loop of `selectStream`.
unfoldable pub try_mechanism : StreamAcceptFlags → StreamMechanism → Option EncodingDecision
try_mechanism accept ibb =
    if accept.ibb_flag then some (as_ibb (resolve_chunk_size accept.max_chunk_size)) else none
try_mechanism accept chunked_base64 =
    if accept.chunked_flag
    then some (as_chunked (resolve_chunk_size accept.max_chunk_size))
    else none
try_mechanism accept sipub = if accept.sipub_flag then some as_sipub else none
try_mechanism accept jingle =
    if accept.jingle_flag then some (as_jingle (resolve_chunk_size accept.max_chunk_size)) else none

unfoldable pub select_stream : StreamAcceptFlags → List StreamMechanism → EncodingDecision
select_stream accept [] = too_large
select_stream accept (mechanism ∷ others) = elim (try_mechanism accept mechanism) [
  | none ↦ select_stream accept others
  | some decision ↦ decision
]

abbrev pub accepts : StreamAcceptFlags → StreamMechanism → Bool
accepts accept ibb = accept.ibb_flag
accepts accept chunked_base64 = accept.chunked_flag
accepts accept sipub = accept.sipub_flag
accepts accept jingle = accept.jingle_flag

unfoldable pub can_stream : StreamAcceptFlags → List StreamMechanism → Bool
can_stream accept [] = false
can_stream accept (mechanism ∷ others) = accepts accept mechanism || can_stream accept others

-- The text that a body may travel as.
unfoldable pub inline_text : (Bytes → Option Text) → SelectInput → Bytes → Option Text
inline_text decode_utf8 input body =
    if is_textual_content_type input.content_type
    then elim (decode_utf8 body) [
      | none ↦ none
      | some text ↦
          if not (has_xml_illegal text) && leb (escaped_length text) input.inline_budget_bytes
          then some text
          else none
    ]
    else none

abbrev pub select_bytes : (Bytes → Option Text) → SelectInput → Bytes → EncodingDecision
select_bytes decode_utf8 input body = elim (inline_text decode_utf8 input body) [
  | some text ↦ as_text text
  | none ↦
      if leb (base64_length (length body)) input.inline_budget_bytes
      then as_base64 body
      else select_stream input.accept input.preferred_streams
]

abbrev pub select_body : (Bytes → Option Text) → SelectInput → BodySource → EncodingDecision
select_body decode_utf8 input empty = as_none
select_body decode_utf8 input (bytes body) = select_bytes decode_utf8 input body
select_body decode_utf8 input (element serialized) =
    if leb (length serialized) input.inline_budget_bytes
    then as_xml serialized
    else select_stream input.accept input.preferred_streams
select_body decode_utf8 input (stream content_length) =
    select_stream input.accept input.preferred_streams

-- `decode_utf8` is `TextDecoder("utf-8", { fatal: true }).decode`, `none` where it throws.
unfoldable pub select_encoding : (Bytes → Option Text) → SelectInput → EncodingDecision
select_encoding decode_utf8 input = select_body decode_utf8 input input.body
