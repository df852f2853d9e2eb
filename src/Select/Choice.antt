-- ===== src/Select/Choice.antt =====
-- What a decision of `selectEncoding` promises.
use xmpp_httpx.Prelude.{
  ◌≤◌, ◌<◌, ◌≡◌, refl, sym, subst, ap, ◌∙◌, List, [], ◌∷◌, ◌++◌, Option, none, some, Bool, true,
  false, Bool-cases, inl, inr, not, if◌then◌else◌, length, All,
}
use xmpp_httpx.Base64.{Text, encode_base64}
use xmpp_httpx.Bytes.Buffer.{Bytes}
use xmpp_httpx.Select.{
  BodySource, empty, bytes, element, stream, StreamMechanism, ibb, chunked_base64, sipub, jingle,
  EncodingDecision, as_none, as_text, as_xml, as_base64, as_ibb, as_chunked, as_sipub, as_jingle,
  too_large, StreamAcceptFlags, SelectInput, has_xml_illegal, resolve_chunk_size,
  is_textual_content_type, try_mechanism, select_stream, accepts, can_stream,
}
use xmpp_httpx.Select.Sizes.{escape}

-- A mechanism of the list that the peer accepts, with none before it that the peer accepts.
pub record IsFirstAccepted (accept : StreamAcceptFlags) (preferred : List StreamMechanism)
    (mechanism : StreamMechanism) : Type 0 where
  pub before : List StreamMechanism
  pub after : List StreamMechanism
  pub splits : preferred ≡ before ++ (mechanism ∷ after)
  pub refused_before : All (λ m. accepts accept m ≡ false) before
  pub accepted : accepts accept mechanism ≡ true

-- The stream decisions, and when each is right.
abbrev pub StreamFits : StreamAcceptFlags → List StreamMechanism → EncodingDecision → Type 0
StreamFits accept preferred (as_ibb size) =
    IsFirstAccepted accept preferred ibb × (size ≡ resolve_chunk_size accept.max_chunk_size)
StreamFits accept preferred (as_chunked size) =
    IsFirstAccepted accept preferred chunked_base64
    × (size ≡ resolve_chunk_size accept.max_chunk_size)
StreamFits accept preferred (as_jingle size) =
    IsFirstAccepted accept preferred jingle × (size ≡ resolve_chunk_size accept.max_chunk_size)
StreamFits accept preferred as_sipub = IsFirstAccepted accept preferred sipub
StreamFits accept preferred too_large = All (λ m. accepts accept m ≡ false) preferred
StreamFits accept preferred as_none = ⊥
StreamFits accept preferred (as_text text) = ⊥
StreamFits accept preferred (as_xml text) = ⊥
StreamFits accept preferred (as_base64 body) = ⊥

first-IsFirstAccepted :
    (accept : StreamAcceptFlags) (m : StreamMechanism) (others : List StreamMechanism)
    → accepts accept m ≡ true
    → IsFirstAccepted accept (m ∷ others) m
first-IsFirstAccepted accept m others h = record {
  before = [];
  after = others;
  splits = refl;
  refused_before = tt;
  accepted = h;
}

later-IsFirstAccepted :
    (accept : StreamAcceptFlags) (m : StreamMechanism) (others : List StreamMechanism)
    → accepts accept m ≡ false
    → (found : StreamMechanism) → IsFirstAccepted accept others found
    → IsFirstAccepted accept (m ∷ others) found
later-IsFirstAccepted accept m others h found f = record {
  before = m ∷ f.before;
  after = f.after;
  splits = ap (λ l. m ∷ l) f.splits;
  refused_before = (h, f.refused_before);
  accepted = f.accepted;
}

later-StreamFits :
    (accept : StreamAcceptFlags) (m : StreamMechanism) (others : List StreamMechanism)
    → accepts accept m ≡ false
    → (d : EncodingDecision) → StreamFits accept others d
    → StreamFits accept (m ∷ others) d
later-StreamFits accept m others h (as_ibb size) (f, e) =
    (later-IsFirstAccepted accept m others h ibb f, e)
later-StreamFits accept m others h (as_chunked size) (f, e) =
    (later-IsFirstAccepted accept m others h chunked_base64 f, e)
later-StreamFits accept m others h (as_jingle size) (f, e) =
    (later-IsFirstAccepted accept m others h jingle f, e)
later-StreamFits accept m others h as_sipub f = later-IsFirstAccepted accept m others h sipub f
later-StreamFits accept m others h too_large f = (h, f)
later-StreamFits accept m others h as_none f = elim f [ ]
later-StreamFits accept m others h (as_text text) f = elim f [ ]
later-StreamFits accept m others h (as_xml text) f = elim f [ ]
later-StreamFits accept m others h (as_base64 body) f = elim f [ ]

-- The decision for a mechanism that is taken.
abbrev decision_for : StreamAcceptFlags → StreamMechanism → EncodingDecision
decision_for accept ibb = as_ibb (resolve_chunk_size accept.max_chunk_size)
decision_for accept chunked_base64 = as_chunked (resolve_chunk_size accept.max_chunk_size)
decision_for accept sipub = as_sipub
decision_for accept jingle = as_jingle (resolve_chunk_size accept.max_chunk_size)

try_mechanism-eq :
    (accept : StreamAcceptFlags) (m : StreamMechanism)
    → try_mechanism accept m ≡ (if accepts accept m then some (decision_for accept m) else none)
unfolding try_mechanism
try_mechanism-eq accept ibb = refl
try_mechanism-eq accept chunked_base64 = refl
try_mechanism-eq accept sipub = refl
try_mechanism-eq accept jingle = refl

decision_for-StreamFits :
    (accept : StreamAcceptFlags) (m : StreamMechanism) (others : List StreamMechanism)
    → accepts accept m ≡ true
    → StreamFits accept (m ∷ others) (decision_for accept m)
decision_for-StreamFits accept ibb others h = (first-IsFirstAccepted accept ibb others h, refl)
decision_for-StreamFits accept chunked_base64 others h =
    (first-IsFirstAccepted accept chunked_base64 others h, refl)
decision_for-StreamFits accept sipub others h = first-IsFirstAccepted accept sipub others h
decision_for-StreamFits accept jingle others h =
    (first-IsFirstAccepted accept jingle others h, refl)

select_stream-cons :
    (accept : StreamAcceptFlags) (m : StreamMechanism) (others : List StreamMechanism)
    → select_stream accept (m ∷ others)
      ≡ (if accepts accept m then decision_for accept m else select_stream accept others)
unfolding select_stream
select_stream-cons accept m others = elim (Bool-cases (accepts accept m)) [
  | inl on ↦
      let taken : try_mechanism accept m ≡ some (decision_for accept m) =
        try_mechanism-eq accept m ∙ rw on refl in
      rw (taken, on, select_stream) refl
  | inr off ↦
      let passed : try_mechanism accept m ≡ none = try_mechanism-eq accept m ∙ rw off refl in
      rw (passed, off, select_stream) refl
]

-- `selectStream` takes the first preferred mechanism that the peer accepts.
pub select_stream-StreamFits :
    (accept : StreamAcceptFlags) (preferred : List StreamMechanism)
    → StreamFits accept preferred (select_stream accept preferred)
unfolding select_stream
select_stream-StreamFits accept [] = tt
select_stream-StreamFits accept (m ∷ others) =
    subst (StreamFits accept (m ∷ others)) (sym (select_stream-cons accept m others))
      (elim (Bool-cases (accepts accept m)) [
        | inl on ↦ rw on (decision_for-StreamFits accept m others on)
        | inr off ↦ rw off (
            later-StreamFits accept m others off (select_stream accept others)
              (select_stream-StreamFits accept others))
      ])

abbrev pub is_too_large : EncodingDecision → Bool
is_too_large too_large = true
is_too_large _ = false

not_too_large :
    (accept : StreamAcceptFlags) (m : StreamMechanism)
    → is_too_large (decision_for accept m) ≡ false
not_too_large accept ibb = refl
not_too_large accept chunked_base64 = refl
not_too_large accept sipub = refl
not_too_large accept jingle = refl

-- `canStream` tells exactly whether `selectStream` finds a mechanism.
pub can_stream-eq-not-too_large :
    (accept : StreamAcceptFlags) (preferred : List StreamMechanism)
    → can_stream accept preferred ≡ not (is_too_large (select_stream accept preferred))
unfolding can_stream select_stream
can_stream-eq-not-too_large accept [] = refl
can_stream-eq-not-too_large accept (m ∷ others) = elim (Bool-cases (accepts accept m)) [
  | inl on ↦
      rw on refl
      ∙ sym (
          ap not (
            ap is_too_large (select_stream-cons accept m others ∙ rw on refl)
            ∙ not_too_large accept m))
  | inr off ↦
      rw off refl
      ∙ can_stream-eq-not-too_large accept others
      ∙ sym (ap (λ d. not (is_too_large d)) (select_stream-cons accept m others ∙ rw off refl))
]

-- A text that a body may be sent as: it decodes to it, its content type is textual, XML can hold
-- it, and it fits in the budget once escaped.
abbrev pub TextFits : (Bytes → Option Text) → SelectInput → Bytes → Text → Type 0
TextFits decode_utf8 input b text =
    (decode_utf8 b ≡ some text)
    × (is_textual_content_type input.content_type ≡ true)
    × (has_xml_illegal text ≡ false)
    × (length (escape text) ≤ input.inline_budget_bytes)

abbrev pub NoText : (Bytes → Option Text) → SelectInput → Bytes → Type 0
NoText decode_utf8 input b = ¬ ((text : Text) × TextFits decode_utf8 input b text)

-- A body that no inline form holds within the budget.
abbrev pub IsOverBudget : (Bytes → Option Text) → SelectInput → BodySource → Type 0
IsOverBudget decode_utf8 input empty = ⊥
IsOverBudget decode_utf8 input (bytes b) =
    NoText decode_utf8 input b × (input.inline_budget_bytes < length (encode_base64 b))
IsOverBudget decode_utf8 input (element serialized) = input.inline_budget_bytes < length serialized
IsOverBudget decode_utf8 input (stream content_length) = Unit

-- When a decision is right for a body: an inline form holds the body within the budget, base64 is
-- taken only where no text may be, and a stream only where no inline form fits.
abbrev pub Fits : (Bytes → Option Text) → SelectInput → BodySource → EncodingDecision → Type 0
Fits decode_utf8 input body as_none = body ≡ empty
Fits decode_utf8 input body (as_xml serialized) =
    (body ≡ element serialized) × (length serialized ≤ input.inline_budget_bytes)
Fits decode_utf8 input body (as_text text) =
    (b : Bytes) × (body ≡ bytes b) × TextFits decode_utf8 input b text
Fits decode_utf8 input body (as_base64 b) =
    (body ≡ bytes b)
    × NoText decode_utf8 input b
    × (length (encode_base64 b) ≤ input.inline_budget_bytes)
Fits decode_utf8 input body (as_ibb size) =
    IsOverBudget decode_utf8 input body
    × StreamFits input.accept input.preferred_streams (as_ibb size)
Fits decode_utf8 input body (as_chunked size) =
    IsOverBudget decode_utf8 input body
    × StreamFits input.accept input.preferred_streams (as_chunked size)
Fits decode_utf8 input body (as_jingle size) =
    IsOverBudget decode_utf8 input body
    × StreamFits input.accept input.preferred_streams (as_jingle size)
Fits decode_utf8 input body as_sipub =
    IsOverBudget decode_utf8 input body × StreamFits input.accept input.preferred_streams as_sipub
Fits decode_utf8 input body too_large =
    IsOverBudget decode_utf8 input body × StreamFits input.accept input.preferred_streams too_large

abbrev text_or_empty : Option Text → Text
text_or_empty none = []
text_or_empty (some text) = text
