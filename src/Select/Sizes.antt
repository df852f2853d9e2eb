-- ===== src/Select/Sizes.antt =====
-- Sizes that the budgets and the escaping promise.
use xmpp_httpx.Prelude.{
  ℕ, ◌+◌, ◌≤◌, ◌≡◌, refl, [], ◌∷◌, ◌++◌, Option, Bool-cases, inl, inr, ◌==◌, if◌then◌else◌, arith,
  length, length-append,
}
use xmpp_httpx.Base64.{Text, base64_length}
use xmpp_httpx.Select.{
  escape_extra, extra_length, escaped_length, resolve_chunk_size, stanza_budgets,
}

-- A chunk size is between 256 and 65536, whatever a requester asks for.
pub resolve_chunk_size-InBounds :
    (requester_max : Option ℕ)
    → (256 ≤ resolve_chunk_size requester_max) × (resolve_chunk_size requester_max ≤ 65536)
unfolding resolve_chunk_size
resolve_chunk_size-InBounds requester_max = (omega arith, omega arith)

-- For a stanza limit of at least 3072 bytes the inline budget leaves 2048 bytes of it for the
-- envelope, and the base64 of a chunk of the size leaves 510; the size is between 256 and 65536.
pub stanza_budgets-fit :
    (limit : ℕ)
    → 3072 ≤ limit
    → ((stanza_budgets limit).inline_budget + 2048 ≤ limit)
      × (base64_length (stanza_budgets limit).chunk_size + 510 ≤ limit)
      × (256 ≤ (stanza_budgets limit).chunk_size)
      × ((stanza_budgets limit).chunk_size ≤ 65536)
unfolding stanza_budgets base64_length
stanza_budgets-fit limit h = (omega (arith, h), omega (arith, h), omega arith, omega arith)

-- The character in an XML text: an entity for & < > " ', itself otherwise.
abbrev pub escape_character : ℕ → Text
escape_character c =
    if c == b'&'
    then b'&' ∷ b'a' ∷ b'm' ∷ b'p' ∷ b';' ∷ []
    else if c == b'<'
    then b'&' ∷ b'l' ∷ b't' ∷ b';' ∷ []
    else if c == b'>'
    then b'&' ∷ b'g' ∷ b't' ∷ b';' ∷ []
    else if c == 34
    then b'&' ∷ b'q' ∷ b'u' ∷ b'o' ∷ b't' ∷ b';' ∷ []
    else if c == 39
    then b'&' ∷ b'a' ∷ b'p' ∷ b'o' ∷ b's' ∷ b';' ∷ []
    else c ∷ []

abbrev pub escape : Text → Text
escape [] = []
escape (c ∷ text) = escape_character c ++ escape text

length-escape_character : (c : ℕ) → length (escape_character c) ≡ 1 + escape_extra c
length-escape_character c = elim (Bool-cases (c == b'&')) [
  | inl e ↦ rw e refl
  | inr amp ↦ elim (Bool-cases (c == b'<')) [
    | inl e ↦ rw (amp, e) refl
    | inr lt ↦ elim (Bool-cases (c == b'>')) [
      | inl e ↦ rw (amp, lt, e) refl
      | inr gt ↦ elim (Bool-cases (c == 34)) [
        | inl e ↦ rw (amp, lt, gt, e) refl
        | inr quot ↦ elim (Bool-cases (c == 39)) [
          | inl e ↦ rw (amp, lt, gt, quot, e) refl
          | inr apos ↦ rw (amp, lt, gt, quot, apos) refl
        ]
      ]
    ]
  ]
]

-- `escapedLength` is the length of the text with the entities for & < > " ' put in.
pub escaped_length-eq-length-escape : (text : Text) → escaped_length text ≡ length (escape text)
unfolding escaped_length extra_length
escaped_length-eq-length-escape [] = omega arith
escaped_length-eq-length-escape (c ∷ text) = omega (
  arith,
  escaped_length-eq-length-escape text,
  length-escape_character c,
  length-append (escape_character c) (escape text),
)
