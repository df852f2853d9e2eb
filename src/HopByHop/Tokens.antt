-- ===== src/HopByHop/Tokens.antt =====
-- The pieces of a text between its commas, and the tokens of a Connection field.
use xmpp_httpx.Prelude.{
  ◌≡◌, ◌≢◌, ◌↔◌, refl, sym, ap, subst, ◌∙◌, List, [], ◌∷◌, ◌++◌, Bool, true, false, Bool-cases, inl,
  inr, ◌||◌, ◌==◌, arith, length, map, All,
}
use xmpp_httpx.JsMap.{text_key, text_beq, text_beq_iff, get?}
use xmpp_httpx.Base64.{Text, codes}
use xmpp_httpx.Select.{trim, lower_case}
use xmpp_httpx.Negotiate.{first_piece, later_pieces}
use xmpp_httpx.HopByHop.{tokens_of, kept_tokens, text_or_empty, named_of}

-- What follows a piece: nothing, or a comma.
abbrev pub EndsPiece : Text → Type 0
EndsPiece [] = Unit
EndsPiece (c ∷ text) = c ≡ b','

-- A piece of a text: it holds no comma, begins at the start of the text or behind a comma, and ends
-- at a comma or at the end of the text.
pub data IsPiece (text piece : Text) : Type 0 where
  at_start :
      (after : Text)
      → text ≡ piece ++ after
      → All (λ c. c ≢ b',') piece
      → EndsPiece after
      → IsPiece text piece
  behind_comma :
      (before after : Text)
      → text ≡ before ++ (b',' ∷ (piece ++ after))
      → All (λ c. c ≢ b',') piece
      → EndsPiece after
      → IsPiece text piece

abbrev pub is_one_of : Text → List Text → Bool
is_one_of name [] = false
is_one_of name (other ∷ names) = text_beq other name || is_one_of name names

-- The text goes on behind its first piece.
first_piece-Cut :
    (text : Text)
    → (after : Text) × (text ≡ first_piece b',' text ++ after)
      × (All (λ c. c ≢ b',') (first_piece b',' text) × EndsPiece after)
unfolding first_piece
first_piece-Cut [] = ([], refl, (tt, tt))
first_piece-Cut (c ∷ text) = elim (Bool-cases (c == b',')) [
  | inl comma ↦ rw comma (c ∷ text, refl, (tt, ground (arith, comma)))
  | inr other ↦
      let (after, e, (free, ends)) = first_piece-Cut text in
      rw other (after, ap (λ l. c ∷ l) e, ((ground (arith, other), free), ends))
]

later-IsPiece :
    (text piece : Text)
    → is_one_of piece (later_pieces b',' text) ≡ true
    → (before : Text) × (after : Text) × (text ≡ before ++ (b',' ∷ (piece ++ after)))
      × (All (λ c. c ≢ b',') piece × EndsPiece after)
unfolding later_pieces
later-IsPiece [] piece h = absurd (ground (arith, h))
later-IsPiece (c ∷ text) piece h = elim (Bool-cases (c == b',')) [
  | inr other ↦
      let (before, after, e, rest) = later-IsPiece text piece (rw other at h) in
      (c ∷ before, after, ap (λ l. c ∷ l) e, rest)
  | inl comma ↦ elim (Bool-cases (text_beq (first_piece b',' text) piece)) [
    | inl same ↦
        let (after, e, rest) = first_piece-Cut text in
        let first = (text_beq_iff (first_piece b',' text) piece).0 same in
        let char : c ≡ b',' = ground (arith, comma) in
        (
          [],
          after,
          ap (λ x. x ∷ text) char ∙ ap (λ l. b',' ∷ l) (e ∙ ap (λ p. p ++ after) first),
          subst (λ p. All (λ x. x ≢ b',') p × EndsPiece after) first rest,
        )
    | inr differ ↦
        let (before, after, e, rest) = later-IsPiece text piece (rw (comma, differ) at h) in
        (c ∷ before, after, ap (λ l. c ∷ l) e, rest)
  ]
]

-- A piece at the start is the first.
first_piece-append :
    (piece after : Text)
    → All (λ c. c ≢ b',') piece
    → EndsPiece after
    → first_piece b',' (piece ++ after) ≡ piece
unfolding first_piece
first_piece-append [] [] free ends = refl
first_piece-append [] (c ∷ after) free ends = ground (arith, ends)
first_piece-append (c ∷ piece) after (other, free) ends =
    ground (arith, other, first_piece-append piece after free ends)

later_pieces-append :
    (before text : Text)
    → is_one_of (first_piece b',' text) (later_pieces b',' (before ++ (b',' ∷ text))) ≡ true
unfolding later_pieces
later_pieces-append [] text =
    rw ((text_beq_iff (first_piece b',' text) (first_piece b',' text)).1 refl) refl
later_pieces-append (c ∷ before) text = elim (Bool-cases (c == b',')) [
  | inr other ↦ rw other (later_pieces-append before text)
  | inl comma ↦ rw comma (ground (arith, later_pieces-append before text))
]

pub pieces_iff :
    (text piece : Text)
    → (is_one_of piece (first_piece b',' text ∷ later_pieces b',' text) ≡ true) ↔ IsPiece text piece
pieces_iff text piece = (to, from)
  where
    to :
        is_one_of piece (first_piece b',' text ∷ later_pieces b',' text) ≡ true → IsPiece text piece
    to h = elim (Bool-cases (text_beq (first_piece b',' text) piece)) [
      | inl same ↦
          let (after, e, rest) = first_piece-Cut text in
          let first = (text_beq_iff (first_piece b',' text) piece).0 same in
          let (free, ends) = subst (λ p. All (λ x. x ≢ b',') p × EndsPiece after) first rest in
          at_start after (e ∙ ap (λ p. p ++ after) first) free ends
      | inr differ ↦
          let (before, after, e, (free, ends)) = later-IsPiece text piece (rw differ at h) in
          behind_comma before after e free ends
    ]

    from :
        IsPiece text piece → is_one_of piece (first_piece b',' text ∷ later_pieces b',' text) ≡ true
    from (at_start after e free ends) =
        let first : first_piece b',' text ≡ piece =
          ap (first_piece b',') e ∙ first_piece-append piece after free ends in
        rw ((text_beq_iff (first_piece b',' text) piece).1 first) refl
    from (behind_comma before after e free ends) =
        let later : is_one_of piece (later_pieces b',' text) ≡ true =
          ap (λ t. is_one_of piece (later_pieces b',' t)) e
          ∙ ap (λ p. is_one_of p (later_pieces b',' (before ++ (b',' ∷ (piece ++ after)))))
              (sym (first_piece-append piece after free ends))
          ∙ later_pieces-append before (piece ++ after) in
        ground (arith, later)

IsTokenOf : Text → List Text → Type 0
IsTokenOf name pieces =
    (piece : Text) × (is_one_of piece pieces ≡ true)
    × (name ≡ lower_case (trim piece))
    × (name ≢ [])

from_later :
    (name p : Text) (pieces : List Text) → IsTokenOf name pieces → IsTokenOf name (p ∷ pieces)
unfolding IsTokenOf
from_later name p pieces (piece, found, e, some_text) = (piece, ground (arith, found), e, some_text)

-- The tokens that are kept are those of the pieces that are not empty.
is_one_of-kept_tokens :
    (name : Text) (pieces : List Text)
    → is_one_of name (kept_tokens (map (λ p. lower_case (trim p)) pieces)) ≡ true
    → IsTokenOf name pieces
unfolding kept_tokens IsTokenOf
is_one_of-kept_tokens name [] h = absurd (ground (arith, h))
is_one_of-kept_tokens name (p ∷ pieces) h = elim (Bool-cases (length (lower_case (trim p)) == 0)) [
  | inl blank ↦ from_later name p pieces (is_one_of-kept_tokens name pieces (rw blank at h))
  | inr some_text ↦ elim (Bool-cases (text_beq (lower_case (trim p)) name)) [
    | inr differ ↦
        from_later name p pieces (is_one_of-kept_tokens name pieces (rw (some_text, differ) at h))
    | inl same ↦
        let e = (text_beq_iff (lower_case (trim p)) name).0 same in
        (
          p,
          rw ((text_beq_iff p p).1 refl) refl,
          sym e,
          λ empty. absurd (ground (arith, some_text, ap length (e ∙ empty))),
        )
  ]
]

kept_tokens-is_one_of :
    (name piece : Text) (pieces : List Text)
    → is_one_of piece pieces ≡ true
    → name ≡ lower_case (trim piece)
    → name ≢ []
    → is_one_of name (kept_tokens (map (λ p. lower_case (trim p)) pieces)) ≡ true
unfolding kept_tokens
kept_tokens-is_one_of name piece [] found e some_text = absurd (ground (arith, found))
kept_tokens-is_one_of name piece (p ∷ pieces) found e some_text =
    elim (Bool-cases (text_beq p piece)) [
      | inl same ↦
          let token : lower_case (trim p) ≡ name =
            ap (λ x. lower_case (trim x)) ((text_beq_iff p piece).0 same) ∙ sym e in
          let nonempty : (length (lower_case (trim p)) == 0) ≡ false =
            ap (λ t. length t == 0) token ∙ not_empty name some_text in
          rw (nonempty, (text_beq_iff (lower_case (trim p)) name).1 token) refl
      | inr differ ↦
          let rest = kept_tokens-is_one_of name piece pieces (rw differ at found) e some_text in
          elim (Bool-cases (length (lower_case (trim p)) == 0)) [
            | inl blank ↦ rw blank rest
            | inr kept ↦ rw kept (ground (arith, rest))
          ]
    ]
  where
    not_empty : (t : Text) → t ≢ [] → (length t == 0) ≡ false
    not_empty [] h = absurd (h refl)
    not_empty (c ∷ t) h = ground arith

-- A token of the Connection field: a piece of it, trimmed and in lower case, that is not empty.
abbrev pub IsToken : List (Text × Text) → Text → Type 0
IsToken headers name =
    (piece : Text) × IsPiece (text_or_empty (get? (codes "connection") headers)) piece
    × (name ≡ lower_case (trim piece))
    × (name ≢ [])

pub named_of-IsToken :
    (headers : List (Text × Text)) (name : Text)
    → (is_one_of name (named_of headers) ≡ true) ↔ IsToken headers name
unfolding named_of tokens_of IsTokenOf
named_of-IsToken headers name = (
  λ h.
      let (piece, found, e, some_text) =
        is_one_of-kept_tokens name (first_piece b',' text ∷ later_pieces b',' text) h in
      (piece, (pieces_iff text piece).0 found, e, some_text),
  λ (piece, is_piece, e, some_text).
      kept_tokens-is_one_of name piece (first_piece b',' text ∷ later_pieces b',' text)
        ((pieces_iff text piece).1 is_piece) e some_text,
)
  where
    text : Text
    text = text_or_empty (get? (codes "connection") headers)
