-- ===== src/Negotiate/Order.antt =====
-- The order and the qualities of the entries of a header.
use xmpp_httpx.Prelude.{
  ℕ, ◌≤◌, List, [], ◌∷◌, Option, none, some, Option-cases, Bool-cases, inl, inr, leb, leb→le, ◌==◌,
  arith, All, length,
}
use xmpp_httpx.JsMap.{text_beq}
use xmpp_httpx.Base64.{Text}
use xmpp_httpx.Select.{trim, lower_case}
use xmpp_httpx.Negotiate.{
  FiniteNumber, negative, units, AcceptEntry, first_piece, later_pieces, clamp, value_of,
  after_param, quality_of, insert_entry, entries_of, parse_accept,
}

-- Each entry is at least as good as all that follow it, and none is above the scale.
abbrev pub IsRanked : ℕ → List AcceptEntry → Type 0
IsRanked scale [] = Unit
IsRanked scale (entry ∷ entries) =
    (entry.q ≤ scale) × All (λ o. o.q ≤ entry.q) entries × IsRanked scale entries

All-insert_entry :
    (n : ℕ) (entry : AcceptEntry) (entries : List AcceptEntry)
    → entry.q ≤ n
    → All (λ o. o.q ≤ n) entries
    → All (λ o. o.q ≤ n) (insert_entry entry entries)
unfolding insert_entry
All-insert_entry n entry [] h k = (h, tt)
All-insert_entry n entry (other ∷ others) h (k, ks) = elim (Bool-cases (leb other.q entry.q)) [
  | inl no_better ↦ rw (no_better, insert_entry) (h, (k, ks))
  | inr better ↦ rw (better, insert_entry) (k, All-insert_entry n entry others h ks)
]

All-weaken :
    (m n : ℕ) (entries : List AcceptEntry)
    → m ≤ n
    → All (λ o. o.q ≤ m) entries
    → All (λ o. o.q ≤ n) entries
All-weaken m n [] h k = tt
All-weaken m n (entry ∷ entries) h (k, ks) = (omega (arith, h, k), All-weaken m n entries h ks)

insert_entry-IsRanked :
    (scale : ℕ) (entry : AcceptEntry) (entries : List AcceptEntry)
    → entry.q ≤ scale
    → IsRanked scale entries
    → IsRanked scale (insert_entry entry entries)
unfolding insert_entry
insert_entry-IsRanked scale entry [] h k = (h, tt, tt)
insert_entry-IsRanked scale entry (other ∷ others) h (bound, below, ranked) =
    elim (Bool-cases (leb other.q entry.q)) [
      | inl no_better ↦
          rw (no_better, insert_entry)
            (
              h,
              (
                leb→le _ _ no_better,
                All-weaken other.q entry.q others (leb→le _ _ no_better) below,
              ),
              (bound, below, ranked),
            )
      | inr better ↦
          rw (better, insert_entry)
            (
              bound,
              All-insert_entry other.q entry others (ground (arith, better)) below,
              insert_entry-IsRanked scale entry others h ranked,
            )
    ]

clamp-le : (scale : ℕ) (number : FiniteNumber) → clamp scale number ≤ scale
clamp-le scale negative = omega arith
clamp-le scale (units n) = omega arith

after_param-le :
    (number : Option Text → Option FiniteNumber) (scale : ℕ) (param : Text) (q : ℕ)
    → q ≤ scale
    → after_param number scale param q ≤ scale
after_param-le number scale param q h =
    elim (Bool-cases (text_beq (lower_case (trim (first_piece b'=' param))) (b'q' ∷ []))) [
      | inr other ↦ rw (other, after_param) h
      | inl is_q ↦ elim (Option-cases (number (value_of (later_pieces b'=' param)))) [
        | inl not_finite ↦ rw (is_q, not_finite, after_param) h
        | inr (n, finite) ↦ rw (is_q, finite, after_param) (clamp-le scale n)
      ]
    ]

quality_of-le :
    (number : Option Text → Option FiniteNumber) (scale : ℕ) (params : List Text) (q : ℕ)
    → q ≤ scale
    → quality_of number scale params q ≤ scale
unfolding quality_of
quality_of-le number scale [] q h = h
quality_of-le number scale (param ∷ params) q h =
    quality_of-le number scale params (after_param number scale param q)
      (after_param-le number scale param q h)

entries_of-IsRanked :
    (number : Option Text → Option FiniteNumber) (scale : ℕ) (parts : List Text)
    → IsRanked scale (entries_of number scale parts)
unfolding entries_of
entries_of-IsRanked number scale [] = tt
entries_of-IsRanked number scale (part ∷ parts) =
    elim (Bool-cases (length (lower_case (trim (first_piece b';' part))) == 0)) [
      | inl blank ↦ rw (blank, entries_of) (entries_of-IsRanked number scale parts)
      | inr typed ↦
          rw (typed, entries_of)
            (insert_entry-IsRanked scale _ (entries_of number scale parts)
              (quality_of-le number scale (later_pieces b';' part) scale (omega arith))
              (entries_of-IsRanked number scale parts))
    ]

-- `parseAccept` puts no entry in front of a better one, and no quality is above 1, whatever the
-- numbers in the header.
pub parse_accept-IsRanked :
    (number : Option Text → Option FiniteNumber) (scale : ℕ) (header : Option Text)
    → IsRanked scale (parse_accept number scale header)
unfolding parse_accept
parse_accept-IsRanked number scale none = tt
parse_accept-IsRanked number scale (some header) = elim (Bool-cases (length header == 0)) [
  | inl blank ↦ rw (blank, parse_accept) tt
  | inr written ↦
      rw (written, parse_accept)
        (entries_of-IsRanked number scale (first_piece b',' header ∷ later_pieces b',' header))
]
