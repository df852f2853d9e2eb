-- ===== src/Negotiate/Choice.antt =====
-- Which of the offered types is chosen.
use xmpp_httpx.Prelude.{
  ℕ, suc, ◌≤◌, ◌<◌, ◌≡◌, sym, ap, subst, ◌∙◌, List, [], ◌∷◌, ◌++◌, Option, none, some, false,
  Bool-cases, inl, inr, ◌==◌, arith, All,
}
use xmpp_httpx.Base64.{Text}
use xmpp_httpx.Negotiate.{
  FiniteNumber, AcceptEntry, parse_accept, normalize, Candidate, candidate_of, best_of, offer_of,
  negotiate_content_type,
}
use xmpp_httpx.Negotiate.Governing.{Governs, governed, Governs-choose, choose-unmatched}
use xmpp_httpx.Negotiate.Best.{IsBelow, IsAtMost, Chosen, best_of-Chosen}

-- How well the header likes an offer: the quality of the entry that governs it, where that is not
-- zero, which refuses the offer.
abbrev pub HasQuality : List AcceptEntry → Text → ℕ → Type 0
HasQuality accepted offer q =
    (entry : AcceptEntry) × Governs accepted (normalize offer) entry × (entry.q ≡ q) × (0 < q)

abbrev pub IsLiked : List AcceptEntry → Text → Type 0
IsLiked accepted offer = (q : ℕ) × HasQuality accepted offer q

abbrev pub IsLikedAtLeast : List AcceptEntry → ℕ → Text → Type 0
IsLikedAtLeast accepted least offer = (q : ℕ) × HasQuality accepted offer q × (least ≤ q)

-- An offer that the header likes best, and the first of those.
pub record IsFirstBest (accepted : List AcceptEntry) (offers : List Text) (offer : Text)
    : Type 0 where
  pub before : List Text
  pub after : List Text
  pub splits : offers ≡ before ++ (offer ∷ after)
  pub quality : ℕ
  pub liked : HasQuality accepted offer quality
  pub worse : All (λ o. ¬ IsLikedAtLeast accepted quality o) before
  pub no_better : All (λ o. ¬ IsLikedAtLeast accepted (suc quality) o) after

abbrev pub IsChoice : List AcceptEntry → List Text → Option Text → Type 0
IsChoice accepted offers none = All (λ o. ¬ IsLiked accepted o) offers
IsChoice accepted offers (some offer) = IsFirstBest accepted offers offer

quality_or : ℕ → Option Candidate → ℕ
quality_or other none = other
quality_or other (some c) = c.quality

HasQuality-candidate_of :
    (accepted : List AcceptEntry) (offer : Text) (q : ℕ)
    → HasQuality accepted offer q
    → candidate_of accepted offer ≡ some (record { offer = offer; quality = q })
unfolding candidate_of
HasQuality-candidate_of accepted offer q (entry, g, e, positive) =
    let wanted : (entry.q == 0) ≡ false = ground (arith, e, positive) in
    rw (Governs-choose accepted (normalize offer) entry g, wanted, candidate_of)
      (ap (λ n. some (record { offer = offer; quality = n })) e)

candidate_of-HasQuality :
    (accepted : List AcceptEntry) (offer : Text) (c : Candidate)
    → candidate_of accepted offer ≡ some c
    → HasQuality accepted offer c.quality
unfolding candidate_of quality_or
candidate_of-HasQuality accepted offer c h = elim (governed accepted (normalize offer)) [
  | inr no_match ↦
      absurd (
        ground
          (arith, rw (choose-unmatched (normalize offer) accepted no_match, candidate_of) at h))
  | inl (entry, g) ↦
      let found = Governs-choose accepted (normalize offer) entry g in
      elim (Bool-cases (entry.q == 0)) [
        | inl never ↦ absurd (ground (arith, rw (found, never, candidate_of) at h))
        | inr wanted ↦
            let e : entry.q ≡ c.quality =
              ap (quality_or entry.q) (rw (found, wanted, candidate_of) at h) in
            (entry, g, e, ground (arith, e, wanted))
      ]
]

unliked :
    (accepted : List AcceptEntry) (offers : List Text)
    → All (λ o. candidate_of accepted o ≡ none) offers
    → All (λ o. ¬ IsLiked accepted o) offers
unliked accepted [] a = tt
unliked accepted (o ∷ offers) (nothing, later) = (
  λ (q, quality).
      absurd (ground (arith, sym (HasQuality-candidate_of accepted o q quality) ∙ nothing)),
  unliked accepted offers later,
)

below_unliked :
    (accepted : List AcceptEntry) (n : ℕ) (offers : List Text)
    → All (λ o. IsBelow n (candidate_of accepted o)) offers
    → All (λ o. ¬ IsLikedAtLeast accepted n o) offers
below_unliked accepted n [] a = tt
below_unliked accepted n (o ∷ offers) (below, later) = (
  λ (q, quality, least).
      omega (arith, least, subst (IsBelow n) (HasQuality-candidate_of accepted o q quality) below),
  below_unliked accepted n offers later,
)

at_most_unliked :
    (accepted : List AcceptEntry) (n : ℕ) (offers : List Text)
    → All (λ o. IsAtMost n (candidate_of accepted o)) offers
    → All (λ o. ¬ IsLikedAtLeast accepted (suc n) o) offers
at_most_unliked accepted n [] a = tt
at_most_unliked accepted n (o ∷ offers) (at_most, later) = (
  λ (q, quality, least).
      omega
        (arith, least, subst (IsAtMost n) (HasQuality-candidate_of accepted o q quality) at_most),
  at_most_unliked accepted n offers later,
)

Chosen-IsChoice :
    (accepted : List AcceptEntry) (offers : List Text) (result : Option Text)
    → Chosen accepted offers result
    → IsChoice accepted offers result
Chosen-IsChoice accepted offers none nothing = unliked accepted offers nothing
Chosen-IsChoice accepted offers (some offer) (c, named, best) =
    subst (IsFirstBest accepted offers) named (record {
      before = best.before;
      after = best.after;
      splits = best.splits;
      quality = c.quality;
      liked = candidate_of-HasQuality accepted c.offer c best.offered;
      worse = below_unliked accepted c.quality best.before best.worse;
      no_better = at_most_unliked accepted c.quality best.after best.no_better;
    })

-- For an Accept header with at least one entry, `negotiateContentType` gives the first of the
-- offers that the header likes best, and nothing only where it likes none. An offer is liked by the
-- quality of the most specific entry that matches it, the first such in `parseAccept`'s order,
-- unless that is 0. An entry matches by "*/*", by equality or by "p/*"; "p/*" is more specific than
-- "*/*", and any other type than both.
pub negotiate_content_type-IsChoice :
    (number : Option Text → Option FiniteNumber) (scale : ℕ) (header : Option Text)
    (offers : List Text) (entry : AcceptEntry) (entries : List AcceptEntry)
    → parse_accept number scale header ≡ entry ∷ entries
    → IsChoice (entry ∷ entries) offers (negotiate_content_type number scale header offers)
unfolding negotiate_content_type
negotiate_content_type-IsChoice number scale header [] entry entries h = tt
negotiate_content_type-IsChoice number scale header (first ∷ offers) entry entries h =
    rw (h, negotiate_content_type)
      (Chosen-IsChoice (entry ∷ entries) (first ∷ offers)
        (offer_of (best_of (entry ∷ entries) none (first ∷ offers)))
        (best_of-Chosen (entry ∷ entries) (first ∷ offers)))
