-- ===== src/Negotiate/Best.antt =====
-- Which of the candidates the loop over the offers keeps.
use xmpp_httpx.Prelude.{
  ℕ, ◌≤◌, ◌<◌, ◌≡◌, refl, sym, ap, ◌∙◌, List, [], ◌∷◌, ◌++◌, Option, none, some, Option-cases,
  Bool-cases, inl, inr, ◌⊎◌, ltb, ltb→lt, ltb_false→le, ◌==◌, arith, All,
}
use xmpp_httpx.Base64.{Text}
use xmpp_httpx.Negotiate.{
  AcceptEntry, choose, normalize, Candidate, candidate_of, best_of, offer_of,
}

-- A candidate, if any, is worse than a quality, or no better.
abbrev pub IsBelow : ℕ → Option Candidate → Type 0
IsBelow n none = Unit
IsBelow n (some c) = c.quality < n

abbrev pub IsAtMost : ℕ → Option Candidate → Type 0
IsAtMost n none = Unit
IsAtMost n (some c) = c.quality ≤ n

-- The first of the offers that are best: those before it are worse, those after it no better.
pub record IsBest (accepted : List AcceptEntry) (offers : List Text) (c : Candidate) : Type 0 where
  pub before : List Text
  pub after : List Text
  pub splits : offers ≡ before ++ (c.offer ∷ after)
  pub offered : candidate_of accepted c.offer ≡ some c
  pub worse : All (λ o. IsBelow c.quality (candidate_of accepted o)) before
  pub no_better : All (λ o. IsAtMost c.quality (candidate_of accepted o)) after

candidate_of_offer :
    (accepted : List AcceptEntry) (offer : Text) (c : Candidate)
    → candidate_of accepted offer ≡ some c
    → c.offer ≡ offer
unfolding candidate_of
candidate_of_offer accepted offer c h =
    elim (Option-cases (choose (normalize offer) none accepted)) [
      | inl nothing ↦ absurd (ground (arith, rw (nothing, candidate_of) at h))
      | inr (entry, found) ↦ elim (Bool-cases (entry.q == 0)) [
        | inl never ↦ absurd (ground (arith, rw (found, never, candidate_of) at h))
        | inr wanted ↦ sym (ap name (rw (found, wanted, candidate_of) at h))
      ]
    ]
  where
    name : Option Candidate → Text
    name none = offer
    name (some d) = d.offer

later-IsBest :
    (accepted : List AcceptEntry) (offer : Text) (offers : List Text) (c : Candidate)
    → IsBelow c.quality (candidate_of accepted offer)
    → IsBest accepted offers c
    → IsBest accepted (offer ∷ offers) c
later-IsBest accepted offer offers c below best = record {
  before = offer ∷ best.before;
  after = best.after;
  splits = ap (λ l. offer ∷ l) best.splits;
  offered = best.offered;
  worse = (below, best.worse);
  no_better = best.no_better;
}

first-IsBest :
    (accepted : List AcceptEntry) (offer : Text) (offers : List Text) (c : Candidate)
    → candidate_of accepted offer ≡ some c
    → All (λ o. IsAtMost c.quality (candidate_of accepted o)) offers
    → IsBest accepted (offer ∷ offers) c
first-IsBest accepted offer offers c found rest =
    let named = candidate_of_offer accepted offer c found in
    record {
      before = [];
      after = offers;
      splits = ap (λ o. o ∷ offers) (sym named);
      offered = ap (candidate_of accepted) named ∙ found;
      worse = tt;
      no_better = rest;
    }

-- How the loop goes on from a best candidate: it stays, or a better one takes its place.
IsSettled : List AcceptEntry → Candidate → List Text → Type 0
IsSettled accepted b offers =
    ((best_of accepted (some b) offers ≡ some b)
      × All (λ o. IsAtMost b.quality (candidate_of accepted o)) offers)
    ⊎ ((c : Candidate) × (best_of accepted (some b) offers ≡ some c)
        × (b.quality < c.quality)
        × IsBest accepted offers c)

best_of-IsSettled :
    (accepted : List AcceptEntry) (b : Candidate) (offers : List Text) → IsSettled accepted b offers
unfolding IsSettled best_of
best_of-IsSettled accepted b [] = inl (refl, tt)
best_of-IsSettled accepted b (offer ∷ offers) = elim (Option-cases (candidate_of accepted offer)) [
  | inl nothing ↦ elim (best_of-IsSettled accepted b offers) [
    | inl (same, rest) ↦ inl (rw (nothing, best_of) same, (rw nothing tt, rest))
    | inr (c, e, more, best) ↦ inr (
      c,
      rw (nothing, best_of) e,
      more,
      later-IsBest accepted offer offers c (rw nothing tt) best,
    )
  ]
  | inr (d, found) ↦ elim (Bool-cases (ltb b.quality d.quality)) [
    | inl wins ↦ elim (best_of-IsSettled accepted d offers) [
      | inl (same, rest) ↦ inr (
        d,
        rw (found, wins, best_of) same,
        ltb→lt _ _ wins,
        first-IsBest accepted offer offers d found rest,
      )
      | inr (c, e, more, best) ↦ inr (
        c,
        rw (found, wins, best_of) e,
        omega (arith, more, ltb→lt _ _ wins),
        later-IsBest accepted offer offers c (rw found more) best,
      )
    ]
    | inr loses ↦ elim (best_of-IsSettled accepted b offers) [
      | inl (same, rest) ↦
          inl (rw (found, loses, best_of) same, (rw found (ltb_false→le _ _ loses), rest))
      | inr (c, e, more, best) ↦ inr (
        c,
        rw (found, loses, best_of) e,
        more,
        later-IsBest accepted offer offers c
            (rw found (omega (arith, more, ltb_false→le _ _ loses))) best,
      )
    ]
  ]
]

-- What the loop ends with: the offer of the first best candidate, or nothing where
-- there is no candidate.
abbrev pub Chosen : List AcceptEntry → List Text → Option Text → Type 0
Chosen accepted offers none = All (λ o. candidate_of accepted o ≡ none) offers
Chosen accepted offers (some type) = (c : Candidate) × (c.offer ≡ type) × IsBest accepted offers c

later-Chosen :
    (accepted : List AcceptEntry) (offer : Text) (offers : List Text)
    → candidate_of accepted offer ≡ none
    → (result : Option Text) → Chosen accepted offers result
    → Chosen accepted (offer ∷ offers) result
later-Chosen accepted offer offers nothing none all = (nothing, all)
later-Chosen accepted offer offers nothing (some type) (c, named, best) =
    (c, named, later-IsBest accepted offer offers c (rw nothing tt) best)

pub best_of-Chosen :
    (accepted : List AcceptEntry) (offers : List Text)
    → Chosen accepted offers (offer_of (best_of accepted none offers))
unfolding best_of IsSettled
best_of-Chosen accepted [] = tt
best_of-Chosen accepted (offer ∷ offers) = elim (Option-cases (candidate_of accepted offer)) [
  | inl nothing ↦
      rw (nothing, best_of)
        (later-Chosen accepted offer offers nothing (offer_of (best_of accepted none offers))
          (best_of-Chosen accepted offers))
  | inr (d, found) ↦ elim (best_of-IsSettled accepted d offers) [
    | inl (same, rest) ↦
        rw (found, best_of, same) (d, refl, first-IsBest accepted offer offers d found rest)
    | inr (c, e, more, best) ↦
        rw (found, best_of, e) (c, refl, later-IsBest accepted offer offers c (rw found more) best)
  ]
]
