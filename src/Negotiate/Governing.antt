-- ===== src/Negotiate/Governing.antt =====
-- Which entry of an Accept header says how well an offer is liked.
use xmpp_httpx.Prelude.{
  ℕ, ◌≤◌, ◌<◌, ◌≡◌, ◌≢◌, refl, sym, ap, subst, ◌∙◌, List, [], ◌∷◌, ◌++◌, Option, none, some, true,
  false, Bool-cases, inl, inr, ◌⊎◌, ◌&&◌, ltb, lt→ltb, ltb→lt, ltb_false→le, length, ◌==◌, ==_iff,
  arith, All, All-append,
}
use xmpp_httpx.JsMap.{text_beq, text_beq_iff}
use xmpp_httpx.Base64.{Text, codes}
use xmpp_httpx.Negotiate.{
  AcceptEntry, any_subtype, without_last, specificity, starts_with, matches, is_more_specific,
  choose,
}

-- "p/*" for some p.
abbrev pub IsRange : Text → Type 0
IsRange pattern = (main : Text) × (pattern ≡ main ++ codes "/*")

-- When the type of an entry matches an offer: it is "*/*", the offer itself, or "p/*" where the
-- offer begins with "p/".
pub data Matches (pattern offered : Text) : Type 0 where
  any_type_at_all : pattern ≡ codes "*/*" → Matches pattern offered
  same_type : pattern ≡ offered → Matches pattern offered
  same_main_type :
      (main subtype : Text)
      → pattern ≡ main ++ codes "/*"
      → offered ≡ (main ++ codes "/") ++ subtype
      → Matches pattern offered

-- How specific the type of an entry is.
pub data HasRank (pattern : Text) : ℕ → Type 0 where
  of_any : pattern ≡ codes "*/*" → HasRank pattern 0
  of_range : pattern ≢ codes "*/*" → IsRange pattern → HasRank pattern 1
  of_type : ¬ IsRange pattern → HasRank pattern 2

-- An entry yields to one of a rank: it does not match, or its own rank is smaller (not larger).
pub YieldsTo : Text → ℕ → AcceptEntry → Type 0
YieldsTo offered rank entry =
    (¬ Matches entry.type offered) ⊎ ((n : ℕ) × HasRank entry.type n × (n < rank))

pub GivesWayTo : Text → ℕ → AcceptEntry → Type 0
GivesWayTo offered rank entry =
    (¬ Matches entry.type offered) ⊎ ((n : ℕ) × HasRank entry.type n × (n ≤ rank))

-- The entry that governs an offer: it matches, and is the first of the most specific that do.
pub record Governs (accepted : List AcceptEntry) (offered : Text) (entry : AcceptEntry)
    : Type 0 where
  pub before : List AcceptEntry
  pub after : List AcceptEntry
  pub splits : accepted ≡ before ++ (entry ∷ after)
  pub matching : Matches entry.type offered
  pub rank : ℕ
  pub ranked : HasRank entry.type rank
  pub less_specific : All (YieldsTo offered rank) before
  pub no_more_specific : All (GivesWayTo offered rank) after

nonempty_range : (main : Text) → (length (main ++ codes "/*") == 0) ≡ false
nonempty_range [] = ground arith
nonempty_range (c ∷ main) = ground arith

any_subtype_found : (main : Text) → any_subtype (main ++ codes "/*") ≡ true
any_subtype_found [] = refl
any_subtype_found (c ∷ main) = ground (arith, any_subtype_found main)

any_subtype-IsRange : (pattern : Text) → any_subtype pattern ≡ true → IsRange pattern
any_subtype-IsRange [] h = absurd (ground (arith, h))
any_subtype-IsRange (c ∷ text) h = elim (Bool-cases (text_beq (c ∷ text) (codes "/*"))) [
  | inl same ↦ ([], (text_beq_iff (c ∷ text) (codes "/*")).0 same)
  | inr differ ↦
      let (main, e) = any_subtype-IsRange text (rw differ at h) in (c ∷ main, ap (λ l. c ∷ l) e)
]

without_last_range : (main : Text) → without_last (main ++ codes "/*") ≡ main ++ codes "/"
without_last_range [] = refl
without_last_range (c ∷ main) = rw (nonempty_range main) (ap (λ l. c ∷ l) (without_last_range main))

starts_with-append : (prefix rest : Text) → starts_with prefix (prefix ++ rest) ≡ true
starts_with-append [] rest = refl
starts_with-append (c ∷ prefix) rest =
    rw ((==_iff c c).1 refl, starts_with) (starts_with-append prefix rest)

starts_with_split :
    (prefix text : Text) → starts_with prefix text ≡ true → (rest : Text) × (text ≡ prefix ++ rest)
starts_with_split [] text h = (text, refl)
starts_with_split (c ∷ prefix) [] h = absurd (ground (arith, h))
starts_with_split (c ∷ prefix) (d ∷ text) h = elim (Bool-cases (c == d)) [
  | inl same ↦
      let (rest, e) = starts_with_split prefix text (rw (same, starts_with) at h) in
      (rest, ap (λ x. x ∷ text) (sym ((==_iff c d).0 same)) ∙ ap (λ l. c ∷ l) e)
  | inr differ ↦ absurd (ground (arith, rw (differ, starts_with) at h))
]

matches-Matches :
    (pattern offered : Text) → matches pattern offered ≡ true → Matches pattern offered
unfolding matches
matches-Matches pattern offered h = elim (Bool-cases (text_beq pattern (codes "*/*"))) [
  | inl any ↦ any_type_at_all ((text_beq_iff pattern _).0 any)
  | inr not_any ↦ elim (Bool-cases (text_beq pattern offered)) [
    | inl same ↦ same_type ((text_beq_iff pattern offered).0 same)
    | inr differ ↦ elim (Bool-cases (any_subtype pattern)) [
      | inr no_range ↦ absurd (ground (arith, rw (not_any, differ, no_range, matches) at h))
      | inl range ↦
          let (main, e) = any_subtype-IsRange pattern range in
          let (rest, begins) =
            starts_with_split (without_last pattern) offered
              (rw (not_any, differ, range, matches) at h) in
          same_main_type main rest e
            (begins ∙ ap (λ p. p ++ rest) (ap without_last e ∙ without_last_range main))
    ]
  ]
]

Matches-matches :
    (pattern offered : Text) → Matches pattern offered → matches pattern offered ≡ true
unfolding matches
Matches-matches pattern offered (any_type_at_all e) =
    rw ((text_beq_iff pattern (codes "*/*")).1 e) refl
Matches-matches pattern offered (same_type e) = ground (arith, (text_beq_iff pattern offered).1 e)
Matches-matches pattern offered (same_main_type main subtype e begins) =
    let range : any_subtype pattern ≡ true = ap any_subtype e ∙ any_subtype_found main in
    let found : starts_with (without_last pattern) offered ≡ true =
      ap (λ p. starts_with p offered) (ap without_last e ∙ without_last_range main)
      ∙ ap (starts_with (main ++ codes "/")) begins
      ∙ starts_with-append (main ++ codes "/") subtype in
    elim (Bool-cases (text_beq pattern (codes "*/*"))) [
      | inl any ↦ rw any refl
      | inr not_any ↦ elim (Bool-cases (text_beq pattern offered)) [
        | inl same ↦ rw (not_any, same) refl
        | inr differ ↦ rw (not_any, differ, range, matches) found
      ]
    ]

specificity-HasRank : (pattern : Text) → HasRank pattern (specificity pattern)
unfolding specificity
specificity-HasRank pattern = elim (Bool-cases (text_beq pattern (codes "*/*"))) [
  | inl any ↦ rw any (of_any ((text_beq_iff pattern (codes "*/*")).0 any))
  | inr not_any ↦
      let other : pattern ≢ codes "*/*" =
        λ e. absurd (ground (arith, not_any, (text_beq_iff pattern (codes "*/*")).1 e)) in
      elim (Bool-cases (any_subtype pattern)) [
        | inl range ↦ rw (not_any, range) (of_range other (any_subtype-IsRange pattern range))
        | inr no_range ↦
            rw (not_any, no_range)
              (of_type (λ (main, e).
                absurd (ground (arith, no_range, ap any_subtype e ∙ any_subtype_found main))))
      ]
]

HasRank-specificity : (pattern : Text) {n : ℕ} → HasRank pattern n → specificity pattern ≡ n
unfolding specificity
HasRank-specificity pattern (of_any e) = rw ((text_beq_iff pattern (codes "*/*")).1 e) refl
HasRank-specificity pattern (of_range other (main, e)) =
    elim (Bool-cases (text_beq pattern (codes "*/*"))) [
      | inl any ↦ absurd (other ((text_beq_iff pattern (codes "*/*")).0 any))
      | inr not_any ↦ rw (not_any, ap any_subtype e ∙ any_subtype_found main) refl
    ]
HasRank-specificity pattern (of_type no_range) = elim (Bool-cases (any_subtype pattern)) [
  | inl range ↦ absurd (no_range (any_subtype-IsRange pattern range))
  | inr none_such ↦ elim (Bool-cases (text_beq pattern (codes "*/*"))) [
    | inl any ↦ absurd (no_range (codes "*", (text_beq_iff pattern (codes "*/*")).0 any))
    | inr not_any ↦ rw (not_any, none_such) refl
  ]
]

-- The loop passes over entries that yield to the one that governs.
choose-before :
    (offered : Text) (rank : ℕ) (entry : AcceptEntry) (before after : List AcceptEntry)
    (chosen : Option AcceptEntry)
    → Matches entry.type offered
    → HasRank entry.type rank
    → (chosen ≡ none) ⊎ ((c : AcceptEntry) × (chosen ≡ some c) × (specificity c.type < rank))
    → All (YieldsTo offered rank) before
    → choose offered chosen (before ++ (entry ∷ after)) ≡ choose offered (some entry) after
unfolding choose YieldsTo
choose-before offered rank entry [] after chosen matching ranked weak yields =
    rw (Matches-matches entry.type offered matching, more, choose) refl
  where
    more : is_more_specific entry chosen ≡ true
    more = elim weak [
      | inl e ↦ rw e refl
      | inr (c, e, less) ↦
          ap (is_more_specific entry) e
          ∙ lt→ltb _ _ (
              subst (λ n. specificity c.type < n) (sym (HasRank-specificity entry.type ranked))
                less)
    ]
choose-before offered rank entry (e ∷ before) after chosen matching ranked weak (yields, later) =
    elim (Bool-cases (matches e.type offered && is_more_specific e chosen)) [
      | inr passed ↦
          rw (passed, choose)
            (choose-before offered rank entry before after chosen matching ranked weak later)
      | inl taken ↦
          rw (taken, choose)
            (choose-before offered rank entry before after (some e) matching ranked
              (inr (e, refl, below yields taken)) later)
    ]
  where
    below :
        (¬ Matches e.type offered) ⊎ ((n : ℕ) × HasRank e.type n × (n < rank))
        → (matches e.type offered && is_more_specific e chosen) ≡ true
        → specificity e.type < rank
    below (inl no_match) h = absurd (no_match (matches-Matches e.type offered (ground (arith, h))))
    below (inr (n, r, less)) h = subst (λ k. k < rank) (sym (HasRank-specificity e.type r)) less

choose-after :
    (offered : Text) (rank : ℕ) (entry : AcceptEntry) (after : List AcceptEntry)
    → HasRank entry.type rank
    → All (GivesWayTo offered rank) after
    → choose offered (some entry) after ≡ some entry
unfolding choose GivesWayTo
choose-after offered rank entry [] ranked gives = refl
choose-after offered rank entry (e ∷ after) ranked (gives, later) =
    rw (passed gives) (choose-after offered rank entry after ranked later)
  where
    passed :
        (¬ Matches e.type offered) ⊎ ((n : ℕ) × HasRank e.type n × (n ≤ rank))
        → (matches e.type offered && ltb (specificity entry.type) (specificity e.type)) ≡ false
    passed (inl no_match) = elim (Bool-cases (matches e.type offered)) [
      | inl matching ↦ absurd (no_match (matches-Matches e.type offered matching))
      | inr other ↦ rw other refl
    ]
    passed (inr (n, r, at_most)) =
        ground (arith, HasRank-specificity e.type r, HasRank-specificity entry.type ranked, at_most)

-- The loop finds the entry that governs.
pub Governs-choose :
    (accepted : List AcceptEntry) (offered : Text) (entry : AcceptEntry)
    → Governs accepted offered entry
    → choose offered none accepted ≡ some entry
Governs-choose accepted offered entry g =
    ap (choose offered none) g.splits
    ∙ choose-before offered g.rank entry g.before g.after none g.matching g.ranked (inl refl)
        g.less_specific
    ∙ choose-after offered g.rank entry g.after g.ranked g.no_more_specific

-- An entry governs unless none matches.
GivesWay-weaken :
    (offered : Text) (rank rank' : ℕ)
    → rank ≤ rank'
    → (entries : List AcceptEntry) → All (GivesWayTo offered rank) entries
    → All (GivesWayTo offered rank') entries
unfolding GivesWayTo
GivesWay-weaken offered rank rank' le [] a = tt
GivesWay-weaken offered rank rank' le (e ∷ entries) (inl no_match, later) =
    (inl no_match, GivesWay-weaken offered rank rank' le entries later)
GivesWay-weaken offered rank rank' le (e ∷ entries) (inr (n, r, at_most), later) =
    (inr (n, r, omega (arith, le, at_most)), GivesWay-weaken offered rank rank' le entries later)

Yields-weaken :
    (offered : Text) (rank rank' : ℕ)
    → rank ≤ rank'
    → (entries : List AcceptEntry) → All (YieldsTo offered rank) entries
    → All (GivesWayTo offered rank') entries
unfolding YieldsTo GivesWayTo
Yields-weaken offered rank rank' le [] a = tt
Yields-weaken offered rank rank' le (e ∷ entries) (inl no_match, later) =
    (inl no_match, Yields-weaken offered rank rank' le entries later)
Yields-weaken offered rank rank' le (e ∷ entries) (inr (n, r, less), later) =
    (inr (n, r, omega (arith, le, less)), Yields-weaken offered rank rank' le entries later)

unmatched_gives_way :
    (offered : Text) (rank : ℕ) (entries : List AcceptEntry)
    → All (λ e. ¬ Matches e.type offered) entries
    → All (GivesWayTo offered rank) entries
unfolding GivesWayTo
unmatched_gives_way offered rank [] a = tt
unmatched_gives_way offered rank (e ∷ entries) (no_match, later) =
    (inl no_match, unmatched_gives_way offered rank entries later)

behind :
    (x : AcceptEntry) (xs : List AcceptEntry) (offered : Text) (e : AcceptEntry)
    (g : Governs xs offered e)
    → (¬ Matches x.type offered) ⊎ ((n : ℕ) × HasRank x.type n × (n < g.rank))
    → Governs (x ∷ xs) offered e
unfolding YieldsTo
behind x xs offered e g yields = record {
  before = x ∷ g.before;
  after = g.after;
  splits = ap (λ l. x ∷ l) g.splits;
  matching = g.matching;
  rank = g.rank;
  ranked = g.ranked;
  less_specific = (yields, g.less_specific);
  no_more_specific = g.no_more_specific;
}

ahead :
    (x : AcceptEntry) (xs : List AcceptEntry) (offered : Text)
    → Matches x.type offered
    → All (GivesWayTo offered (specificity x.type)) xs
    → Governs (x ∷ xs) offered x
ahead x xs offered matching gives = record {
  before = [];
  after = xs;
  splits = refl;
  matching = matching;
  rank = specificity x.type;
  ranked = specificity-HasRank x.type;
  less_specific = tt;
  no_more_specific = gives;
}

Governs-All :
    (xs : List AcceptEntry) (offered : Text) (e : AcceptEntry) (rank : ℕ) (g : Governs xs offered e)
    → g.rank ≤ rank
    → All (GivesWayTo offered rank) xs
unfolding GivesWayTo
Governs-All xs offered e rank g le = subst (All (GivesWayTo offered rank)) (sym g.splits) (
    All-append (GivesWayTo offered rank) g.before (e ∷ g.after)
      (Yields-weaken offered g.rank rank le g.before g.less_specific)
      (
        inr (g.rank, g.ranked, le),
        GivesWay-weaken offered g.rank rank le g.after g.no_more_specific,
      ))

pub governed :
    (accepted : List AcceptEntry) (offered : Text)
    → ((e : AcceptEntry) × Governs accepted offered e)
      ⊎ All (λ e. ¬ Matches e.type offered) accepted
governed [] offered = inr tt
governed (x ∷ xs) offered = elim (Bool-cases (matches x.type offered)) [
  | inr other ↦
      let no_match : ¬ Matches x.type offered =
        λ m. absurd (ground (arith, other, Matches-matches x.type offered m)) in
      elim (governed xs offered) [
        | inr none_match ↦ inr (no_match, none_match)
        | inl (e, g) ↦ inl (e, behind x xs offered e g (inl no_match))
      ]
  | inl found ↦
      let matching = matches-Matches x.type offered found in
      let own = specificity x.type in
      let ranked = specificity-HasRank x.type in
      elim (governed xs offered) [
        | inr none_match ↦
            inl (x, ahead x xs offered matching (unmatched_gives_way offered own xs none_match))
        | inl (e, g) ↦ elim (Bool-cases (ltb own g.rank)) [
          | inl less ↦ inl (e, behind x xs offered e g (inr (own, ranked, ltb→lt _ _ less)))
          | inr not_less ↦ inl (
            x,
            ahead x xs offered matching
                (Governs-All xs offered e own g (ltb_false→le _ _ not_less)),
          )
        ]
      ]
]

pub choose-unmatched :
    (offered : Text) (entries : List AcceptEntry)
    → All (λ e. ¬ Matches e.type offered) entries
    → choose offered none entries ≡ none
unfolding choose
choose-unmatched offered [] a = refl
choose-unmatched offered (e ∷ entries) (no_match, later) =
    elim (Bool-cases (matches e.type offered)) [
      | inl found ↦ absurd (no_match (matches-Matches e.type offered found))
      | inr other ↦ rw other (choose-unmatched offered entries later)
    ]
