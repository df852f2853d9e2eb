-- ===== src/Policy/Entries.antt =====
-- Whom the entries of an `allowList` admit, without the sets.
use xmpp_httpx.Prelude.{
  ℕ, ◌≡◌, ◌≢◌, ◌↔◌, refl, sym, ap, ◌∙◌, List, [], ◌∷◌, ◌++◌, true, false, Bool-cases, inl, inr, ◌⊎◌,
  ◌==◌, arith, All,
}
use xmpp_httpx.JsMap.{text_key, text_beq_iff}
use xmpp_httpx.Base64.{Text}
use xmpp_httpx.Session.{bare_jid, jid_domain}
use xmpp_httpx.Select.{trim}
use xmpp_httpx.Policy.{includes_at, plain_entry, classify, allow_list}
use xmpp_httpx.Policy.Laws.{admits, any_admits, allow_list-eq-any_admits}

pub IsAnyOf : Text → Text → Type 0
IsAnyOf entry domain = entry ≡ b'*' ∷ b'@' ∷ domain

-- When a trimmed entry admits a requester: "*@domain" and "domain" admit everyone of the domain,
-- and another entry with an at sign admits whoever has its bare JID.
pub data Allows (entry from : Text) : Type 0 where
  anyone_at : (domain : Text) → IsAnyOf entry domain → domain ≡ jid_domain from → Allows entry from
  whole_domain :
      entry ≢ [] → All (λ c. c ≢ b'@') entry → entry ≡ jid_domain from → Allows entry from
  one_jid :
      (before after : Text)
      → entry ≡ before ++ (b'@' ∷ after)
      → ¬ ((domain : Text) × IsAnyOf entry domain)
      → bare_jid entry ≡ bare_jid from
      → Allows entry from

abbrev pub AnyAllows : List Text → Text → Type 0
AnyAllows [] from = ⊥
AnyAllows (raw ∷ entries) from = Allows (trim raw) from ⊎ AnyAllows entries from

no_at : (text : Text) → includes_at text ≡ false → All (λ c. c ≢ b'@') text
no_at [] h = tt
no_at (c ∷ text) h = (ground (arith, h), no_at text (ground (arith, h)))

some_at :
    (text : Text)
    → includes_at text ≡ true
    → (before : Text) × (after : Text) × (text ≡ before ++ (b'@' ∷ after))
some_at [] h = absurd (ground (arith, h))
some_at (c ∷ text) h = elim (Bool-cases (c == b'@')) [
  | inl here ↦ ([], text, ap (λ x. x ∷ text) (ground (arith, here)))
  | inr other ↦
      let (before, after, e) = some_at text (ground (arith, h, other)) in
      (c ∷ before, after, ap (λ l. c ∷ l) e)
]

not_included : (text : Text) → All (λ c. c ≢ b'@') text → includes_at text ≡ false
not_included [] a = refl
not_included (c ∷ text) (other, later) = ground (arith, other, not_included text later)

included : (before after : Text) → includes_at (before ++ (b'@' ∷ after)) ≡ true
included [] after = refl
included (c ∷ before) after = ground (arith, included before after)

-- An entry is empty, begins with "*@", or is a plain one.
data Kind (entry : Text) : Type 0 where
  is_empty : entry ≡ [] → Kind entry
  is_any_of : (domain : Text) → IsAnyOf entry domain → Kind entry
  is_plain :
      entry ≢ []
      → ¬ ((domain : Text) × IsAnyOf entry domain)
      → classify entry ≡ plain_entry entry
      → Kind entry

second : Text → ℕ
second [] = 0
second (a ∷ []) = 0
second (a ∷ b ∷ text) = b

first : Text → ℕ
first [] = 0
first (a ∷ text) = a

classify-Kind : (entry : Text) → Kind entry
unfolding classify IsAnyOf
classify-Kind [] = is_empty refl
classify-Kind (a ∷ []) = is_plain (λ h. cc) (λ (d, h). cc) refl
classify-Kind (a ∷ b ∷ rest) = elim (Bool-cases (a == b'*')) [
  | inr other ↦
      is_plain (λ h. cc) (λ (d, h). absurd (ground (arith, other, ap first h))) (rw other refl)
  | inl star ↦ elim (Bool-cases (b == b'@')) [
    | inr other ↦
        is_plain (λ h. cc) (λ (d, h). absurd (ground (arith, other, ap second h)))
          (rw (star, other) refl)
    | inl at ↦ is_any_of rest (ground (arith, star, at))
  ]
]

admits-Allows : (entry from : Text) → admits (classify entry) from ≡ true → Allows entry from
unfolding classify IsAnyOf
admits-Allows entry from h = elim (classify-Kind entry) [
  | is_empty e ↦ absurd (ground (arith, ap (λ t. admits (classify t) from) (sym e) ∙ h))
  | is_any_of domain e ↦
      anyone_at domain e ((text_beq_iff _ _).0 (sym (ap (λ t. admits (classify t) from) e) ∙ h))
  | is_plain some_text other plain ↦
      let h' : admits (plain_entry entry) from ≡ true = sym (ap (λ x. admits x from) plain) ∙ h in
      elim (Bool-cases (includes_at entry)) [
        | inr without ↦
            whole_domain some_text (no_at entry without) ((text_beq_iff _ _).0 (rw without at h'))
        | inl with_at ↦
            let (before, after, e) = some_at entry with_at in
            one_jid before after e other ((text_beq_iff _ _).0 (rw with_at at h'))
      ]
]

Allows-admits : (entry from : Text) → Allows entry from → admits (classify entry) from ≡ true
unfolding classify IsAnyOf
Allows-admits entry from (anyone_at domain e same) =
    ap (λ t. admits (classify t) from) e ∙ (text_beq_iff _ _).1 same
Allows-admits entry from (whole_domain some_text none_at same) = elim (classify-Kind entry) [
  | is_empty e ↦ absurd (some_text e)
  | is_any_of domain e ↦
      absurd (ground (arith, sym (not_included entry none_at) ∙ ap includes_at e))
  | is_plain some_text' other plain ↦
      ap (λ x. admits x from) plain ∙ rw (not_included entry none_at) ((text_beq_iff _ _).1 same)
]
Allows-admits entry from (one_jid before after e other same) = elim (classify-Kind entry) [
  | is_empty e' ↦ absurd (ground (arith, sym (included before after) ∙ ap includes_at (sym e ∙ e')))
  | is_any_of domain e' ↦ absurd (other (domain, e'))
  | is_plain some_text other' plain ↦
      ap (λ x. admits x from) plain
      ∙ rw (ap includes_at e ∙ included before after) ((text_beq_iff _ _).1 same)
]

any_admits-AnyAllows :
    (entries : List Text) (from : Text) → any_admits entries from ≡ true → AnyAllows entries from
any_admits-AnyAllows [] from h = absurd (ground (arith, h))
any_admits-AnyAllows (raw ∷ entries) from h =
    elim (Bool-cases (admits (classify (trim raw)) from)) [
      | inl this ↦ inl (admits-Allows (trim raw) from this)
      | inr other ↦ inr (any_admits-AnyAllows entries from (rw other at h))
    ]

AnyAllows-any_admits :
    (entries : List Text) (from : Text) → AnyAllows entries from → any_admits entries from ≡ true
AnyAllows-any_admits [] from a = elim a [ ]
AnyAllows-any_admits (raw ∷ entries) from (inl a) = rw (Allows-admits (trim raw) from a) refl
AnyAllows-any_admits (raw ∷ entries) from (inr a) =
    ground (arith, AnyAllows-any_admits entries from a)

-- `allowList` admits a requester exactly when one of the entries, trimmed, does: "*@domain", or a
-- text without an at sign, where that is the domain of the requester; any other text with an at
-- sign, a bare or full JID, where its bare JID is the requester's. An empty entry admits no one.
pub allow_list-AnyAllows :
    (entries : List Text) (from : Text) → (allow_list entries from ≡ true) ↔ AnyAllows entries from
allow_list-AnyAllows entries from = (
  λ h. any_admits-AnyAllows entries from (sym (allow_list-eq-any_admits entries from) ∙ h),
  λ a. allow_list-eq-any_admits entries from ∙ AnyAllows-any_admits entries from a,
)
