-- ===== src/Policy/Laws.antt =====
-- Whom the policies admit.
use xmpp_httpx.Prelude.{
  ◌≡◌, refl, sym, ap, ◌∙◌, List, [], ◌∷◌, Option, none, some, Bool, true, false, Bool-cases, inl,
  inr, ◌||◌, ◌==◌, if◌then◌else◌, arith, length,
}
use xmpp_httpx.JsMap.{text_key, text_beq, text_beq_iff}
use xmpp_httpx.Base64.{Text}
use xmpp_httpx.Session.{bare_jid, jid_domain}
use xmpp_httpx.Select.{trim}
use xmpp_httpx.Policy.{
  member, add, remove, Allowed, Entry, skipped, of_domain, of_jid, classify, admit, fill,
  allow_list, Presence, other_stanza, presence, seen, unavailable, on_presence, presence_policy,
}

member-add : (x y : Text) (set : List Text) → member x (add y set) ≡ (text_beq y x || member x set)
member-add x y [] = refl
member-add x y (z ∷ set) = elim (Bool-cases (text_beq z y)) [
  | inl same ↦ rw same (
      ap (λ k. text_beq k x || member x set) ((text_beq_iff z y).0 same)
      ∙ ground arith
      ∙ ap (λ k. text_beq y x || (text_beq k x || member x set)) (sym ((text_beq_iff z y).0 same)))
  | inr differ ↦ rw differ (ground (arith, member-add x y set))
]

member-remove :
    (x y : Text) (set : List Text)
    → member x (remove y set) ≡ (if text_beq y x then false else member x set)
member-remove x y [] = ground arith
member-remove x y (z ∷ set) =
    ground (arith, text_beq_iff z y, text_beq_iff z x, text_beq_iff y x, member-remove x y set)

-- Whether an entry admits a requester, with no set in between.
abbrev pub admits : Entry → Text → Bool
admits skipped from = false
admits (of_domain domain) from = text_beq domain (jid_domain from)
admits (of_jid jid) from = text_beq jid (bare_jid from)

abbrev pub any_admits : List Text → Text → Bool
any_admits [] from = false
any_admits (raw ∷ entries) from = admits (classify (trim raw)) from || any_admits entries from

abbrev asked_of : Allowed → Text → Bool
asked_of allowed from =
    member (bare_jid from) allowed.jids || member (jid_domain from) allowed.domains

asked_of-admit :
    (entry : Entry) (allowed : Allowed) (from : Text)
    → asked_of (admit entry allowed) from ≡ (admits entry from || asked_of allowed from)
asked_of-admit skipped allowed from = refl
asked_of-admit (of_domain domain) allowed from =
    ground (arith, member-add (jid_domain from) domain allowed.domains)
asked_of-admit (of_jid jid) allowed from =
    ground (arith, member-add (bare_jid from) jid allowed.jids)

asked_of-fill :
    (entries : List Text) (allowed : Allowed) (from : Text)
    → asked_of (fill entries allowed) from ≡ (any_admits entries from || asked_of allowed from)
unfolding fill
asked_of-fill [] allowed from = refl
asked_of-fill (raw ∷ entries) allowed from =
    asked_of-fill entries (admit (classify (trim raw)) allowed) from
    ∙ ap (λ b. any_admits entries from || b) (asked_of-admit (classify (trim raw)) allowed from)
    ∙ swap (any_admits entries from) (admits (classify (trim raw)) from) (asked_of allowed from)
  where
    swap : (a b c : Bool) → (a || (b || c)) ≡ ((b || a) || c)
    swap a b c = ground arith

pub allow_list-eq-any_admits :
    (entries : List Text) (from : Text) → allow_list entries from ≡ any_admits entries from
unfolding allow_list
allow_list-eq-any_admits entries from =
    asked_of-fill entries (record { jids = []; domains = [] }) from ∙ ground arith

-- The status that a presence of a type gives to a bare JID that had one.
abbrev pub told : Option Text → Bool → Bool
told none status = true
told (some type) status =
    if length type == 0 then true else if text_beq type unavailable then false else status

abbrev pub status_after : Text → Bool → Presence → Bool
status_after jid status other_stanza = status
status_after jid status (presence none type) = status
status_after jid status (presence (some from) type) =
    if length from == 0
    then status
    else if text_beq (bare_jid from) jid
    then told type status
    else status

-- What the last presence of a bare JID said, and `status` where there is none.
abbrev pub last_status : Text → Bool → List Presence → Bool
last_status jid status [] = status
last_status jid status (p ∷ presences) = last_status jid (status_after jid status p) presences

abbrev pub on_presences : List Text → List Presence → List Text
on_presences available [] = available
on_presences available (p ∷ presences) = on_presences (on_presence available p) presences

member-seen :
    (jid from : Text) (type : Option Text) (available : List Text)
    → member jid (seen from type available) ≡ (
        if text_beq (bare_jid from) jid
        then told type (member jid available)
        else member jid available)
member-seen jid from none available = member-add jid (bare_jid from) available ∙ ground arith
member-seen jid from (some type) available = elim (Bool-cases (length type == 0)) [
  | inl blank ↦ rw blank (member-add jid (bare_jid from) available ∙ ground arith)
  | inr typed ↦ elim (Bool-cases (text_beq type unavailable)) [
    | inl gone ↦ rw (typed, gone) (member-remove jid (bare_jid from) available)
    | inr unknown ↦ rw (typed, unknown) (ground arith)
  ]
]

member-on_presence :
    (jid : Text) (available : List Text) (p : Presence)
    → member jid (on_presence available p) ≡ status_after jid (member jid available) p
unfolding on_presence
member-on_presence jid available other_stanza = refl
member-on_presence jid available (presence none type) = refl
member-on_presence jid available (presence (some from) type) =
    elim (Bool-cases (length from == 0)) [
      | inl blank ↦ rw blank refl
      | inr named ↦ rw named (member-seen jid from type available)
    ]

member-on_presences :
    (jid : Text) (available : List Text) (presences : List Presence)
    → member jid (on_presences available presences)
      ≡ last_status jid (member jid available) presences
member-on_presences jid available [] = refl
member-on_presences jid available (p ∷ presences) =
    member-on_presences jid (on_presence available p) presences
    ∙ ap (λ b. last_status jid b presences) (member-on_presence jid available p)

-- After any stanzas `presencePolicy` admits exactly those whose bare JID is "available" in the last
-- presence of it that says something: one without a type says available, one of type "unavailable"
-- says unavailable, whichever resource sends it; other types say nothing. So the last resource
-- that says something decides for the bare JID, and the others of it are not looked at.
pub presence_policy-eq-last_status :
    (presences : List Presence) (from : Text)
    → presence_policy (on_presences [] presences) from ≡ last_status (bare_jid from) false presences
unfolding presence_policy
presence_policy-eq-last_status presences from = member-on_presences (bare_jid from) [] presences
