-- ===== src/Policy.antt =====
-- src/server/policy.ts: the policies that authorize a requester.
-- A `Set` of strings is the list of its elements. The prompt of the manual policy is a parameter;
-- what the policy remembers of an answer is the promise of it, here the answer.
pub mod Laws
pub mod Entries
pub mod Remembered
mod Tests
use xmpp_httpx.Prelude.{
  ℕ, ◌+◌, List, [], ◌∷◌, Option, none, some, Bool, true, false, ◌||◌, not, ltb, ◌==◌, if◌then◌else◌,
  length,
}
use xmpp_httpx.JsMap.{text_key, text_beq, get?, has, put, delete}
use xmpp_httpx.Base64.{Text}
use xmpp_httpx.Session.{bare_jid, jid_domain}
use xmpp_httpx.Select.{trim}

abbrev pub member : Text → List Text → Bool
member x [] = false
member x (y ∷ set) = text_beq y x || member x set

-- `Set.add` and `Set.delete`
abbrev pub add : Text → List Text → List Text
add x [] = x ∷ []
add x (y ∷ set) = let later = add x set in if text_beq y x then y ∷ set else y ∷ later

abbrev pub remove : Text → List Text → List Text
remove x [] = []
remove x (y ∷ set) = let later = remove x set in if text_beq y x then later else y ∷ later

-- The two sets of `allowList`.
pub record Allowed : Type 0 where
  pub jids : List Text
  pub domains : List Text

abbrev pub includes_at : Text → Bool
includes_at [] = false
includes_at (c ∷ text) = c == b'@' || includes_at text

-- Where an entry belongs: nowhere, with the domains or with the JIDs.
pub data Entry : Type 0 where
  skipped : Entry
  of_domain of_jid : Text → Entry

abbrev pub plain_entry : Text → Entry
plain_entry entry = if not (includes_at entry) then of_domain entry else of_jid (bare_jid entry)

unfoldable pub classify : Text → Entry
classify [] = skipped
classify (a ∷ []) = plain_entry (a ∷ [])
classify (a ∷ b ∷ rest) =
    if a == b'*'
    then if b == b'@' then of_domain rest else plain_entry (a ∷ b ∷ rest)
    else plain_entry (a ∷ b ∷ rest)

abbrev pub admit : Entry → Allowed → Allowed
admit skipped allowed = allowed
admit (of_domain domain) allowed = record allowed { domains = add domain allowed.domains }
admit (of_jid jid) allowed = record allowed { jids = add jid allowed.jids }

unfoldable pub fill : List Text → Allowed → Allowed
fill [] allowed = allowed
fill (raw ∷ entries) allowed = fill entries (admit (classify (trim raw)) allowed)

-- `allowList(entries)`, asked about a requester.
unfoldable pub allow_list : List Text → Text → Bool
allow_list entries from =
    let allowed = fill entries (record { jids = []; domains = [] }) in
    member (bare_jid from) allowed.jids || member (jid_domain from) allowed.domains

-- A presence stanza as far as `presencePolicy` reads it: its `from` and `type`.
pub data Presence : Type 0 where
  other_stanza : Presence
  presence : (from type : Option Text) → Presence

abbrev pub unavailable : Text
unavailable = b'u' ∷ b'n' ∷ b'a' ∷ b'v' ∷ b'a' ∷ b'i' ∷ b'l' ∷ b'a' ∷ b'b' ∷ b'l' ∷ b'e' ∷ []

abbrev pub seen : Text → Option Text → List Text → List Text
seen from none available = add (bare_jid from) available
seen from (some type) available =
    if length type == 0
    then add (bare_jid from) available
    else if text_beq type unavailable
    then remove (bare_jid from) available
    else available

-- The stanza listener of `presencePolicy`, and the policy.
unfoldable pub on_presence : List Text → Presence → List Text
on_presence available other_stanza = available
on_presence available (presence none type) = available
on_presence available (presence (some from) type) =
    if length from == 0 then available else seen from type available

unfoldable pub presence_policy : List Text → Text → Bool
presence_policy available from = member (bare_jid from) available

-- What `manualPolicy` remembers of a bare JID.
pub record Decision : Type 0 where
  pub value : Bool
  pub at : ℕ

-- `manualPolicy` at a time, with the answer that a prompt would give (`none` where it throws): the
-- answer, whether the prompt was asked, and what is remembered.
pub record Asked : Type 0 where
  pub answer : Bool
  pub prompted : Bool
  pub decisions : List (Text × Decision)

abbrev pub denied_if_thrown : Option Bool → Bool
denied_if_thrown none = false
denied_if_thrown (some answer) = answer

abbrev pub ask : Text → ℕ → Option Bool → List (Text × Decision) → Asked
ask key now prompt decisions = record {
  answer = denied_if_thrown prompt;
  prompted = true;
  decisions = put key (record { value = denied_if_thrown prompt; at = now }) decisions;
}

-- `now - cached.at < ttlMs`
unfoldable pub manual_policy : ℕ → Text → ℕ → Option Bool → List (Text × Decision) → Asked
manual_policy ttl_ms from now prompt decisions = elim (get? (bare_jid from) decisions) [
  | none ↦ ask (bare_jid from) now prompt decisions
  | some cached ↦
      if ltb now (cached.at + ttl_ms)
      then record { answer = cached.value; prompted = false; decisions = decisions }
      else ask (bare_jid from) now prompt decisions
]
