-- ===== src/Policy/Tests.antt =====
-- The theorems on policies at concrete inputs.
use xmpp_httpx.Prelude.{◌≡◌, ◌↔◌, refl, List, [], ◌∷◌, none, some, true, false, arith}
use xmpp_httpx.Base64.{Text}
use xmpp_httpx.Session.{bare_jid}
use xmpp_httpx.Policy.{allow_list, presence, presence_policy, manual_policy}
use xmpp_httpx.Policy.Laws.{on_presences, last_status, presence_policy-eq-last_status}
use xmpp_httpx.Policy.Entries.{AnyAllows, allow_list-AnyAllows}
use xmpp_httpx.Policy.Remembered.{Request, after_requests, manual_policy-remembers}

abbrev phone : Text
phone = b'a' ∷ b'@' ∷ b'b' ∷ b'/' ∷ b'p' ∷ []

abbrev laptop : Text
laptop = b'a' ∷ b'@' ∷ b'b' ∷ b'/' ∷ b'l' ∷ []

abbrev everyone : List Text
everyone = (b'*' ∷ b'@' ∷ b'b' ∷ []) ∷ []

allow_list-AnyAllows_example : (allow_list everyone phone ≡ true) ↔ AnyAllows everyone phone
allow_list-AnyAllows_example = allow_list-AnyAllows everyone phone

presence_policy-eq-last_status_example :
    presence_policy (on_presences [] (presence (some laptop) none ∷ [])) phone
    ≡ last_status (bare_jid phone) false (presence (some laptop) none ∷ [])
presence_policy-eq-last_status_example =
    presence_policy-eq-last_status (presence (some laptop) none ∷ []) phone

-- Somebody else asks in between.
abbrev bobs : List Request
bobs = record { from = b'c' ∷ b'@' ∷ b'b' ∷ []; now = 20; prompt = some false } ∷ []

manual_policy-remembers_example :
    manual_policy 100 laptop 50 none
      (after_requests 100 bobs (manual_policy 100 phone 10 (some true) []).decisions)
    ≡ record {
      answer = (manual_policy 100 phone 10 (some true) []).answer;
      prompted = false;
      decisions = after_requests 100 bobs (manual_policy 100 phone 10 (some true) []).decisions;
    }
unfolding manual_policy bare_jid
manual_policy-remembers_example =
    manual_policy-remembers 100 phone laptop 10 50 (some true) none bobs [] refl (omega arith, tt)
      (omega arith) refl
