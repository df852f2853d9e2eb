-- ===== src/RateLimit/Tests.antt =====
-- The theorems on rate limits at concrete inputs.
use xmpp_httpx.Prelude.{◌+◌, ◌*◌, ◌-◌, ◌≤◌, ◌≡◌, refl, [], ◌∷◌, arith}
use xmpp_httpx.Base64.{Text}
use xmpp_httpx.Session.{bare_jid}
use xmpp_httpx.RateLimit.{Limiter, unit_of, consume, requester}
use xmpp_httpx.RateLimit.Rates.{admitted, latest, admitted-le_rate}
use xmpp_httpx.RateLimit.Tracking.{IsTracking, consume-IsTracking, requester-eq-bare_jid}

abbrev alice : Text
alice = b'a' ∷ b'@' ∷ b'b' ∷ []

abbrev bob : Text
bob = b'b' ∷ b'@' ∷ b'b' ∷ []

-- Half a request a second, and two at once; one bare JID is tracked.
abbrev limiter : Limiter
limiter = record {
  rate_num = 1;
  rate_den = 2;
  burst = 2;
  max_tracked = 1;
  buckets = (alice, record { tokens = 500; updated = 7 }) ∷ [];
}

admitted-le_rate_example :
    admitted limiter alice (10 ∷ 20 ∷ 4000 ∷ []) * unit_of limiter
    ≤ limiter.burst * unit_of limiter + (latest 10 (20 ∷ 4000 ∷ []) - 10) * limiter.rate_num
admitted-le_rate_example =
    admitted-le_rate limiter alice 10 (20 ∷ 4000 ∷ []) (omega arith, (omega arith, tt))

limiter-IsTracking : IsTracking limiter
limiter-IsTracking = record { capped = omega arith; room = omega arith; distinct = (refl, tt) }

consume-IsTracking_example : IsTracking (consume limiter bob 10).1
consume-IsTracking_example = consume-IsTracking limiter bob 10 limiter-IsTracking

requester-eq-bare_jid_example :
    requester (b'a' ∷ b'/' ∷ b'x' ∷ []) ≡ bare_jid (b'a' ∷ b'/' ∷ b'x' ∷ [])
requester-eq-bare_jid_example = requester-eq-bare_jid (b'a' ∷ b'/' ∷ b'x' ∷ [])
