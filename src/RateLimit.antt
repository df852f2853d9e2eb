-- ===== src/RateLimit.antt =====
-- src/server/rate-limit.ts: a token bucket for each bare JID.
-- The rate is the fraction `rate_num / rate_den` of requests a second. Tokens are counted in the
-- unit 1 / (1000 * rate_den) of a token, so that a millisecond adds `rate_num` of them. The fractions
-- are exact where the source computes in doubles, so that a bucket of the source may hold a little
-- more or less than here: with the rate 1/7 and the burst 1, requests at 0 and at 2000 ms, the second
-- with a Retry-After of 5, and one at 7000 ms leave the source with 0.9999999999999999 of a token,
-- and the last is refused. A burst is a whole number.
pub mod Rates
pub mod Tracking
mod Tests
use xmpp_httpx.Prelude.{
  ℕ, zero, suc, ◌+◌, ◌-◌, ◌*◌, ◌/◌, min, max, List, [], ◌∷◌, Option, none, some, Bool, true, false,
  ltb, leb, ◌==◌, if◌then◌else◌, length,
}
use xmpp_httpx.JsMap.{text_key, get?, put, delete}
use xmpp_httpx.Base64.{Text}

pub record RateLimitOptions : Type 0 where
  pub rate_num : ℕ
  pub rate_den : ℕ
  pub burst : Option ℕ
  pub max_tracked : Option ℕ

pub record Bucket : Type 0 where
  pub tokens : ℕ
  pub updated : ℕ

-- What the closures of `withRateLimit` share.
pub record Limiter : Type 0 where
  pub rate_num : ℕ
  pub rate_den : ℕ
  pub burst : ℕ
  pub max_tracked : ℕ
  pub buckets : List (Text × Bucket)

abbrev pub or_else : ℕ → Option ℕ → ℕ
or_else other none = other
or_else other (some n) = n

-- The whole of `withRateLimit` up to the handler it returns; `none` is the RangeError.
unfoldable pub with_rate_limit : RateLimitOptions → Option Limiter
with_rate_limit options =
    if options.rate_num == 0
    then none
    else some (record {
      rate_num = options.rate_num;
      rate_den = options.rate_den;
      burst =
          max 1
            (or_else ((options.rate_num + options.rate_den - 1) / options.rate_den) options.burst);
      max_tracked = max 1 (or_else 10000 options.max_tracked);
      buckets = [];
    })

-- One token.
abbrev pub unit_of : Limiter → ℕ
unit_of l = 1000 * l.rate_den

-- `oldestKey` and `oldestAt`, which is infinite where there is no key.
abbrev pub older : Text → Bucket → Option (Text × ℕ) → Option (Text × ℕ)
older key bucket none = some (key, bucket.updated)
older key bucket (some (oldest_key, oldest_at)) =
    if ltb bucket.updated oldest_at
    then some (key, bucket.updated)
    else some (oldest_key, oldest_at)

unfoldable pub oldest_from : Option (Text × ℕ) → List (Text × Bucket) → Option (Text × ℕ)
oldest_from oldest [] = oldest
oldest_from oldest ((key, bucket) ∷ others) = oldest_from (older key bucket oldest) others

unfoldable pub evict_oldest : List (Text × Bucket) → List (Text × Bucket)
evict_oldest buckets = elim (oldest_from none buckets) [
  | none ↦ buckets
  | some oldest ↦ delete oldest.0 buckets
]

abbrev pub refill : Limiter → ℕ → Bucket → Bucket
refill l at bucket = record {
  tokens = min (l.burst * unit_of l) (bucket.tokens + (at - bucket.updated) * l.rate_num);
  updated = at;
}

abbrev pub fresh : Limiter → ℕ → Bucket
fresh l at = record { tokens = l.burst * unit_of l; updated = at }

-- `Math.ceil((1 - bucket.tokens) / rate)` for a bucket with less than a token.
abbrev pub seconds_until_token : Limiter → Bucket → ℕ
seconds_until_token l bucket =
    (unit_of l - bucket.tokens + 1000 * l.rate_num - 1) / (1000 * l.rate_num)

-- Takes a token, with 0 to wait, or says how many seconds to wait.
unfoldable pub spend : Limiter → Bucket → ℕ × Bucket
spend l bucket =
    if leb (unit_of l) bucket.tokens
    then (0, record bucket { tokens = bucket.tokens - unit_of l })
    else (max 1 (seconds_until_token l bucket), bucket)

-- The map with the bucket of a key brought up to date, and that bucket.
unfoldable pub prepare : Limiter → Text → ℕ → Bucket × List (Text × Bucket)
prepare l key at = elim (get? key l.buckets) [
  | none ↦
      let room =
        if leb l.max_tracked (length l.buckets) then evict_oldest l.buckets else l.buckets in
      (fresh l at, room)
  | some bucket ↦ (refill l at bucket, l.buckets)
]

unfoldable pub consume : Limiter → Text → ℕ → ℕ × Limiter
consume l key at =
    let prepared = prepare l key at in
    let spent = spend l prepared.0 in (spent.0, record l { buckets = put key spent.1 prepared.1 })

-- `jid.split("/")`
unfoldable pub split_at_slash : Text → List Text
split_at_slash [] = [] ∷ []
split_at_slash (c ∷ text) =
    let pieces = split_at_slash text in
    if c == b'/'
    then [] ∷ pieces
    else elim pieces [ [] ↦ (c ∷ []) ∷ [] | piece ∷ others ↦ (c ∷ piece) ∷ others ]

-- `jid.split("/")[0] ?? jid`
unfoldable pub requester : Text → Text
requester jid = elim (split_at_slash jid) [ [] ↦ jid | piece ∷ others ↦ piece ]

-- What the wrapped handler does with a request: the handler, or 429 with a Retry-After.
pub data Outcome : Type 0 where
  to_handler : Outcome
  too_many_requests : ℕ → Outcome

unfoldable pub handle_request : Limiter → Text → ℕ → Outcome × Limiter
handle_request l from at =
    let consumed = consume l (requester from) at in
    (if consumed.0 == 0 then to_handler else too_many_requests consumed.0, consumed.1)
