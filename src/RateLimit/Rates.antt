-- ===== src/RateLimit/Rates.antt =====
-- How many requests of one bare JID pass.
use xmpp_httpx.Prelude.{
  ℕ, ◌+◌, ◌-◌, ◌*◌, ◌≤◌, ◌≡◌, refl, sym, subst, ap, ◌∙◌, max, List, [], ◌∷◌, some, Option-cases,
  true, false, Bool-cases, inl, inr, leb, leb→le, ◌==◌, if◌then◌else◌, arith,
}
use xmpp_httpx.JsMap.{text_key, get?, get?-put}
use xmpp_httpx.Base64.{Text}
use xmpp_httpx.RateLimit.{
  Bucket, Limiter, unit_of, refill, seconds_until_token, spend, prepare, consume,
}

-- 1 for a request that passes.
abbrev pub passed : ℕ → ℕ
passed wait = if wait == 0 then 1 else 0

-- How many requests of a bare JID pass that come at these times.
unfoldable pub admitted : Limiter → Text → List ℕ → ℕ
admitted l key [] = 0
admitted l key (at ∷ times) =
    let consumed = consume l key at in passed consumed.0 + admitted consumed.1 key times

-- The clock does not go back.
abbrev pub Ascends : ℕ → List ℕ → Type 0
Ascends from [] = Unit
Ascends from (at ∷ times) = (from ≤ at) × Ascends at times

abbrev pub latest : ℕ → List ℕ → ℕ
latest from [] = from
latest from (at ∷ times) = latest at times

latest-le : (from : ℕ) (times : List ℕ) → Ascends from times → from ≤ latest from times
latest-le from [] h = omega arith
latest-le from (at ∷ times) (h, hs) = omega (arith, h, latest-le at times hs)

spend_balance :
    (l : Limiter) (b : Bucket) → passed (spend l b).0 * unit_of l + (spend l b).1.tokens ≡ b.tokens
unfolding spend
spend_balance l b = elim (Bool-cases (leb (unit_of l) b.tokens)) [
  | inl enough ↦ rw (enough, spend) (omega (arith, leb→le _ _ enough))
  | inr short ↦
      let waits : (max 1 (seconds_until_token l b) == 0) ≡ false = ground arith in
      rw (short, spend, waits) (omega arith)
]

spend_updated : (l : Limiter) (b : Bucket) → (spend l b).1.updated ≡ b.updated
unfolding spend
spend_updated l b = elim (Bool-cases (leb (unit_of l) b.tokens)) [
  | inl enough ↦ rw (enough, spend) refl
  | inr short ↦ rw (short, spend) refl
]

same_key : (key : Text) → text_key.same key key ≡ true
same_key key = (text_key.same_iff key key).1 refl

-- After a request the bucket of its key is what the request left of the prepared one.
consume_bucket :
    (l : Limiter) (key : Text) (at : ℕ)
    → get? key (consume l key at).1.buckets ≡ some (spend l (prepare l key at).0).1
unfolding consume
consume_bucket l key at =
    get?-put key key (spend l (prepare l key at).0).1 (prepare l key at).1 ∙ rw (same_key key) refl

prepare_tracked :
    (l : Limiter) (key : Text) (at : ℕ) (b : Bucket)
    → get? key l.buckets ≡ some b
    → (prepare l key at).0 ≡ refill l at b
unfolding prepare
prepare_tracked l key at b h = rw (h, prepare) refl

prepare_bounded :
    (l : Limiter) (key : Text) (at : ℕ)
    → ((prepare l key at).0.tokens ≤ l.burst * unit_of l) × ((prepare l key at).0.updated ≡ at)
unfolding prepare
prepare_bounded l key at = elim (Option-cases (get? key l.buckets)) [
  | inl absent ↦ rw (absent, prepare) (omega arith, refl)
  | inr (b, tracked) ↦ rw (tracked, prepare) (omega arith, refl)
]

elapsed_sum : (a b c p : ℕ) → a ≤ b → b ≤ c → (b - a) * p + (c - b) * p ≡ (c - a) * p
elapsed_sum a b c p h k = grind (arith, h, k)

pays :
    (b a c : ℕ) {p : ℕ} (n m unit left more : ℕ)
    → m * unit ≤ left + more
    → n * unit + left ≡ p
    → p ≤ b + a
    → a + more ≡ c
    → (n + m) * unit ≤ b + c
pays b a c n m unit left more rest balance tokens sum =
    let split : (n + m) * unit ≡ n * unit + m * unit = grind arith in
    omega (arith, rest, balance, tokens, sum, split)

-- A tracked bucket pays for what passes with its tokens and with what the time adds.
admitted_tracked :
    (l : Limiter) (key : Text) (times : List ℕ) (b : Bucket)
    → get? key l.buckets ≡ some b
    → Ascends b.updated times
    → admitted l key times * unit_of l
      ≤ b.tokens + (latest b.updated times - b.updated) * l.rate_num
unfolding admitted consume
admitted_tracked l key [] b h a = omega arith
admitted_tracked l key (at ∷ times) b h (first, later) =
    let p = (prepare l key at).0 in
    let left = (spend l p).1 in
    let at_left : left.updated ≡ at =
      spend_updated l p ∙ ap (λ (x : Bucket). x.updated) (prepare_tracked l key at b h) in
    let rest : admitted (consume l key at).1 key times * unit_of l
        ≤ left.tokens + (latest at times - at) * l.rate_num =
      subst
        (λ u.
          admitted (consume l key at).1 key times * unit_of l
          ≤ left.tokens + (latest u times - u) * l.rate_num)
        at_left
        (admitted_tracked (consume l key at).1 key times left (consume_bucket l key at)
          (subst (λ u. Ascends u times) (sym at_left) later)) in
    let tokens : p.tokens ≤ b.tokens + (at - b.updated) * l.rate_num =
      subst (λ (x : Bucket). x.tokens ≤ b.tokens + (at - b.updated) * l.rate_num)
        (sym (prepare_tracked l key at b h)) (omega arith) in
    pays b.tokens ((at - b.updated) * l.rate_num) ((latest at times - b.updated) * l.rate_num)
      (passed (spend l p).0) (admitted (consume l key at).1 key times) (unit_of l) left.tokens
      ((latest at times - at) * l.rate_num) rest (spend_balance l p) tokens
      (elapsed_sum b.updated at (latest at times) l.rate_num first (latest-le at times later))

-- In a run of requests of one bare JID from the time `start` on, under a clock that does not go
-- back, no more pass than the burst and what the rate adds until the last of them: the tokens of
-- all that pass are at most `burst` tokens and `rate` tokens a second.
pub admitted-le_rate :
    (l : Limiter) (key : Text) (start : ℕ) (times : List ℕ)
    → Ascends start times
    → admitted l key (start ∷ times) * unit_of l
      ≤ l.burst * unit_of l + (latest start times - start) * l.rate_num
unfolding admitted consume
admitted-le_rate l key start times ascends =
    let p = (prepare l key start).0 in
    let left = (spend l p).1 in
    let bounded = prepare_bounded l key start in
    let at_left : left.updated ≡ start = spend_updated l p ∙ bounded.1 in
    let rest : admitted (consume l key start).1 key times * unit_of l
        ≤ left.tokens + (latest start times - start) * l.rate_num =
      subst
        (λ u.
          admitted (consume l key start).1 key times * unit_of l
          ≤ left.tokens + (latest u times - u) * l.rate_num)
        at_left
        (admitted_tracked (consume l key start).1 key times left (consume_bucket l key start)
          (subst (λ u. Ascends u times) (sym at_left) ascends)) in
    pays (l.burst * unit_of l) 0 ((latest start times - start) * l.rate_num) (passed (spend l p).0)
      (admitted (consume l key start).1 key times) (unit_of l) left.tokens
      ((latest start times - start) * l.rate_num) rest (spend_balance l p)
      (omega (arith, bounded.0)) (omega arith)
