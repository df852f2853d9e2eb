-- ===== src/RateLimit/Tracking.antt =====
-- How many bare JIDs a limiter tracks, and under which name.
use xmpp_httpx.Prelude.{
  ℕ, ◌+◌, ◌≤◌, ◌<◌, ◌≡◌, refl, sym, subst, ap, ◌∙◌, List, [], ◌∷◌, Option, none, some, Option-cases,
  true, Bool-cases, inl, inr, ◌⊎◌, ltb, leb, ◌==◌, if◌then◌else◌, arith, length, leb→le,
}
use xmpp_httpx.JsMap.{
  text_key, get?, has, put, DistinctKeys, DistinctKeys-put_any, DistinctKeys-delete, length-delete,
  has_of_get?, not-has_of_get?,
}
use xmpp_httpx.Base64.{Text}
use xmpp_httpx.Session.{bare_jid}
use xmpp_httpx.RateLimit.{
  RateLimitOptions, Bucket, Limiter, with_rate_limit, older, oldest_from, evict_oldest, spend,
  prepare, consume, split_at_slash, requester,
}

-- The limiter is within its cap and has one bucket for a key.
pub record IsTracking (l : Limiter) : Type 0 where
  pub capped : length l.buckets ≤ l.max_tracked
  pub room : 1 ≤ l.max_tracked
  pub distinct : DistinctKeys l.buckets

-- What `withRateLimit` sets up: a RangeError for a rate of 0 only, and otherwise a limiter with a
-- positive rate, a burst of at least one request and nothing tracked.
abbrev pub Started : RateLimitOptions → Option Limiter → Type 0
Started options none = options.rate_num ≡ 0
Started options (some l) =
    (l.rate_num ≡ options.rate_num) × (0 < l.rate_num) × (1 ≤ l.burst) × IsTracking l

with_rate_limit-Started : (options : RateLimitOptions) → Started options (with_rate_limit options)
unfolding with_rate_limit
with_rate_limit-Started options = elim (Bool-cases (options.rate_num == 0)) [
  | inl never ↦ rw (never, with_rate_limit) (ground (arith, never))
  | inr runs ↦
      let positive : 0 < options.rate_num = ground (arith, runs) in
      rw (runs, with_rate_limit)
        (
          refl,
          positive,
          omega arith,
          record { capped = omega arith; room = omega arith; distinct = tt },
        )
]

older_key :
    (key : Text) (b : Bucket) (o : Text × ℕ)
    → (o' : Text × ℕ) × (older key b (some o) ≡ some o') × ((o'.0 ≡ key) ⊎ (o'.0 ≡ o.0))
older_key key b o = elim (Bool-cases (ltb b.updated o.1)) [
  | inl before ↦ ((key, b.updated), rw before refl, inl refl)
  | inr after ↦ (o, rw after refl, inr refl)
]

has_head : (key : Text) (b : Bucket) (m : List (Text × Bucket)) → has key ((key, b) ∷ m) ≡ true
has_head key b m = rw ((text_key.same_iff key key).1 refl) refl

has_tail :
    (k key : Text) (b : Bucket) (m : List (Text × Bucket))
    → has k m ≡ true
    → has k ((key, b) ∷ m) ≡ true
has_tail k key b m h = ground (arith, h)

-- The key that is found is that of an entry, or the one to begin with.
oldest_from_key :
    (o : Text × ℕ) (m : List (Text × Bucket))
    → (o' : Text × ℕ) × (oldest_from (some o) m ≡ some o') × ((o'.0 ≡ o.0) ⊎ (has o'.0 m ≡ true))
unfolding oldest_from
oldest_from_key o [] = (o, refl, inl refl)
oldest_from_key o ((key, b) ∷ m) =
    let (next, e, origin) = older_key key b o in
    let (found, f, place) = oldest_from_key next m in
    (
      found,
      ap (λ x. oldest_from x m) e ∙ f,
      elim place [
        | inr in_tail ↦ inr (has_tail found.0 key b m in_tail)
        | inl is_next ↦ elim origin [
          | inl is_key ↦
              inr (
                subst (λ k. has k ((key, b) ∷ m) ≡ true) (sym (is_next ∙ is_key))
                  (has_head key b m))
          | inr is_old ↦ inl (is_next ∙ is_old)
        ]
      ],
    )

evict_oldest-lt : (m : List (Text × Bucket)) → 1 ≤ length m → length (evict_oldest m) < length m
unfolding evict_oldest oldest_from
evict_oldest-lt [] h = absurd (omega (arith, h))
evict_oldest-lt ((key, b) ∷ m) h =
    let (found, e, place) = oldest_from_key (key, b.updated) m in
    let there : has found.0 ((key, b) ∷ m) ≡ true = elim place [
      | inl is_key ↦ subst (λ k. has k ((key, b) ∷ m) ≡ true) (sym is_key) (has_head key b m)
      | inr in_tail ↦ has_tail found.0 key b m in_tail
    ] in
    elim (Option-cases (get? found.0 ((key, b) ∷ m))) [
      | inl absent ↦ absurd (ground (arith, there, not-has_of_get? found.0 ((key, b) ∷ m) absent))
      | inr (v, at) ↦ rw (e, evict_oldest) (length-delete found.0 {v = v} ((key, b) ∷ m) at)
    ]

DistinctKeys-evict_oldest :
    (m : List (Text × Bucket)) → DistinctKeys m → DistinctKeys (evict_oldest m)
unfolding evict_oldest
DistinctKeys-evict_oldest m d = elim (Option-cases (oldest_from none m)) [
  | inl nothing ↦ rw (nothing, evict_oldest) d
  | inr (oldest, e) ↦ rw (e, evict_oldest) (DistinctKeys-delete oldest.0 m d)
]

length-put :
    (key : Text) (b : Bucket) (m : List (Text × Bucket))
    → length (put key b m) ≡ (if has key m then length m else length m + 1)
length-put key b [] = refl
length-put key b ((k, v) ∷ m) = elim (Bool-cases (text_key.same k key)) [
  | inl same ↦ rw same refl
  | inr differ ↦ rw differ (ground (arith, length-put key b m))
]

length-put-le :
    (key : Text) (b : Bucket) (m : List (Text × Bucket)) → length (put key b m) ≤ length m + 1
length-put-le key b m = ground (arith, length-put key b m)

-- The map has room for the key when the request is decided, or has the key.
prepare_room :
    (l : Limiter) (key : Text) (at : ℕ) (b : Bucket)
    → IsTracking l
    → (length (put key b (prepare l key at).1) ≤ l.max_tracked) × DistinctKeys (prepare l key at).1
unfolding prepare
prepare_room l key at b t = elim (Option-cases (get? key l.buckets)) [
  | inr (old, tracked) ↦
      let known = has_of_get? key l.buckets {v = old} tracked in
      let same : length (put key b l.buckets) ≡ length l.buckets =
        length-put key b l.buckets ∙ rw known refl in
      rw (tracked, prepare) (omega (arith, same, t.capped), t.distinct)
  | inl absent ↦ elim (Bool-cases (leb l.max_tracked (length l.buckets))) [
    | inl full ↦
        let evicted = evict_oldest-lt l.buckets (omega (arith, t.room, leb→le _ _ full)) in
        rw (absent, full, prepare)
          (
            omega (arith, length-put-le key b (evict_oldest l.buckets), evicted, t.capped),
            DistinctKeys-evict_oldest l.buckets t.distinct,
          )
    | inr spare ↦
        let less : length l.buckets < l.max_tracked = ground (arith, spare) in
        rw (absent, spare, prepare) (omega (arith, length-put-le key b l.buckets, less), t.distinct)
  ]
]

-- No request, whoever it is from, takes the limiter over its cap or makes a second bucket for a
-- key.
pub consume-IsTracking :
    (l : Limiter) (key : Text) (at : ℕ) → IsTracking l → IsTracking (consume l key at).1
unfolding consume
consume-IsTracking l key at t =
    let left = (spend l (prepare l key at).0).1 in
    let room = prepare_room l key at left t in
    record {
      capped = room.0;
      room = t.room;
      distinct = DistinctKeys-put_any key left (prepare l key at).1 room.1;
    }

-- The pieces of a text are not none, and the first is the bare JID.
first_piece : (jid : Text) → (others : List Text) × (split_at_slash jid ≡ bare_jid jid ∷ others)
unfolding split_at_slash bare_jid
first_piece [] = ([], refl)
first_piece (c ∷ jid) =
    let (others, e) = first_piece jid in
    elim (Bool-cases (c == b'/')) [
      | inl slash ↦ (split_at_slash jid, rw slash refl)
      | inr other ↦ (others, rw (other, e) refl)
    ]

-- `jid.split("/")[0]`, which the limiter takes for the bare JID, is what `bareJid` of the session
-- module gives.
pub requester-eq-bare_jid : (jid : Text) → requester jid ≡ bare_jid jid
unfolding requester
requester-eq-bare_jid jid = let (others, e) = first_piece jid in rw (e, requester) refl
