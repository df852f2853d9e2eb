-- ===== src/Chunked/Router/Orphans.antt =====
-- The map of the orphans: its bytes and its keys under a sweep and under a new chunk.
use xmpp_httpx.Prelude.{
  ℕ, ◌+◌, ◌-◌, ◌≤◌, ◌≡◌, refl, ap, ◌∙◌, List, [], ◌∷◌, ◌++◌, true, false, Bool-cases, inl, inr,
  ◌==◌, arith, length,
}
use xmpp_httpx.JsMap.{text_key, has, put, weigh, DistinctKeys}
use xmpp_httpx.Base64.{Text}
use xmpp_httpx.Chunked.Router.{
  OrphanChunk, Orphans, new, kept_of, is_kept, without_stale, with_list, swept, swept_bytes,
  orphans_of,
}

abbrev pub payload_bytes : List OrphanChunk → ℕ
payload_bytes [] = 0
payload_bytes (c ∷ cs) = length c.payload + payload_bytes cs

pub payload_bytes-append :
    (list : List OrphanChunk) (c : OrphanChunk)
    → payload_bytes (list ++ (c ∷ [])) ≡ payload_bytes list + length c.payload
payload_bytes-append [] c = omega arith
payload_bytes-append (d ∷ list) c = omega (arith, payload_bytes-append list c)

pub without_stale_lem :
    (now : ℕ) (list : List OrphanChunk) (more : ℕ)
    → without_stale now list (payload_bytes list + more) ≡ payload_bytes (kept_of now list) + more
without_stale_lem now [] more = refl
without_stale_lem now (c ∷ list) more = elim (Bool-cases (is_kept now c)) [
  | inl kept ↦ rw kept (
      ap (without_stale now list) {x = length c.payload + payload_bytes list + more}
        {y = payload_bytes list + (length c.payload + more)} (omega arith)
      ∙ without_stale_lem now list (length c.payload + more)
      ∙ omega arith)
  | inr stale ↦ rw stale (
      ap (without_stale now list)
        {x = length c.payload + payload_bytes list + more - length c.payload}
        {y = payload_bytes list + more} (omega arith)
      ∙ without_stale_lem now list more)
]

pub weigh-with_list :
    (key : Text) (list : List OrphanChunk) (rest : Orphans)
    → weigh payload_bytes (with_list key list rest) ≡ payload_bytes list + weigh payload_bytes rest
weigh-with_list key [] rest = omega arith
weigh-with_list key (c ∷ list) rest = refl

pub swept_bytes_lem :
    (now : ℕ) (m : Orphans) (more : ℕ)
    → swept_bytes now m (weigh payload_bytes m + more) ≡ weigh payload_bytes (swept now m) + more
swept_bytes_lem now [] more = refl
swept_bytes_lem now ((key, list) ∷ rest) more =
    elim (Bool-cases (length (kept_of now list) == length list)) [
      | inl all ↦ rw all (
          ap (swept_bytes now rest) {x = payload_bytes list + weigh payload_bytes rest + more}
            {y = weigh payload_bytes rest + (payload_bytes list + more)} (omega arith)
          ∙ swept_bytes_lem now rest (payload_bytes list + more)
          ∙ omega arith)
      | inr some_stale ↦ rw some_stale (
          ap (λ n. swept_bytes now rest (without_stale now list n))
            {x = payload_bytes list + weigh payload_bytes rest + more}
            {y = payload_bytes list + (weigh payload_bytes rest + more)} (omega arith)
          ∙ ap (swept_bytes now rest) (without_stale_lem now list (weigh payload_bytes rest + more))
          ∙ ap (swept_bytes now rest)
              {x = payload_bytes (kept_of now list) + (weigh payload_bytes rest + more)}
              {y = weigh payload_bytes rest + (payload_bytes (kept_of now list) + more)}
              (omega arith)
          ∙ swept_bytes_lem now rest (payload_bytes (kept_of now list) + more)
          ∙ omega (arith, weigh-with_list key (kept_of now list) (swept now rest)))
    ]

pub kept_of-le :
    (now : ℕ) (list : List OrphanChunk) → payload_bytes (kept_of now list) ≤ payload_bytes list
kept_of-le now [] = omega arith
kept_of-le now (c ∷ list) = elim (Bool-cases (is_kept now c)) [
  | inl kept ↦ rw kept (omega (arith, kept_of-le now list))
  | inr stale ↦ rw stale (omega (arith, kept_of-le now list))
]

pub weigh-swept-le :
    (now : ℕ) (m : Orphans) → weigh payload_bytes (swept now m) ≤ weigh payload_bytes m
weigh-swept-le now [] = omega arith
weigh-swept-le now ((key, list) ∷ rest) =
    elim (Bool-cases (length (kept_of now list) == length list)) [
      | inl all ↦ rw all (omega (arith, weigh-swept-le now rest))
      | inr some_stale ↦ rw some_stale (
          omega (
            arith,
            weigh-swept-le now rest,
            kept_of-le now list,
            weigh-with_list key (kept_of now list) (swept now rest),
          ))
    ]

pub has-with_list :
    (k key : Text) (list : List OrphanChunk) (rest : Orphans)
    → has k ((key, list) ∷ rest) ≡ false
    → has k (with_list key list rest) ≡ false
has-with_list k key [] rest h = ground (arith, h)
has-with_list k key (c ∷ list) rest h = ground (arith, h)

pub has-swept : (now : ℕ) (k : Text) (m : Orphans) → has k m ≡ false → has k (swept now m) ≡ false
has-swept now k [] h = refl
has-swept now k ((key, list) ∷ rest) h = elim (Bool-cases (text_key.same key k)) [
  | inl same ↦ absurd (ground (arith, h, same))
  | inr differ ↦ elim (Bool-cases (length (kept_of now list) == length list)) [
    | inl all ↦ rw (all, differ) (has-swept now k rest (rw differ at h))
    | inr some_stale ↦ rw some_stale (
        has-with_list k key (kept_of now list) (swept now rest)
          (rw differ (has-swept now k rest (rw differ at h))))
  ]
]

pub DistinctKeys-with_list :
    (key : Text) (list : List OrphanChunk) (rest : Orphans)
    → has key rest ≡ false
    → DistinctKeys rest
    → DistinctKeys (with_list key list rest)
DistinctKeys-with_list key [] rest new d = d
DistinctKeys-with_list key (c ∷ list) rest new d = (new, d)

pub DistinctKeys-swept : (now : ℕ) (m : Orphans) → DistinctKeys m → DistinctKeys (swept now m)
DistinctKeys-swept now [] d = tt
DistinctKeys-swept now ((key, list) ∷ rest) (new, d) =
    elim (Bool-cases (length (kept_of now list) == length list)) [
      | inl all ↦ rw all (has-swept now key rest new, DistinctKeys-swept now rest d)
      | inr some_stale ↦ rw some_stale (
          DistinctKeys-with_list key (kept_of now list) (swept now rest)
            (has-swept now key rest new) (DistinctKeys-swept now rest d))
    ]

pub orphans_of_same :
    (key k : Text) (w : List OrphanChunk) (m : Orphans)
    → text_key.same k key ≡ true
    → orphans_of key ((k, w) ∷ m) ≡ w
orphans_of_same key k w m same = rw (same, orphans_of) refl

pub orphans_of_differ :
    (key k : Text) (w : List OrphanChunk) (m : Orphans)
    → text_key.same k key ≡ false
    → orphans_of key ((k, w) ∷ m) ≡ orphans_of key m
orphans_of_differ key k w m differ = rw (differ, orphans_of) refl

pub weigh-put_orphans :
    (key : Text) (v : List OrphanChunk) (n : ℕ) (m : Orphans)
    → payload_bytes v ≡ payload_bytes (orphans_of key m) + n
    → weigh payload_bytes (put key v m) ≡ weigh payload_bytes m + n
weigh-put_orphans key v n [] h = omega (arith, h)
weigh-put_orphans key v n ((k, w) ∷ m) h = elim (Bool-cases (text_key.same k key)) [
  | inl same ↦ rw same (omega (arith, h, ap payload_bytes (orphans_of_same key k w m same)))
  | inr differ ↦ rw differ (
      omega (
        arith,
        weigh-put_orphans key v n m
            (h ∙ ap (λ l. payload_bytes l + n) (orphans_of_differ key k w m differ)),
      ))
]
