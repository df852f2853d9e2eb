-- ===== src/JsMap.antt =====
-- A JavaScript `Map` as the list of its entries in insertion order.
-- A map has one entry for a key, so that removing all of them is removing the one.
pub mod Entries
use xmpp_httpx.Prelude.{
  length, ◌≤◌, ◌<◌, ◌==◌ as nat_beq, ℕ, ◌+◌, ◌≡◌, ◌↔◌, refl, ap, List, [], ◌∷◌, Option, none, some,
  Bool, true, false, ◌&&◌, Bool-cases, inl, inr, if◌then◌else◌, ==_iff, arith,
}

-- Keys are compared by a test that agrees with equality.
pub record IsKey {ℓ} (K : Type ℓ) : Type ℓ where
  pub same : K → K → Bool
  pub same_iff : (j k : K) → (same j k ≡ true) ↔ (j ≡ k)

instance abbrev pub nat_key : IsKey ℕ
nat_key = record { same = nat_beq; same_iff = ==_iff }

abbrev pub text_beq : List ℕ → List ℕ → Bool
text_beq [] [] = true
text_beq [] (y ∷ ys) = false
text_beq (x ∷ xs) [] = false
text_beq (x ∷ xs) (y ∷ ys) = nat_beq x y && text_beq xs ys

pub text_beq_iff : (a b : List ℕ) → (text_beq a b ≡ true) ↔ (a ≡ b)
text_beq_iff [] [] = ground arith
text_beq_iff [] (y ∷ ys) = ground arith
text_beq_iff (x ∷ xs) [] = ground arith
text_beq_iff (x ∷ xs) (y ∷ ys) = ground (arith, text_beq_iff xs ys)

instance abbrev pub text_key : IsKey (List ℕ)
text_key = record { same = text_beq; same_iff = text_beq_iff }

module _ {ℓ κ} {K : Type ℓ} {V : Type κ} ⦃key : IsKey K⦄ where
  abbrev pub get? : K → List (K × V) → Option V
  get? k [] = none
  get? k ((j, v) ∷ m) = if key.same j k then some v else get? k m

  abbrev pub has : K → List (K × V) → Bool
  has k [] = false
  has k ((j, v) ∷ m) = if key.same j k then true else has k m

  -- `set` keeps the place of a key that is there.
  abbrev pub put : K → V → List (K × V) → List (K × V)
  put k v [] = (k, v) ∷ []
  put k v ((j, w) ∷ m) =
      let later = put k v m in if key.same j k then (k, v) ∷ m else (j, w) ∷ later

  abbrev pub delete : K → List (K × V) → List (K × V)
  delete k [] = []
  delete k ((j, v) ∷ m) = let later = delete k m in if key.same j k then later else (j, v) ∷ later

  pub get?-put :
      (k j : K) (v : V) (m : List (K × V))
      → get? j (put k v m) ≡ (if key.same k j then some v else get? j m)
  get?-put k j v [] = refl
  get?-put k j v ((i, w) ∷ m) =
      ground (arith, key.same_iff k j, key.same_iff i k, key.same_iff i j, get?-put k j v m)

  pub get?-delete :
      (k j : K) (m : List (K × V)) → get? j (delete k m) ≡ (if key.same k j then none else get? j m)
  get?-delete k j [] = ground arith
  get?-delete k j ((i, w) ∷ m) =
      ground (arith, key.same_iff k j, key.same_iff i k, key.same_iff i j, get?-delete k j m)

  pub has-put :
      (k j : K) (v : V) (m : List (K × V))
      → has j (put k v m) ≡ (if key.same k j then true else has j m)
  has-put k j v [] = refl
  has-put k j v ((i, w) ∷ m) =
      ground (arith, key.same_iff k j, key.same_iff i k, key.same_iff i j, has-put k j v m)

  pub has-delete :
      (k j : K) (m : List (K × V)) → has j (delete k m) ≡ (if key.same k j then false else has j m)
  has-delete k j [] = ground arith
  has-delete k j ((i, w) ∷ m) =
      ground (arith, key.same_iff k j, key.same_iff i k, key.same_iff i j, has-delete k j m)

  pub has_of_get? : (k : K) (m : List (K × V)) {v : V} → get? k m ≡ some v → has k m ≡ true
  has_of_get? k [] h = ground arith
  has_of_get? k ((j, w) ∷ m) {v} h = ground (arith, has_of_get? k m {v = v})

  pub not-has_of_get? : (k : K) (m : List (K × V)) → get? k m ≡ none → has k m ≡ false
  not-has_of_get? k [] h = refl
  not-has_of_get? k ((j, w) ∷ m) h = ground (arith, not-has_of_get? k m)

  -- The sum of a measure over the entries.
  abbrev pub weigh : (V → ℕ) → List (K × V) → ℕ
  weigh f [] = 0
  weigh f ((k, v) ∷ m) = f v + weigh f m

  -- No key twice.
  abbrev pub DistinctKeys : List (K × V) → Type 0
  DistinctKeys [] = Unit
  DistinctKeys ((k, v) ∷ m) = (has k m ≡ false) × DistinctKeys m

  pub delete_absent : (k : K) (m : List (K × V)) → has k m ≡ false → delete k m ≡ m
  delete_absent k [] h = refl
  delete_absent k ((j, w) ∷ m) h = elim (Bool-cases (key.same j k)) [
    | inl match ↦ absurd (ground arith)
    | inr other ↦ rw other (ap (λ t. (j, w) ∷ t) (delete_absent k m (rw other at h)))
  ]

  pub weigh-put :
      (f : V → ℕ) (k : K) (v : V) (m : List (K × V))
      → has k m ≡ false
      → weigh f (put k v m) ≡ weigh f m + f v
  weigh-put f k v [] h = omega arith
  weigh-put f k v ((j, w) ∷ m) h = ground (arith, weigh-put f k v m)

  pub weigh-delete :
      (f : V → ℕ) (k : K) {v : V} (m : List (K × V))
      → DistinctKeys m
      → get? k m ≡ some v
      → weigh f (delete k m) + f v ≡ weigh f m
  weigh-delete f k [] d h = absurd (ground arith)
  weigh-delete f k {v} ((j, w) ∷ m) (new, d) h = elim (Bool-cases (key.same j k)) [
    | inl match ↦
        let gone = delete_absent k m (rw ((key.same_iff j k).0 match) at new) in
        let found : w ≡ v = ground (arith, h, match) in rw (match, gone) (omega (arith, ap f found))
    | inr other ↦ rw other (omega (arith, weigh-delete f k {v = v} m d (rw other at h)))
  ]

  pub DistinctKeys-put :
      (k : K) (v : V) (m : List (K × V))
      → has k m ≡ false
      → DistinctKeys m
      → DistinctKeys (put k v m)
  DistinctKeys-put k v [] h d = (refl, tt)
  DistinctKeys-put k v ((j, w) ∷ m) h (new, d) = elim (Bool-cases (key.same j k)) [
    | inl match ↦ absurd (ground arith)
    | inr other ↦ rw other (
      ground (arith, has-put k j v m, key.same_iff k j, key.same_iff j k),
      DistinctKeys-put k v m (rw other at h) d,
    )
  ]

  -- A key that is there keeps its place, so that `put` never makes a key double.
  pub DistinctKeys-put_any :
      (k : K) (v : V) (m : List (K × V)) → DistinctKeys m → DistinctKeys (put k v m)
  DistinctKeys-put_any k v [] d = (refl, tt)
  DistinctKeys-put_any k v ((j, w) ∷ m) (new, d) = elim (Bool-cases (key.same j k)) [
    | inl match ↦ rw match (rw ((key.same_iff j k).0 match) at new, d)
    | inr other ↦ rw other (
      ground (arith, new, has-put k j v m, key.same_iff k j, key.same_iff j k),
      DistinctKeys-put_any k v m d,
    )
  ]

  pub DistinctKeys-delete : (k : K) (m : List (K × V)) → DistinctKeys m → DistinctKeys (delete k m)
  DistinctKeys-delete k [] d = tt
  DistinctKeys-delete k ((j, w) ∷ m) (new, d) = elim (Bool-cases (key.same j k)) [
    | inl match ↦ rw match (DistinctKeys-delete k m d)
    | inr other ↦ rw other (ground (arith, has-delete k j m), DistinctKeys-delete k m d)
  ]

  length-delete-le : (k : K) (m : List (K × V)) → length (delete k m) ≤ length m
  length-delete-le k [] = omega arith
  length-delete-le k ((j, w) ∷ m) = elim (Bool-cases (key.same j k)) [
    | inl match ↦ rw match (omega (arith, length-delete-le k m))
    | inr other ↦ rw other (omega (arith, length-delete-le k m))
  ]

  pub length-delete :
      (k : K) {v : V} (m : List (K × V)) → get? k m ≡ some v → length (delete k m) < length m
  length-delete k [] h = absurd (ground arith)
  length-delete k {v} ((j, w) ∷ m) h = elim (Bool-cases (key.same j k)) [
    | inl match ↦ rw match (omega (arith, length-delete-le k m))
    | inr other ↦ rw other (omega (arith, length-delete k {v = v} m (rw other at h)))
  ]
