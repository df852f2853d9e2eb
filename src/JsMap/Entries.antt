-- ===== src/JsMap/Entries.antt =====
-- What holds of every entry of a map, and sums over its entries.
use xmpp_httpx.Prelude.{
  ℕ, ◌+◌, ◌≡◌, refl, subst, ap, List, [], ◌∷◌, Option, none, some, false, Bool-cases, inl, inr,
  arith, length,
}
use xmpp_httpx.JsMap.{
  IsKey, get?, get?-put, put, delete, weigh, DistinctKeys, weigh-delete, has, weigh-put,
}

abbrev from_some {ℓ} : {A : Type ℓ} → A → Option A → A
from_some a none = a
from_some a (some b) = b

pub some-injective {ℓ} : {A : Type ℓ} {a b : A} → some a ≡ some b → a ≡ b
some-injective {a = a} e = ap (from_some a) e

module _ {ℓ κ ι} {K : Type ℓ} {V : Type κ} ⦃key : IsKey K⦄ (P : K → V → Type ι) where
  abbrev pub Each : List (K × V) → Type (ℓ ⊔ κ ⊔ ι)
  Each m = (k : K) (v : V) → get? k m ≡ some v → P k v

  pub Each-put : (k : K) (v : V) (m : List (K × V)) → Each m → P k v → Each (put k v m)
  Each-put k v m each p j w h = elim (Bool-cases (key.same k j)) [
    | inl match ↦
        subst (λ i. P i w) ((key.same_iff k j).0 match)
          (subst (P k) (some-injective (rw (get?-put k j v m, match) at h)) p)
    | inr other ↦ each j w (rw (get?-put k j v m, other) at h)
  ]

module _ {ℓ κ} {K : Type ℓ} {V : Type κ} ⦃key : IsKey K⦄ where
  pub weigh-put_present :
      (f : V → ℕ) (k : K) (v w : V) (m : List (K × V))
      → get? k m ≡ some w
      → weigh f (put k v m) + f w ≡ weigh f m + f v
  weigh-put_present f k v w [] h = absurd (ground arith)
  weigh-put_present f k v w ((j, u) ∷ m) h = elim (Bool-cases (key.same j k)) [
    | inl match ↦ rw match (omega (arith, ap f (some-injective (rw match at h))))
    | inr other ↦ rw other (omega (arith, weigh-put_present f k v w m (rw other at h)))
  ]

  pub length-weigh : (m : List (K × V)) → length m ≡ weigh (λ v. 1) m
  length-weigh [] = refl
  length-weigh (e ∷ m) = omega (arith, length-weigh m)

  pub length-delete_present :
      (k : K) {v : V} (m : List (K × V))
      → DistinctKeys m
      → get? k m ≡ some v
      → length (delete k m) + 1 ≡ length m
  length-delete_present k {v} m d h = omega (
    arith,
    length-weigh m,
    length-weigh (delete k m),
    weigh-delete (λ (v : V). 1) k {v = v} m d h,
  )

  pub length-put_absent :
      (k : K) (v : V) (m : List (K × V)) → has k m ≡ false → length (put k v m) ≡ length m + 1
  length-put_absent k v m h =
      omega (arith, length-weigh m, length-weigh (put k v m), weigh-put (λ (v : V). 1) k v m h)
