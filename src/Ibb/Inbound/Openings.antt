-- ===== src/Ibb/Inbound/Openings.antt =====
-- Openings, expectations and the end of a manager keep what holds of it.
use xmpp_httpx.Prelude.{
  ℕ, ◌≡◌, refl, sym, subst, ap, ◌∙◌, List, Option, none, some, Option-cases, Bool, true, false,
  ◌&&◌, ◌||◌, not, Bool-cases, inl, inr, ltb, ◌==◌, if◌then◌else◌, arith,
}
use xmpp_httpx.JsMap.{text_key, get?, has, put, delete, has-put, has-delete, not-has_of_get?}
use xmpp_httpx.Base64.{Text}
use xmpp_httpx.Ibb.Windows.{Integer, nonneg, minus}
use xmpp_httpx.Ibb.Inbound.{
  IdleTimeout, result, withheld, Manager, Wish, build, expect, open_duplex, open_checked,
  open_sized, duplex_timeout, on_open, key_of, text_of, filled, Reply,
}
use xmpp_httpx.Ibb.Inbound.Events.{or_same}
use xmpp_httpx.Ibb.Inbound.Registry.{IsValid, create_in_stream-IsValid}
use xmpp_httpx.Ibb.Inbound.Steps.{if_reply-IsValid}

-- A change of what is parked and of what is expected.
pub waiting-IsValid :
    (opens : List (Text × ℕ)) (wishes : List (Text × Wish)) (m : Manager)
    → ((key : Text) → has key opens ≡ true → has key m.in_streams ≡ false)
    → ((key : Text) → has key opens ≡ true → has key wishes ≡ false)
    → IsValid m
    → IsValid (record m { parked_opens = opens; expectations = wishes })
waiting-IsValid opens wishes m no_stream no_wish v = record {
  sound = v.sound;
  distinct = v.distinct;
  created = v.created;
  own_key = v.own_key;
  answers = v.answers;
  no_stream = no_stream;
  no_wish = no_wish;
}

pub still {ℓ} :
    {V : Type ℓ} (key k : Text) (entries : List (Text × V))
    → has k (delete key entries) ≡ true
    → has k entries ≡ true
still key k entries h = ground (arith, h, has-delete key k entries)

gone {ℓ} :
    {V : Type ℓ} (key : Text) (entries : List (Text × V)) → has key (delete key entries) ≡ false
gone key entries = has-delete key key entries ∙ rw ((text_key.same_iff key key).1 refl) refl

pub kept_out {ℓ} :
    {V : Type ℓ} (key k : Text) (entries : List (Text × V))
    → has k entries ≡ false
    → has k (delete key entries) ≡ false
kept_out key k entries h = ground (arith, h, has-delete key k entries)

pub expect-IsValid :
    (key : Text) (wish : Wish) (m : Manager) → IsValid m → IsValid (expect key wish m).1
unfolding expect
expect-IsValid key wish m v = elim (Option-cases (get? key m.parked_opens)) [
  | inl absent ↦
      rw (absent, expect)
        (waiting-IsValid m.parked_opens (put key wish m.expectations) m v.no_stream
          (λ k h. has-put key k wish m.expectations ∙ elim (Bool-cases (text_key.same key k)) [
            | inl same ↦ absurd (
                ground (
                  arith,
                  h,
                  not-has_of_get? key m.parked_opens absent,
                  ap (λ x. has x m.parked_opens) ((text_key.same_iff key k).0 same),
                ))
            | inr differ ↦ rw differ (v.no_wish k h)
          ])
          v)
  | inr (block_size, found) ↦
      rw (found, expect)
        (create_in_stream-IsValid key block_size _ wish.duplex _ (gone key m.parked_opens) (
          waiting-IsValid (delete key m.parked_opens) m.expectations m
            (λ k h. v.no_stream k (still key k m.parked_opens h))
            (λ k h. v.no_wish k (still key k m.parked_opens h)) v))
]

open_checked-IsValid :
    (key : Text) (block_size : ℕ) (m : Manager)
    → IsValid m
    → IsValid (open_checked key block_size m).1
unfolding open_checked
open_checked-IsValid key block_size m v =
    if_reply-IsValid (ltb 65536 block_size) _ _ (λ _. v)
      (λ _.
        if_reply-IsValid (has key m.in_streams || has key m.parked_opens) _ _ (λ _. v)
          (λ free. elim (Option-cases (get? key m.expectations)) [
            | inl absent ↦
                subst (λ o. IsValid (answer o).1) (sym absent)
                  (waiting-IsValid (put key block_size m.parked_opens) m.expectations m
                    (λ k h.
                      new_or_old k h (λ x. has x m.in_streams) (neither _ _ free).0 (v.no_stream k))
                    (λ k h.
                      new_or_old k h (λ x. has x m.expectations)
                        (not-has_of_get? key m.expectations absent) (v.no_wish k))
                    v)
            | inr (wish, found) ↦
                subst (λ o. IsValid (answer o).1) (sym found)
                  (create_in_stream-IsValid key block_size _ wish.duplex _ (neither _ _ free).1 (
                    waiting-IsValid m.parked_opens (delete key m.expectations) m v.no_stream
                      (λ k h. kept_out key k m.expectations (v.no_wish k h)) v))
          ]))
  where
    answer : Option Wish → Reply × Manager
    answer none = (withheld, record m { parked_opens = put key block_size m.parked_opens })
    answer (some wish) =
        (result, build key block_size wish (record m { expectations = delete key m.expectations }))

    neither : (a b : Bool) → (a || b) ≡ false → (a ≡ false) × (b ≡ false)
    neither a b h = (ground (arith, h), ground (arith, h))

    new_or_old :
        (k : Text)
        → has k (put key block_size m.parked_opens) ≡ true
        → (test : Text → Bool) → test key ≡ false
        → (has k m.parked_opens ≡ true → test k ≡ false)
        → test k ≡ false
    new_or_old k h test for_key for_others = elim (Bool-cases (text_key.same key k)) [
      | inl same ↦ ap test (sym ((text_key.same_iff key k).0 same)) ∙ for_key
      | inr differ ↦ for_others (sym (has-put key k block_size m.parked_opens ∙ rw differ refl) ∙ h)
    ]

or_refused-IsValid :
    (b : Bool) (m after : Manager)
    → IsValid m
    → (b ≡ false → IsValid after)
    → IsValid (or_same m (if b then none else some after))
or_refused-IsValid true m after v w = v
or_refused-IsValid false m after v w = w refl

pub open_duplex-IsValid :
    (key : Text) (block_size : ℕ) (idle : Option IdleTimeout) (m : Manager)
    → IsValid m
    → IsValid (or_same m (open_duplex key block_size idle m))
unfolding open_duplex
open_duplex-IsValid key block_size idle m v = or_refused-IsValid _ m _ v (λ free.
    create_in_stream-IsValid key block_size (duplex_timeout idle) true m (middle _ _ _ free) v)
  where
    middle : (a b c : Bool) → (a || b || c) ≡ false → b ≡ false
    middle a b c h = ground (arith, h)

open_sized-IsValid :
    (key : Text) (n : Option Integer) (m : Manager) → IsValid m → IsValid (open_sized key n m).1
open_sized-IsValid key none m v = v
open_sized-IsValid key (some (nonneg n)) m v =
    if_reply-IsValid (n == 0) _ _ (λ _. v) (λ _. open_checked-IsValid key n m v)
open_sized-IsValid key (some (minus n)) m v = v

pub on_open-IsValid :
    (integer : Option Text → Option Integer) (from sid block_size : Option Text) (m : Manager)
    → IsValid m
    → IsValid (on_open integer from sid block_size m).1
unfolding on_open
on_open-IsValid integer from sid block_size m v =
    if_reply-IsValid (not (filled from && filled sid)) _ _ (λ _. v)
      (λ _. open_sized-IsValid (key_of (text_of from) (text_of sid)) (integer block_size) m v)
