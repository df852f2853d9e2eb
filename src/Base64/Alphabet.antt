-- ===== src/Base64/Alphabet.antt =====
-- The table `CODES` inverts `ALPHABET`, and no digit is a space or the padding character.
use xmpp_httpx.Prelude.{
  ℕ, ◌<◌, ◌≡◌, refl, ◌&&◌, not, Bool, Option, some, none, true, false, ◌==◌, holds_up_to,
  holds_up_to-at, arith,
}
use xmpp_httpx.Base64.{digit, digit_value, is_space, pad}

abbrev is_value : ℕ → Option ℕ → Bool
is_value n none = false
is_value n (some m) = n == m

abbrev is_proper : ℕ → Bool
is_proper n =
    is_value n (digit_value (digit n)) && (not (is_space (digit n)) && not (digit n == pad))

table_checked : holds_up_to is_proper 64 ≡ true
unfolding holds_up_to digit digit_value
table_checked = refl

pub record IsReadable (n : ℕ) : Type 0 where
  pub valued : digit_value (digit n) ≡ some n
  pub not_space : is_space (digit n) ≡ false
  pub not_pad : (digit n == pad) ≡ false

of_checks :
    (n : ℕ) (v : Option ℕ) (s p : Bool)
    → digit_value (digit n) ≡ v
    → is_space (digit n) ≡ s
    → (digit n == pad) ≡ p
    → (is_value n v && (not s && not p)) ≡ true
    → IsReadable n
of_checks n none s p ev es ep h = absurd (ground arith)
of_checks n (some m) s p ev es ep h = ground arith

-- Each of the 64 digits is read back as its value, and is neither whitespace nor padding.
pub digit-IsReadable : (n : ℕ) → n < 64 → IsReadable n
digit-IsReadable n h =
    of_checks n (digit_value (digit n)) (is_space (digit n)) (digit n == pad) refl refl refl
      (holds_up_to-at is_proper 64 n h table_checked)
