-- ===== src/Ibb/Inbound/Delivery.antt =====
-- What a stream's consumer gets of the blocks that a sender numbers and sends.
use xmpp_httpx.Prelude.{
  ℕ, zero, suc, ◌+◌, ◌-◌, ◌%◌, ◌≤◌, ◌<◌, ◌≡◌, refl, sym, subst, ap, ◌∙◌, List, [], ◌∷◌, ◌++◌, some,
  Bool, true, false, ◌&&◌, not, leb, ◌==◌, if◌then◌else◌, arith, length, take, get_or, All,
}
use xmpp_httpx.JsMap.{text_key, get?}
use xmpp_httpx.Base64.{Text}
use xmpp_httpx.Bytes.Buffer.{Bytes}
use xmpp_httpx.Ibb.Windows.{nonneg, is_redelivery}
use xmpp_httpx.Ibb.Inbound.{InStream, Manager, Reply, arm_idle_timer}
use xmpp_httpx.Ibb.Inbound.Data.{taken, is_full, settle, follow}
use xmpp_httpx.Ibb.Inbound.Registry.{changed_at}

-- The stream goes on, it expects block `k`, and its consumer got the blocks before.
abbrev pub Got : ℕ → List Bytes → InStream → Type 0
Got k blocks state =
    (state.finished ≡ false) × (state.expected_seq ≡ k % 65536) × (state.out ≡ take k blocks)

pub record Receives (key : Text) (id k : ℕ) (blocks : List Bytes) (m : Manager) : Type 0 where
  pub registered : get? key m.in_streams ≡ some id
  pub got : Got k blocks (m.heap id)

le→leb : (a b : ℕ) → a ≤ b → leb a b ≡ true
le→leb a b le = ground (arith, le)

pub is_redelivery-again :
    (i k : ℕ) → i < k → k ≤ i + 64 → is_redelivery (nonneg (i % 65536)) (k % 65536) ≡ true
unfolding is_redelivery
is_redelivery-again i k lt le = rw (lower, distance) (ground (arith, lt, le))
  where
    lower : leb (i % 65536) (k % 65536 + 65536) ≡ true
    lower = le→leb _ _ (omega arith)

    distance : (k % 65536 + 65536 - i % 65536) % 65536 ≡ k - i
    distance = omega (arith, lt, le)

pub is_redelivery-next : (k : ℕ) → is_redelivery (nonneg (k % 65536)) (k % 65536) ≡ false
unfolding is_redelivery
is_redelivery-next k = rw (lower, distance) refl
  where
    lower : leb (k % 65536) (k % 65536 + 65536) ≡ true
    lower = le→leb _ _ (omega arith)

    distance : (k % 65536 + 65536 - k % 65536) % 65536 ≡ 0
    distance = omega arith

take-next :
    (k : ℕ) (blocks : List Bytes)
    → k < length blocks
    → take k blocks ++ (get_or blocks k [] ∷ []) ≡ take (suc k) blocks
take-next k [] lt = absurd (omega (arith, lt))
take-next zero (b ∷ blocks) lt = refl
take-next (suc k) (b ∷ blocks) lt = ap (λ t. b ∷ t) (take-next k blocks (omega (arith, lt)))

-- A stream is changed, but not in what it got.
pub same-Got :
    (id j k : ℕ) (blocks : List Bytes) (state : InStream) (m : Manager)
    → (id ≡ j → Got k blocks (m.heap j) → Got k blocks state)
    → Got k blocks (m.heap j)
    → Got k blocks (if id == j then state else m.heap j)
same-Got id j k blocks state m new got =
    changed_at (Got k blocks) id j state m.heap (λ e. new e got) (λ d. got)

pub at_same {ℓ} :
    (P : InStream → Type ℓ) (id j : ℕ) (m : Manager) → id ≡ j → P (m.heap j) → P (m.heap id)
at_same P id j m e p = subst (λ i. P (m.heap i)) (sym e) p

either-Receives :
    {key : Text} {id k : ℕ} {blocks : List Bytes} (b : Bool) (x y : Reply × Manager)
    → Receives key id k blocks x.1
    → Receives key id k blocks y.1
    → Receives key id k blocks (if b then x else y).1
either-Receives true x y v w = v
either-Receives false x y v w = w

pub settle-Receives :
    (handler : ℕ) (at key : Text) (other id k : ℕ) (blocks : List Bytes) (m : Manager)
    → Receives key id k blocks m
    → Receives key id k blocks (settle handler at other m).1
unfolding settle
settle-Receives handler at key other id k blocks m v =
    either-Receives (not (m.heap other).finished && is_full (m.heap other)) _ _
      (record { registered = v.registered; got = changed _ (λ got. got) })
      (idle (length (m.heap other).pull_waiters == 0))
  where
    changed :
        (state : InStream)
        → (Got k blocks (m.heap other) → Got k blocks state)
        → Got k blocks (if other == id then state else m.heap id)
    changed state new =
        same-Got other id k blocks state m (λ e got. new (at_same (Got k blocks) other id m e got))
          v.got

    idle : (b : Bool) → Receives key id k blocks (if b then arm_idle_timer other false m else m)
    idle true = record { registered = v.registered; got = changed _ (λ got. got) }
    idle false = v

-- The block that is expected is taken.
pub taken-Receives :
    (key : Text) (id k : ℕ) (blocks : List Bytes) (m : Manager)
    → Receives key id k blocks m
    → k < length blocks
    → All (λ (b : Bytes). 0 < length b) blocks
    → Receives key id (suc k) blocks (follow (taken (get_or blocks k [])) key id m).1
unfolding follow
taken-Receives key id k blocks m v lt filled_all =
    settle-Receives m.next_handler key key id id (suc k) blocks _ (record {
      registered = v.registered;
      got =
          changed_at (Got (suc k) blocks) id id _ m.heap
            (λ e. (
              v.got.0,
              omega (arith, v.got.1),
              rw (empty (length (get_or blocks k [])) (positive k blocks lt filled_all))
                  (ap (λ t. t ++ (get_or blocks k [] ∷ [])) v.got.2 ∙ take-next k blocks lt),
            ))
            (λ d. absurd (d refl));
    })
  where
    empty : (n : ℕ) → 0 < n → (n == 0) ≡ false
    empty n pos = ground (arith, pos)

    positive :
        (k : ℕ) (blocks : List Bytes)
        → k < length blocks
        → All (λ (b : Bytes). 0 < length b) blocks
        → 0 < length (get_or blocks k [])
    positive k [] lt all = absurd (omega (arith, lt))
    positive zero (b ∷ blocks) lt all = all.0
    positive (suc k) (b ∷ blocks) lt all = positive k blocks (omega (arith, lt)) all.1
