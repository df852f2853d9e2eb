-- ===== src/Ibb/Sender/Quiet.antt =====
-- Nothing follows the `<close/>` of a stream.
use xmpp_httpx.Prelude.{
  ℕ, ◌==◌, ◌≡◌, refl, sym, subst, ap, ◌∙◌, List, Option, none, some, Option-cases, true, false,
  Bool-cases, inl, inr, arith, ==_iff,
}
use xmpp_httpx.Errors.{ErrorCode}
use xmpp_httpx.JsMap.{nat_key, get?, put, get?-put}
use xmpp_httpx.JsMap.Entries.{Each, Each-put, some-injective}
use xmpp_httpx.Bytes.Buffer.{Bytes}
use xmpp_httpx.Ibb.Scheduler.{Phase, before, pumping, draining, caught, sending, over, Sender}
use xmpp_httpx.Ibb.Sender.Calls.{with_bytes}
use xmpp_httpx.Ibb.Sender.Events.{settled, after_answer}
use xmpp_httpx.Ibb.Sender.Evolution.{IsStopped, WentOn, IsStopped-WentOn, AllWentOn}

-- What the phase of `close` says of a stream.
abbrev pub Suits : Phase → Sender → Type 0
Suits before t = Unit
Suits pumping t = t.closed ≡ true
Suits draining t = IsStopped t
Suits (caught error) t = Unit
Suits sending t = Unit
Suits over t = Unit

-- Once the `<close/>` is sent, the stream is stopped.
abbrev pub IsQuiet : ℕ → Sender → Type 0
IsQuiet id t = (t.close_sent ≡ true → IsStopped t) × Suits t.phase t

-- A stream that is stopped sends nothing and stays stopped.
abbrev pub Silent : Sender → Sender → Type 0
Silent t u = IsStopped t → (u.wire ≡ t.wire) × IsStopped u

abbrev pub AllSilent : List (ℕ × Sender) → List (ℕ × Sender) → Type 0
AllSilent a b =
    (id : ℕ) (t : Sender) → get? id a ≡ some t → (u : Sender) × (get? id b ≡ some u) × Silent t u

abbrev pub Hushed : List (ℕ × Sender) → List (ℕ × Sender) → Type 0
Hushed a b = AllSilent a b × Each IsQuiet b

IsQuiet-WentOn : (id : ℕ) (t u : Sender) → WentOn t u → IsQuiet id t → IsQuiet id u
IsQuiet-WentOn id t u w (stopped, suits) = (
  λ e. IsStopped-WentOn t u w (stopped (sym w.close_sent ∙ e)),
  subst (λ p. Suits p u) (sym w.phase) (same t.phase suits),
)
  where
    same : (p : Phase) → Suits p t → Suits p u
    same before h = tt
    same pumping h = w.closed ∙ h
    same draining h = IsStopped-WentOn t u w h
    same (caught error) h = tt
    same sending h = tt
    same over h = tt

pub same-Hushed : (streams : List (ℕ × Sender)) → Each IsQuiet streams → Hushed streams streams
same-Hushed streams each = (λ id t e. (t, e, λ h. (refl, h)), each)

pub on-Hushed : (a b c : List (ℕ × Sender)) → Hushed a b → AllWentOn b c → Hushed a c
on-Hushed a b c (silent, each) (on, gone) = (
  λ id t e. (
    (on id _ (silent id t e).1).0,
    (on id _ (silent id t e).1).1,
    λ h. (
      (on id _ (silent id t e).1).2.quiet ((silent id t e).2 h).1 ∙ ((silent id t e).2 h).0,
      IsStopped-WentOn _ _ (on id _ (silent id t e).1).2 ((silent id t e).2 h).1,
    ),
  ),
  λ id u h. elim (Option-cases (get? id b)) [
    | inl e ↦ absurd (ground (arith, gone id e, h))
    | inr (t, e) ↦
        subst (IsQuiet id) (some-injective (sym (on id t e).1 ∙ h))
          (IsQuiet-WentOn id t _ (on id t e).2 (each id t e))
  ],
)

-- A stream is replaced by one that stays silent.
pub put-Hushed :
    (a b : List (ℕ × Sender)) (id : ℕ) (t u : Sender)
    → Hushed a b
    → get? id b ≡ some t
    → Silent t u
    → IsQuiet id u
    → Hushed a (put id u b)
put-Hushed a b id t u (silent, each) e hush quiet = (
  λ j x h. elim (Bool-cases (id == j)) [
    | inl same ↦ (u, rw (get?-put, same) refl, λ stopped. at_it j x h same stopped)
    | inr other ↦ ((silent j x h).0, rw (get?-put, other) (silent j x h).1, (silent j x h).2)
  ],
  Each-put IsQuiet id u b each quiet,
)
  where
    at_it :
        (j : ℕ) (x : Sender)
        → get? j a ≡ some x
        → (id == j) ≡ true
        → IsStopped x
        → (u.wire ≡ x.wire) × IsStopped u
    at_it j x h same stopped = (
      (hush (there ((silent j x h).2 stopped).1)).0
          ∙ ap (λ y. y.wire) (sym one)
          ∙ ((silent j x h).2 stopped).0,
      (hush (there ((silent j x h).2 stopped).1)).1,
    )
      where
        one : (silent j x h).0 ≡ t
        one =
            some-injective
              (sym (silent j x h).1 ∙ ap (λ i. get? i b) (sym ((==_iff id j).0 same)) ∙ e)

        there : IsStopped (silent j x h).0 → IsStopped t
        there s = subst IsStopped one s

-- A stream that is not stopped.
pub unstopped : (t : Sender) → t.failed ≡ none → t.closed ≡ false → IsStopped t → ⊥
unstopped t fine not_closed (inl failed) = failed fine
unstopped t fine not_closed (inr (closed, empty)) = absurd (ground (arith, not_closed, closed))

pub with_bytes-IsQuiet :
    (id : ℕ) (bytes : Bytes) (t : Sender)
    → (IsStopped t → ⊥)
    → IsQuiet id t
    → IsQuiet id (with_bytes bytes t)
with_bytes-IsQuiet id bytes t going (stopped, suits) =
    (λ e. absurd (going (stopped e)), same t.phase suits)
  where
    same : (p : Phase) → Suits p t → Suits p (with_bytes bytes t)
    same before h = tt
    same pumping h = h
    same draining h = absurd (going h)
    same (caught error) h = tt
    same sending h = tt
    same over h = tt

after_answer-none :
    (ordinal : ℕ) (answer : Option ErrorCode) (t : Sender)
    → after_answer ordinal answer t ≡ none
    → t.failed ≡ none
after_answer-none ordinal none t e = e
after_answer-none ordinal (some error) t e = ground (arith, e)

pub settled-IsQuiet :
    (id ordinal : ℕ) (answer : Option ErrorCode) (t : Sender)
    → IsQuiet id t
    → IsQuiet id (settled ordinal answer t) × Silent t (settled ordinal answer t)
settled-IsQuiet id ordinal answer t (stopped, suits) =
    ((λ e. still (stopped e), same t.phase suits), λ h. (refl, still h))
  where
    still : IsStopped t → IsStopped (settled ordinal answer t)
    still (inl failed) = inl (λ e. failed (after_answer-none ordinal answer t e))
    still (inr drained) = inr drained

    same : (p : Phase) → Suits p t → Suits p (settled ordinal answer t)
    same before h = tt
    same pumping h = h
    same draining h = still h
    same (caught error) h = tt
    same sending h = tt
    same over h = tt
