-- ===== src/Policy/Remembered.antt =====
-- How long `manualPolicy` remembers an answer.
use xmpp_httpx.Prelude.{
  ℕ, ◌+◌, ◌<◌, ◌≡◌, refl, ap, ◌∙◌, List, [], ◌∷◌, Option, some, Option-cases, Bool, true, false,
  Bool-cases, inl, inr, ltb, lt→ltb, arith, All,
}
use xmpp_httpx.JsMap.{text_key, text_beq, text_beq_iff, get?, put, get?-put}
use xmpp_httpx.Base64.{Text}
use xmpp_httpx.Session.{bare_jid}
use xmpp_httpx.Policy.{Decision, ask, manual_policy, denied_if_thrown}

-- A request: who asks, when, and what the prompt would answer.
pub record Request : Type 0 where
  pub from : Text
  pub now : ℕ
  pub prompt : Option Bool

-- What is remembered after a sequence of requests.
unfoldable pub after_requests : ℕ → List Request → List (Text × Decision) → List (Text × Decision)
after_requests ttl_ms [] decisions = decisions
after_requests ttl_ms (q ∷ requests) decisions =
    after_requests ttl_ms requests (manual_policy ttl_ms q.from q.now q.prompt decisions).decisions

asked_is_remembered :
    (ttl_ms : ℕ) (from : Text) (now : ℕ) (prompt : Option Bool) (decisions : List (Text × Decision))
    → (manual_policy ttl_ms from now prompt decisions).prompted ≡ true
    → get? (bare_jid from) (manual_policy ttl_ms from now prompt decisions).decisions
      ≡ some (record { value = (manual_policy ttl_ms from now prompt decisions).answer; at = now })
unfolding manual_policy
asked_is_remembered ttl_ms from now prompt decisions asked =
    elim (Option-cases (get? (bare_jid from) decisions)) [
      | inl unknown ↦ rw (unknown, manual_policy) (remembered)
      | inr (cached, known) ↦ elim (Bool-cases (ltb now (cached.at + ttl_ms))) [
        | inl recent ↦ absurd (ground (arith, rw (known, recent, manual_policy) at asked))
        | inr old ↦ rw (known, old, manual_policy) (remembered)
      ]
    ]
  where
    decision : Decision
    decision = record { value = denied_if_thrown prompt; at = now }

    remembered : get? (bare_jid from) (put (bare_jid from) decision decisions) ≡ some decision
    remembered =
        get?-put (bare_jid from) (bare_jid from) decision decisions
        ∙ rw ((text_beq_iff (bare_jid from) (bare_jid from)).1 refl) refl

cached_answer :
    (ttl_ms : ℕ) (from : Text) (now : ℕ) (prompt : Option Bool) (decisions : List (Text × Decision))
    (cached : Decision)
    → get? (bare_jid from) decisions ≡ some cached
    → now < cached.at + ttl_ms
    → manual_policy ttl_ms from now prompt decisions
      ≡ record { answer = cached.value; prompted = false; decisions = decisions }
unfolding manual_policy
cached_answer ttl_ms from now prompt decisions cached known recent =
    rw (known, lt→ltb _ _ recent, manual_policy) refl

-- A request of another bare JID leaves an answer alone.
get?-ask_other :
    (ttl_ms : ℕ) (key : Text) (q : Request) (decisions : List (Text × Decision))
    → text_beq (bare_jid q.from) key ≡ false
    → get? key (manual_policy ttl_ms q.from q.now q.prompt decisions).decisions ≡ get? key decisions
unfolding manual_policy
get?-ask_other ttl_ms key q decisions differ =
    elim (Option-cases (get? (bare_jid q.from) decisions)) [
      | inl unknown ↦ rw (unknown, manual_policy) asked
      | inr (cached, known) ↦ elim (Bool-cases (ltb q.now (cached.at + ttl_ms))) [
        | inl recent ↦ rw (known, recent, manual_policy) refl
        | inr old ↦ rw (known, old, manual_policy) asked
      ]
    ]
  where
    asked : get? key (ask (bare_jid q.from) q.now q.prompt decisions).decisions ≡ get? key decisions
    asked =
        get?-put (bare_jid q.from) key (record { value = denied_if_thrown q.prompt; at = q.now })
          decisions
        ∙ rw differ refl

get?-manual_policy :
    (ttl_ms : ℕ) (key : Text) (q : Request) (decisions : List (Text × Decision)) (cached : Decision)
    → get? key decisions ≡ some cached
    → q.now < cached.at + ttl_ms
    → get? key (manual_policy ttl_ms q.from q.now q.prompt decisions).decisions ≡ some cached
get?-manual_policy ttl_ms key q decisions cached known recent =
    elim (Bool-cases (text_beq (bare_jid q.from) key)) [
      | inr differ ↦ get?-ask_other ttl_ms key q decisions differ ∙ known
      | inl same ↦
          let e : bare_jid q.from ≡ key = (text_beq_iff (bare_jid q.from) key).0 same in
          ap (λ a. get? key a.decisions)
            (cached_answer ttl_ms q.from q.now q.prompt decisions cached
              (ap (λ k. get? k decisions) e ∙ known) recent)
          ∙ known
    ]

get?-after_requests :
    (ttl_ms : ℕ) (key : Text) (requests : List Request) (decisions : List (Text × Decision))
    (cached : Decision)
    → get? key decisions ≡ some cached
    → All (λ q. q.now < cached.at + ttl_ms) requests
    → get? key (after_requests ttl_ms requests decisions) ≡ some cached
unfolding after_requests
get?-after_requests ttl_ms key [] decisions cached known a = known
get?-after_requests ttl_ms key (q ∷ requests) decisions cached known (recent, later) =
    get?-after_requests ttl_ms key requests _ cached
      (get?-manual_policy ttl_ms key q decisions cached known recent) later

-- An answer of the prompt is good for its bare JID until the time to live is over: after any
-- requests, of whomever, that come before that time, a request from the bare JID, with whatever
-- resource, that also comes before it gets the same answer and no prompt, and leaves what is
-- remembered as it is.
pub manual_policy-remembers :
    (ttl_ms : ℕ) (from from' : Text) (now later : ℕ) (prompt prompt' : Option Bool)
    (requests : List Request) (decisions : List (Text × Decision))
    → bare_jid from' ≡ bare_jid from
    → All (λ q. q.now < now + ttl_ms) requests
    → later < now + ttl_ms
    → (manual_policy ttl_ms from now prompt decisions).prompted ≡ true
    → manual_policy ttl_ms from' later prompt'
        (after_requests ttl_ms requests (manual_policy ttl_ms from now prompt decisions).decisions)
      ≡ record {
        answer = (manual_policy ttl_ms from now prompt decisions).answer;
        prompted = false;
        decisions =
            after_requests ttl_ms requests
              (manual_policy ttl_ms from now prompt decisions).decisions;
      }
manual_policy-remembers ttl_ms from from' now later prompt prompt' requests decisions same before
      recent asked =
    let first = manual_policy ttl_ms from now prompt decisions in
    let cached : Decision = record { value = first.answer; at = now } in
    cached_answer ttl_ms from' later prompt' (after_requests ttl_ms requests first.decisions) cached
      (ap (λ k. get? k (after_requests ttl_ms requests first.decisions)) same
        ∙ get?-after_requests ttl_ms (bare_jid from) requests first.decisions cached
            (asked_is_remembered ttl_ms from now prompt decisions asked) before)
      recent
