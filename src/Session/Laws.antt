-- ===== src/Session/Laws.antt =====
-- What the parts of a JID are.
use xmpp_httpx.Prelude.{
  ℕ, ◌≡◌, refl, ap, ◌∙◌, [], ◌∷◌, ◌++◌, false, Bool-cases, inl, inr, ◌==◌, if◌then◌else◌, All,
  All-append,
}
use xmpp_httpx.Base64.{Text}
use xmpp_httpx.Session.{bare_jid, after_last_at, jid_domain}

abbrev pub Lacks : ℕ → Text → Type 0
Lacks x = All (λ c. (c == x) ≡ false)

bare_jid-Lacks : (jid : Text) → Lacks b'/' (bare_jid jid)
unfolding bare_jid
bare_jid-Lacks [] = tt
bare_jid-Lacks (c ∷ cs) = elim (Bool-cases (c == b'/')) [
  | inl slash ↦ rw slash tt
  | inr other ↦ rw other (other, bare_jid-Lacks cs)
]

bare_jid-eq : (jid : Text) → Lacks b'/' jid → bare_jid jid ≡ jid
unfolding bare_jid
bare_jid-eq [] h = refl
bare_jid-eq (c ∷ cs) (h, hs) = rw h (ap (λ (t : Text). c ∷ t) (bare_jid-eq cs hs))

-- The bare JID of a bare JID is itself.
pub bare_jid_idem : (jid : Text) → bare_jid (bare_jid jid) ≡ bare_jid jid
bare_jid_idem jid = bare_jid-eq (bare_jid jid) (bare_jid-Lacks jid)

bare_jid-append : (bare rest : Text) → Lacks b'/' bare → bare_jid (bare ++ (b'/' ∷ rest)) ≡ bare
unfolding bare_jid
bare_jid-append [] rest h = refl
bare_jid-append (c ∷ cs) rest (h, hs) = rw h (ap (λ (t : Text). c ∷ t) (bare_jid-append cs rest hs))

after_last_at-Lacks : (found s : Text) → Lacks b'@' s → after_last_at found s ≡ found
unfolding after_last_at
after_last_at-Lacks found [] h = refl
after_last_at-Lacks found (c ∷ cs) (h, hs) = rw h (after_last_at-Lacks found cs hs)

after_last_at-append :
    (found front domain : Text)
    → Lacks b'@' domain
    → after_last_at found (front ++ (b'@' ∷ domain)) ≡ domain
unfolding after_last_at
after_last_at-append found [] domain h = after_last_at-Lacks domain domain h
after_last_at-append found (c ∷ cs) domain h =
    after_last_at-append (if c == b'@' then cs ++ (b'@' ∷ domain) else found) cs domain h

Lacks-append_at :
    (front rest : Text) → Lacks b'/' front → Lacks b'/' rest → Lacks b'/' (front ++ (b'@' ∷ rest))
Lacks-append_at front rest h k = All-append _ front (b'@' ∷ rest) h (refl, k)

-- The domain of "user@domain/resource" is "domain", where neither of the first two parts has a
-- slash and the domain has no at sign; the resource may have both.
pub jid_domain-append :
    (user domain resource : Text)
    → Lacks b'/' user
    → Lacks b'/' domain
    → Lacks b'@' domain
    → jid_domain ((user ++ (b'@' ∷ domain)) ++ (b'/' ∷ resource)) ≡ domain
unfolding jid_domain
jid_domain-append user domain resource no_slash no_slash' no_at =
    ap (λ bare. after_last_at bare bare)
      (bare_jid-append (user ++ (b'@' ∷ domain)) resource
        (Lacks-append_at user domain no_slash no_slash'))
    ∙ after_last_at-append (user ++ (b'@' ∷ domain)) user domain no_at
