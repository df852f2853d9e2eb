-- ===== src/Session/Tests.antt =====
-- The theorems on JIDs at concrete inputs.
use xmpp_httpx.Prelude.{◌≡◌, refl, [], ◌∷◌}
use xmpp_httpx.Session.{jid_domain}
use xmpp_httpx.Session.Laws.{jid_domain-append}

-- "a@b/x@/"
jid_domain-append_example :
    jid_domain (b'a' ∷ b'@' ∷ b'b' ∷ b'/' ∷ b'x' ∷ b'@' ∷ b'/' ∷ []) ≡ (b'b' ∷ [])
jid_domain-append_example =
    jid_domain-append (b'a' ∷ []) (b'b' ∷ []) (b'x' ∷ b'@' ∷ b'/' ∷ []) (refl, tt) (refl, tt)
      (refl, tt)
