-- ===== src/Session.antt =====
-- The JID helpers of src/session.ts.
pub mod Laws
mod Tests
use xmpp_httpx.Prelude.{List, [], ◌∷◌, Bool, ◌==◌, if◌then◌else◌}
use xmpp_httpx.Base64.{Text}

-- `jid.slice(0, jid.indexOf("/"))`, or the whole JID where there is no slash.
unfoldable pub bare_jid : Text → Text
bare_jid [] = []
bare_jid (c ∷ cs) = let rest = bare_jid cs in if c == b'/' then [] else c ∷ rest

-- What follows the last "@" of a text; `found` is what to return where there is none.
unfoldable pub after_last_at : Text → Text → Text
after_last_at found [] = found
after_last_at found (c ∷ cs) = after_last_at (if c == b'@' then cs else found) cs

unfoldable pub jid_domain : Text → Text
unfolding bare_jid after_last_at
jid_domain jid = let bare = bare_jid jid in after_last_at bare bare
