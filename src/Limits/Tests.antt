-- ===== src/Limits/Tests.antt =====
-- The theorem on stream limits at a concrete input.
use xmpp_httpx.Prelude.{List, [], ◌∷◌, none, some}
use xmpp_httpx.Select.{stanza_budgets}
use xmpp_httpx.Limits.{Nonza, without_limits, limits, Watch}

abbrev watch : Watch
watch = record { current = none; budgets = stanza_budgets 10240 }

-- A size, one that is not positive, and an element without limits.
abbrev nonzas : List Nonza
nonzas =
    limits (some (b'9' ∷ b'0' ∷ b'0' ∷ b'0' ∷ [])) none
    ∷ limits (some (b'0' ∷ [])) none
    ∷ without_limits
    ∷ []
