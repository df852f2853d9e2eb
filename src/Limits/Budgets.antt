-- ===== src/Limits/Budgets.antt =====
-- What the advertised limits of a stream lead to.
use xmpp_httpx.Prelude.{ℕ, ◌≤◌, ◌<◌, List, [], ◌∷◌, Option, none, some}
use xmpp_httpx.Limits.{StreamLimits, Nonza, max_safe_integer, parse_stream_limits, Watch, on_nonza}

-- A limit that is not given, or a positive safe integer.
abbrev pub IsUsable : Option ℕ → Type 0
IsUsable none = Unit
IsUsable (some n) = (0 < n) × (n ≤ max_safe_integer)

-- The size that an element advertises.
abbrev pub size_of : Option StreamLimits → Option ℕ
size_of none = none
size_of (some found) = found.max_bytes

abbrev later_of : Option ℕ → Option ℕ → Option ℕ
later_of earlier none = earlier
later_of earlier (some size) = some size

-- The last size that a sequence of elements advertises.
abbrev pub last_size : Option ℕ → List Nonza → Option ℕ
last_size earlier [] = earlier
last_size earlier (nonza ∷ nonzas) =
    last_size (later_of earlier (size_of (parse_stream_limits nonza))) nonzas

abbrev pub on_nonzas : Watch → List Nonza → Watch
on_nonzas watch [] = watch
on_nonzas watch (nonza ∷ nonzas) = on_nonzas (on_nonza watch nonza) nonzas
