-- ===== src/Ibb/Inbound/Tests.antt =====
-- The receiving side on concrete events.
use xmpp_httpx.Prelude.{◌-◌, [], ◌∷◌, Option, none, some, false}
use xmpp_httpx.Base64.{Text, codes, encode_base64}
use xmpp_httpx.Ibb.Windows.{Integer, nonneg}
use xmpp_httpx.Ibb.Inbound.{Manager, Wish, key_of}
use xmpp_httpx.Ibb.Inbound.Events.{new, Event, opened, expected, data_arrived, handle}
use xmpp_httpx.Ibb.Inbound.Registry.{IsValid}
use xmpp_httpx.Ibb.Inbound.Invariant.{new-IsValid, handle-IsValid}

-- An attribute of one digit.
abbrev digit : Option Text → Option Integer
digit (some (d ∷ [])) = some (nonneg (d - 48))
digit other = none

abbrev peer : Option Text
peer = some (codes "a@b/c")

abbrev sid : Option Text
sid = some (codes "s")

abbrev plain : Wish
plain = record { duplex = false; idle_timeout = none }

abbrev opening : Event
opening = opened peer sid (some (codes "8"))

-- The `<open/>` comes before the stream is expected.
abbrev parked : Manager
parked = handle digit (new 30000 8) opening

abbrev streaming : Manager
streaming = handle digit parked (expected (key_of (codes "a@b/c") (codes "s")) plain)

streaming-IsValid : IsValid streaming
streaming-IsValid =
    handle-IsValid digit parked (expected (key_of (codes "a@b/c") (codes "s")) plain)
      (handle-IsValid digit (new 30000 8) opening (new-IsValid 30000 8))

handle-IsValid_example :
    IsValid (
      handle digit streaming
        (data_arrived peer sid (some (codes "0")) (encode_base64 (1 ∷ 2 ∷ []))))
handle-IsValid_example =
    handle-IsValid digit streaming
      (data_arrived peer sid (some (codes "0")) (encode_base64 (1 ∷ 2 ∷ []))) streaming-IsValid
