-- ===== src/Negotiate/Tests.antt =====
-- The theorem on content negotiation at a concrete input.
use xmpp_httpx.Prelude.{◌≡◌, refl, List, [], ◌∷◌, Option, some}
use xmpp_httpx.Base64.{Text}
use xmpp_httpx.Select.{trim, trim_start, trim_end}
use xmpp_httpx.Negotiate.{
  FiniteNumber, units, AcceptEntry, parse_accept, negotiate_content_type, first_piece, later_pieces,
  quality_of, entries_of, insert_entry,
}
use xmpp_httpx.Negotiate.Order.{IsRanked, parse_accept-IsRanked}
use xmpp_httpx.Negotiate.Choice.{IsChoice, negotiate_content_type-IsChoice}

abbrev half : Option Text → Option FiniteNumber
half text = some (units 5)

-- "a/b;q=5,*/*"
abbrev header : Option Text
header = some (b'a' ∷ b'/' ∷ b'b' ∷ b';' ∷ b'q' ∷ b'=' ∷ b'5' ∷ b',' ∷ b'*' ∷ b'/' ∷ b'*' ∷ [])

abbrev parsed : List AcceptEntry
parsed =
    record { type = b'*' ∷ b'/' ∷ b'*' ∷ []; q = 10 }
    ∷ record { type = b'a' ∷ b'/' ∷ b'b' ∷ []; q = 5 }
    ∷ []

abbrev offers : List Text
offers = (b'a' ∷ b'/' ∷ b'b' ∷ []) ∷ (b'c' ∷ b'/' ∷ b'd' ∷ []) ∷ []

parse_example : parse_accept half 10 header ≡ parsed
unfolding parse_accept entries_of insert_entry quality_of first_piece later_pieces trim trim_start
    trim_end
parse_example = refl

negotiate_content_type-IsChoice_example :
    IsChoice parsed offers (negotiate_content_type half 10 header offers)
negotiate_content_type-IsChoice_example =
    negotiate_content_type-IsChoice half 10 header offers _ _ parse_example

parse_accept-IsRanked_example : IsRanked 10 (parse_accept half 10 header)
parse_accept-IsRanked_example = parse_accept-IsRanked half 10 header
