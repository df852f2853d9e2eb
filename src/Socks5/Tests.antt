-- ===== src/Socks5/Tests.antt =====
-- The SOCKS5 messages of a domain of two letters.
use xmpp_httpx.Prelude.{◌≡◌, refl, [], ◌∷◌, true, arith, take}
use xmpp_httpx.Base64.{Text, codes}
use xmpp_httpx.Bytes.Buffer.{Bytes}
use xmpp_httpx.Socks5.{
  parsed, build_connect_request, parse_connect_request, build_connect_reply, parse_connect_reply,
}
use xmpp_httpx.Socks5.RoundTrip.{
  ReadsBack, IsRefused, parse_connect_request-build, parse_connect_reply-build,
  parse_connect_request-IsRefused,
}

-- UTF-8, of letters.
abbrev letters : Text → Bytes
letters t = t

abbrev ab : Text
ab = codes "ab"

abbrev request : Bytes
request = 5 ∷ 1 ∷ 0 ∷ 3 ∷ 2 ∷ 97 ∷ 98 ∷ 0 ∷ 0 ∷ []

parse_connect_request-build_example :
    ReadsBack letters ab (7 ∷ []) 2 (build_connect_request letters ab)
parse_connect_request-build_example = parse_connect_request-build letters letters ab (7 ∷ []) refl

parse_connect_reply-build_example :
    parse_connect_reply (build_connect_reply letters ab true) ≡ parsed true
parse_connect_reply-build_example = parse_connect_reply-build letters ab true

parse_connect_request-IsRefused_example : IsRefused (parse_connect_request letters (take 6 request))
unfolding build_connect_request
parse_connect_request-IsRefused_example =
    parse_connect_request-IsRefused letters letters ab request 6 refl (omega arith)
