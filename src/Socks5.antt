-- ===== src/Socks5.antt =====
-- The messages of src/socks5/protocol.ts. `encode` and `decode` stand for the platform's UTF-8
-- encoder and decoder. Every parser throws a protocol error; which of its texts is kept as a value.
pub mod RoundTrip
mod Tests
use xmpp_httpx.Prelude.{
  ℕ, suc, ◌+◌, ◌*◌, ◌%◌, List, [], ◌∷◌, ◌++◌, Option, none, some, Bool, true, false, not, ltb, ◌==◌,
  if◌then◌else◌, length, take, drop, get_or,
}
use xmpp_httpx.Base64.{Text}
use xmpp_httpx.Bytes.Buffer.{Bytes}

abbrev pub socks5_version : ℕ
socks5_version = 5

abbrev pub socks5_method_no_auth : ℕ
socks5_method_no_auth = 0

abbrev pub socks5_cmd_connect : ℕ
socks5_cmd_connect = 1

abbrev pub socks5_atyp_domain : ℕ
socks5_atyp_domain = 3

-- What a parser refuses.
pub data Refusal : Type 0 where
  too_short unsupported_version unsupported_command no_domain_name truncated : Refusal

pub data Parsed {ℓ} (A : Type ℓ) : Type ℓ where
  parsed : A → Parsed A
  protocol_error : Refusal → Parsed A

unfoldable pub build_greeting : Bytes
build_greeting = socks5_version ∷ 1 ∷ socks5_method_no_auth ∷ []

-- The version and the method.
unfoldable pub parse_method_selection : Bytes → Parsed (ℕ × ℕ)
parse_method_selection bytes =
    if ltb (length bytes) 2
    then protocol_error too_short
    else parsed (get_or bytes 0 0, get_or bytes 1 0)

unfoldable pub build_method_selection : Bytes
build_method_selection = socks5_version ∷ socks5_method_no_auth ∷ []

-- A message that names a domain: its header, the length as a byte, the domain and the port 0.
abbrev pub domain_message : ℕ → Bytes → Bytes
domain_message second domain_bytes =
    socks5_version
    ∷ second
    ∷ 0
    ∷ socks5_atyp_domain
    ∷ length domain_bytes % 256
    ∷ (domain_bytes ++ (0 ∷ 0 ∷ []))

-- `none` is the error of a domain of more than 255 bytes.
unfoldable pub build_connect_request : (Text → Bytes) → Text → Option Bytes
build_connect_request encode domain =
    if ltb 255 (length (encode domain))
    then none
    else some (domain_message socks5_cmd_connect (encode domain))

-- The domain and the port, of a message with room for a domain of `len` bytes.
abbrev pub parse_domain : (Bytes → Text) → ℕ → Bytes → Parsed (Text × ℕ)
parse_domain decode len bytes =
    if ltb (length bytes) (5 + len + 2)
    then protocol_error truncated
    else parsed (
      decode (take len (drop 5 bytes)),
      get_or (drop 5 bytes) len 0 * 256 + get_or (drop 5 bytes) (len + 1) 0,
    )

unfoldable pub parse_connect_request : (Bytes → Text) → Bytes → Parsed (Text × ℕ)
parse_connect_request decode bytes =
    if ltb (length bytes) 5
    then protocol_error too_short
    else if not (get_or bytes 0 0 == socks5_version)
    then protocol_error unsupported_version
    else if not (get_or bytes 1 0 == socks5_cmd_connect)
    then protocol_error unsupported_command
    else if not (get_or bytes 3 0 == socks5_atyp_domain)
    then protocol_error no_domain_name
    else parse_domain decode (get_or bytes 4 0) bytes

unfoldable pub build_connect_reply : (Text → Bytes) → Text → Bool → Bytes
build_connect_reply encode domain success =
    domain_message (if success then 0 else 1) (encode domain)

unfoldable pub parse_connect_reply : Bytes → Parsed Bool
parse_connect_reply bytes =
    if ltb (length bytes) 2
    then protocol_error too_short
    else if not (get_or bytes 0 0 == socks5_version)
    then protocol_error unsupported_version
    else parsed (get_or bytes 1 0 == 0)
