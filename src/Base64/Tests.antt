-- ===== src/Base64/Tests.antt =====
-- Base64 on concrete texts.
use xmpp_httpx.Prelude.{◌≡◌, refl, length}
use xmpp_httpx.Bytes.Buffer.{Bytes}
use xmpp_httpx.Base64.{
  codes, ok, bad_length, bad_character, digit_value, encode_base64, decode_base64, base64_length,
}
use xmpp_httpx.Base64.Length.{Decodes, length-encode_base64, decode_base64-Decodes}

abbrev hello : Bytes
hello = codes "Hello"

encode_hello : encode_base64 hello ≡ codes "SGVsbG8="
unfolding encode_base64
encode_hello = refl

-- Neither padding nor its absence is checked; only a length of 1 modulo 4 is refused.
decode_unpadded : decode_base64 (codes "SGVsbG8") ≡ ok hello
unfolding decode_base64 digit_value
decode_unpadded = refl

decode_short : decode_base64 (codes "SGVsb") ≡ bad_length
unfolding decode_base64
decode_short = refl

decode_bad : decode_base64 (codes "SG sb*8=") ≡ bad_character 4
unfolding decode_base64 digit_value
decode_bad = refl

length-encode_base64_example : length (encode_base64 hello) ≡ base64_length 5
length-encode_base64_example = length-encode_base64 hello

decode_base64-Decodes_example : Decodes (codes "SGVsbG8") (decode_base64 (codes "SGVsbG8"))
decode_base64-Decodes_example = decode_base64-Decodes (codes "SGVsbG8")
