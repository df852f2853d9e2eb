-- ===== src/Socks5/RoundTrip.antt =====
-- What the parsers make of the messages that are built.
use xmpp_httpx.Prelude.{
  ℕ, zero, suc, ◌+◌, ◌%◌, ◌≤◌, ◌<◌, ◌≡◌, refl, subst, ap, ◌∙◌, List, [], ◌∷◌, ◌++◌, Option, none,
  some, Bool, true, false, Bool-cases, inl, inr, ltb, arith, length, take, get_or, length-append,
  length-take, take-append, take_all, append_assoc, ltb→lt, ltb_false→le, le→ltb_false, lt→ltb,
}
use xmpp_httpx.JsMap.Entries.{some-injective}
use xmpp_httpx.Base64.{Text}
use xmpp_httpx.Bytes.Buffer.{Bytes}
use xmpp_httpx.Socks5.{
  Parsed, parsed, protocol_error, domain_message, socks5_cmd_connect, build_connect_request,
  parse_domain, parse_connect_request, build_connect_reply, parse_connect_reply,
}

get_or-append :
    (i : ℕ) (xs ys : Bytes) (d : ℕ) → get_or (xs ++ ys) (length xs + i) d ≡ get_or ys i d
get_or-append i [] ys d = ap (λ (k : ℕ). get_or ys k d) (omega arith)
get_or-append i (x ∷ xs) ys d =
    ap (λ (k : ℕ). get_or (x ∷ (xs ++ ys)) k d) next ∙ get_or-append i xs ys d
  where
    next : length (x ∷ xs) + i ≡ suc (length xs + i)
    next = omega arith

-- A domain message, with any bytes behind it.
parse_domain-message :
    (decode : Bytes → Text) (second : ℕ) (domain rest : Bytes)
    → parse_domain decode (length domain) (domain_message second domain ++ rest)
      ≡ parsed (decode domain, 0)
parse_domain-message decode second domain rest = rw (enough, whole, high, low) refl
  where
    tail_of : List ℕ
    tail_of = (domain ++ (0 ∷ 0 ∷ [])) ++ rest

    reassoc : tail_of ≡ domain ++ (0 ∷ 0 ∷ rest)
    reassoc = append_assoc domain (0 ∷ 0 ∷ []) rest

    enough : ltb (length (domain_message second domain ++ rest)) (5 + length domain + 2) ≡ false
    enough = le→ltb_false _ _ (
        omega (
          arith,
          length-append (domain_message second domain) rest,
          length-append domain (0 ∷ 0 ∷ []),
        ))

    whole : take (length domain) ((domain ++ (0 ∷ 0 ∷ [])) ++ rest) ≡ domain
    whole =
        ap (take (length domain)) reassoc
        ∙ take-append (length domain) domain _ (omega arith)
        ∙ take_all (length domain) domain (omega arith)

    high : get_or ((domain ++ (0 ∷ 0 ∷ [])) ++ rest) (length domain) 0 ≡ 0
    high =
        ap (λ (t : Bytes). get_or t (length domain) 0) reassoc
        ∙ ap (λ (k : ℕ). get_or (domain ++ (0 ∷ 0 ∷ rest)) k 0) (omega arith)
        ∙ get_or-append 0 domain (0 ∷ 0 ∷ rest) 0

    low : get_or ((domain ++ (0 ∷ 0 ∷ [])) ++ rest) (length domain + 1) 0 ≡ 0
    low =
        ap (λ (t : Bytes). get_or t (length domain + 1) 0) reassoc
        ∙ get_or-append 1 domain (0 ∷ 0 ∷ rest) 0

-- What is read of a request that was built, with `rest` behind it.
abbrev pub ReadsBack : (Bytes → Text) → Text → Bytes → ℕ → Option Bytes → Type 0
ReadsBack decode domain rest bytes none = 255 < bytes
ReadsBack decode domain rest bytes (some message) =
    parse_connect_request decode (message ++ rest) ≡ parsed (domain, 0)

-- For a domain that the decoder gives back from its encoding, the request that is built for it is
-- read back as that domain and the port 0, whatever bytes follow it; a request is refused only for
-- an encoding of more than 255 bytes.
pub parse_connect_request-build :
    (encode : Text → Bytes) (decode : Bytes → Text) (domain : Text) (rest : Bytes)
    → decode (encode domain) ≡ domain
    → ReadsBack decode domain rest (length (encode domain)) (build_connect_request encode domain)
unfolding build_connect_request parse_connect_request
parse_connect_request-build encode decode domain rest back =
    elim (Bool-cases (ltb 255 (length (encode domain)))) [
      | inl long ↦ rw long (ltb→lt 255 (length (encode domain)) long)
      | inr fits ↦ rw fits (
          rw (long_enough, mod_length (ltb_false→le 255 (length (encode domain)) fits))
            (parse_domain-message decode socks5_cmd_connect (encode domain) rest
              ∙ ap (λ (t : Text). parsed (t, 0)) back))
    ]
  where
    mod_length :
        length (encode domain) ≤ 255 → length (encode domain) % 256 ≡ length (encode domain)
    mod_length le = omega (arith, le)

    long_enough : ltb (length (domain_message socks5_cmd_connect (encode domain) ++ rest)) 5 ≡ false
    long_enough = le→ltb_false _ _ (omega arith)

-- The reply that is built for a success is read as one, that for a failure as none.
pub parse_connect_reply-build :
    (encode : Text → Bytes) (domain : Text) (success : Bool)
    → parse_connect_reply (build_connect_reply encode domain success) ≡ parsed success
unfolding parse_connect_reply build_connect_reply
parse_connect_reply-build encode domain true =
    rw
      (le→ltb_false (suc (suc (suc (suc (suc (length (encode domain ++ (0 ∷ 0 ∷ [])))))))) 2
        (omega arith))
      refl
parse_connect_reply-build encode domain false =
    rw
      (le→ltb_false (suc (suc (suc (suc (suc (length (encode domain ++ (0 ∷ 0 ∷ [])))))))) 2
        (omega arith))
      refl

-- A request of which the end has not come is never read as whole.
abbrev pub IsRefused : Parsed (Text × ℕ) → Type 0
IsRefused (parsed r) = ⊥
IsRefused (protocol_error why) = Unit

short-IsRefused :
    (decode : Bytes → Text) (bytes : Bytes)
    → length bytes < 5
    → IsRefused (parse_connect_request decode bytes)
unfolding parse_connect_request
short-IsRefused decode bytes lt = rw (lt→ltb (length bytes) 5 lt) tt

part-IsRefused :
    (decode : Bytes → Text) (d : Bytes)
    → length d ≤ 255
    → (n : ℕ) → n < length (domain_message socks5_cmd_connect d)
    → IsRefused (parse_connect_request decode (take n (domain_message socks5_cmd_connect d)))
unfolding parse_connect_request
part-IsRefused decode d le zero lt = short-IsRefused decode [] (omega arith)
part-IsRefused decode d le (suc zero) lt =
    short-IsRefused decode (take 1 (domain_message socks5_cmd_connect d)) (omega arith)
part-IsRefused decode d le (suc (suc zero)) lt =
    short-IsRefused decode (take 2 (domain_message socks5_cmd_connect d)) (omega arith)
part-IsRefused decode d le (suc (suc (suc zero))) lt =
    short-IsRefused decode (take 3 (domain_message socks5_cmd_connect d)) (omega arith)
part-IsRefused decode d le (suc (suc (suc (suc zero)))) lt =
    short-IsRefused decode (take 4 (domain_message socks5_cmd_connect d)) (omega arith)
part-IsRefused decode d le (suc (suc (suc (suc (suc n))))) lt = rw (long_enough, cut_off) tt
  where
    cut : Bytes
    cut = take (suc (suc (suc (suc (suc n))))) (domain_message socks5_cmd_connect d)

    long_enough : ltb (length cut) 5 ≡ false
    long_enough = le→ltb_false _ _ (omega arith)

    cut_off : ltb (length cut) (5 + length d % 256 + 2) ≡ true
    cut_off =
        lt→ltb _ _
          (omega (arith, lt, le, length-take n (d ++ (0 ∷ 0 ∷ [])), length-append d (0 ∷ 0 ∷ [])))

-- The parser refuses every part of a request that ends before the request does, for an encoding of
-- at most 255 bytes: no domain and no port are read of what has not come yet.
pub parse_connect_request-IsRefused :
    (encode : Text → Bytes) (decode : Bytes → Text) (domain : Text) (message : Bytes) (n : ℕ)
    → build_connect_request encode domain ≡ some message
    → n < length message
    → IsRefused (parse_connect_request decode (take n message))
unfolding build_connect_request
parse_connect_request-IsRefused encode decode domain message n built lt =
    elim (Bool-cases (ltb 255 (length (encode domain)))) [
      | inl long ↦ absurd (ground (arith, rw long at built))
      | inr fits ↦
          subst (λ m. n < length m → IsRefused (parse_connect_request decode (take n m)))
            (some-injective (rw fits at built))
            (part-IsRefused decode (encode domain) (ltb_false→le 255 (length (encode domain)) fits)
              n)
            lt
    ]
