-- ===== src/Bytes/Streams.antt =====
-- The caps on streamed bodies of src/util/bytes.ts: `bytesFromStream` and `limitStream`.
-- A stream is the list of the chunks that its reader yields, in order.
use xmpp_httpx.Prelude.{
  ℕ, ◌+◌, ◌≤◌, ◌<◌, List, [], ◌∷◌, ◌++◌, ◌≡◌, refl, sym, ap, ◌∙◌, ◌⊎◌, Bool-cases, inl, inr, Option,
  some, none, Bool, true, false, ltb, if◌then◌else◌, arith, ltb→lt, lt→ltb, ap₂, ltb_false→le,
  le→ltb_false, length, concat, concat-snoc, append_assoc, append-nil, length-append,
}
use xmpp_httpx.Bytes.Buffer.{Bytes, concat_bytes}

-- `too_large` is the thrown HttpxError; the source stream has been cancelled with it.
pub data Collected : Type 0 where
  collected : Bytes → Collected
  too_large : Collected

-- `total > maxBytes`, where a missing limit is Infinity.
abbrev exceeds : Option ℕ → ℕ → Bool
exceeds none total = false
exceeds (some limit) total = ltb limit total

collect : Option ℕ → ℕ → List Bytes → List Bytes → Collected
collect limit total parts [] = collected (concat_bytes parts)
collect limit total parts (part ∷ rest) =
    let more = collect limit (total + length part) (parts ++ (part ∷ [])) rest in
    if exceeds limit (total + length part) then too_large else more

unfoldable pub bytes_from_stream : Option ℕ → List Bytes → Collected
unfolding collect
bytes_from_stream limit chunks = collect limit 0 [] chunks

-- The chunks that `limitStream` lets through, and whether it then errored.
pub record Limited : Type 0 where
  pub passed : List Bytes
  pub errored : Bool

limit_from : ℕ → ℕ → List Bytes → Limited
limit_from max_bytes total [] = record { passed = []; errored = false }
limit_from max_bytes total (chunk ∷ rest) =
    let more = limit_from max_bytes (total + length chunk) rest in
    if ltb max_bytes (total + length chunk)
    then record { passed = []; errored = true }
    else record more { passed = chunk ∷ more.passed }

unfoldable pub limit_stream : ℕ → List Bytes → Limited
unfolding limit_from
limit_stream max_bytes chunks = limit_from max_bytes 0 chunks

snoc :
    (parts : List Bytes) (c : Bytes) (cs : List Bytes)
    → concat (parts ++ (c ∷ [])) ++ concat cs ≡ concat parts ++ (c ++ concat cs)
snoc parts c cs =
    ap (λ (t : Bytes). t ++ concat cs) (concat-snoc parts c)
    ∙ append_assoc (concat parts) c (concat cs)

collect_unlimited :
    (total : ℕ) (parts chunks : List Bytes)
    → collect none total parts chunks ≡ collected (concat parts ++ concat chunks)
unfolding collect
collect_unlimited total parts [] = ap collected (sym (append-nil (concat parts)))
collect_unlimited total parts (c ∷ cs) =
    collect_unlimited (total + length c) (parts ++ (c ∷ [])) cs ∙ ap collected (snoc parts c cs)

collect_limited :
    (limit total : ℕ) (parts chunks : List Bytes)
    → total ≤ limit
    → collect (some limit) total parts chunks ≡ (
        if ltb limit (total + length (concat chunks))
        then too_large
        else collected (concat parts ++ concat chunks))
unfolding collect
collect_limited limit total parts [] h =
    rw (le→ltb_false limit (total + 0) (omega arith))
      (ap collected (sym (append-nil (concat parts))))
collect_limited limit total parts (c ∷ cs) h = elim (Bool-cases (ltb limit (total + length c))) [
  | inl over ↦ rw (
    over,
    lt→ltb limit (total + length (c ++ concat cs)) (omega (arith, longer, ltb→lt limit _ over)),
  )
  | inr fits ↦ rw fits (
      collect_limited limit (total + length c) (parts ++ (c ∷ [])) cs (ltb_false→le limit _ fits)
      ∙ ap₂ (λ (n : ℕ) (bs : Bytes). if ltb limit n then too_large else collected bs)
          (omega (arith, longer)) (snoc parts c cs))
]
  where
    longer : length (c ++ concat cs) ≡ length c + length (concat cs)
    longer = length-append c (concat cs)

-- Without a limit `bytesFromStream` returns all the bytes of the stream; with one, it returns
-- them exactly when there are no more than the limit, and otherwise throws `payload-too-large`.
pub bytes_from_stream_lem :
    (limit : ℕ) (chunks : List Bytes)
    → (bytes_from_stream none chunks ≡ collected (concat chunks))
      × (bytes_from_stream (some limit) chunks
          ≡ (if ltb limit (length (concat chunks)) then too_large else collected (concat chunks)))
unfolding bytes_from_stream
bytes_from_stream_lem limit chunks = (
  collect_unlimited 0 [] chunks,
  collect_limited limit 0 [] chunks (omega arith)
      ∙ ap (λ (n : ℕ). if ltb limit n then too_large else collected (concat chunks)) (omega arith),
)

-- The two ways in which a capped stream can end, from a running total on.
abbrev pub Caps : ℕ → ℕ → List Bytes → Limited → Type 0
Caps max_bytes total chunks l =
    ((l.errored ≡ false) × (l.passed ≡ chunks) × (total + length (concat chunks) ≤ max_bytes))
    ⊎ ((next : Bytes) × (rest : List Bytes) × (l.errored ≡ true)
        × (chunks ≡ l.passed ++ (next ∷ rest))
        × (total + length (concat l.passed) ≤ max_bytes)
        × (max_bytes < total + length (concat l.passed) + length next))

limit_from-Caps :
    (max_bytes total : ℕ) (chunks : List Bytes)
    → total ≤ max_bytes
    → Caps max_bytes total chunks (limit_from max_bytes total chunks)
unfolding limit_from
limit_from-Caps max_bytes total [] h = inl (refl, refl, omega arith)
limit_from-Caps max_bytes total (c ∷ cs) h = elim (Bool-cases (ltb max_bytes (total + length c))) [
  | inl over ↦ rw over (
      inr (c, cs, refl, refl, omega arith, omega (arith, ltb→lt max_bytes (total + length c) over)))
  | inr fits ↦
      rw fits
        (elim (limit_from-Caps max_bytes (total + length c) cs (ltb_false→le max_bytes _ fits)) [
          | inl (no_error, all, within) ↦ inl (
            no_error,
            ap (λ (t : List Bytes). c ∷ t) all,
            omega (arith, length-append c (concat cs)),
          )
          | inr (next, rest, error, split, within, past) ↦ inr (
            next,
            rest,
            error,
            ap (λ (t : List Bytes). c ∷ t) split,
            omega (
              arith,
              length-append c (concat (limit_from max_bytes (total + length c) cs).passed),
            ),
            omega (
              arith,
              length-append c (concat (limit_from max_bytes (total + length c) cs).passed),
            ),
          )
        ])
]

-- `limitStream` passes every chunk on if their total is within the limit, or errors: then the
-- chunks that it passed on are the first of the stream and within the limit, and with the next
-- chunk they exceed it.
pub limit_stream-Caps :
    (max_bytes : ℕ) (chunks : List Bytes) → Caps max_bytes 0 chunks (limit_stream max_bytes chunks)
unfolding limit_stream
limit_stream-Caps max_bytes chunks = limit_from-Caps max_bytes 0 chunks (omega arith)
