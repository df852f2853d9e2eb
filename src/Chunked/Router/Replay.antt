-- ===== src/Chunked/Router/Replay.antt =====
-- Whether a chunk comes before or after the call of `expect` for its stream makes no difference.
use xmpp_httpx.Prelude.{
  ℕ, ◌+◌, ◌-◌, ◌≤◌, ◌≡◌, refl, sym, subst, ap, ◌∙◌, List, [], ◌∷◌, ◌++◌, none, some, Option-cases,
  true, false, Bool-cases, inl, inr, ◌⊎◌, ltb, le→ltb_false, ◌==◌, ==_self, if◌then◌else◌, arith,
  length, All,
}
use xmpp_httpx.JsMap.{text_key, get?, put, get?-put}
use xmpp_httpx.Base64.{Text}
use xmpp_httpx.Chunked.Reassembler.{Reassembler}
use xmpp_httpx.Chunked.Reassembler as Reassembler
use xmpp_httpx.Chunked.Router.{
  OrphanChunk, Orphans, Router, Receiver, on_receiver, set_at, replay, register, expect, key_of,
  kept_of, is_kept, without_stale, with_list, swept, swept_bytes, sweep_orphans, orphans_of, hold,
  buffer_orphan, route, orphan_max_total_payload,
}

abbrev pub push_all : List OrphanChunk → Reassembler → Reassembler
push_all [] s = s
push_all (c ∷ cs) s = push_all cs (Reassembler.push c.nr c.last c.payload s)

-- Chunks under one key, in the order in which they arrive.
abbrev pub route_all : Text → List OrphanChunk → Router → Router
route_all key [] r = r
route_all key (c ∷ cs) r = route_all key cs (route key c r)

pub same_self : (key : Text) → text_key.same key key ≡ true
same_self key = (text_key.same_iff key key).1 refl

set_at_same : (id : ℕ) (v : Receiver) (heap : ℕ → Receiver) → set_at id v heap id ≡ v
set_at_same id v heap = rw (==_self id) refl

pub on_receiver_state :
    (id : ℕ) (f : Reassembler → Reassembler) (r : Router)
    → ((on_receiver id f r).heap id).state ≡ f (r.heap id).state
unfolding on_receiver
on_receiver_state id f r = ap (λ (v : Receiver). v.state) (set_at_same id _ r.heap)

pub on_receiver_hooks :
    (id : ℕ) (f : Reassembler → Reassembler) (r : Router)
    → ((on_receiver id f r).heap id).hooks ≡ (r.heap id).hooks
unfolding on_receiver
on_receiver_hooks id f r = ap (λ (v : Receiver). v.hooks) (set_at_same id _ r.heap)

replay_state :
    (id : ℕ) (cs : List OrphanChunk) (r : Router)
    → ((replay id cs r).heap id).state ≡ push_all cs (r.heap id).state
unfolding replay
replay_state id [] r = refl
replay_state id (c ∷ cs) r = replay_state id cs _ ∙ ap (push_all cs) (on_receiver_state id _ _)

register_state :
    (key : Text) (id : ℕ) (r : Router) → ((register key id r).heap id).state ≡ (r.heap id).state
register_state key id r = ap (λ (v : Receiver). v.state) (set_at_same id _ r.heap)

-- `expect` pushes the orphans of its key to the reassembler, in their order.
pub expect_state :
    (peer : Text) (id : ℕ) (r : Router)
    → ((expect peer id r).heap id).state
      ≡ push_all (orphans_of (key_of peer (r.heap id).stream_id) r.orphans) (r.heap id).state
unfolding expect
expect_state peer id r =
    let key = key_of peer (r.heap id).stream_id in
    elim (Option-cases (get? key r.orphans)) [
      | inl absent ↦ rw (absent, expect, orphans_of) (register_state key id r)
      | inr (list, found) ↦
          rw (found, expect, orphans_of)
            (replay_state id list _ ∙ ap (push_all list) (register_state key id r))
    ]

-- What a sweep leaves of a list that is not too old.
kept_of_when_fresh :
    (now : ℕ) (list : List OrphanChunk)
    → All (λ c. is_kept now c ≡ true) list
    → kept_of now list ≡ list
kept_of_when_fresh now [] h = refl
kept_of_when_fresh now (c ∷ list) (k, h) = rw k (ap (λ l. c ∷ l) (kept_of_when_fresh now list h))

orphans_of-cons :
    (key k : Text) (list : List OrphanChunk) (m : Orphans)
    → orphans_of key ((k, list) ∷ m) ≡ (if text_key.same k key then list else orphans_of key m)
orphans_of-cons key k list m = elim (Bool-cases (text_key.same k key)) [
  | inl same ↦ rw (same, orphans_of) refl
  | inr differ ↦ rw (differ, orphans_of) refl
]

orphans_of-with_list :
    (key k : Text) (list : List OrphanChunk) (m : Orphans)
    → text_key.same k key ≡ false
    → orphans_of key (with_list k list m) ≡ orphans_of key m
orphans_of-with_list key k [] m differ = refl
orphans_of-with_list key k (c ∷ list) m differ = rw (differ, orphans_of) refl

orphans_of-swept :
    (now : ℕ) (key : Text) (m : Orphans)
    → All (λ c. is_kept now c ≡ true) (orphans_of key m)
    → orphans_of key (swept now m) ≡ orphans_of key m
orphans_of-swept now key [] h = refl
orphans_of-swept now key ((k, list) ∷ m) h = elim (Bool-cases (text_key.same k key)) [
  | inl same ↦
      let here : orphans_of key ((k, list) ∷ m) ≡ list =
        orphans_of-cons key k list m ∙ rw same refl in
      let all : (length (kept_of now list) == length list) ≡ true =
        rw (kept_of_when_fresh now list (subst (All _) here h)) (==_self (length list)) in
      rw (all, same, orphans_of) refl
  | inr differ ↦
      let there : orphans_of key ((k, list) ∷ m) ≡ orphans_of key m =
        orphans_of-cons key k list m ∙ rw differ refl in
      let rest = orphans_of-swept now key m (subst (All _) there h) in
      elim (Bool-cases (length (kept_of now list) == length list)) [
        | inl all ↦ rw all (orphans_of-cons key k list (swept now m) ∙ rw differ (rest ∙ sym there))
        | inr some_stale ↦
            rw some_stale (
              orphans_of-with_list key k (kept_of now list) (swept now m) differ ∙ rest ∙ sym there)
      ]
]

orphans_of-put :
    (key : Text) (list : List OrphanChunk) (m : Orphans) → orphans_of key (put key list m) ≡ list
orphans_of-put key list m =
    let found : get? key (put key list m) ≡ some list =
      get?-put key key list m ∙ rw (same_self key) refl in
    rw (found, orphans_of) refl

without_stale-le :
    (now : ℕ) (list : List OrphanChunk) (bytes : ℕ) → without_stale now list bytes ≤ bytes
without_stale-le now [] bytes = omega arith
without_stale-le now (c ∷ list) bytes = elim (Bool-cases (is_kept now c)) [
  | inl kept ↦ rw kept (without_stale-le now list bytes)
  | inr stale ↦ rw stale (omega (arith, without_stale-le now list (bytes - length c.payload)))
]

swept_bytes-le : (now : ℕ) (m : Orphans) (bytes : ℕ) → swept_bytes now m bytes ≤ bytes
swept_bytes-le now [] bytes = omega arith
swept_bytes-le now ((key, list) ∷ m) bytes =
    elim (Bool-cases (length (kept_of now list) == length list)) [
      | inl all ↦ rw all (swept_bytes-le now m bytes)
      | inr some_stale ↦ rw some_stale (
          omega (
            arith,
            swept_bytes-le now m (without_stale now list bytes),
            without_stale-le now list bytes,
          ))
    ]

hold_heap : (key : Text) (c : OrphanChunk) (r : Router) → (hold key c r).heap ≡ r.heap
unfolding hold
hold_heap key c r =
    elim (Bool-cases (ltb orphan_max_total_payload (r.orphan_bytes + length c.payload))) [
      | inl full ↦ rw (full, hold) refl
      | inr fits ↦ rw (fits, hold) refl
    ]

hold_expected : (key : Text) (c : OrphanChunk) (r : Router) → (hold key c r).expected ≡ r.expected
unfolding hold
hold_expected key c r =
    elim (Bool-cases (ltb orphan_max_total_payload (r.orphan_bytes + length c.payload))) [
      | inl full ↦ rw (full, hold) refl
      | inr fits ↦ rw (fits, hold) refl
    ]

-- A chunk that fits joins the end of its list.
hold_fitting :
    (key : Text) (c : OrphanChunk) (r : Router)
    → r.orphan_bytes + length c.payload ≤ orphan_max_total_payload
    → (orphans_of key (hold key c r).orphans ≡ orphans_of key r.orphans ++ (c ∷ []))
      × ((hold key c r).orphan_bytes ≡ r.orphan_bytes + length c.payload)
unfolding hold
hold_fitting key c r fits =
    rw (le→ltb_false _ _ fits, hold)
      (orphans_of-put key (orphans_of key r.orphans ++ (c ∷ [])) r.orphans, refl)

pub route_unregistered :
    (key : Text) (c : OrphanChunk) (r : Router)
    → get? key r.expected ≡ none
    → route key c r ≡ buffer_orphan key c r
unfolding route
route_unregistered key c r e = rw (e, route) refl

pub buffer_orphan_fitting :
    (key : Text) (c : OrphanChunk) (r : Router)
    → All (λ p. is_kept c.arrived_at p ≡ true) (orphans_of key r.orphans)
    → r.orphan_bytes + length c.payload ≤ orphan_max_total_payload
    → (orphans_of key (buffer_orphan key c r).orphans ≡ orphans_of key r.orphans ++ (c ∷ []))
      × ((buffer_orphan key c r).orphan_bytes ≤ r.orphan_bytes + length c.payload)
unfolding buffer_orphan sweep_orphans
buffer_orphan_fitting key c r kept fits =
    let fewer = swept_bytes-le c.arrived_at r.orphans r.orphan_bytes in
    let held = hold_fitting key c (sweep_orphans c.arrived_at r) (omega (arith, fewer, fits)) in
    (
      held.0 ∙ ap (λ l. l ++ (c ∷ [])) (orphans_of-swept c.arrived_at key r.orphans kept),
      omega (arith, held.1, fewer),
    )

-- Whatever was buffered, the objects and the registrations are as they were.
pub route_all_unregistered :
    (key : Text) (cs : List OrphanChunk) (r : Router)
    → get? key r.expected ≡ none
    → ((route_all key cs r).heap ≡ r.heap) × (get? key (route_all key cs r).expected ≡ none)
unfolding buffer_orphan sweep_orphans
route_all_unregistered key [] r e = (refl, e)
route_all_unregistered key (c ∷ cs) r e =
    let routed = route_unregistered key c r e in
    let heap : (route key c r).heap ≡ r.heap =
      ap (λ (x : Router). x.heap) routed ∙ hold_heap key c _ in
    let expected : (route key c r).expected ≡ r.expected =
      ap (λ (x : Router). x.expected) routed ∙ hold_expected key c _ in
    let rest = route_all_unregistered key cs (route key c r) (ap (get? key) expected ∙ e) in
    (rest.0 ∙ heap, rest.1)

register_hooks :
    (key : Text) (id : ℕ) (r : Router)
    → ((register key id r).heap id).hooks ≡ key ∷ (r.heap id).hooks
register_hooks key id r = ap (λ (v : Receiver). v.hooks) (set_at_same id _ r.heap)

-- With no orphans to replay, `expect` only registers.
pub expect_registers :
    (peer : Text) (id : ℕ) (r : Router) (key : Text)
    → key_of peer (r.heap id).stream_id ≡ key
    → orphans_of key r.orphans ≡ []
    → (((expect peer id r).heap id).hooks ≡ key ∷ (r.heap id).hooks)
      × (get? key (expect peer id r).expected ≡ some id)
unfolding expect replay
expect_registers peer id r key same_key no_orphans = rw⁻¹ same_key (go (Option-cases _))
  where
    k : Text
    k = key_of peer (r.heap id).stream_id

    go :
        (get? k r.orphans ≡ none) ⊎ ((l : List OrphanChunk) × (get? k r.orphans ≡ some l))
        → (((expect peer id r).heap id).hooks ≡ k ∷ (r.heap id).hooks)
          × (get? k (expect peer id r).expected ≡ some id)
    go (inl absent) =
        rw (absent, expect)
          (register_hooks k id r, get?-put k k id r.expected ∙ rw (same_self k) refl)
    go (inr (l, found)) =
        let empty : l ≡ [] =
          sym (rw (found, orphans_of) refl)
          ∙ ap (λ x. orphans_of x r.orphans) same_key
          ∙ no_orphans in
        rw (found, empty, expect)
          (register_hooks k id r, get?-put k k id r.expected ∙ rw (same_self k) refl)
