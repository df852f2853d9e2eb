-- ===== src/Chunked/Router/Accounting.antt =====
-- The orphan buffer of a router: its count, its limit and its life.
use xmpp_httpx.Prelude.{
  ℕ, ◌+◌, ◌-◌, ◌≤◌, ◌≡◌, ◌≢◌, refl, sym, subst, ap, ◌∙◌, List, [], ◌∷◌, ◌++◌, Option, Option-cases,
  Bool, true, false, ◌||◌, Bool-cases, inl, inr, ltb, leb, ltb_false→le, if◌then◌else◌, arith,
  length,
}
use xmpp_httpx.JsMap.{
  text_key, get?, delete, weigh, DistinctKeys, DistinctKeys-put_any, weigh-delete,
  DistinctKeys-delete,
}
use xmpp_httpx.Base64.{Text}
use xmpp_httpx.Chunked.Reassembler.{Reassembler}
use xmpp_httpx.Chunked.Router.{
  OrphanChunk, Router, Receiver, new, on_receiver, acquire, abort_loop, close, release, replay,
  register, expect, key_of, swept, swept_bytes, sweep_orphans, orphans_of, hold, buffer_orphan,
  route, Stanza, other, chunk_message, handle_stanza, Event, acquired, released, expected_from,
  stanza_at, timer_fired, cancelled, aborted_by, falsy, handle_event, orphan_max_total_payload,
}
use xmpp_httpx.Chunked.Router.Orphans.{
  payload_bytes, payload_bytes-append, swept_bytes_lem, weigh-swept-le, DistinctKeys-swept,
  weigh-put_orphans,
}

-- The orphans are counted exactly, there are no more than the limit, and a router that nobody
-- holds neither listens nor keeps any.
pub record IsValid (r : Router) : Type 0 where
  pub accounted : r.orphan_bytes ≡ weigh payload_bytes r.orphans
  pub distinct : DistinctKeys r.orphans
  pub bounded : r.orphan_bytes ≤ orphan_max_total_payload
  pub listens : r.listening ≡ ltb 0 r.refs
  pub idle : r.refs ≡ 0 → r.orphans ≡ []

pub new-IsValid : (heap : ℕ → Receiver) → IsValid (new heap)
new-IsValid heap = record {
  accounted = refl;
  distinct = tt;
  bounded = omega arith;
  listens = refl;
  idle = λ _. refl;
}

-- What a call on a reassembler leaves.
on_receiver-IsValid :
    (id : ℕ) (f : Reassembler → Reassembler) (r : Router) → IsValid r → IsValid (on_receiver id f r)
unfolding on_receiver
on_receiver-IsValid id f r v = record {
  accounted = v.accounted;
  distinct = v.distinct;
  bounded = v.bounded;
  listens = v.listens;
  idle = v.idle;
}

acquire-IsValid : (r : Router) → IsValid r → IsValid (acquire r)
unfolding acquire
acquire-IsValid r v = record {
  accounted = v.accounted;
  distinct = v.distinct;
  bounded = v.bounded;
  listens = ground (arith, v.listens);
  idle = λ none_left. absurd (omega (arith, none_left));
}

abort_loop-refs : (entries : List (Text × ℕ)) (r : Router) → (abort_loop entries r).refs ≡ r.refs
unfolding abort_loop on_receiver
abort_loop-refs [] r = refl
abort_loop-refs ((key, id) ∷ more) r = elim (Option-cases (get? key r.expected)) [
  | inl e ↦ rw (e, abort_loop) (abort_loop-refs more r)
  | inr (now, e) ↦ rw (e, abort_loop) (abort_loop-refs more _)
]

abort_loop-listening :
    (entries : List (Text × ℕ)) (r : Router) → (abort_loop entries r).listening ≡ r.listening
unfolding abort_loop on_receiver
abort_loop-listening [] r = refl
abort_loop-listening ((key, id) ∷ more) r = elim (Option-cases (get? key r.expected)) [
  | inl e ↦ rw (e, abort_loop) (abort_loop-listening more r)
  | inr (now, e) ↦ rw (e, abort_loop) (abort_loop-listening more _)
]

unheld : (n : ℕ) → leb n 1 ≡ true → false ≡ ltb 0 (n - 1)
unheld n h = ground (arith, h)

still_held : (n : ℕ) → leb n 1 ≡ false → ltb 0 n ≡ ltb 0 (n - 1)
still_held n h = ground (arith, h)

close-IsValid : (r : Router) → r.listening ≡ ltb 0 r.refs → IsValid (close r)
unfolding close
close-IsValid r h = record {
  accounted = refl;
  distinct = tt;
  bounded = omega arith;
  listens = abort_loop-listening r.expected r ∙ h ∙ sym (ap (ltb 0) (abort_loop-refs r.expected r));
  idle = λ _. refl;
}

release-IsValid : (r : Router) → IsValid r → IsValid (release r)
unfolding release
release-IsValid r v = elim (Bool-cases (leb r.refs 1)) [
  | inl final ↦
      rw final
        (close-IsValid (record r { refs = r.refs - 1; listening = false }) (unheld r.refs final))
  | inr shared ↦ rw shared (record {
    accounted = v.accounted;
    distinct = v.distinct;
    bounded = v.bounded;
    listens = v.listens ∙ still_held r.refs shared;
    idle = λ none_left. absurd (ground (arith, none_left, shared));
  })
]

-- Replaying takes the bytes of the replayed chunks off the count and touches no other orphan.
replay-orphans :
    (id : ℕ) (list : List OrphanChunk) (r : Router) → (replay id list r).orphans ≡ r.orphans
unfolding replay on_receiver
replay-orphans id [] r = refl
replay-orphans id (c ∷ list) r = replay-orphans id list _

replay-orphan_bytes :
    (id : ℕ) (list : List OrphanChunk) (r : Router)
    → (replay id list r).orphan_bytes ≡ r.orphan_bytes - payload_bytes list
unfolding replay on_receiver
replay-orphan_bytes id [] r = omega arith
replay-orphan_bytes id (c ∷ list) r = replay-orphan_bytes id list _ ∙ omega arith

replay-refs : (id : ℕ) (list : List OrphanChunk) (r : Router) → (replay id list r).refs ≡ r.refs
unfolding replay on_receiver
replay-refs id [] r = refl
replay-refs id (c ∷ list) r = replay-refs id list _

replay-listening :
    (id : ℕ) (list : List OrphanChunk) (r : Router) → (replay id list r).listening ≡ r.listening
unfolding replay on_receiver
replay-listening id [] r = refl
replay-listening id (c ∷ list) r = replay-listening id list _

expect-IsValid : (peer : Text) (id : ℕ) (r : Router) → IsValid r → IsValid (expect peer id r)
unfolding expect
expect-IsValid peer id r v =
    let key = key_of peer (r.heap id).stream_id in
    elim (Option-cases (get? key r.orphans)) [
      | inl absent ↦
          rw (absent, expect)
            (record {
              accounted = v.accounted;
              distinct = v.distinct;
              bounded = v.bounded;
              listens = v.listens;
              idle = v.idle;
            })
      | inr (list, found) ↦
          let left = weigh-delete payload_bytes key {v = list} r.orphans v.distinct found in
          let taken = record (register key id r) { orphans = delete key r.orphans } in
          let bytes = replay-orphan_bytes id list taken in
          rw (found, expect)
            (record {
              accounted =
                  bytes
                  ∙ omega (arith, left, v.accounted)
                  ∙ sym (ap (weigh payload_bytes) (replay-orphans id list taken));
              distinct =
                  subst DistinctKeys (sym (replay-orphans id list taken))
                    (DistinctKeys-delete key r.orphans v.distinct);
              bounded = omega (arith, bytes, v.bounded);
              listens =
                  replay-listening id list taken
                  ∙ v.listens
                  ∙ sym (ap (ltb 0) (replay-refs id list taken));
              idle = λ none_left.
                  replay-orphans id list taken
                  ∙ ap (delete key) (v.idle (sym (replay-refs id list taken) ∙ none_left));
            })
    ]

sweep_orphans-IsValid : (now : ℕ) (r : Router) → IsValid r → IsValid (sweep_orphans now r)
unfolding sweep_orphans
sweep_orphans-IsValid now r v =
    let bytes : swept_bytes now r.orphans r.orphan_bytes
        ≡ weigh payload_bytes (swept now r.orphans) =
      ap (swept_bytes now r.orphans) (v.accounted ∙ omega arith)
      ∙ swept_bytes_lem now r.orphans 0
      ∙ omega arith in
    record {
      accounted = bytes;
      distinct = DistinctKeys-swept now r.orphans v.distinct;
      bounded = omega (arith, bytes, v.bounded, v.accounted, weigh-swept-le now r.orphans);
      listens = v.listens;
      idle = λ none_left. ap (swept now) (v.idle none_left);
    }

hold-IsValid :
    (key : Text) (c : OrphanChunk) (r : Router) → IsValid r → r.refs ≢ 0 → IsValid (hold key c r)
unfolding hold
hold-IsValid key c r v used =
    elim (Bool-cases (ltb orphan_max_total_payload (r.orphan_bytes + length c.payload))) [
      | inl full ↦ rw full v
      | inr fits ↦ rw fits (record {
        accounted =
            ap (λ n. n + length c.payload) v.accounted
            ∙ sym (
                weigh-put_orphans key (orphans_of key r.orphans ++ (c ∷ [])) (length c.payload)
                  r.orphans (payload_bytes-append (orphans_of key r.orphans) c));
        distinct =
            DistinctKeys-put_any key (orphans_of key r.orphans ++ (c ∷ [])) r.orphans v.distinct;
        bounded = ltb_false→le _ _ fits;
        listens = v.listens;
        idle = λ none_left. absurd (used none_left);
      })
    ]

route-IsValid :
    (key : Text) (c : OrphanChunk) (r : Router) → IsValid r → r.refs ≢ 0 → IsValid (route key c r)
unfolding route buffer_orphan sweep_orphans
route-IsValid key c r v used = elim (Option-cases (get? key r.expected)) [
  | inl e ↦ rw (e, route) (hold-IsValid key c _ (sweep_orphans-IsValid c.arrived_at r v) used)
  | inr (id, e) ↦ rw (e, route) (on_receiver-IsValid id _ r v)
]

handle_stanza-IsValid :
    (integer : Option Text → Option ℕ) (now : ℕ) (stanza : Stanza) (r : Router)
    → IsValid r
    → r.refs ≢ 0
    → IsValid (handle_stanza integer now stanza r)
unfolding handle_stanza
handle_stanza-IsValid integer now other r v used = v
handle_stanza-IsValid integer now (chunk_message from stream_id nr last payload) r v used =
    elim (Bool-cases (falsy from || falsy stream_id)) [
      | inl missing ↦ rw missing v
      | inr present ↦ elim (Option-cases (integer nr)) [
        | inl e ↦ rw (present, e) v
        | inr (n, e) ↦ rw (present, e) (route-IsValid _ _ r v used)
      ]
    ]

unused : (n : ℕ) (b : Bool) → b ≡ ltb 0 n → b ≡ true → n ≢ 0
unused n b h t = ground (arith, h, t)

if-IsValid :
    (b : Bool) (x y : Router) → (b ≡ true → IsValid x) → IsValid y → IsValid (if b then x else y)
if-IsValid true x y v w = v refl
if-IsValid false x y v w = w

-- Every event keeps the router's invariant: the orphans are counted exactly and are within 512 KiB,
-- no key has two lists, the stanza handler is attached exactly while somebody holds the router, and
-- a router that nobody holds keeps no orphans.
pub handle_event-IsValid :
    (integer : Option Text → Option ℕ) (r : Router) (event : Event)
    → IsValid r
    → IsValid (handle_event integer r event)
unfolding handle_event
handle_event-IsValid integer r acquired v = acquire-IsValid r v
handle_event-IsValid integer r released v = release-IsValid r v
handle_event-IsValid integer r (expected_from peer id) v = expect-IsValid peer id r v
handle_event-IsValid integer r (stanza_at now stanza) v =
    if-IsValid r.listening (handle_stanza integer now stanza r) r
      (λ on. handle_stanza-IsValid integer now stanza r v (unused r.refs r.listening v.listens on))
      v
handle_event-IsValid integer r (timer_fired id) v = on_receiver-IsValid id _ r v
handle_event-IsValid integer r (cancelled id) v = on_receiver-IsValid id _ r v
handle_event-IsValid integer r (aborted_by id) v = on_receiver-IsValid id _ r v
