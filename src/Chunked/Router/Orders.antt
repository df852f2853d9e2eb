-- ===== src/Chunked/Router/Orders.antt =====
-- A chunk that comes before the call of `expect` for its stream, and one that comes after.
use xmpp_httpx.Prelude.{
  ℕ, ◌+◌, ◌≤◌, ◌≡◌, refl, sym, subst, ap, ◌∙◌, List, [], ◌∷◌, ◌++◌, append-nil, append_assoc, none,
  some, Bool, true, ◌&&◌, not, Bool-cases, inl, inr, ◌⊎◌, if◌then◌else◌, arith, length, All,
  All-append,
}
use xmpp_httpx.JsMap.{text_key, get?, get?-delete}
use xmpp_httpx.Base64.{Text}
use xmpp_httpx.Chunked.Reassembler.{Reassembler}
use xmpp_httpx.Chunked.Reassembler as Reassembler
use xmpp_httpx.Chunked.Router.{
  OrphanChunk, Router, on_receiver, delete_all, expect, key_of, is_kept, orphans_of, route,
  orphan_max_total_payload, orphan_ttl_ms,
}
use xmpp_httpx.Chunked.Router.Orphans.{payload_bytes}
use xmpp_httpx.Chunked.Router.Replay.{
  push_all, route_all, same_self, on_receiver_state, on_receiver_hooks, expect_state,
  buffer_orphan_fitting, route_unregistered, route_all_unregistered, expect_registers,
}

-- A chunk that arrives within the ten seconds from `start` on.
abbrev pub IsWithin : ℕ → OrphanChunk → Type 0
IsWithin start c = (start ≤ c.arrived_at) × (c.arrived_at ≤ start + orphan_ttl_ms)

kept-IsWithin :
    (start : ℕ) (c : OrphanChunk) (list : List OrphanChunk)
    → IsWithin start c
    → All (IsWithin start) list
    → All (λ p. is_kept c.arrived_at p ≡ true) list
kept-IsWithin start c [] w h = tt
kept-IsWithin start c (p ∷ list) w (h, hs) =
    (ground (arith, w.1, h.0), kept-IsWithin start c list w hs)

-- The orphans of a stream that nobody expects yet are its chunks in their order.
pub route_all_early :
    (start : ℕ) (key : Text) (cs : List OrphanChunk) (r : Router)
    → get? key r.expected ≡ none
    → All (IsWithin start) cs
    → All (IsWithin start) (orphans_of key r.orphans)
    → r.orphan_bytes + payload_bytes cs ≤ orphan_max_total_payload
    → orphans_of key (route_all key cs r).orphans ≡ orphans_of key r.orphans ++ cs
route_all_early start key [] r e w before fits = sym (append-nil (orphans_of key r.orphans))
route_all_early start key (c ∷ cs) r e (w, ws) before fits =
    let routed = route_unregistered key c r e in
    let held =
      buffer_orphan_fitting key c r (kept-IsWithin start c (orphans_of key r.orphans) w before)
        (omega (arith, fits)) in
    let list : orphans_of key (route key c r).orphans ≡ orphans_of key r.orphans ++ (c ∷ []) =
      ap (λ (x : Router). orphans_of key x.orphans) routed ∙ held.0 in
    let bytes : (route key c r).orphan_bytes ≤ r.orphan_bytes + length c.payload =
      subst (λ (x : Router). x.orphan_bytes ≤ r.orphan_bytes + length c.payload) (sym routed)
        held.1 in
    let unregistered = route_all_unregistered key (c ∷ []) r e in
    route_all_early start key cs (route key c r) unregistered.1 ws
      (subst (All (IsWithin start)) (sym list)
        (All-append (IsWithin start) (orphans_of key r.orphans) (c ∷ []) before (w, tt)))
      (omega (arith, bytes, fits))
    ∙ ap (λ l. l ++ cs) list
    ∙ append_assoc (orphans_of key r.orphans) (c ∷ []) cs

-- A stream that is expected: its key leads to the reassembler, whose `onFinished` deletes it, or
-- the reassembler is finished.
pub record IsRouted (key : Text) (id : ℕ) (r : Router) : Type 0 where
  pub earlier : List Text
  pub hooked : (r.heap id).hooks ≡ key ∷ earlier
  pub led :
      (get? key r.expected ≡ some id)
      ⊎ ((get? key r.expected ≡ none) × ((r.heap id).state.finished ≡ true))

push_finished :
    (c : OrphanChunk) (s : Reassembler)
    → s.finished ≡ true
    → Reassembler.push c.nr c.last c.payload s ≡ s
unfolding Reassembler.push
push_finished c s h =
    ap
      (λ b.
        if b
        then s
        else Reassembler.push_alive c.nr c.last c.payload (Reassembler.reset_idle_timer s))
      h

both_left : (a b : Bool) → (a && b) ≡ true → a ≡ true
both_left a b h = ground (arith, h)

led_after :
    (key : Text) (id : ℕ) (f : Reassembler → Reassembler) (r : Router)
    → (v : IsRouted key id r) → get? key r.expected ≡ some id
    → (get? key (on_receiver id f r).expected ≡ some id)
      ⊎ ((get? key (on_receiver id f r).expected ≡ none) × ((f (r.heap id).state).finished ≡ true))
unfolding on_receiver
led_after key id f r v e =
    elim (Bool-cases ((f (r.heap id).state).finished && not (r.heap id).state.finished)) [
      | inl ends ↦ inr (
        rw (ends, v.hooked)
            (get?-delete key key (delete_all v.earlier r.expected) ∙ rw (same_self key) refl),
        both_left _ _ ends,
      )
      | inr goes_on ↦ inl (rw goes_on e)
    ]

on_receiver-IsRouted :
    (key : Text) (id : ℕ) (f : Reassembler → Reassembler) (r : Router)
    → IsRouted key id r
    → get? key r.expected ≡ some id
    → IsRouted key id (on_receiver id f r)
on_receiver-IsRouted key id f r v e = record {
  earlier = v.earlier;
  hooked = on_receiver_hooks id f r ∙ v.hooked;
  led = elim (led_after key id f r v e) [
    | inl still ↦ inl still
    | inr (gone, ended) ↦
        inr (gone, ap (λ (s : Reassembler). s.finished) (on_receiver_state id f r) ∙ ended)
  ];
}

-- A chunk of an expected stream goes to its reassembler, or is lost on a finished one.
route-IsRouted :
    (key : Text) (id : ℕ) (c : OrphanChunk) (r : Router)
    → IsRouted key id r
    → IsRouted key id (route key c r)
      × (((route key c r).heap id).state ≡ Reassembler.push c.nr c.last c.payload (r.heap id).state)
unfolding route
route-IsRouted key id c r v = elim v.led [
  | inl e ↦
      rw (e, route)
        (
          on_receiver-IsRouted key id (Reassembler.push c.nr c.last c.payload) r v e,
          on_receiver_state id (Reassembler.push c.nr c.last c.payload) r,
        )
  | inr (e, ended) ↦
      let heap : (route key c r).heap ≡ r.heap = (route_all_unregistered key (c ∷ []) r e).0 in
      let state = ap (λ h. (h id).state) heap in
      (
        record {
          earlier = v.earlier;
          hooked = ap (λ h. (h id).hooks) heap ∙ v.hooked;
          led = inr (
            (route_all_unregistered key (c ∷ []) r e).1,
            ap (λ (s : Reassembler). s.finished) state ∙ ended,
          );
        },
        state ∙ sym (push_finished c (r.heap id).state ended),
      )
]

pub route_all_late :
    (key : Text) (id : ℕ) (cs : List OrphanChunk) (r : Router)
    → IsRouted key id r
    → ((route_all key cs r).heap id).state ≡ push_all cs (r.heap id).state
route_all_late key id [] r v = refl
route_all_late key id (c ∷ cs) r v =
    let next = route-IsRouted key id c r v in
    route_all_late key id cs (route key c r) next.0 ∙ ap (push_all cs) next.1

-- The chunks of a stream that nobody expected yet, all within ten seconds and within the room that
-- the orphan buffer has left, bring its reassembler to the same state whether they come before the
-- call of `expect` for it or after.
pub expect-route_all :
    (start : ℕ) (peer : Text) (id : ℕ) (cs : List OrphanChunk) (r : Router) (key : Text)
    → key_of peer (r.heap id).stream_id ≡ key
    → get? key r.expected ≡ none
    → orphans_of key r.orphans ≡ []
    → All (IsWithin start) cs
    → r.orphan_bytes + payload_bytes cs ≤ orphan_max_total_payload
    → ((expect peer id (route_all key cs r)).heap id).state
      ≡ ((route_all key cs (expect peer id r)).heap id).state
expect-route_all start peer id cs r key same_key absent none_held within fits =
    let early = route_all_unregistered key cs r absent in
    let key_after : key_of peer ((route_all key cs r).heap id).stream_id ≡ key =
      ap (λ h. key_of peer (h id).stream_id) early.0 ∙ same_key in
    let buffered : orphans_of key (route_all key cs r).orphans ≡ cs =
      route_all_early start key cs r absent within (subst (All (IsWithin start)) (sym none_held) tt)
        fits
      ∙ ap (λ l. l ++ cs) none_held in
    let registered = expect_registers peer id r key same_key none_held in
    let no_replay : ((expect peer id r).heap id).state ≡ (r.heap id).state =
      expect_state peer id r
      ∙ ap (λ l. push_all l (r.heap id).state)
          (ap (λ k. orphans_of k r.orphans) same_key ∙ none_held) in
    expect_state peer id (route_all key cs r)
    ∙ ap
        (λ k.
          push_all (orphans_of k (route_all key cs r).orphans) ((route_all key cs r).heap id).state)
        key_after
    ∙ ap (λ l. push_all l ((route_all key cs r).heap id).state) buffered
    ∙ ap (λ h. push_all cs (h id).state) early.0
    ∙ sym (ap (push_all cs) no_replay)
    ∙ sym (
        route_all_late key id cs (expect peer id r)
          (record { earlier = (r.heap id).hooks; hooked = registered.0; led = inl registered.1 }))
