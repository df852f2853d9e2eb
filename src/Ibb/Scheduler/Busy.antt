-- ===== src/Ibb/Scheduler/Busy.antt =====
-- No slot of the session is idle while a stream waits for one, and no stream is lost.
use xmpp_httpx.Prelude.{
  ℕ, ◌+◌, ◌==◌, ◌≤◌, ◌≡◌, refl, List, [], ◌∷◌, Bool, true, false, Bool-cases, inl, inr, ◌⊎◌, ltb,
  ltb_false→le, if◌then◌else◌, arith, Option-cases,
}
use xmpp_httpx.JsMap.{nat_key, get?, has, has-put}
use xmpp_httpx.Ibb.Scheduler.{
  Session, reclaim_parked, offer, grant_loop, grant_send_slots, acquire_send_slot,
  release_send_slot, end_send_slot, reclaim_fires, wants,
}

-- Nobody waits, or the budget is used up.
abbrev pub IsBusy : Session → Type 0
IsBusy s = (s.send_queue ≡ []) ⊎ (s.limit ≤ s.send_in_flight)

offer_queue : (id : ℕ) (s : Session) → (offer id s).send_queue ≡ s.send_queue
unfolding offer
offer_queue id s = elim (Option-cases (get? id s.streams)) [
  | inl e ↦ rw (e, offer) refl
  | inr (t, e) ↦ rw (e, offer) (ground arith)
]

grant_loop-IsBusy :
    (queue : List ℕ) (s : Session) → s.send_queue ≡ queue → IsBusy (grant_loop queue s)
unfolding grant_loop
grant_loop-IsBusy [] s e = inl e
grant_loop-IsBusy (id ∷ queue) s e = elim (Bool-cases (ltb s.send_in_flight s.limit)) [
  | inl free ↦
      rw free (grant_loop-IsBusy queue _ (offer_queue id (record s { send_queue = queue })))
  | inr full ↦ rw full (inr (ltb_false→le s.send_in_flight s.limit full))
]

pub grant_send_slots-IsBusy : (now : ℕ) (s : Session) → IsBusy (grant_send_slots now s)
unfolding grant_send_slots
grant_send_slots-IsBusy now s = grant_loop-IsBusy s.send_queue s refl

pub release_send_slot-IsBusy : (now : ℕ) (s : Session) → IsBusy (release_send_slot now s)
unfolding release_send_slot
release_send_slot-IsBusy now s = grant_send_slots-IsBusy now _

pub end_send_slot-IsBusy :
    (now slot : ℕ) (acked : Bool) (s : Session) → IsBusy s → IsBusy (end_send_slot now slot acked s)
unfolding end_send_slot
end_send_slot-IsBusy now slot acked s h = elim (Option-cases (get? slot s.counted)) [
  | inl e ↦ rw (e, end_send_slot) h
  | inr (at, e) ↦ rw (e, end_send_slot) (release_send_slot-IsBusy now _)
]

pub reclaim_fires-IsBusy : (now : ℕ) (s : Session) → IsBusy (reclaim_fires now s)
unfolding reclaim_fires
reclaim_fires-IsBusy now s = grant_send_slots-IsBusy now _

pub acquire_send_slot-IsBusy : (now id : ℕ) (s : Session) → IsBusy (acquire_send_slot now id s).1
unfolding acquire_send_slot
acquire_send_slot-IsBusy now id s = elim (Bool-cases (ltb g.send_in_flight g.limit)) [
  | inl free ↦ rw free (one_more (grant_send_slots-IsBusy now (reclaim_parked now s)))
  | inr full ↦ rw full (inr (ltb_false→le g.send_in_flight g.limit full))
]
  where
    g : Session
    g = grant_send_slots now (reclaim_parked now s)

    one_more : IsBusy g → IsBusy (record g { send_in_flight = g.send_in_flight + 1 })
    one_more (inl e) = inl e
    one_more (inr le) = inr (omega (arith, le))

offer-has : (j id : ℕ) (s : Session) → has j s.streams ≡ true → has j (offer id s).streams ≡ true
unfolding offer
offer-has j id s there = elim (Option-cases (get? id s.streams)) [
  | inl e ↦ rw (e, offer) there
  | inr (t, e) ↦
      rw (e, offer)
        (elim (Bool-cases (wants t)) [
          | inl wanted ↦ rw (wanted, has-put, there) (either (id == j))
          | inr unwanted ↦ rw unwanted there
        ])
]
  where
    either : (b : Bool) → (if b then true else true) ≡ true
    either true = refl
    either false = refl

grant_loop-has :
    (j : ℕ) (queue : List ℕ) (s : Session)
    → has j s.streams ≡ true
    → has j (grant_loop queue s).streams ≡ true
unfolding grant_loop
grant_loop-has j [] s there = there
grant_loop-has j (id ∷ queue) s there = elim (Bool-cases (ltb s.send_in_flight s.limit)) [
  | inl free ↦
      rw free (grant_loop-has j queue _ (offer-has j id (record s { send_queue = queue }) there))
  | inr full ↦ rw full there
]

reclaim_parked_streams : (now : ℕ) (s : Session) → (reclaim_parked now s).streams ≡ s.streams
unfolding reclaim_parked
reclaim_parked_streams now s = elim (Option-cases s.ack_latency) [
  | inl e ↦ rw (e, reclaim_parked) refl
  | inr (latency, e) ↦ rw (e, reclaim_parked) refl
]

pub acquire_send_slot-has :
    (j now id : ℕ) (s : Session)
    → has j s.streams ≡ true
    → has j (acquire_send_slot now id s).1.streams ≡ true
unfolding acquire_send_slot grant_send_slots
acquire_send_slot-has j now id s there = elim (Bool-cases (ltb g.send_in_flight g.limit)) [
  | inl free ↦ rw free kept
  | inr full ↦ rw full kept
]
  where
    g : Session
    g = grant_send_slots now (reclaim_parked now s)

    kept : has j g.streams ≡ true
    kept = grant_loop-has j _ (reclaim_parked now s) (rw reclaim_parked_streams there)
