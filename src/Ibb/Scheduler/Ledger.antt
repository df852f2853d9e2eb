-- ===== src/Ibb/Scheduler/Ledger.antt =====
-- What the session's scheduler owes: the budget in use is the blocks in flight that still count,
-- and the slots that are granted and not yet taken.
use xmpp_httpx.Prelude.{
  ℕ, suc, ◌+◌, ◌-◌, ◌≤◌, ◌<◌, ◌≡◌, refl, List, [], ◌∷◌, ◌++◌, none, some, Option-cases, Bool, true,
  false, Bool-cases, inl, inr, ltb, ◌==◌, ltb→lt, if◌then◌else◌, arith, length,
}
use xmpp_httpx.JsMap.{nat_key, get?, has, put, weigh, DistinctKeys, DistinctKeys-delete, has-delete}
use xmpp_httpx.JsMap.Entries.{Each, Each-put, weigh-put_present, length-delete_present}
use xmpp_httpx.Ibb.Scheduler.{
  Sender, Session, Latency, wants, is_parked, reclaim_loop, reclaim_parked, arm_reclaim, offer,
  grant_loop, grant_send_slots, includes, acquire_send_slot, release_send_slot, end_send_slot,
  reclaim_fires,
}

abbrev pub grants : List (ℕ × Sender) → ℕ
grants streams = weigh (λ t. t.granted) streams

-- No slot from `next` on is counted.
abbrev pub Unused : ℕ → List (ℕ × ℕ) → Type 0
Unused next counted = (k : ℕ) → next ≤ k → has k counted ≡ false

abbrev pub Reclaimed : ℕ → ℕ → ℕ → List (ℕ × ℕ) × ℕ → Type 0
Reclaimed other limit next (counted, in_use) =
    (in_use ≡ other + length counted)
    × (in_use ≤ limit)
    × DistinctKeys counted
    × Unused next counted

-- The loop of `#reclaimParked` takes as much from the budget as from the slots.
pub reclaim_loop_lem :
    (floor now : ℕ) (latency : Latency) (counted : List (ℕ × ℕ)) (in_use other next limit : ℕ)
    → in_use ≡ other + length counted
    → in_use ≤ limit
    → DistinctKeys counted
    → Unused next counted
    → Reclaimed other limit next (reclaim_loop floor now latency counted in_use)
unfolding reclaim_loop
reclaim_loop_lem floor now latency [] in_use other next limit h le d u = (h, le, d, u)
reclaim_loop_lem floor now latency ((slot, at) ∷ counted) in_use other next limit h le d u =
    elim (Bool-cases (is_parked floor now latency at)) [
      | inl parked ↦ rw parked (
          reclaim_loop_lem floor now latency counted (in_use - 1) other next limit
            (omega (arith, h)) (omega (arith, le)) d.1 (λ k le. unused_tail k (u k le)))
      | inr young ↦ rw young (h, le, d, u)
    ]
  where
    unused_tail : (k : ℕ) → has k ((slot, at) ∷ counted) ≡ false → has k counted ≡ false
    unused_tail k e = elim (Bool-cases (slot == k)) [
      | inl same ↦ absurd (ground (arith, rw same at e))
      | inr other ↦ rw other at e
    ]

-- The sums, and what holds of every stream.
pub record IsLedger {ℓ} (P : ℕ → Sender → Type ℓ) (pending limit in_use : ℕ)
    (counted : List (ℕ × ℕ)) (next : ℕ) (streams : List (ℕ × Sender)) : Type ℓ where
  pub sums : in_use ≡ pending + length counted + grants streams
  pub bounded : in_use ≤ limit
  pub distinct : DistinctKeys counted
  pub unused : Unused next counted
  pub each : Each P streams

abbrev pub Ledger {ℓ} : (P : ℕ → Sender → Type ℓ) → ℕ → Session → Type ℓ
Ledger P pending s = IsLedger P pending s.limit s.send_in_flight s.counted s.next_slot s.streams

-- A stream is replaced, with as many slots of the budget more as it has grants more.
pub put-IsLedger {ℓ} :
    (P : ℕ → Sender → Type ℓ) (pending after limit in_use next : ℕ) (counted : List (ℕ × ℕ))
    (streams : List (ℕ × Sender)) (id : ℕ) (t u : Sender) (left : ℕ)
    → IsLedger P pending limit in_use counted next streams
    → get? id streams ≡ some t
    → P id u
    → left + t.granted + pending ≡ in_use + u.granted + after
    → left ≤ limit
    → IsLedger P after limit left counted next (put id u streams)
put-IsLedger P pending after limit in_use next counted streams id t u left v e p eq le = record {
  sums = omega (arith, v.sums, eq, weigh-put_present (λ (x : Sender). x.granted) id u t streams e);
  bounded = le;
  distinct = v.distinct;
  unused = v.unused;
  each = Each-put P id u streams v.each p;
}

module _ {ℓ} (P : ℕ → Sender → Type ℓ)
    (stable : (id g : ℕ) (t : Sender) → P id t → P id (record t { granted = g })) where
  pub offer-Ledger :
      (pending id : ℕ) (s : Session)
      → Ledger P pending s
      → s.send_in_flight < s.limit
      → Ledger P pending (offer id s)
  unfolding offer
  offer-Ledger pending id s v free = elim (Option-cases (get? id s.streams)) [
    | inl e ↦ rw (e, offer) v
    | inr (t, e) ↦ rw (e, offer) (either (wants t) t e)
  ]
    where
      either :
          (b : Bool) (t : Sender)
          → get? id s.streams ≡ some t
          → Ledger P pending (
              if b
              then record s {
                send_in_flight = s.send_in_flight + 1;
                streams = put id (record t { granted = t.granted + 1 }) s.streams;
              }
              else s)
      either true t e =
          put-IsLedger P pending pending s.limit s.send_in_flight s.next_slot s.counted s.streams id
            t _ (s.send_in_flight + 1) v e (stable id _ t (v.each id t e)) (omega arith)
            (omega (arith, free))
      either false t e = v

  pub grant_loop-Ledger :
      (pending : ℕ) (queue : List ℕ) (s : Session)
      → Ledger P pending s
      → Ledger P pending (grant_loop queue s)
  unfolding grant_loop
  grant_loop-Ledger pending [] s v = v
  grant_loop-Ledger pending (id ∷ queue) s v = elim (Bool-cases (ltb s.send_in_flight s.limit)) [
    | inl free ↦ rw free (
        grant_loop-Ledger pending queue _ (
          offer-Ledger pending id (record s { send_queue = queue }) v
            (ltb→lt s.send_in_flight s.limit free)))
    | inr full ↦ rw full v
  ]

  pub reclaim_parked-Ledger :
      (pending now : ℕ) (s : Session) → Ledger P pending s → Ledger P pending (reclaim_parked now s)
  unfolding reclaim_parked
  reclaim_parked-Ledger pending now s v = elim (Option-cases s.ack_latency) [
    | inl e ↦ rw (e, reclaim_parked) v
    | inr (latency, e) ↦
        rw (e, reclaim_parked)
          (record {
            sums = omega (arith, (swept latency).0);
            bounded = (swept latency).1;
            distinct = (swept latency).2;
            unused = (swept latency).3;
            each = v.each;
          })
  ]
    where
      swept :
          (latency : Latency)
          → Reclaimed
              (pending + grants s.streams)
              s.limit
              s.next_slot
              (reclaim_loop s.park_floor_ms now latency s.counted s.send_in_flight)
      swept latency =
          reclaim_loop_lem s.park_floor_ms now latency s.counted s.send_in_flight
            (pending + grants s.streams) s.next_slot s.limit (omega (arith, v.sums)) v.bounded
            v.distinct v.unused

  pub grant_send_slots-Ledger :
      (pending now : ℕ) (s : Session)
      → Ledger P pending s
      → Ledger P pending (grant_send_slots now s)
  unfolding grant_send_slots
  grant_send_slots-Ledger pending now s v = grant_loop-Ledger pending s.send_queue s v

  -- A slot is pending when it was acquired.
  abbrev pub Acquired : ℕ → Bool × Session → Type ℓ
  Acquired pending (true, s) = Ledger P (suc pending) s
  Acquired pending (false, s) = Ledger P pending s

  pub acquire_send_slot-Acquired :
      (pending now id : ℕ) (s : Session)
      → Ledger P pending s
      → Acquired pending (acquire_send_slot now id s)
  unfolding acquire_send_slot
  acquire_send_slot-Acquired pending now id s v =
      either (granted now s)
        (grant_send_slots-Ledger pending now _ (reclaim_parked-Ledger pending now s v))
    where
      granted : ℕ → Session → Session
      granted now s = grant_send_slots now (reclaim_parked now s)

      either :
          (g : Session)
          → Ledger P pending g
          → Acquired pending (
              if ltb g.send_in_flight g.limit
              then (true, record g { send_in_flight = g.send_in_flight + 1 })
              else (
                false,
                arm_reclaim now (record g {
                  send_queue =
                      if includes id g.send_queue then g.send_queue else g.send_queue ++ (id ∷ []);
                }),
              ))
      either g w = elim (Bool-cases (ltb g.send_in_flight g.limit)) [
        | inl free ↦ rw free (record {
          sums = omega (arith, w.sums);
          bounded = omega (arith, ltb→lt g.send_in_flight g.limit free);
          distinct = w.distinct;
          unused = w.unused;
          each = w.each;
        })
        | inr full ↦ rw full w
      ]

  -- A slot is given back that is pending, or whose grant or block is gone.
  pub release_send_slot-Ledger :
      (pending now : ℕ) (s : Session)
      → Ledger P pending (record s { send_in_flight = s.send_in_flight - 1 })
      → Ledger P pending (release_send_slot now s)
  unfolding release_send_slot
  release_send_slot-Ledger pending now s v = grant_send_slots-Ledger pending now _ v

  pub end_send_slot-Ledger :
      (now slot : ℕ) (acked : Bool) (s : Session)
      → Ledger P 0 s
      → Ledger P 0 (end_send_slot now slot acked s)
  unfolding end_send_slot
  end_send_slot-Ledger now slot acked s v = elim (Option-cases (get? slot s.counted)) [
    | inl e ↦ rw (e, end_send_slot) v
    | inr (at, e) ↦
        rw (e, end_send_slot)
          (release_send_slot-Ledger 0 now _ (record {
            sums = omega (arith, v.sums, length-delete_present slot s.counted v.distinct e);
            bounded = omega (arith, v.bounded);
            distinct = DistinctKeys-delete slot s.counted v.distinct;
            unused = λ k le. rw (has-delete slot k s.counted, v.unused k le) (either (slot == k));
            each = v.each;
          }))
  ]
    where
      either : (b : Bool) → (if b then false else false) ≡ false
      either true = refl
      either false = refl

  pub reclaim_fires-Ledger :
      (now : ℕ) (s : Session) → Ledger P 0 s → Ledger P 0 (reclaim_fires now s)
  unfolding reclaim_fires
  reclaim_fires-Ledger now s v =
      grant_send_slots-Ledger 0 now _
        (reclaim_parked-Ledger 0 now (record s { reclaim_timer = none }) v)
