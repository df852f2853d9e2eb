-- ===== src/Ibb/Sender/Returns.antt =====
-- A pump that returns or throws: its fuel is enough, and it gives back what it was granted.
use xmpp_httpx.Prelude.{
  ℕ, zero, suc, ◌+◌, ◌-◌, ◌==◌, ◌≤◌, ◌<◌, ◌≡◌, refl, subst, ap, List, [], ◌∷◌, some, Option-cases,
  Bool-cases, inl, inr, ltb, ltb→lt, ltb_false→le, arith, length, ==_iff,
}
use xmpp_httpx.JsMap.{nat_key, get?, put, get?-put}
use xmpp_httpx.JsMap.Entries.{weigh-put_present}
use xmpp_httpx.Ibb.Scheduler.{
  Sender, Session, wants, offer, grant_loop, grant_send_slots, release_send_slot,
}
use xmpp_httpx.Ibb.Scheduler.Ledger.{put-IsLedger, release_send_slot-Ledger, grants}
use xmpp_httpx.Ibb.Scheduler.Busy.{release_send_slot-IsBusy}
use xmpp_httpx.Ibb.Sender.{Turn, done, parked, out_of_fuel, take_failed, threw, pump_loop}
use xmpp_httpx.Ibb.Sender.Calls.{
  granted_of, give_one_back, give_back_loop, give_back, finally_give_back, buffered_of, pump,
}
use xmpp_httpx.Ibb.Sender.Pump.{AnyStream, Balanced}
use xmpp_httpx.Ibb.Sender.Rounds.{Turned, pump_loop-Turned}

grant_le :
    (id : ℕ) (t : Sender) (streams : List (ℕ × Sender))
    → get? id streams ≡ some t
    → t.granted ≤ grants streams
grant_le id t streams e =
    omega (
      arith,
      weigh-put_present (λ (x : Sender). x.granted) id (record t { granted = 0 }) t streams e,
    )

give_one_back-Balanced :
    (now id : ℕ) (t : Sender) (s : Session)
    → Balanced s
    → get? id s.streams ≡ some t
    → 0 < t.granted
    → Balanced (give_one_back now id t s)
unfolding give_one_back
give_one_back-Balanced now id t s (v, busy) e pos = (
  release_send_slot-Ledger AnyStream (λ j g u p. p) 0 now _
      (put-IsLedger AnyStream 0 0 s.limit s.send_in_flight s.next_slot s.counted s.streams id t _
        (s.send_in_flight - 1) v e (v.each id t e)
        (omega (arith, pos, v.sums, grant_le id t s.streams e)) (omega (arith, v.bounded))),
  release_send_slot-IsBusy now _,
)

pub give_back_loop-Balanced :
    (fuel now id : ℕ) (s : Session) → Balanced s → Balanced (give_back_loop fuel now id s)
unfolding give_back_loop
give_back_loop-Balanced zero now id s v = v
give_back_loop-Balanced (suc fuel) now id s v = elim (Option-cases (get? id s.streams)) [
  | inl e ↦ rw (e, give_back_loop) v
  | inr (t, e) ↦
      rw (e, give_back_loop)
        (elim (Bool-cases (ltb 0 t.granted)) [
          | inl more ↦ rw more (
              give_back_loop-Balanced fuel now id _
                (give_one_back-Balanced now id t s v e (ltb→lt 0 t.granted more)))
          | inr no_more ↦ rw no_more v
        ])
]

-- A grant costs an entry of the queue.
offer_le :
    (id other : ℕ) (s : Session)
    → granted_of (get? id (offer other s).streams) ≤ granted_of (get? id s.streams) + 1
unfolding offer
offer_le id other s = elim (Option-cases (get? other s.streams)) [
  | inl e ↦ rw (e, offer) (omega arith)
  | inr (t, e) ↦
      rw (e, offer)
        (elim (Bool-cases (wants t)) [
          | inl wanted ↦
              rw (wanted, get?-put)
                (elim (Bool-cases (other == id)) [
                  | inl same ↦ rw same (
                      omega (
                        arith,
                        ap granted_of
                            (subst (λ i. get? i s.streams ≡ some t) ((==_iff other id).0 same) e),
                      ))
                  | inr apart ↦ rw apart (omega arith)
                ])
          | inr unwanted ↦ rw unwanted (omega arith)
        ])
]

offer_queue : (id : ℕ) (s : Session) → (offer id s).send_queue ≡ s.send_queue
unfolding offer
offer_queue id s = elim (Option-cases (get? id s.streams)) [
  | inl e ↦ rw (e, offer) refl
  | inr (t, e) ↦ rw (e, offer) (ground arith)
]

abbrev measure : ℕ → Session → ℕ
measure id s = granted_of (get? id s.streams) + length s.send_queue

measure-grant_loop :
    (id : ℕ) (queue : List ℕ) (s : Session)
    → s.send_queue ≡ queue
    → measure id (grant_loop queue s) ≤ measure id s
unfolding grant_loop
measure-grant_loop id [] s e = omega arith
measure-grant_loop id (other ∷ queue) s e = elim (Bool-cases (ltb s.send_in_flight s.limit)) [
  | inl free ↦ rw free (
      smaller
        (measure-grant_loop id queue next (offer_queue other (record s { send_queue = queue }))))
  | inr full ↦ rw full (omega arith)
]
  where
    next : Session
    next = offer other (record s { send_queue = queue })

    smaller :
        measure id (grant_loop queue next) ≤ measure id next
        → measure id (grant_loop queue next) ≤ measure id s
    smaller le = omega (
      arith,
      le,
      offer_le id other (record s { send_queue = queue }),
      ap length (offer_queue other (record s { send_queue = queue })),
      ap length e,
    )

measure-give_one_back :
    (now id : ℕ) (t : Sender) (s : Session)
    → get? id s.streams ≡ some t
    → 0 < t.granted
    → measure id (give_one_back now id t s) < measure id s
unfolding give_one_back release_send_slot grant_send_slots
measure-give_one_back now id t s e pos = omega (
  arith,
  pos,
  ap granted_of e,
  measure-grant_loop id s.send_queue
      (record s {
        send_in_flight = s.send_in_flight - 1;
        streams = put id (record t { granted = t.granted - 1 }) s.streams;
      })
      refl,
  granted_put,
)
  where
    granted_put :
        granted_of (get? id (put id (record t { granted = t.granted - 1 }) s.streams))
        ≡ t.granted - 1
    granted_put = rw get?-put (ground arith)

give_back_loop-returns :
    (fuel now id : ℕ) (s : Session)
    → measure id s ≤ fuel
    → granted_of (get? id (give_back_loop fuel now id s).streams) ≡ 0
unfolding give_back_loop
give_back_loop-returns zero now id s le = omega (arith, le)
give_back_loop-returns (suc fuel) now id s le = elim (Option-cases (get? id s.streams)) [
  | inl e ↦ rw (e, give_back_loop) (ap granted_of e)
  | inr (t, e) ↦
      rw (e, give_back_loop)
        (elim (Bool-cases (ltb 0 t.granted)) [
          | inl more ↦ rw more (
              give_back_loop-returns fuel now id _
                (omega (arith, le, measure-give_one_back now id t s e (ltb→lt 0 t.granted more))))
          | inr no_more ↦
              rw no_more (omega (arith, ap granted_of e, ltb_false→le 0 t.granted no_more))
        ])
]

-- How a pump ends: it keeps the sums, runs out of no fuel, and holds no grant unless it is parked.
abbrev pub Pumped : ℕ → Turn × Session → Type 0
Pumped id (parked, s) = Balanced s
Pumped id (done, s) = Balanced s × (granted_of (get? id s.streams) ≡ 0)
Pumped id (threw error, s) = Balanced s × (granted_of (get? id s.streams) ≡ 0)
Pumped id (out_of_fuel, s) = ⊥
Pumped id (take_failed, s) = ⊥

-- On any session whose sums are right and whose streams are sound, a pump parks, returns or throws:
-- its loops end, and `take` throws no RangeError. The sums are right and the streams sound
-- afterwards, and if it does not park, its stream holds no grant of the session's budget.
pub pump-Pumped : (now id : ℕ) (s : Session) → Balanced s → Pumped id (pump now id s)
unfolding pump give_back
pump-Pumped now id s v =
    finally (pump_loop (suc (buffered_of (get? id s.streams))) now id s)
      (pump_loop-Turned (suc (buffered_of (get? id s.streams))) now id s v (omega arith))
  where
    given_back :
        (after : Session)
        → Balanced after
        → Balanced (give_back now id after)
          × (granted_of (get? id (give_back now id after).streams) ≡ 0)
    given_back after w = (
      give_back_loop-Balanced (measure id after) now id after w,
      give_back_loop-returns (measure id after) now id after (omega arith),
    )

    finally : (r : Turn × Session) → Turned r → Pumped id (finally_give_back now id r)
    finally (parked, after) (w, regular) = w
    finally (done, after) (w, regular) = given_back after w
    finally (threw error, after) (w, regular) = given_back after w
    finally (out_of_fuel, after) (w, impossible) = absurd impossible
    finally (take_failed, after) (w, impossible) = absurd impossible
