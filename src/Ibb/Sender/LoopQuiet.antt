-- ===== src/Ibb/Sender/LoopQuiet.antt =====
-- A whole pump sends nothing for a stream that is stopped.
use xmpp_httpx.Prelude.{
  ℕ, zero, suc, ◌+◌, ◌-◌, ◌≡◌, sym, subst, ◌∙◌, List, some, Option-cases, Bool-cases, inl, inr, ltb,
  arith, length,
}
use xmpp_httpx.JsMap.{nat_key, get?}
use xmpp_httpx.JsMap.Entries.{some-injective}
use xmpp_httpx.Ibb.Scheduler.{Sender, Session}
use xmpp_httpx.Ibb.Sender.{
  Turn, done, parked, out_of_fuel, take_failed, threw, Round, ends, goes_on, pump_round,
  after_round, pump_loop,
}
use xmpp_httpx.Ibb.Sender.Calls.{
  buffered_of, granted_of, give_one_back, give_back_loop, give_back, finally_give_back, pump,
}
use xmpp_httpx.Ibb.Sender.Evolution.{
  WentOn, AllWentOn, all_stay, all_then, put-AllWentOn, granted_on, release_send_slot-AllWentOn,
}
-- A block that is taken leaves a smaller buffer, and none is taken from an empty one.
use xmpp_httpx.Ibb.Sender.PumpQuiet.{IsDrained, LeftOn, RoundOn, pump_round-RoundOn}

after_round-LeftOn :
    (id : ℕ) (next : Session → Turn × Session) (before : List (ℕ × Sender)) (round : Round)
    → ((s : Session) → LeftOn id s.streams (next s).0 (next s).1)
    → RoundOn id before round
    → LeftOn id before (after_round next round).0 (after_round next round).1
after_round-LeftOn id next before (ends turn s) then_left on = on
after_round-LeftOn id next before (goes_on s) then_left on =
    earlier (next s).0 (next s).1 (then_left s)
  where
    earlier :
        (turn : Turn) (after : Session)
        → LeftOn id s.streams turn after
        → LeftOn id before turn after
    earlier done after (left, drained) = (all_then before s.streams after.streams on left, drained)
    earlier parked after left = all_then before s.streams after.streams on left
    earlier (threw error) after left = all_then before s.streams after.streams on left
    earlier out_of_fuel after left = all_then before s.streams after.streams on left
    earlier take_failed after left = all_then before s.streams after.streams on left

pump_loop-LeftOn :
    (fuel now id : ℕ) (s : Session)
    → LeftOn id s.streams (pump_loop fuel now id s).0 (pump_loop fuel now id s).1
unfolding pump_loop
pump_loop-LeftOn zero now id s = all_stay s.streams
pump_loop-LeftOn (suc fuel) now id s =
    after_round-LeftOn id (pump_loop fuel now id) s.streams (pump_round now id s)
      (pump_loop-LeftOn fuel now id) (pump_round-RoundOn now id s)

-- Grants that are given back leave a drained stream drained.
IsDrained-on :
    (id : ℕ) (t : Sender) (before after : List (ℕ × Sender))
    → get? id before ≡ some t
    → AllWentOn before after
    → IsDrained id before
    → IsDrained id after
IsDrained-on id t before after e on drained u h closed =
    omega (arith, went.smaller, drained t e (sym went.closed ∙ closed))
  where
    went : WentOn t u
    went = subst (WentOn t) (some-injective (sym (on.0 id t e).1 ∙ h)) (on.0 id t e).2

give_one_back-AllWentOn :
    (now id : ℕ) (t : Sender) (s : Session)
    → get? id s.streams ≡ some t
    → AllWentOn s.streams (give_one_back now id t s).streams
unfolding give_one_back
give_one_back-AllWentOn now id t s e =
    all_then _ _ _ (put-AllWentOn id t _ s.streams e (granted_on (t.granted - 1) t))
      (release_send_slot-AllWentOn now _)

give_back_loop-AllWentOn :
    (fuel now id : ℕ) (s : Session) → AllWentOn s.streams (give_back_loop fuel now id s).streams
unfolding give_back_loop
give_back_loop-AllWentOn zero now id s = all_stay s.streams
give_back_loop-AllWentOn (suc fuel) now id s = elim (Option-cases (get? id s.streams)) [
  | inl e ↦ rw (e, give_back_loop) (all_stay s.streams)
  | inr (t, e) ↦
      rw (e, give_back_loop)
        (elim (Bool-cases (ltb 0 t.granted)) [
          | inl more ↦ rw more (
              all_then _ _ _ (give_one_back-AllWentOn now id t s e)
                (give_back_loop-AllWentOn fuel now id (give_one_back now id t s)))
          | inr no_more ↦ rw no_more (all_stay s.streams)
        ])
]

pub give_back_loop-IsDrained :
    (fuel now id : ℕ) (s : Session)
    → IsDrained id s.streams
    → IsDrained id (give_back_loop fuel now id s).streams
give_back_loop-IsDrained fuel now id s h = elim (Option-cases (get? id s.streams)) [
  | inl e ↦ λ t found closed.
      absurd (ground (arith, (give_back_loop-AllWentOn fuel now id s).1 id e, found))
  | inr (t, e) ↦ IsDrained-on id t s.streams _ e (give_back_loop-AllWentOn fuel now id s) h
]

pub pump-LeftOn :
    (now id : ℕ) (s : Session) → LeftOn id s.streams (pump now id s).0 (pump now id s).1
unfolding pump give_back
pump-LeftOn now id s =
    finally (pump_loop (suc (buffered_of (get? id s.streams))) now id s)
      (pump_loop-LeftOn (suc (buffered_of (get? id s.streams))) now id s)
  where
    given :
        (after : Session)
        → AllWentOn after.streams (give_back now id after).streams
          × (IsDrained id after.streams → IsDrained id (give_back now id after).streams)
    given after = (
      give_back_loop-AllWentOn (granted_of (get? id after.streams) + length after.send_queue) now id
          after,
      give_back_loop-IsDrained (granted_of (get? id after.streams) + length after.send_queue) now id
          after,
    )

    finally :
        (r : Turn × Session)
        → LeftOn id s.streams r.0 r.1
        → LeftOn id s.streams (finally_give_back now id r).0 (finally_give_back now id r).1
    finally (done, after) (on, drained) =
        (all_then _ _ _ on (given after).0, (given after).1 drained)
    finally (parked, after) on = on
    finally (out_of_fuel, after) on = on
    finally (threw error, after) on = all_then _ _ _ on (given after).0
    finally (take_failed, after) on = all_then _ _ _ on (given after).0

pub left_on :
    (id : ℕ) (before : List (ℕ × Sender)) (turn : Turn) (s : Session)
    → LeftOn id before turn s
    → AllWentOn before s.streams
left_on id before done s (on, drained) = on
left_on id before parked s on = on
left_on id before (threw error) s on = on
left_on id before out_of_fuel s on = on
left_on id before take_failed s on = on
