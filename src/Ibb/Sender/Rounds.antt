-- ===== src/Ibb/Sender/Rounds.antt =====
-- The rounds of the pump, and its loop.
use xmpp_httpx.Prelude.{
  ℕ, zero, suc, ◌<◌, ◌≡◌, refl, sym, subst, ap, ◌∙◌, Option, none, some, Option-cases, Bool, true,
  false, Bool-cases, inl, inr, ltb, leb, arith,
}
use xmpp_httpx.Errors.{ErrorCode}
use xmpp_httpx.JsMap.{nat_key, get?, has, has-put, has_of_get?, not-has_of_get?}
use xmpp_httpx.JsMap.Entries.{some-injective}
use xmpp_httpx.Bytes.Buffer.{size}
use xmpp_httpx.Ibb.Scheduler.{Sender, Session, has_block}
use xmpp_httpx.Ibb.Scheduler.Ledger.{Ledger, Acquired}
use xmpp_httpx.Ibb.Scheduler.Busy.{IsBusy, acquire_send_slot-has}
use xmpp_httpx.Ibb.Sender.{
  Turn, error_of, reserve, Round, ends, goes_on, sent_round, reserved_round, usable_round,
  pump_round, after_round, pump_loop,
}
use xmpp_httpx.Ibb.Sender.Calls.{buffered_of}
use xmpp_httpx.Ibb.Sender.Pump.{
  Ready, IsRegular, Balanced, Rounded, send_block-Rounded, reserve-Acquired, forget,
}

sent_round-Rounded :
    (now id held : ℕ) (s : Session)
    → Ledger (Ready id held) 1 s
    → IsBusy s
    → has id s.streams ≡ true
    → Rounded id held (sent_round now id s)
unfolding sent_round
sent_round-Rounded now id held s v busy there = elim (Option-cases (get? id s.streams)) [
  | inl e ↦ absurd (ground (arith, there, not-has_of_get? id s.streams e))
  | inr (t, e) ↦ rw (e, sent_round) (send_block-Rounded now id held t s v busy e)
]

reserved_round-Rounded :
    (now id held : ℕ) (reserved : Bool × Session)
    → Acquired (Ready id held) (λ j g u p. p) 0 reserved
    → IsBusy reserved.1
    → has id reserved.1.streams ≡ true
    → Rounded id held (reserved_round now id reserved)
reserved_round-Rounded now id held (true, s) v busy there =
    sent_round-Rounded now id held s v busy there
reserved_round-Rounded now id held (false, s) v busy there = ((forget v, busy), tt)

reserve_streams :
    (now id : ℕ) (t : Sender) (s : Session)
    → get? id s.streams ≡ some t
    → has id (reserve now id t s).1.streams ≡ true
unfolding reserve
reserve_streams now id t s e = elim (Bool-cases (ltb 0 t.granted)) [
  | inl has_grant ↦ rw (has_grant, has-put) (ground arith)
  | inr no_grant ↦ rw no_grant (acquire_send_slot-has id now id s (has_of_get? id s.streams e))
]

-- A round of the pump keeps the sums, and sends a byte unless it is the last one.
pump_round-Rounded :
    (now id : ℕ) (s : Session)
    → Balanced s
    → Rounded id (buffered_of (get? id s.streams)) (pump_round now id s)
unfolding pump_round
pump_round-Rounded now id s (v, busy) = elim (Option-cases (get? id s.streams)) [
  | inl e ↦ rw (e, pump_round) ((v, busy), tt)
  | inr (t, e) ↦
      rw (e, pump_round)
        (elim (Bool-cases (has_block t)) [
          | inl more ↦ rw more (usable t e more (error_of t.failed t.closed_by_peer))
          | inr none_left ↦ rw none_left ((v, busy), tt)
        ])
]
  where
    ready :
        (t : Sender)
        → get? id s.streams ≡ some t
        → has_block t ≡ true
        → t.in_flight < t.window
        → Ledger (Ready id (size t.buffered)) 0 s
    ready t e more room = record {
      sums = v.sums;
      bounded = v.bounded;
      distinct = v.distinct;
      unused = v.unused;
      each = λ j u h. (
        v.each j u h,
        λ same.
            subst
              (λ w.
                (has_block w ≡ true)
                × (w.in_flight < w.window)
                × (size w.buffered ≡ size t.buffered))
              (some-injective (sym e ∙ ap (λ i. get? i s.streams) (sym same) ∙ h))
              (more, room, refl),
      );
    }

    usable :
        (t : Sender)
        → get? id s.streams ≡ some t
        → has_block t ≡ true
        → (error : Option ErrorCode) → Rounded id (size t.buffered) (usable_round now id error t s)
    usable t e more (some error) = ((v, busy), tt)
    usable t e more none = elim (Bool-cases (leb t.window t.in_flight)) [
      | inl full ↦ rw full ((v, busy), tt)
      | inr room ↦ rw room (
          reserved_round-Rounded now id (size t.buffered) (reserve now id t s)
            (reserve-Acquired now id (size t.buffered) t s (ready t e more (ground (arith, room)))
              busy e).0
            (reserve-Acquired now id (size t.buffered) t s (ready t e more (ground (arith, room)))
              busy e).1
            (reserve_streams now id t s e))
    ]

abbrev pub Turned : Turn × Session → Type 0
Turned (turn, s) = Balanced s × IsRegular turn

after_round-Turned :
    (next : Session → Turn × Session) (held id : ℕ)
    → ((s : Session) → Balanced s → buffered_of (get? id s.streams) < held → Turned (next s))
    → (round : Round) → Rounded id held round
    → Turned (after_round next round)
after_round-Turned next held id go (ends turn after) h = h
after_round-Turned next held id go (goes_on after) (w, less) = go after w less

-- With more fuel than bytes are buffered, the loop ends as the code intends.
pub pump_loop-Turned :
    (fuel now id : ℕ) (s : Session)
    → Balanced s
    → buffered_of (get? id s.streams) < fuel
    → Turned (pump_loop fuel now id s)
unfolding pump_loop
pump_loop-Turned zero now id s v le = absurd (omega (arith, le))
pump_loop-Turned (suc fuel) now id s v le =
    after_round-Turned (pump_loop fuel now id) (buffered_of (get? id s.streams)) id
      (λ after w less. pump_loop-Turned fuel now id after w (omega (arith, le, less)))
      (pump_round now id s) (pump_round-Rounded now id s v)
