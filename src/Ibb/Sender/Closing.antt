-- ===== src/Ibb/Sender/Closing.antt =====
-- What `write` and `close` keep.
use xmpp_httpx.Prelude.{
  ℕ, ◌≡◌, refl, Option, none, some, Option-cases, Bool, true, false, inl, inr, if◌then◌else◌, arith,
}
use xmpp_httpx.Errors.{ErrorCode}
use xmpp_httpx.JsMap.{nat_key, get?}
use xmpp_httpx.Bytes.Buffer.{Bytes}
use xmpp_httpx.Ibb.Scheduler.{
  Failure, Phase, before, pumping, draining, caught, sending, over, Sender, Session,
}
use xmpp_httpx.Ibb.Scheduler.Ledger.{put-IsLedger}
use xmpp_httpx.Ibb.Sender.{Turn, done, parked, out_of_fuel, take_failed, threw, set_stream}
use xmpp_httpx.Ibb.Sender.Calls.{write, when_usable, ensure_usable, pump}
use xmpp_httpx.Ibb.Sender.Close.{
  close, close_unfailed, close_pumped, close_after, close_caught, close_drains, close_drained,
  must_drain, close_resumed, close_answered, close_result, close_crossed, or_failed,
}
use xmpp_httpx.Ibb.Sender.Blocks.{IsStream, with_bytes-IsStream}
use xmpp_httpx.Ibb.Sender.Pump.{AnyStream, Balanced, IsRegular}
use xmpp_httpx.Ibb.Sender.Rounds.{Turned}
use xmpp_httpx.Ibb.Sender.Returns.{Pumped, pump-Pumped}

pub pump-Turned : (now id : ℕ) (s : Session) → Balanced s → Turned (pump now id s)
pump-Turned now id s v = weaken (pump now id s) (pump-Pumped now id s v)
  where
    weaken : (r : Turn × Session) → Pumped id r → Turned r
    weaken (parked, after) w = (w, tt)
    weaken (done, after) w = (w.0, tt)
    weaken (threw error, after) w = (w.0, tt)
    weaken (out_of_fuel, after) impossible = absurd impossible
    weaken (take_failed, after) impossible = absurd impossible

-- A stream is replaced by one with the same grants.
pub changed-Balanced :
    (id : ℕ) (t u : Sender) (s : Session)
    → Balanced s
    → get? id s.streams ≡ some t
    → IsStream u
    → u.granted ≡ t.granted
    → Balanced (set_stream id u s)
changed-Balanced id t u s (v, busy) e sound same = (
  put-IsLedger AnyStream 0 0 s.limit s.send_in_flight s.next_slot s.counted s.streams id t u
      s.send_in_flight v e sound (omega (arith, same)) v.bounded,
  busy,
)

pub if-Turned :
    (b : Bool) (x y : Turn × Session) → Turned x → Turned y → Turned (if b then x else y)
if-Turned true x y v w = v
if-Turned false x y v w = w

when_usable-Turned :
    (error : Option ErrorCode) (s : Session) (next : Turn × Session)
    → Balanced s
    → Turned next
    → Turned (when_usable error s next)
when_usable-Turned none s next v w = w
when_usable-Turned (some error) s next v w = (v, tt)

pub write-Turned :
    (now id : ℕ) (bytes : Bytes) (t : Sender) (s : Session)
    → Balanced s
    → get? id s.streams ≡ some t
    → Turned (write now id bytes t s)
unfolding write
write-Turned now id bytes t s v e = when_usable-Turned (ensure_usable t) s _ v (
    pump-Turned now id _
      (changed-Balanced id t _ s v e (with_bytes-IsStream bytes t (v.0.each id t e)) refl))

close_drains-Turned :
    (id : ℕ) (t : Sender) (s : Session)
    → Balanced s
    → get? id s.streams ≡ some t
    → Turned (close_drains id t s)
unfolding close_drains
close_drains-Turned id t s v e =
    if-Turned (must_drain t) _ _ (changed-Balanced id t _ s v e sound refl, tt) (drained t.failed)
  where
    sound : IsStream t
    sound = v.0.each id t e

    drained : (failed : Option Failure) → Turned (close_drained id failed t s)
    drained (some failure) = (changed-Balanced id t _ s v e sound refl, tt)
    drained none =
        if-Turned t.closed_by_peer _ _ (changed-Balanced id t _ s v e sound refl, tt)
          (changed-Balanced id t _ s v e sound refl, tt)

close_caught-Turned :
    (id : ℕ) (error : ErrorCode) (t : Sender) (s : Session)
    → Balanced s
    → get? id s.streams ≡ some t
    → Turned (close_caught id error t s)
unfolding close_caught
close_caught-Turned id error t s v e =
    (changed-Balanced id t _ s v e (v.0.each id t e) refl, either _)
  where
    either : (b : Bool) → IsRegular (if b then done else threw error)
    either true = tt
    either false = tt

close_pumped-Turned : (id : ℕ) (r : Turn × Session) → Turned r → Turned (close_pumped id r)
unfolding close_pumped
close_pumped-Turned id (turn, s) (v, regular) = elim (Option-cases (get? id s.streams)) [
  | inl e ↦ rw (e, close_pumped) (v, regular)
  | inr (t, e) ↦ rw (e, close_pumped) (after t e turn regular)
]
  where
    after :
        (t : Sender)
        → get? id s.streams ≡ some t
        → (turn : Turn) → IsRegular turn
        → Turned (close_after id turn t s)
    after t e done regular = (changed-Balanced id t _ s v e (v.0.each id t e) refl, tt)
    after t e (threw error) regular = (changed-Balanced id t _ s v e (v.0.each id t e) refl, tt)
    after t e parked regular = (v, tt)
    after t e out_of_fuel impossible = absurd impossible
    after t e take_failed impossible = absurd impossible

pub close-Turned :
    (now id : ℕ) (t : Sender) (s : Session)
    → Balanced s
    → get? id s.streams ≡ some t
    → Turned (close now id t s)
unfolding close
close-Turned now id t s v e = unfailed t.failed
  where
    unfailed : (failed : Option Failure) → Turned (close_unfailed now id failed t s)
    unfailed (some failure) = (v, tt)
    unfailed none =
        if-Turned t.closed_by_peer _ _ (v, tt)
          (when_usable-Turned _ s _ v (
            close_pumped-Turned id _
              (pump-Turned now id _ (changed-Balanced id t _ s v e (v.0.each id t e) refl))))

pub close_resumed-Turned :
    (now id : ℕ) (phase : Phase) (t : Sender) (s : Session)
    → Balanced s
    → get? id s.streams ≡ some t
    → Turned (close_resumed now id phase t s)
unfolding close_resumed
close_resumed-Turned now id before t s v e = (v, tt)
close_resumed-Turned now id pumping t s v e = close_pumped-Turned id _ (pump-Turned now id s v)
close_resumed-Turned now id draining t s v e = close_drains-Turned id t s v e
close_resumed-Turned now id (caught error) t s v e = close_caught-Turned id error t s v e
close_resumed-Turned now id sending t s v e = (v, tt)
close_resumed-Turned now id over t s v e = (v, tt)

pub close_answered-Turned :
    (id : ℕ) (answer : Option ErrorCode) (phase : Phase) (t : Sender) (s : Session)
    → Balanced s
    → get? id s.streams ≡ some t
    → Turned (close_answered id answer phase t s)
unfolding close_answered
close_answered-Turned id answer before t s v e = (v, tt)
close_answered-Turned id answer pumping t s v e = (v, tt)
close_answered-Turned id answer draining t s v e = (v, tt)
close_answered-Turned id answer (caught error) t s v e = (v, tt)
close_answered-Turned id answer over t s v e = (v, tt)
close_answered-Turned id none sending t s v e =
    (changed-Balanced id t _ s v e (v.0.each id t e) refl, tt)
close_answered-Turned id (some error) sending t s v e =
    refused t.closed_by_peer
      (or_failed t.failed (record { ordinal = some t.dispatched; error = error }))
  where
    refused :
        (b : Bool) (failure : Failure) → Turned (close_result id (close_crossed b failure t) s)
    refused true failure = (changed-Balanced id t _ s v e (v.0.each id t e) refl, tt)
    refused false failure = (changed-Balanced id t _ s v e (v.0.each id t e) refl, tt)
