-- ===== src/Ibb/Sender/CloseLast.antt =====
-- `write` and `close` send nothing for a stream that is stopped.
use xmpp_httpx.Prelude.{
  ℕ, ◌≡◌, refl, ◌∙◌, List, Option, none, some, Bool, true, false, inr, if◌then◌else◌, arith, ==_iff,
}
use xmpp_httpx.Errors.{stream_error}
use xmpp_httpx.JsMap.{nat_key, get?, put, get?-put}
use xmpp_httpx.JsMap.Entries.{Each}
use xmpp_httpx.Bytes.Buffer.{Bytes}
use xmpp_httpx.Ibb.Scheduler.{Failure, over, Sender, Session}
use xmpp_httpx.Ibb.Sender.{
  Turn, done, parked, out_of_fuel, take_failed, threw, set_stream, error_of,
}
use xmpp_httpx.Ibb.Sender.Calls.{write, with_bytes, when_usable, pump}
use xmpp_httpx.Ibb.Sender.Close.{
  close, close_unfailed, closing, close_pumped, close_after, close_drains, close_drained,
  must_drain, in_phase,
}
use xmpp_httpx.Ibb.Sender.Evolution.{IsStopped, AllWentOn}
use xmpp_httpx.Ibb.Sender.PumpQuiet.{LeftOn}
use xmpp_httpx.Ibb.Sender.LoopQuiet.{pump-LeftOn, left_on}
use xmpp_httpx.Ibb.Sender.Quiet.{
  IsQuiet, Hushed, same-Hushed, on-Hushed, put-Hushed, unstopped, with_bytes-IsQuiet,
}

abbrev pub Quiets : Session → Type 0
Quiets s = Each IsQuiet s.streams

abbrev pub Calm : List (ℕ × Sender) → Turn × Session → Type 0
Calm a r = Hushed a r.1.streams

pub if-Calm :
    (a : List (ℕ × Sender)) (b : Bool) (x y : Turn × Session)
    → (b ≡ true → Calm a x)
    → (b ≡ false → Calm a y)
    → Calm a (if b then x else y)
if-Calm a true x y v w = v refl
if-Calm a false x y v w = w refl

pub write-Calm :
    (now id : ℕ) (bytes : Bytes) (t : Sender) (s : Session)
    → Quiets s
    → get? id s.streams ≡ some t
    → Calm s.streams (write now id bytes t s)
unfolding write
write-Calm now id bytes t s q e = usable t.failed refl t.closed_by_peer t.closed refl
  where
    going : t.failed ≡ none → t.closed ≡ false → IsStopped t → ⊥
    going fine not_closed = unstopped t fine not_closed

    pumped :
        t.failed ≡ none
        → t.closed ≡ false
        → Calm s.streams (pump now id (set_stream id (with_bytes bytes t) s))
    pumped fine not_closed =
        on-Hushed s.streams (put id (with_bytes bytes t) s.streams) _
          (put-Hushed s.streams s.streams id t _ (same-Hushed s.streams q) e
            (λ h. absurd (going fine not_closed h))
            (with_bytes-IsQuiet id bytes t (going fine not_closed) (q id t e)))
          (left_on id _ _ _ (pump-LeftOn now id (set_stream id (with_bytes bytes t) s)))

    usable :
        (failed : Option Failure)
        → t.failed ≡ failed
        → (peer closed : Bool) → t.closed ≡ closed
        → Calm s.streams (
            when_usable
              (elim (error_of failed peer) [
                | some error ↦ some error
                | none ↦ if closed then some stream_error else none
              ])
              s
              (pump now id (set_stream id (with_bytes bytes t) s)))
    usable (some failure) f peer closed c = same-Hushed s.streams q
    usable none f true closed c = same-Hushed s.streams q
    usable none f false true c = same-Hushed s.streams q
    usable none f false false c = pumped f c

-- A stream whose `close` is over, or whose `<close/>` is sent.
pub over-Hushed :
    (a : List (ℕ × Sender)) (id : ℕ) (t : Sender) (s : Session)
    → Hushed a s.streams
    → get? id s.streams ≡ some t
    → Hushed a (set_stream id (in_phase over t) s).streams
over-Hushed a id t s h e =
    put-Hushed a s.streams id t _ h e (λ stopped. (refl, stopped)) ((h.1 id t e).0, tt)

pub close_drains-Calm :
    (a : List (ℕ × Sender)) (id : ℕ) (t : Sender) (s : Session)
    → Hushed a s.streams
    → get? id s.streams ≡ some t
    → IsStopped t
    → Calm a (close_drains id t s)
unfolding close_drains
close_drains-Calm a id t s h e stopped =
    if-Calm a (must_drain t) _ _
      (λ _. put-Hushed a s.streams id t _ h e (λ k. (refl, k)) ((h.1 id t e).0, stopped))
      (λ _. drained t.failed)
  where
    drained : (failed : Option Failure) → Calm a (close_drained id failed t s)
    drained (some failure) = over-Hushed a id t s h e
    drained none =
        if-Calm a t.closed_by_peer _ _ (λ _. over-Hushed a id t s h e)
          (λ _. put-Hushed a s.streams id t _ h e (λ k. (refl, k)) (λ _. stopped, tt))

-- `close` from its pump on, for a stream that is closed.
pub close_pumped-Calm :
    (a b : List (ℕ × Sender)) (id : ℕ) (t : Sender) (r : Turn × Session)
    → Hushed a b
    → get? id b ≡ some t
    → t.closed ≡ true
    → LeftOn id b r.0 r.1
    → Calm a (close_pumped id r)
unfolding close_pumped
close_pumped-Calm a b id t (turn, s) h e closed left =
    rw ((on.0 id t e).1, close_pumped) (after turn left)
  where
    on : AllWentOn b s.streams
    on = left_on id b turn s left

    hushed : Hushed a s.streams
    hushed = on-Hushed a b s.streams h on

    after : (turn : Turn) → LeftOn id b turn s → Calm a (close_after id turn (on.0 id t e).0 s)
    after done (went, drained) =
        put-Hushed a s.streams id _ _ hushed (on.0 id t e).1 (λ k. (refl, k))
          (
            (hushed.1 id _ (on.0 id t e).1).0,
            inr (
              (on.0 id t e).2.closed ∙ closed,
              drained _ (on.0 id t e).1 ((on.0 id t e).2.closed ∙ closed),
            ),
          )
    after (threw error) went =
        put-Hushed a s.streams id _ _ hushed (on.0 id t e).1 (λ k. (refl, k))
          ((hushed.1 id _ (on.0 id t e).1).0, tt)
    after take_failed went = over-Hushed a id _ s hushed (on.0 id t e).1
    after parked went = hushed
    after out_of_fuel went = hushed

pub close-Calm :
    (now id : ℕ) (t : Sender) (s : Session)
    → Quiets s
    → get? id s.streams ≡ some t
    → Calm s.streams (close now id t s)
unfolding close
close-Calm now id t s q e = unfailed t.failed refl
  where
    started :
        t.failed ≡ none
        → t.closed ≡ false
        → Calm s.streams (close_pumped id (pump now id (set_stream id (closing t) s)))
    started fine not_closed =
        close_pumped-Calm s.streams (put id (closing t) s.streams) id (closing t) _
          (put-Hushed s.streams s.streams id t _ (same-Hushed s.streams q) e
            (λ h. absurd (unstopped t fine not_closed h))
            (λ sent. absurd (unstopped t fine not_closed ((q id t e).0 sent)), refl))
          (rw get?-put (ground (arith, ==_iff id id))) refl
          (pump-LeftOn now id (set_stream id (closing t) s))

    usable :
        t.failed ≡ none
        → (closed : Bool) → t.closed ≡ closed
        → Calm s.streams (
            when_usable
              (if closed then some stream_error else none)
              s
              (close_pumped id (pump now id (set_stream id (closing t) s))))
    usable fine true c = same-Hushed s.streams q
    usable fine false c = started fine c

    unfailed :
        (failed : Option Failure)
        → t.failed ≡ failed
        → Calm s.streams (close_unfailed now id failed t s)
    unfailed (some failure) f = same-Hushed s.streams q
    unfailed none f =
        if-Calm s.streams t.closed_by_peer _ _ (λ _. same-Hushed s.streams q)
          (λ _. usable f t.closed refl)
