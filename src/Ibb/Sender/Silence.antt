-- ===== src/Ibb/Sender/Silence.antt =====
-- `abort`, the answers and the other calls on a stream send nothing for one that is stopped.
use xmpp_httpx.Prelude.{
  ℕ, ◌≡◌, refl, Option, none, some, Bool, true, false, ◌||◌, inl, if◌then◌else◌, arith,
}
use xmpp_httpx.Errors.{ErrorCode}
use xmpp_httpx.JsMap.{nat_key, get?, put}
use xmpp_httpx.Ibb.Scheduler.{
  Failure, Phase, before, pumping, draining, caught, sending, over, Sender, Session, is_some,
}
use xmpp_httpx.Ibb.Sender.{done, set_stream}
use xmpp_httpx.Ibb.Sender.Calls.{pump}
use xmpp_httpx.Ibb.Sender.Close.{
  close_resumed, close_caught, close_answered, close_result, close_crossed, or_failed,
}
use xmpp_httpx.Ibb.Sender.Events.{settle, settled, abort, peer_closed}
use xmpp_httpx.Ibb.Sender.Evolution.{IsStopped, end_send_slot-AllWentOn}
use xmpp_httpx.Ibb.Sender.LoopQuiet.{pump-LeftOn}
use xmpp_httpx.Ibb.Sender.Quiet.{Suits, Hushed, same-Hushed, on-Hushed, put-Hushed, settled-IsQuiet}
use xmpp_httpx.Ibb.Sender.CloseLast.{
  Quiets, Calm, over-Hushed, close_drains-Calm, close_pumped-Calm,
}

pub close_resumed-Calm :
    (now id : ℕ) (phase : Phase) (t : Sender) (s : Session)
    → Quiets s
    → get? id s.streams ≡ some t
    → Suits phase t
    → Calm s.streams (close_resumed now id phase t s)
unfolding close_resumed close_caught
close_resumed-Calm now id before t s q e h = same-Hushed s.streams q
close_resumed-Calm now id pumping t s q e closed =
    close_pumped-Calm s.streams s.streams id t (pump now id s) (same-Hushed s.streams q) e closed
      (pump-LeftOn now id s)
close_resumed-Calm now id draining t s q e stopped =
    close_drains-Calm s.streams id t s (same-Hushed s.streams q) e stopped
close_resumed-Calm now id (caught error) t s q e h =
    over-Hushed s.streams id t s (same-Hushed s.streams q) e
close_resumed-Calm now id sending t s q e h = same-Hushed s.streams q
close_resumed-Calm now id over t s q e h = same-Hushed s.streams q

pub close_answered-Calm :
    (id : ℕ) (answer : Option ErrorCode) (phase : Phase) (t : Sender) (s : Session)
    → Quiets s
    → get? id s.streams ≡ some t
    → Calm s.streams (close_answered id answer phase t s)
unfolding close_answered
close_answered-Calm id answer before t s q e = same-Hushed s.streams q
close_answered-Calm id answer pumping t s q e = same-Hushed s.streams q
close_answered-Calm id answer draining t s q e = same-Hushed s.streams q
close_answered-Calm id answer (caught error) t s q e = same-Hushed s.streams q
close_answered-Calm id answer over t s q e = same-Hushed s.streams q
close_answered-Calm id none sending t s q e =
    over-Hushed s.streams id t s (same-Hushed s.streams q) e
close_answered-Calm id (some error) sending t s q e =
    refused t.closed_by_peer
      (or_failed t.failed (record { ordinal = some t.dispatched; error = error }))
  where
    refused :
        (b : Bool) (failure : Failure)
        → Calm s.streams (close_result id (close_crossed b failure t) s)
    refused true failure = over-Hushed s.streams id t s (same-Hushed s.streams q) e
    refused false failure =
        put-Hushed s.streams s.streams id t _ (same-Hushed s.streams q) e
          (λ h. (refl, inl (λ none_failed. absurd (ground (arith, none_failed)))))
          (λ sent. inl (λ none_failed. absurd (ground (arith, none_failed))), tt)

pub abort-Calm :
    (id : ℕ) (reason : ErrorCode) (t : Sender) (s : Session)
    → Quiets s
    → get? id s.streams ≡ some t
    → Calm s.streams (done, set_stream id (abort reason t) s)
unfolding abort
abort-Calm id reason t s q e = either (t.close_sent || is_some t.failed || t.closed_by_peer)
  where
    failing : Sender
    failing = record t {
      failed = some (record { ordinal = none; error = reason });
      close_sent = true;
    }

    failing-IsStopped : IsStopped failing
    failing-IsStopped = inl (λ none_failed. absurd (ground (arith, none_failed)))

    suits : (p : Phase) → Suits p t → Suits p failing
    suits before h = tt
    suits pumping h = h
    suits draining h = failing-IsStopped
    suits (caught error) h = tt
    suits sending h = tt
    suits over h = tt

    either : (b : Bool) → Calm s.streams (done, set_stream id (if b then t else failing) s)
    either true =
        put-Hushed s.streams s.streams id t t (same-Hushed s.streams q) e (λ h. (refl, h))
          (q id t e)
    either false =
        put-Hushed s.streams s.streams id t failing (same-Hushed s.streams q) e
          (λ h. (refl, failing-IsStopped)) (λ sent. failing-IsStopped, suits t.phase (q id t e).1)

pub peer_closed-Calm :
    (id : ℕ) (t : Sender) (s : Session)
    → Quiets s
    → get? id s.streams ≡ some t
    → Calm s.streams (done, set_stream id (peer_closed t) s)
unfolding peer_closed
peer_closed-Calm id t s q e =
    put-Hushed s.streams s.streams id t (peer_closed t) (same-Hushed s.streams q) e (λ h. (refl, h))
      ((q id t e).0, suits t.phase (q id t e).1)
  where
    suits : (p : Phase) → Suits p t → Suits p (peer_closed t)
    suits before h = tt
    suits pumping h = h
    suits draining h = h
    suits (caught error) h = tt
    suits sending h = tt
    suits over h = tt

pub settle-Hushed :
    (now slot : ℕ) (answer : Option ErrorCode) (id : ℕ) (t : Sender) (ordinal : ℕ) (s : Session)
    → Quiets s
    → get? id s.streams ≡ some t
    → Hushed s.streams (settle now slot answer id t ordinal s).streams
unfolding settle
settle-Hushed now slot answer id t ordinal s q e =
    on-Hushed s.streams (put id (settled ordinal answer t) s.streams) _
      (put-Hushed s.streams s.streams id t (settled ordinal answer t) (same-Hushed s.streams q) e
        (settled-IsQuiet id ordinal answer t (q id t e)).1
        (settled-IsQuiet id ordinal answer t (q id t e)).0)
      (end_send_slot-AllWentOn now slot _ _)
