-- ===== src/Ibb/Sender/Silent.antt =====
-- Nothing follows the `<close/>` of a stream, whatever happens to its session.
use xmpp_httpx.Prelude.{
  ℕ, ◌==◌, ◌≡◌, refl, sym, subst, ◌∙◌, List, [], ◌∷◌, Option, none, some, Option-cases, true,
  Bool-cases, inl, inr, if◌then◌else◌, arith, ==_iff,
}
use xmpp_httpx.Errors.{ErrorCode}
use xmpp_httpx.JsMap.{nat_key, get?, has, get?-put, has_of_get?}
use xmpp_httpx.JsMap.Entries.{Each-put}
use xmpp_httpx.Ibb.Scheduler.{Sender, Session}
use xmpp_httpx.Ibb.Sender.{new, set_stream}
use xmpp_httpx.Ibb.Sender.Events.{
  Event, opened, wrote, resumed, close_called, close_woken, close_reply, aborted_with,
  closed_at_peer, answered, reclaim_fired, step, call, on_stream, answer_at, new_session,
}
use xmpp_httpx.Ibb.Sender.Evolution.{IsStopped, reclaim_fires-AllWentOn}
use xmpp_httpx.Ibb.Sender.LoopQuiet.{pump-LeftOn, left_on}
use xmpp_httpx.Ibb.Sender.Quiet.{IsQuiet, Hushed, same-Hushed, on-Hushed}
use xmpp_httpx.Ibb.Sender.CloseLast.{Quiets, Calm, write-Calm, close-Calm}
use xmpp_httpx.Ibb.Sender.Silence.{
  close_resumed-Calm, close_answered-Calm, abort-Calm, peer_closed-Calm, settle-Hushed,
}

call-Calm :
    (now : ℕ) (event : Event) (id : ℕ) (t : Sender) (s : Session)
    → Quiets s
    → get? id s.streams ≡ some t
    → Calm s.streams (call now event id t s)
unfolding call
call-Calm now (wrote i bytes) id t s q e = write-Calm now id bytes t s q e
call-Calm now (resumed i) id t s q e =
    on-Hushed s.streams s.streams _ (same-Hushed s.streams q)
      (left_on id s.streams _ _ (pump-LeftOn now id s))
call-Calm now (close_called i) id t s q e = close-Calm now id t s q e
call-Calm now (close_woken i) id t s q e = close_resumed-Calm now id t.phase t s q e (q id t e).1
call-Calm now (close_reply i answer) id t s q e = close_answered-Calm id answer t.phase t s q e
call-Calm now (aborted_with i reason) id t s q e = abort-Calm id reason t s q e
call-Calm now (closed_at_peer i) id t s q e = peer_closed-Calm id t s q e
call-Calm now (opened i window block_size flush) id t s q e = same-Hushed s.streams q
call-Calm now (answered slot answer) id t s q e = same-Hushed s.streams q
call-Calm now reclaim_fired id t s q e = same-Hushed s.streams q

on_stream-Calm :
    (now : ℕ) (event : Event) (id : ℕ) (s : Session)
    → Quiets s
    → Calm s.streams (on_stream now event id s)
on_stream-Calm now event id s q = elim (Option-cases (get? id s.streams)) [
  | inl e ↦ rw (e, on_stream) (same-Hushed s.streams q)
  | inr (t, e) ↦ rw (e, on_stream) (call-Calm now event id t s q e)
]

answer_at-Hushed :
    (now slot : ℕ) (answer : Option ErrorCode) (at : Option (ℕ × ℕ)) (s : Session)
    → Quiets s
    → Hushed s.streams (answer_at now slot answer at s).streams
answer_at-Hushed now slot answer none s q = same-Hushed s.streams q
answer_at-Hushed now slot answer (some (id, ordinal)) s q =
    elim (Option-cases (get? id s.streams)) [
      | inl e ↦ rw (e, answer_at) (same-Hushed s.streams q)
      | inr (t, e) ↦ rw (e, answer_at) (settle-Hushed now slot answer id t ordinal s q e)
    ]

opened-Hushed :
    (id : ℕ) (t : Sender) (s : Session)
    → Quiets s
    → IsQuiet id t
    → Hushed s.streams (if has id s.streams then s else set_stream id t s).streams
opened-Hushed id t s q quiet = elim (Bool-cases (has id s.streams)) [
  | inl there ↦ rw there (same-Hushed s.streams q)
  | inr absent ↦ rw absent (
    λ j x h. elim (Bool-cases (id == j)) [
      | inl same ↦ absurd (
          ground (
            arith,
            absent,
            has_of_get? id s.streams {v = x}
                (subst (λ i. get? i s.streams ≡ some x) (sym ((==_iff id j).0 same)) h),
          ))
      | inr other ↦ (x, rw (get?-put, other) h, λ k. (refl, k))
    ],
    Each-put IsQuiet id t s.streams q quiet,
  )
]

step-Hushed :
    (now : ℕ) (event : Event) (s : Session)
    → Quiets s
    → Hushed s.streams (step now event s).1.streams
unfolding step
step-Hushed now (opened id window block_size flush) s q =
    opened-Hushed id (new window block_size flush) s q (λ sent. absurd (ground (arith, sent)), tt)
step-Hushed now (answered slot answer) s q =
    answer_at-Hushed now slot answer (get? slot s.outstanding) s q
step-Hushed now reclaim_fired s q =
    on-Hushed s.streams s.streams _ (same-Hushed s.streams q) (reclaim_fires-AllWentOn now s)
step-Hushed now (wrote id bytes) s q = on_stream-Calm now (wrote id bytes) id s q
step-Hushed now (resumed id) s q = on_stream-Calm now (resumed id) id s q
step-Hushed now (close_called id) s q = on_stream-Calm now (close_called id) id s q
step-Hushed now (close_woken id) s q = on_stream-Calm now (close_woken id) id s q
step-Hushed now (close_reply id answer) s q = on_stream-Calm now (close_reply id answer) id s q
step-Hushed now (aborted_with id reason) s q = on_stream-Calm now (aborted_with id reason) id s q
step-Hushed now (closed_at_peer id) s q = on_stream-Calm now (closed_at_peer id) id s q

-- The session after each of some events, each with its time.
abbrev pub steps : List (ℕ × Event) → Session → Session
steps [] s = s
steps ((now, event) ∷ events) s = steps events (step now event s).1

silent_steps :
    (events : List (ℕ × Event)) (s : Session) (id : ℕ) (t : Sender)
    → Quiets s
    → get? id s.streams ≡ some t
    → IsStopped t
    → (u : Sender) × (get? id (steps events s).streams ≡ some u) × (u.wire ≡ t.wire)
silent_steps [] s id t q e stopped = (t, e, refl)
silent_steps ((now, event) ∷ events) s id t q e stopped =
    let rest =
      silent_steps events (step now event s).1 id (stepped.0 id t e).0 stepped.1
        (stepped.0 id t e).1 first.1 in
    (rest.0, rest.1, rest.2 ∙ first.0)
  where
    stepped : Hushed s.streams (step now event s).1.streams
    stepped = step-Hushed now event s q

    first : ((stepped.0 id t e).0.wire ≡ t.wire) × IsStopped (stepped.0 id t e).0
    first = (stepped.0 id t e).2 stopped

quiet_steps : (events : List (ℕ × Event)) (s : Session) → Quiets s → Quiets (steps events s)
quiet_steps [] s q = q
quiet_steps ((now, event) ∷ events) s q = quiet_steps events _ (step-Hushed now event s q).1

-- In a session that any events have led to from its start, once a stream has sent its `<close/>`, by
-- `close` or by `abort`, no later events put a block of it on the wire.
pub wire-steps :
    (limit park_floor_ms : ℕ) (earlier later : List (ℕ × Event)) (id : ℕ) (t : Sender)
    → get? id (steps earlier (new_session limit park_floor_ms)).streams ≡ some t
    → t.close_sent ≡ true
    → (u : Sender) × (get? id
          (steps later (steps earlier (new_session limit park_floor_ms))).streams
        ≡ some u)
      × (u.wire ≡ t.wire)
wire-steps limit park_floor_ms earlier later id t e sent =
    silent_steps later (steps earlier (new_session limit park_floor_ms)) id t quiet e
      ((quiet id t e).0 sent)
  where
    quiet : Quiets (steps earlier (new_session limit park_floor_ms))
    quiet =
        quiet_steps earlier (new_session limit park_floor_ms) (λ k x h. absurd (ground (arith, h)))
