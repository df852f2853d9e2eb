-- ===== src/Chunked/Reassembler/Step.antt =====
-- A reassembler under everything that can happen to it.
use xmpp_httpx.Prelude.{
  ℕ, ◌≡◌, ◌≢◌, refl, sym, ap, subst, ◌∙◌, List, [], ◌∷◌, ◌++◌, Bool, true, if◌then◌else◌,
}
use xmpp_httpx.Errors.{timeout}
use xmpp_httpx.Base64.{Text}
use xmpp_httpx.Chunked.Reassembler.{
  Reassembler, End, open_stream, closed, cancelled, errored, new, finish, abort, push, timer_fires,
  cancel, cancelled_end,
}
use xmpp_httpx.Chunked.Reassembler.Invariant.{
  IsValid, waiting, new-IsWaiting, done, IsDone, abort-IsDone, finish-IsDone, push_alive-IsValid,
  push-IsOpen, push-IsDone,
}

-- A chunk arrives, the idle timer is due, the consumer cancels the stream.
pub data Event : Type 0 where
  chunk : ℕ → Bool → Text → Event
  idle cancelled_by_reader : Event

unfoldable pub step : Reassembler → Event → Reassembler
step r (chunk nr last payload) = push nr last payload r
step r idle = timer_fires r
step r cancelled_by_reader = cancel r

unfoldable pub run : Reassembler → List Event → Reassembler
run r [] = r
run r (e ∷ es) = run (step r e) es

push-IsValid :
    (nr : ℕ) (last : Bool) (payload : Text) (r : Reassembler)
    → IsValid r
    → IsValid (push nr last payload r)
push-IsValid nr last payload r (waiting w) =
    rw (push-IsOpen nr last payload r w.is_open) (push_alive-IsValid nr last payload r w)
push-IsValid nr last payload r (done d) = rw (push-IsDone nr last payload r d) (done d)

timer_fires-IsValid : (r : Reassembler) → IsValid r → IsValid (timer_fires r)
unfolding timer_fires
timer_fires-IsValid r (waiting w) =
    subst (λ b. IsValid (if b then abort timeout r else r)) (sym w.is_open.armed)
      (done (abort-IsDone timeout r w.is_open))
timer_fires-IsValid r (done d) =
    subst (λ b. IsValid (if b then abort timeout r else r)) (sym d.disarmed) (done d)

cancelled_end-not-open : (e : End) → cancelled_end e ≢ open_stream
cancelled_end-not-open open_stream h = cc
cancelled_end-not-open closed h = cc
cancelled_end-not-open cancelled h = cc
cancelled_end-not-open (errored code) h = cc

cancelled_end-kept : (e : End) → e ≢ open_stream → cancelled_end e ≡ e
cancelled_end-kept open_stream h = absurd (h refl)
cancelled_end-kept closed h = refl
cancelled_end-kept cancelled h = refl
cancelled_end-kept (errored code) h = refl

finish-kept : (r : Reassembler) → r.finished ≡ true → finish r ≡ r
unfolding finish
finish-kept r f = rw f refl

-- A cancellation leaves a finished reassembler as it is.
cancel-kept : (r : Reassembler) → IsDone r → cancel r ≡ r
unfolding cancel
cancel-kept r d =
    finish-kept (record r { end = cancelled_end r.end }) d.finished
    ∙ ap (λ (e : End). record r { end = e }) (cancelled_end-kept r.end d.ended)

cancel-IsValid : (r : Reassembler) → IsValid r → IsValid (cancel r)
unfolding cancel
cancel-IsValid r (waiting w) = done (
    finish-IsDone (record r { end = cancelled_end r.end }) w.is_open.unfinished w.is_open.calls
      (cancelled_end-not-open r.end))
cancel-IsValid r (done d) = subst IsValid (sym (cancel-kept r d)) (done d)

-- Every event keeps the invariant: until the stream ends the buffered bytes are counted exactly
-- and within the limit, no chunk is held twice, and the timer is armed; from then on nothing is
-- held, no timer runs, and `onFinished` has been called once.
pub step-IsValid : (r : Reassembler) (e : Event) → IsValid r → IsValid (step r e)
unfolding step
step-IsValid r (chunk nr last payload) v = push-IsValid nr last payload r v
step-IsValid r idle v = timer_fires-IsValid r v
step-IsValid r cancelled_by_reader v = cancel-IsValid r v

pub run-IsValid : (r : Reassembler) (es : List Event) → IsValid r → IsValid (run r es)
unfolding run
run-IsValid r [] v = v
run-IsValid r (e ∷ es) v = run-IsValid (step r e) es (step-IsValid r e v)

step-IsDone : (r : Reassembler) (e : Event) → IsDone r → step r e ≡ r
unfolding step timer_fires
step-IsDone r (chunk nr last payload) d = push-IsDone nr last payload r d
step-IsDone r idle d = ap (λ b. if b then abort timeout r else r) d.disarmed
step-IsDone r cancelled_by_reader d = cancel-kept r d

run-IsDone : (r : Reassembler) (es : List Event) → IsDone r → run r es ≡ r
unfolding run
run-IsDone r [] d = refl
run-IsDone r (e ∷ es) d = ap (λ t. run t es) (step-IsDone r e d) ∙ run-IsDone r es d

run-append : (r : Reassembler) (es fs : List Event) → run r (es ++ fs) ≡ run (run r es) fs
unfolding run
run-append r [] fs = refl
run-append r (e ∷ es) fs = run-append (step r e) es fs

EndsOnce : Reassembler → List Event → Type 0
EndsOnce r fs =
    (r.finish_calls ≡ (if r.finished then 1 else 0))
    × (run r fs ≡ (if r.finished then r else run r fs))

IsValid-EndsOnce : (r : Reassembler) (fs : List Event) → IsValid r → EndsOnce r fs
unfolding EndsOnce
IsValid-EndsOnce r fs (waiting w) = (
  w.is_open.calls ∙ sym (ap (λ b. if b then 1 else 0) w.is_open.unfinished),
  sym (ap (λ b. if b then r else run r fs) w.is_open.unfinished),
)
IsValid-EndsOnce r fs (done d) = (
  d.called ∙ sym (ap (λ b. if b then 1 else 0) d.finished),
  run-IsDone r fs d ∙ sym (ap (λ b. if b then r else run r fs) d.finished),
)

-- Whatever chunks arrive, in whatever order and number, and whenever the timer is due or the
-- consumer cancels: a stream that has finished has called `onFinished` exactly once, one that has
-- not has never called it, and once it has finished no further events change anything.
pub run-ends_once :
    (limit : ℕ) (es fs : List Event)
    → ((run (new limit) es).finish_calls ≡ (if (run (new limit) es).finished then 1 else 0))
      × (run (new limit) (es ++ fs) ≡ (
          if (run (new limit) es).finished
          then run (new limit) es
          else run (run (new limit) es) fs))
unfolding EndsOnce
run-ends_once limit es fs =
    let (calls, after) =
      IsValid-EndsOnce (run (new limit) es) fs
        (run-IsValid (new limit) es (waiting (new-IsWaiting limit))) in
    (calls, run-append (new limit) es fs ∙ after)
