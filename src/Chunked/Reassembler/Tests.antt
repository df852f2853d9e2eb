-- ===== src/Chunked/Reassembler/Tests.antt =====
-- The reassembler on concrete chunks.
use xmpp_httpx.Prelude.{◌≡◌, refl, List, [], ◌∷◌, ◌++◌, true, false, if◌then◌else◌}
use xmpp_httpx.Errors.{stream_error}
use xmpp_httpx.Base64.{codes, decode_base64, digit_value}
use xmpp_httpx.Chunked.Reassembler.{
  new, closed, errored, push, push_alive, reset_idle_timer, accept, accept_decoded, store, drain,
  drain_loop, take_entry, finish, abort,
}
use xmpp_httpx.Chunked.Reassembler.Invariant.{IsValid, waiting, new-IsWaiting}
use xmpp_httpx.Chunked.Reassembler.Step.{
  Event, chunk, run, step, step-IsValid, run-ends_once, cancelled_by_reader,
}

-- "AQI=" is 1 2, "Aw==" is 3.
abbrev swapped : List Event
swapped =
    chunk 1 true (codes "Aw==") ∷ chunk 0 false (codes "AQI=") ∷ chunk 0 false (codes "AQI=") ∷ []

swapped_closes :
    ((run (new 100) swapped).end ≡ closed)
    × ((run (new 100) swapped).out ≡ (1 ∷ 2 ∷ []) ∷ (3 ∷ []) ∷ [])
unfolding run step push push_alive reset_idle_timer accept_decoded accept store drain drain_loop
    take_entry finish decode_base64 digit_value
swapped_closes = (refl, refl)

duplicate_errors :
    (run (new 100) (chunk 1 false (codes "Aw==") ∷ chunk 1 false (codes "Aw==") ∷ [])).end
    ≡ errored stream_error
unfolding run step push push_alive reset_idle_timer accept_decoded accept store drain drain_loop
    take_entry finish abort decode_base64 digit_value
duplicate_errors = refl

step-IsValid_example : IsValid (step (new 100) (chunk 1 true (codes "Aw==")))
step-IsValid_example =
    step-IsValid (new 100) (chunk 1 true (codes "Aw==")) (waiting (new-IsWaiting 100))

-- The stream closes with chunks left to read, and is then cancelled.
run-ends_once_example :
    ((run (new 100) swapped).finish_calls ≡ (if (run (new 100) swapped).finished then 1 else 0))
    × (run (new 100) (swapped ++ (cancelled_by_reader ∷ [])) ≡ (
        if (run (new 100) swapped).finished
        then run (new 100) swapped
        else run (run (new 100) swapped) (cancelled_by_reader ∷ [])))
run-ends_once_example = run-ends_once 100 swapped (cancelled_by_reader ∷ [])
