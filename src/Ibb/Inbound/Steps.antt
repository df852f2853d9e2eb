-- ===== src/Ibb/Inbound/Steps.antt =====
-- What a handler or a timer does to one stream keeps what holds of a manager.
use xmpp_httpx.Prelude.{
  ℕ, ◌+◌, ◌%◌, ◌<◌, ◌≡◌, refl, sym, subst, Option, none, some, Option-cases, Bool, true, false,
  ◌&&◌, not, inl, inr, ◌==◌, if◌then◌else◌, arith, length,
}
use xmpp_httpx.Errors.{ErrorCode, timeout}
use xmpp_httpx.JsMap.{text_key, get?}
use xmpp_httpx.Base64.{Text}
use xmpp_httpx.Bytes.Buffer.{Bytes}
use xmpp_httpx.Ibb.Windows.{Integer}
use xmpp_httpx.Ibb.Inbound.{
  InStream, End, Manager, finish_in_stream, armed, arm_idle_timer, key_of, text_of, filled, Reply,
}
use xmpp_httpx.Ibb.Inbound.Data.{
  Verdict, redelivered, mismatch, undecodable, taken, judge, tell_peer_close,
  retired as retired_state, take_bytes, wait, settle, follow, data_for, on_data, pull, read, cancel,
  close_for, follow_message, message_data_for, idle_fires, retire_inbound,
}
use xmpp_httpx.Ibb.Inbound.Registry.{
  IsSound, IsValid, changed_at, set_stream-IsValid, if-IsValid, finished-IsValid,
  finish_in_stream-IsValid,
}

pub armed_timer :
    (manager_ms window : ℕ) (stalled : Bool) (s : InStream)
    → IsSound s
    → s.finished ≡ true
    → (armed manager_ms window stalled s).idle_timer ≡ none
armed_timer manager_ms window stalled s v f = rw (f, armed) (v.no_timer f)

pub armed-IsSound :
    (manager_ms window : ℕ) (stalled : Bool) (s : InStream)
    → IsSound s
    → IsSound (armed manager_ms window stalled s)
armed-IsSound manager_ms window stalled s v = record {
  no_timer = armed_timer manager_ms window stalled s v;
  no_waiters = v.no_waiters;
  in_range = v.in_range;
}

pub arm_idle_timer-IsValid :
    (id : ℕ) (stalled : Bool) (m : Manager) → IsValid m → IsValid (arm_idle_timer id stalled m)
arm_idle_timer-IsValid id stalled m v =
    set_stream-IsValid id (armed m.idle_timeout_ms m.receive_window stalled (m.heap id)) m
      (armed-IsSound m.idle_timeout_ms m.receive_window stalled (m.heap id) (v.sound id)) refl
      (λ a. a) v

pub wait-IsValid :
    (handler : ℕ) (key : Text) (id : ℕ) (m : Manager)
    → (m.heap id).finished ≡ false
    → IsValid m
    → IsValid (wait handler key id m)
wait-IsValid handler key id m live v =
    set_stream-IsValid id _ m
      (record {
        no_timer = armed_timer m.idle_timeout_ms m.receive_window true (m.heap id) (v.sound id);
        no_waiters = λ f. absurd (ground (arith, f, live));
        in_range = (v.sound id).in_range;
      })
      refl (λ a. a) v

pub if_reply-IsValid :
    (b : Bool) (x y : Reply × Manager)
    → (b ≡ true → IsValid x.1)
    → (b ≡ false → IsValid y.1)
    → IsValid (if b then x else y).1
if_reply-IsValid true x y v w = v refl
if_reply-IsValid false x y v w = w refl

pub not_and : (a b : Bool) → (not a && b) ≡ true → a ≡ false
not_and a b h = ground (arith, h)

pub settle-IsValid :
    (handler : ℕ) (key : Text) (id : ℕ) (m : Manager)
    → IsValid m
    → IsValid (settle handler key id m).1
unfolding settle
settle-IsValid handler key id m v =
    if_reply-IsValid _ _ _ (λ full. wait-IsValid handler key id m (not_and _ _ full) v)
      (λ free.
        if-IsValid (length (m.heap id).pull_waiters == 0) (arm_idle_timer id false m) m
          (arm_idle_timer-IsValid id false m v) v)

pub wraps : (n : ℕ) → n % 65536 < 65536
wraps n = omega arith

pub take_bytes-IsValid :
    (id : ℕ) (bytes : Bytes) (m : Manager) → IsValid m → IsValid (take_bytes id bytes m)
take_bytes-IsValid id bytes m v =
    set_stream-IsValid id _ m
      (record {
        no_timer = armed_timer m.idle_timeout_ms m.receive_window false (m.heap id) (v.sound id);
        no_waiters = (v.sound id).no_waiters;
        in_range = wraps ((m.heap id).expected_seq + 1);
      })
      refl (λ a. a) v

pub follow-IsValid :
    (verdict : Verdict) (key : Text) (id : ℕ) (m : Manager)
    → (m.heap id).key ≡ key
    → IsValid m
    → IsValid (follow verdict key id m).1
unfolding follow
follow-IsValid redelivered key id m its_key v = v
follow-IsValid mismatch key id m its_key v = finish_in_stream-IsValid key id _ m its_key v
follow-IsValid undecodable key id m its_key v = finish_in_stream-IsValid key id _ m its_key v
follow-IsValid (taken bytes) key id m its_key v =
    settle-IsValid m.next_handler key id _ (take_bytes-IsValid id bytes m v)

pub data_for-IsValid :
    (key : Text) (seq : Option Integer) (payload : Text) (m : Manager)
    → IsValid m
    → IsValid (data_for key seq payload m).1
unfolding data_for
data_for-IsValid key seq payload m v = elim (Option-cases (get? key m.in_streams)) [
  | inl absent ↦ rw (absent, data_for) v
  | inr (id, found) ↦
      rw (found, data_for)
        (if_reply-IsValid (m.heap id).finished _ _ (λ f. v)
          (λ live.
            follow-IsValid (judge seq payload (m.heap id).expected_seq) key id m
              (v.own_key key id found) v))
]

pub on_data-IsValid :
    (integer : Option Text → Option Integer) (from sid seq : Option Text) (payload : Text)
    (m : Manager)
    → IsValid m
    → IsValid (on_data integer from sid seq payload m).1
unfolding on_data
on_data-IsValid integer from sid seq payload m v =
    if_reply-IsValid (not (filled from && filled sid)) _ _ (λ _. v)
      (λ _. data_for-IsValid (key_of (text_of from) (text_of sid)) (integer seq) payload m v)

pub follow_message-IsValid :
    (verdict : Verdict) (key : Text) (id : ℕ) (m : Manager)
    → (m.heap id).key ≡ key
    → IsValid m
    → IsValid (follow_message verdict key id m)
unfolding follow_message
follow_message-IsValid redelivered key id m its_key v = v
follow_message-IsValid mismatch key id m its_key v = finish_in_stream-IsValid key id _ m its_key v
follow_message-IsValid undecodable key id m its_key v =
    finish_in_stream-IsValid key id _ m its_key v
follow_message-IsValid (taken bytes) key id m its_key v =
    let after = take_bytes-IsValid id bytes m v in
    if-IsValid _ _ _
      (finish_in_stream-IsValid key id _ (take_bytes id bytes m)
        (changed_at (λ t. t.key ≡ key) id id _ m.heap (λ _. its_key) (λ _. its_key)) after)
      after

pub message_data_for-IsValid :
    (key : Text) (seq : Option Integer) (payload : Text) (m : Manager)
    → IsValid m
    → IsValid (message_data_for key seq payload m)
unfolding message_data_for
message_data_for-IsValid key seq payload m v = elim (Option-cases (get? key m.in_streams)) [
  | inl absent ↦ rw (absent, message_data_for) v
  | inr (id, found) ↦
      rw (found, message_data_for)
        (if-IsValid (m.heap id).finished _ _ v (
          follow_message-IsValid (judge seq payload (m.heap id).expected_seq) key id m
            (v.own_key key id found) v))
]

-- A change of neither the timer, the waiters, the sequence number nor `finished`.
pub kept-IsSound :
    (m : Manager) (id : ℕ) (e : End) (c : Bool) (q : ℕ)
    → IsValid m
    → IsSound (record (m.heap id) { end = e; cancelled = c; queued = q })
kept-IsSound m id e c q v = record {
  no_timer = (v.sound id).no_timer;
  no_waiters = (v.sound id).no_waiters;
  in_range = (v.sound id).in_range;
}

pub cancel-IsValid : (id : ℕ) (m : Manager) → IsValid m → IsValid (cancel id m)
unfolding cancel
cancel-IsValid id m v =
    if-IsValid (m.heap id).duplex _ _
      (set_stream-IsValid id _ m (kept-IsSound m id _ _ _ v) refl (λ a. a) v)
      (finish_in_stream-IsValid (m.heap id).key id none _
        (changed_at (λ t. t.key ≡ (m.heap id).key) id id _ m.heap (λ _. refl) (λ _. refl))
        (set_stream-IsValid id _ m (kept-IsSound m id _ _ _ v) refl (λ a. inr refl) v))

pub tell_peer_close-IsValid : (id : ℕ) (m : Manager) → IsValid m → IsValid (tell_peer_close id m)
tell_peer_close-IsValid id m v = if-IsValid (m.heap id).duplex _ _ v v

pub close_for-IsValid : (key : Text) (m : Manager) → IsValid m → IsValid (close_for key m).1
unfolding close_for
close_for-IsValid key m v = elim (Option-cases (get? key m.in_streams)) [
  | inl absent ↦ rw (absent, close_for) v
  | inr (id, found) ↦
      rw (found, close_for)
        (if_reply-IsValid (m.heap id).finished _ _ (λ _. tell_peer_close-IsValid id m v)
          (λ _. tell_peer_close-IsValid id _ (
            finish_in_stream-IsValid key id none _
              (changed_at (λ t. t.key ≡ key) id id _ m.heap (λ _. v.own_key key id found)
                (λ _. v.own_key key id found))
              (set_stream-IsValid id _ m (kept-IsSound m id _ _ _ v) refl (λ a. a) v))))
]

pub pull-IsValid : (id : ℕ) (m : Manager) → IsValid m → IsValid (pull id m)
unfolding pull
pull-IsValid id m v =
    set_stream-IsValid id _ m
      (record {
        no_timer = armed_timer m.idle_timeout_ms m.receive_window false (m.heap id) (v.sound id);
        no_waiters = λ _. refl;
        in_range = (v.sound id).in_range;
      })
      refl (λ a. a) v

pub read-IsValid : (id n : ℕ) (m : Manager) → IsValid m → IsValid (read id n m)
unfolding read
read-IsValid id n m v = set_stream-IsValid id _ m (kept-IsSound m id _ _ _ v) refl (λ a. a) v

pub idle_fires-IsValid : (id : ℕ) (m : Manager) → IsValid m → IsValid (idle_fires id m)
unfolding idle_fires
idle_fires-IsValid id m v = elim (Option-cases (m.heap id).idle_timer) [
  | inl no_timer ↦
      subst
        (λ o.
          IsValid
            (elim o [ none ↦ m | some ms ↦ finish_in_stream (m.heap id).key id (some timeout) m ]))
        (sym no_timer) v
  | inr (ms, set) ↦
      subst
        (λ o.
          IsValid
            (elim o [ none ↦ m | some ms ↦ finish_in_stream (m.heap id).key id (some timeout) m ]))
        (sym set) (finish_in_stream-IsValid (m.heap id).key id (some timeout) m refl v)
]

pub retire_inbound-IsValid :
    (error : Option ErrorCode) (keep : Bool) (id : ℕ) (m : Manager)
    → IsValid m
    → IsValid (retire_inbound error keep id m)
unfolding retire_inbound
retire_inbound-IsValid error keep id m v =
    let is_sound : IsSound (retired_state error (m.heap id)) = record {
      no_timer = λ _. refl;
      no_waiters = λ _. refl;
      in_range = (v.sound id).in_range;
    } in
    if-IsValid (m.heap id).finished _ _ v (
      if-IsValid keep _ _ (set_stream-IsValid id _ m is_sound refl (λ a. inr refl) v)
        (finished-IsValid (m.heap id).key id _ m refl refl is_sound v))
