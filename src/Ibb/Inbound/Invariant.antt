-- ===== src/Ibb/Inbound/Invariant.antt =====
-- Every event keeps what holds of the receiving side of a manager.
use xmpp_httpx.Prelude.{
  ℕ, ◌≡◌, refl, ap, ◌∙◌, List, [], ◌∷◌, Option, some, Bool, true, false, ◌&&◌, not, Bool-cases, inl,
  inr, if◌then◌else◌, arith,
}
use xmpp_httpx.Errors.{ErrorCode, aborted}
use xmpp_httpx.JsMap.{text_key, get?, has, DistinctKeys, delete, has_of_get?}
use xmpp_httpx.Base64.{Text}
use xmpp_httpx.Ibb.Windows.{Integer}
use xmpp_httpx.Ibb.Inbound.{
  Manager, finish_in_stream, expectation_times_out, parked_open_times_out, key_of, text_of, filled,
}
use xmpp_httpx.Ibb.Inbound.Data.{resume, on_close, handle_message_data, finish_all, close_manager}
use xmpp_httpx.Ibb.Inbound.Events.{
  Event, opened, data_arrived, message_arrived, close_arrived, expected, duplex_opened,
  expectation_timed_out, parked_open_timed_out, resumed, pulled, cancelled, idle_fired,
  tombstone_removed, has_read, retired, released, handle, new,
}
use xmpp_httpx.Ibb.Inbound.Registry.{
  IsValid, changed_at, if-IsValid, drop-IsValid, finish_in_stream-IsValid,
}
use xmpp_httpx.Ibb.Inbound.Steps.{
  if_reply-IsValid, settle-IsValid, on_data-IsValid, message_data_for-IsValid, cancel-IsValid,
  close_for-IsValid, pull-IsValid, read-IsValid, idle_fires-IsValid, retire_inbound-IsValid,
}
use xmpp_httpx.Ibb.Inbound.Openings.{
  waiting-IsValid, still, expect-IsValid, open_duplex-IsValid, on_open-IsValid, kept_out,
}

-- Every stream of the list is registered under its key, or has that key all the same.
abbrev HaveKeys : List (Text × ℕ) → Manager → Type 0
HaveKeys [] m = Unit
HaveKeys ((key, id) ∷ entries) m = ((m.heap id).key ≡ key) × HaveKeys entries m

HaveKeys-same :
    (entries : List (Text × ℕ)) (m n : Manager)
    → ((id : ℕ) → (n.heap id).key ≡ (m.heap id).key)
    → HaveKeys entries m
    → HaveKeys entries n
HaveKeys-same [] m n same h = tt
HaveKeys-same ((key, id) ∷ entries) m n same (h, hs) =
    (same id ∙ h, HaveKeys-same entries m n same hs)

finish_in_stream_key :
    (key : Text) (id : ℕ) (error : Option ErrorCode) (m : Manager) (j : ℕ)
    → ((finish_in_stream key id error m).heap j).key ≡ (m.heap j).key
unfolding finish_in_stream
finish_in_stream_key key id error m j = either (m.heap id).finished _ _ refl (
    changed_at (λ t. t.key ≡ (m.heap j).key) id j _ m.heap (λ e. ap (λ i. (m.heap i).key) e)
      (λ d. refl))
  where
    either :
        (b : Bool) (x y : Manager)
        → (x.heap j).key ≡ (m.heap j).key
        → (y.heap j).key ≡ (m.heap j).key
        → ((if b then x else y).heap j).key ≡ (m.heap j).key
    either true x y h k = h
    either false x y h k = k

finish_all-IsValid :
    (entries : List (Text × ℕ)) (m : Manager)
    → HaveKeys entries m
    → IsValid m
    → IsValid (finish_all entries m)
unfolding finish_all
finish_all-IsValid [] m h v = v
finish_all-IsValid ((key, id) ∷ entries) m (h, hs) v =
    finish_all-IsValid entries _
      (HaveKeys-same entries m _ (finish_in_stream_key key id (some aborted) m) hs)
      (finish_in_stream-IsValid key id (some aborted) m h v)

registered-HaveKeys :
    (streams : List (Text × ℕ)) (m : Manager)
    → DistinctKeys streams
    → ((key : Text) (id : ℕ) → get? key streams ≡ some id → (m.heap id).key ≡ key)
    → HaveKeys streams m
registered-HaveKeys [] m d own = tt
registered-HaveKeys ((key, id) ∷ streams) m (fresh, d) own = (
  own key id (rw ((text_key.same_iff key key).1 refl) refl),
  registered-HaveKeys streams m d (λ k j h. own k j (elim (Bool-cases (text_key.same key k)) [
    | inl same ↦ absurd (
        ground (
          arith,
          fresh,
          has_of_get? k streams h,
          ap (λ x. has x streams) ((text_key.same_iff key k).0 same),
        ))
    | inr differ ↦ rw differ h
  ])),
)

close_manager-IsValid : (m : Manager) → IsValid m → IsValid (close_manager m)
unfolding close_manager
close_manager-IsValid m v =
    let after =
      finish_all-IsValid m.in_streams m (registered-HaveKeys m.in_streams m v.distinct v.own_key)
        v in
    record {
      sound = after.sound;
      distinct = after.distinct;
      created = after.created;
      own_key = after.own_key;
      answers = after.answers;
      no_stream = after.no_stream;
      no_wish = λ key h. refl;
    }

-- Every event keeps the invariant of the receiving side: a registered stream stands under its own
-- key and is live or a tombstone, so that data for it is answered with a result or an error of its
-- own; a finished stream has no timer and nobody waiting in it; the expected sequence number is
-- below 65536; and no key has a parked `<open/>` together with a stream or an expectation.
pub handle-IsValid :
    (integer : Option Text → Option Integer) (m : Manager) (event : Event)
    → IsValid m
    → IsValid (handle integer m event)
unfolding handle resume expectation_times_out parked_open_times_out on_close handle_message_data
handle-IsValid integer m (opened from sid block_size) v =
    on_open-IsValid integer from sid block_size m v
handle-IsValid integer m (data_arrived from sid seq payload) v =
    on_data-IsValid integer from sid seq payload m v
handle-IsValid integer m (message_arrived from sid seq payload) v =
    if-IsValid (not (filled from && filled sid)) _ _ v
      (message_data_for-IsValid (key_of (text_of from) (text_of sid)) (integer seq) payload m v)
handle-IsValid integer m (close_arrived from sid) v =
    if_reply-IsValid (not (filled from && filled sid)) _ _ (λ _. v)
      (λ _. close_for-IsValid (key_of (text_of from) (text_of sid)) m v)
handle-IsValid integer m (expected key wish) v = expect-IsValid key wish m v
handle-IsValid integer m (duplex_opened key block_size idle) v =
    open_duplex-IsValid key block_size idle m v
handle-IsValid integer m (expectation_timed_out key) v =
    waiting-IsValid m.parked_opens (delete key m.expectations) m v.no_stream
      (λ k h. kept_out key k m.expectations (v.no_wish k h)) v
handle-IsValid integer m (parked_open_timed_out key) v =
    waiting-IsValid (delete key m.parked_opens) m.expectations m
      (λ k h. v.no_stream k (still key k m.parked_opens h))
      (λ k h. v.no_wish k (still key k m.parked_opens h)) v
handle-IsValid integer m (resumed handler) v =
    settle-IsValid handler (m.handlers handler).key (m.handlers handler).stream _ v
handle-IsValid integer m (pulled id) v = pull-IsValid id m v
handle-IsValid integer m (cancelled id) v = cancel-IsValid id m v
handle-IsValid integer m (idle_fired id) v = idle_fires-IsValid id m v
handle-IsValid integer m (tombstone_removed id) v = drop-IsValid (m.heap id).key id m v
handle-IsValid integer m (has_read id n) v = read-IsValid id n m v
handle-IsValid integer m (retired error keep id) v = retire_inbound-IsValid error keep id m v
handle-IsValid integer m released v = close_manager-IsValid m v

pub new-IsValid : (idle_timeout_ms window : ℕ) → IsValid (new idle_timeout_ms window)
new-IsValid idle_timeout_ms window = record {
  sound = λ id. record { no_timer = λ _. refl; no_waiters = λ _. refl; in_range = omega arith };
  distinct = tt;
  created = λ key id h. absurd (ground (arith, h));
  own_key = λ key id h. absurd (ground (arith, h));
  answers = λ key id h. absurd (ground (arith, h));
  no_stream = λ key h. refl;
  no_wish = λ key h. refl;
}
