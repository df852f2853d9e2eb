-- ===== src/Ibb/Inbound/Registry.antt =====
-- What holds of the streams of a manager and of its three maps between two calls.
use xmpp_httpx.Prelude.{
  ℕ, ◌<◌, ◌≡◌, ◌≢◌, refl, sym, ap, ◌∙◌, List, [], Option, none, some, Option-cases, Bool, true,
  false, Bool-cases, inl, inr, ◌⊎◌, ◌==◌, ==_iff, if◌then◌else◌, arith,
}
use xmpp_httpx.Errors.{ErrorCode}
use xmpp_httpx.JsMap.{
  text_key, get?, has, DistinctKeys, DistinctKeys-delete, DistinctKeys-put_any, put, get?-put,
  get?-delete, has-put, has-delete,
}
use xmpp_httpx.Base64.{Text}
use xmpp_httpx.Ibb.Inbound.{
  InStream, IdleTimeout, Manager, Wish, set_stream, drop_in_stream, without_stream,
  finish_in_stream, create_in_stream,
}

-- A finished stream has no timer and no handler waits in it; its sequence number fits 16 bits.
pub record IsSound (s : InStream) : Type 0 where
  pub no_timer : s.finished ≡ true → s.idle_timer ≡ none
  pub no_waiters : s.finished ≡ true → s.pull_waiters ≡ []
  pub in_range : s.expected_seq < 65536

-- A stream that is registered is live, or a tombstone.
abbrev pub IsAnswering : InStream → Type 0
IsAnswering s = (s.finished ≡ false) ⊎ (s.cancelled ≡ true)

-- Every registered stream is one that was created, under its own key, and answers; an `<open/>` that
-- is parked belongs to no stream and to no expectation.
pub record IsRegistry (streams : List (Text × ℕ)) (opens : List (Text × ℕ))
    (wishes : List (Text × Wish)) (heap : ℕ → InStream) (next : ℕ) : Type 0 where
  pub sound : (id : ℕ) → IsSound (heap id)
  pub distinct : DistinctKeys streams
  pub created : (key : Text) (id : ℕ) → get? key streams ≡ some id → id < next
  pub own_key : (key : Text) (id : ℕ) → get? key streams ≡ some id → (heap id).key ≡ key
  pub answers : (key : Text) (id : ℕ) → get? key streams ≡ some id → IsAnswering (heap id)
  pub no_stream : (key : Text) → has key opens ≡ true → has key streams ≡ false
  pub no_wish : (key : Text) → has key opens ≡ true → has key wishes ≡ false

abbrev pub IsValid : Manager → Type 0
IsValid m = IsRegistry m.in_streams m.parked_opens m.expectations m.heap m.next_stream

-- One field of every stream, after a stream is changed.
pub changed_at {ℓ} :
    (P : InStream → Type ℓ) (id j : ℕ) (s : InStream) (heap : ℕ → InStream)
    → (id ≡ j → P s)
    → (id ≢ j → P (heap j))
    → P (if id == j then s else heap j)
changed_at P id j s heap new old = elim (Bool-cases (id == j)) [
  | inl same ↦ rw same (new ((==_iff id j).0 same))
  | inr differ ↦ rw differ (old (λ e. absurd (ground (arith, e, differ))))
]

-- A stream may change as long as it stays sound, keeps its key and goes on answering.
pub set_stream-IsValid :
    (id : ℕ) (s : InStream) (m : Manager)
    → IsSound s
    → s.key ≡ (m.heap id).key
    → (IsAnswering (m.heap id) → IsAnswering s)
    → IsValid m
    → IsValid (set_stream id s m)
set_stream-IsValid id s m is_sound same_key still v = record {
  sound = λ j. changed_at IsSound id j s m.heap (λ e. is_sound) (λ d. v.sound j);
  distinct = v.distinct;
  created = v.created;
  own_key = λ key j h.
      changed_at (λ t. t.key ≡ key) id j s m.heap
        (λ e. same_key ∙ v.own_key key id (h ∙ ap (λ i. some i) (sym e))) (λ d. v.own_key key j h);
  answers = λ key j h.
      changed_at IsAnswering id j s m.heap
        (λ e. still (v.answers key id (h ∙ ap (λ i. some i) (sym e)))) (λ d. v.answers key j h);
  no_stream = v.no_stream;
  no_wish = v.no_wish;
}

pub if-IsValid : (b : Bool) (x y : Manager) → IsValid x → IsValid y → IsValid (if b then x else y)
if-IsValid true x y v w = v
if-IsValid false x y v w = w

-- What a drop leaves registered: what was, but not the stream under its own key.
dropped :
    (key : Text) (id : ℕ) (streams : List (Text × ℕ)) (k : Text) (j : ℕ)
    → get? k (without_stream key id streams) ≡ some j
    → (get? k streams ≡ some j) × (k ≡ key → j ≢ id)
unfolding without_stream
dropped key id streams k j h = elim (Option-cases (get? key streams)) [
  | inl absent ↦
      let there : get? k streams ≡ some j = rw (absent, without_stream) at h in
      (there, λ e i. absurd (ground (arith, ap (λ x. get? x streams) e, absent, there)))
  | inr (registered, found) ↦ elim (Bool-cases (registered == id)) [
    | inl same ↦
        let gone = rw (found, same, without_stream) at h in
        let cases = get?-delete key k streams in
        elim (Bool-cases (text_key.same key k)) [
          | inl hit ↦ absurd (ground (arith, gone, cases, hit))
          | inr miss ↦ (
            ground (arith, gone, cases, miss),
            λ e i. absurd (ground (arith, miss, (text_key.same_iff key k).1 (sym e))),
          )
        ]
    | inr differ ↦
        let there : get? k streams ≡ some j = rw (found, differ, without_stream) at h in
        (there, λ e i. absurd (ground (arith, ap (λ x. get? x streams) e, found, there, differ, i)))
  ]
]

drop_has :
    (key : Text) (id : ℕ) (streams : List (Text × ℕ)) (k : Text)
    → has k streams ≡ false
    → has k (without_stream key id streams) ≡ false
unfolding without_stream
drop_has key id streams k h = elim (Option-cases (get? key streams)) [
  | inl absent ↦ rw (absent, without_stream) h
  | inr (registered, found) ↦ elim (Bool-cases (registered == id)) [
    | inl same ↦ rw (found, same, without_stream) (has-delete key k streams ∙ ground (arith, h))
    | inr differ ↦ rw (found, differ, without_stream) h
  ]
]

drop_distinct :
    (key : Text) (id : ℕ) (streams : List (Text × ℕ))
    → DistinctKeys streams
    → DistinctKeys (without_stream key id streams)
unfolding without_stream
drop_distinct key id streams d = elim (Option-cases (get? key streams)) [
  | inl absent ↦ rw (absent, without_stream) d
  | inr (registered, found) ↦ elim (Bool-cases (registered == id)) [
    | inl same ↦ rw (found, same, without_stream) (DistinctKeys-delete key streams d)
    | inr differ ↦ rw (found, differ, without_stream) d
  ]
]

-- A stream that is finished leaves the map under its own key.
pub finished-IsValid :
    (key : Text) (id : ℕ) (s : InStream) (m : Manager)
    → (m.heap id).key ≡ key
    → s.key ≡ key
    → IsSound s
    → IsValid m
    → IsValid (drop_in_stream key id (set_stream id s m))
finished-IsValid key id s m its_key new_key is_sound v =
    let left = dropped key id m.in_streams in
    let other : (k : Text) (j : ℕ) → get? k (without_stream key id m.in_streams) ≡ some j → id ≢ j =
      λ k j h e.
        (left k j h).1
          (sym (v.own_key k j (left k j h).0) ∙ ap (λ i. (m.heap i).key) (sym e) ∙ its_key)
          (sym e) in
    record {
      sound = λ j. changed_at IsSound id j s m.heap (λ e. is_sound) (λ d. v.sound j);
      distinct = drop_distinct key id m.in_streams v.distinct;
      created = λ k j h. v.created k j (left k j h).0;
      own_key = λ k j h.
          changed_at (λ t. t.key ≡ k) id j s m.heap (λ e. absurd (other k j h e))
            (λ d. v.own_key k j (left k j h).0);
      answers = λ k j h.
          changed_at IsAnswering id j s m.heap (λ e. absurd (other k j h e))
            (λ d. v.answers k j (left k j h).0);
      no_stream = λ k h. drop_has key id m.in_streams k (v.no_stream k h);
      no_wish = v.no_wish;
    }

pub drop-IsValid :
    (key : Text) (id : ℕ) (m : Manager) → IsValid m → IsValid (drop_in_stream key id m)
drop-IsValid key id m v =
    let left = dropped key id m.in_streams in
    record {
      sound = v.sound;
      distinct = drop_distinct key id m.in_streams v.distinct;
      created = λ k j h. v.created k j (left k j h).0;
      own_key = λ k j h. v.own_key k j (left k j h).0;
      answers = λ k j h. v.answers k j (left k j h).0;
      no_stream = λ k h. drop_has key id m.in_streams k (v.no_stream k h);
      no_wish = v.no_wish;
    }

pub finish_in_stream-IsValid :
    (key : Text) (id : ℕ) (error : Option ErrorCode) (m : Manager)
    → (m.heap id).key ≡ key
    → IsValid m
    → IsValid (finish_in_stream key id error m)
unfolding finish_in_stream
finish_in_stream-IsValid key id error m its_key v =
    if-IsValid (m.heap id).finished _ _ (drop-IsValid key id m v) (
      finished-IsValid key id _ m its_key its_key
        (record { no_timer = λ _. refl; no_waiters = λ _. refl; in_range = (v.sound id).in_range })
        v)

-- A new stream takes its key, where no `<open/>` is parked.
pub create_in_stream-IsValid :
    (key : Text) (block_size : ℕ) (idle : Option IdleTimeout) (duplex : Bool) (m : Manager)
    → has key m.parked_opens ≡ false
    → IsValid m
    → IsValid (create_in_stream key block_size idle duplex m)
unfolding create_in_stream
create_in_stream-IsValid key block_size idle duplex m unparked v =
    let id = m.next_stream in
    let one : (k : Text) (j : ℕ)
        → get? k (put key id m.in_streams) ≡ some j
        → ((key ≡ k) × (id ≡ j)) ⊎ (get? k m.in_streams ≡ some j) =
      λ k j h. elim (Bool-cases (text_key.same key k)) [
        | inl same ↦ inl (
          (text_key.same_iff key k).0 same,
          some_inj (sym (get?-put key k id m.in_streams ∙ rw same refl) ∙ h),
        )
        | inr differ ↦ inr (sym (get?-put key k id m.in_streams ∙ rw differ refl) ∙ h)
      ] in
    record {
      sound = λ j.
          changed_at IsSound id j _ m.heap
            (λ e. record {
              no_timer = λ f. absurd (ground (arith, f));
              no_waiters = λ _. refl;
              in_range = omega arith;
            })
            (λ d. v.sound j);
      distinct = DistinctKeys-put_any key id m.in_streams v.distinct;
      created = λ k j h. elim (one k j h) [
        | inl (same_key, same) ↦ omega (arith, same)
        | inr old ↦ omega (arith, v.created k j old)
      ];
      own_key = λ k j h. elim (one k j h) [
        | inl (same_key, same) ↦
            changed_at (λ t. t.key ≡ k) id j _ m.heap (λ _. same_key) (λ d. absurd (d same))
        | inr old ↦
            changed_at (λ t. t.key ≡ k) id j _ m.heap
              (λ e. absurd (omega (arith, e, v.created k j old))) (λ d. v.own_key k j old)
      ];
      answers = λ k j h. elim (one k j h) [
        | inl (same_key, same) ↦
            changed_at IsAnswering id j _ m.heap (λ _. inl refl) (λ d. absurd (d same))
        | inr old ↦ changed_at IsAnswering id j _ m.heap (λ _. inl refl) (λ d. v.answers k j old)
      ];
      no_stream = λ k h. has-put key k id m.in_streams ∙ elim (Bool-cases (text_key.same key k)) [
        | inl same ↦ absurd (
            ground (
              arith,
              unparked,
              h,
              ap (λ x. has x m.parked_opens) ((text_key.same_iff key k).0 same),
            ))
        | inr differ ↦ rw differ (v.no_stream k h)
      ];
      no_wish = v.no_wish;
    }
  where
    value : Option ℕ → ℕ
    value none = 0
    value (some n) = n

    some_inj : {a b : ℕ} → some a ≡ some b → a ≡ b
    some_inj e = ap value e
