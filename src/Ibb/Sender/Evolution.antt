-- ===== src/Ibb/Sender/Evolution.antt =====
-- What a pump and the scheduler leave of the streams: a stream that is stopped sends nothing.
use xmpp_httpx.Prelude.{
  ℕ, ◌==◌, ◌≤◌, ◌≡◌, ◌≢◌, refl, sym, subst, ap, ◌∙◌, List, [], ◌∷◌, none, some, Option-cases, Bool,
  true, Bool-cases, inl, inr, ◌⊎◌, ltb, arith, ==_iff,
}
use xmpp_httpx.JsMap.{nat_key, get?, put, get?-put}
use xmpp_httpx.JsMap.Entries.{some-injective}
use xmpp_httpx.Bytes.Buffer.{size}
use xmpp_httpx.Ibb.Scheduler.{
  Sender, Session, wants, reclaim_parked, offer, grant_loop, grant_send_slots, acquire_send_slot,
  release_send_slot, end_send_slot, reclaim_fires,
}

-- Nothing is left to send, and nothing may be added; or the stream failed.
abbrev pub IsStopped : Sender → Type 0
IsStopped t = (t.failed ≢ none) ⊎ ((t.closed ≡ true) × (size t.buffered ≡ 0))

-- A stream that went on without a call on it.
pub record WentOn (t u : Sender) : Type 0 where
  pub failed : u.failed ≡ t.failed
  pub closed : u.closed ≡ t.closed
  pub close_sent : u.close_sent ≡ t.close_sent
  pub phase : u.phase ≡ t.phase
  pub smaller : size u.buffered ≤ size t.buffered
  pub quiet : IsStopped t → u.wire ≡ t.wire

pub stays : (t : Sender) → WentOn t t
stays t = record {
  failed = refl;
  closed = refl;
  close_sent = refl;
  phase = refl;
  smaller = omega arith;
  quiet = λ h. refl;
}

pub IsStopped-WentOn : (t u : Sender) → WentOn t u → IsStopped t → IsStopped u
IsStopped-WentOn t u w (inl failed) = inl (λ e. failed (sym w.failed ∙ e))
IsStopped-WentOn t u w (inr (closed, empty)) =
    inr (w.closed ∙ closed, omega (arith, w.smaller, empty))

pub then_on : (t u v : Sender) → WentOn t u → WentOn u v → WentOn t v
then_on t u v w x = record {
  failed = x.failed ∙ w.failed;
  closed = x.closed ∙ w.closed;
  close_sent = x.close_sent ∙ w.close_sent;
  phase = x.phase ∙ w.phase;
  smaller = omega (arith, w.smaller, x.smaller);
  quiet = λ h. x.quiet (IsStopped-WentOn t u w h) ∙ w.quiet h;
}

-- The streams of the one map are those of the other, which went on.
abbrev pub AllWentOn : List (ℕ × Sender) → List (ℕ × Sender) → Type 0
AllWentOn before after =
    ((id : ℕ) (t : Sender)
      → get? id before ≡ some t
      → (u : Sender) × (get? id after ≡ some u) × WentOn t u)
    × ((id : ℕ) → get? id before ≡ none → get? id after ≡ none)

pub all_stay : (streams : List (ℕ × Sender)) → AllWentOn streams streams
all_stay streams = (λ id t e. (t, e, stays t), λ id e. e)

pub all_then : (a b c : List (ℕ × Sender)) → AllWentOn a b → AllWentOn b c → AllWentOn a c
all_then a b c (f, f_none) (g, g_none) = (
  λ id t e. (
    (g id (f id t e).0 (f id t e).1).0,
    (g id (f id t e).0 (f id t e).1).1,
    then_on t (f id t e).0 _ (f id t e).2 (g id (f id t e).0 (f id t e).1).2,
  ),
  λ id e. g_none id (f_none id e),
)

pub put-AllWentOn :
    (id : ℕ) (t u : Sender) (streams : List (ℕ × Sender))
    → get? id streams ≡ some t
    → WentOn t u
    → AllWentOn streams (put id u streams)
put-AllWentOn id t u streams e w = (
  λ j x h. elim (Bool-cases (id == j)) [
    | inl same ↦ (
      u,
      rw (get?-put, same) refl,
      subst (λ y. WentOn y u)
          (some-injective (sym e ∙ ap (λ i. get? i streams) ((==_iff id j).0 same) ∙ h)) w,
    )
    | inr other ↦ (x, rw (get?-put, other) h, stays x)
  ],
  λ j h. elim (Bool-cases (id == j)) [
    | inl same ↦
        absurd (ground (arith, h, subst (λ i. get? i streams ≡ some t) ((==_iff id j).0 same) e))
    | inr other ↦ rw (get?-put, other) h
  ],
)

pub granted_on : (g : ℕ) (t : Sender) → WentOn t (record t { granted = g })
granted_on g t = record {
  failed = refl;
  closed = refl;
  close_sent = refl;
  phase = refl;
  smaller = omega arith;
  quiet = λ h. refl;
}

offer-AllWentOn : (id : ℕ) (s : Session) → AllWentOn s.streams (offer id s).streams
unfolding offer
offer-AllWentOn id s = elim (Option-cases (get? id s.streams)) [
  | inl e ↦ rw (e, offer) (all_stay s.streams)
  | inr (t, e) ↦
      rw (e, offer)
        (elim (Bool-cases (wants t)) [
          | inl wanted ↦ rw wanted (put-AllWentOn id t _ s.streams e (granted_on _ t))
          | inr unwanted ↦ rw unwanted (all_stay s.streams)
        ])
]

grant_loop-AllWentOn :
    (queue : List ℕ) (s : Session) → AllWentOn s.streams (grant_loop queue s).streams
unfolding grant_loop
grant_loop-AllWentOn [] s = all_stay s.streams
grant_loop-AllWentOn (id ∷ queue) s = elim (Bool-cases (ltb s.send_in_flight s.limit)) [
  | inl free ↦ rw free (
      all_then _ _ _ (offer-AllWentOn id (record s { send_queue = queue }))
        (grant_loop-AllWentOn queue _))
  | inr full ↦ rw full (all_stay s.streams)
]

pub grant_send_slots-AllWentOn :
    (now : ℕ) (s : Session) → AllWentOn s.streams (grant_send_slots now s).streams
unfolding grant_send_slots
grant_send_slots-AllWentOn now s = grant_loop-AllWentOn s.send_queue s

reclaim_parked-AllWentOn :
    (now : ℕ) (s : Session) → AllWentOn s.streams (reclaim_parked now s).streams
unfolding reclaim_parked
reclaim_parked-AllWentOn now s = elim (Option-cases s.ack_latency) [
  | inl e ↦ rw (e, reclaim_parked) (all_stay s.streams)
  | inr (latency, e) ↦ rw (e, reclaim_parked) (all_stay s.streams)
]

pub release_send_slot-AllWentOn :
    (now : ℕ) (s : Session) → AllWentOn s.streams (release_send_slot now s).streams
unfolding release_send_slot
release_send_slot-AllWentOn now s = grant_send_slots-AllWentOn now _

pub acquire_send_slot-AllWentOn :
    (now id : ℕ) (s : Session) → AllWentOn s.streams (acquire_send_slot now id s).1.streams
unfolding acquire_send_slot
acquire_send_slot-AllWentOn now id s = elim (Bool-cases (ltb g.send_in_flight g.limit)) [
  | inl free ↦ rw free reached
  | inr full ↦ rw full reached
]
  where
    g : Session
    g = grant_send_slots now (reclaim_parked now s)

    reached : AllWentOn s.streams g.streams
    reached = all_then _ _ _ (reclaim_parked-AllWentOn now s) (grant_send_slots-AllWentOn now _)

pub end_send_slot-AllWentOn :
    (now slot : ℕ) (acked : Bool) (s : Session)
    → AllWentOn s.streams (end_send_slot now slot acked s).streams
unfolding end_send_slot
end_send_slot-AllWentOn now slot acked s = elim (Option-cases (get? slot s.counted)) [
  | inl e ↦ rw (e, end_send_slot) (all_stay s.streams)
  | inr (at, e) ↦ rw (e, end_send_slot) (release_send_slot-AllWentOn now _)
]

pub reclaim_fires-AllWentOn :
    (now : ℕ) (s : Session) → AllWentOn s.streams (reclaim_fires now s).streams
unfolding reclaim_fires
reclaim_fires-AllWentOn now s =
    all_then _ _ _ (reclaim_parked-AllWentOn now (record s { reclaim_timer = none }))
      (grant_send_slots-AllWentOn now _)
