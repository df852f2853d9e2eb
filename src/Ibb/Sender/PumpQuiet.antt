-- ===== src/Ibb/Sender/PumpQuiet.antt =====
-- A pump sends nothing for a stream that is stopped.
use xmpp_httpx.Prelude.{
  ℕ, ◌-◌, ◌==◌, min, ◌≤◌, ◌<◌, ◌≡◌, refl, sym, subst, ◌∙◌, List, [], ◌∷◌, Option, none, some,
  Option-cases, Bool, true, false, Bool-cases, inl, inr, ltb, leb, ltb_false→le, arith, length,
}
use xmpp_httpx.JsMap.{nat_key, get?, put}
use xmpp_httpx.JsMap.Entries.{some-injective}
use xmpp_httpx.Bytes.Buffer.{
  Bytes, BlockBuffer, size, Taken, block, range_error, undefined_part, take_block, take_from, cut,
}
use xmpp_httpx.Ibb.Scheduler.{Sender, Session, Failure, has_block}
use xmpp_httpx.Ibb.Sender.{
  Turn, done, parked, out_of_fuel, take_failed, threw, sent, dispatch, error_of, took, send_block,
  after_send, reserve, Round, ends, goes_on, sent_round, reserved_round, open_round, usable_round,
  pump_round,
}
use xmpp_httpx.Ibb.Sender.Evolution.{
  IsStopped, WentOn, AllWentOn, all_stay, all_then, put-AllWentOn, granted_on,
  acquire_send_slot-AllWentOn,
}

-- A block that is taken leaves a smaller buffer, and none is taken from an empty one.
abbrev Smaller : ℕ → Taken → Type 0
Smaller bytes (block out rest) = (size rest ≤ bytes) × (0 < bytes)
Smaller bytes range_error = Unit
Smaller bytes undefined_part = Unit

take_from-Smaller :
    (n : ℕ) (parts : List Bytes) (bytes : ℕ) → 0 < bytes → Smaller bytes (take_from n parts bytes)
unfolding take_from cut
take_from-Smaller n [] bytes pos = tt
take_from-Smaller n (head ∷ rest) bytes pos = elim (Bool-cases (ltb (length head) n)) [
  | inl short ↦ rw short (omega arith, pos)
  | inr long ↦ rw long (omega arith, pos)
]

take_block-Smaller : (n : ℕ) (b : BlockBuffer) → Smaller b.bytes (take_block n b)
unfolding take_block
take_block-Smaller n b = elim (Bool-cases (n == 0)) [
  | inl none_wanted ↦ rw none_wanted tt
  | inr wanted ↦ rw wanted (elim (Bool-cases (ltb b.bytes n)) [
    | inl too_many ↦ rw too_many tt
    | inr enough ↦ rw enough (
        take_from-Smaller n b.parts b.bytes
          (positive n b.bytes wanted (ltb_false→le b.bytes n enough)))
  ])
]
  where
    positive : (n m : ℕ) → (n == 0) ≡ false → n ≤ m → 0 < m
    positive n m wanted le = ground (arith, wanted, le)

sent-WentOn :
    (bytes : Bytes) (rest : BlockBuffer) (t : Sender)
    → t.failed ≡ none
    → size rest ≤ size t.buffered
    → 0 < size t.buffered
    → WentOn t (sent bytes rest t)
sent-WentOn bytes rest t fine le pos = record {
  failed = refl;
  closed = refl;
  close_sent = refl;
  phase = refl;
  smaller = le;
  quiet = impossible;
}
  where
    impossible : IsStopped t → (sent bytes rest t).wire ≡ t.wire
    impossible (inl failed) = absurd (failed fine)
    impossible (inr (closed, empty)) = absurd (omega (arith, empty, pos))

-- The buffer of a closed stream is empty.
abbrev pub IsDrained : ℕ → List (ℕ × Sender) → Type 0
IsDrained id streams =
    (t : Sender) → get? id streams ≡ some t → t.closed ≡ true → size t.buffered ≡ 0

-- How a turn of the pump of a stream leaves the streams.
abbrev pub LeftOn : ℕ → List (ℕ × Sender) → Turn → Session → Type 0
LeftOn id before done s = AllWentOn before s.streams × IsDrained id s.streams
LeftOn id before parked s = AllWentOn before s.streams
LeftOn id before (threw error) s = AllWentOn before s.streams
LeftOn id before out_of_fuel s = AllWentOn before s.streams
LeftOn id before take_failed s = AllWentOn before s.streams

abbrev pub RoundOn : ℕ → List (ℕ × Sender) → Round → Type 0
RoundOn id before (ends turn s) = LeftOn id before turn s
RoundOn id before (goes_on s) = AllWentOn before s.streams

send_block-RoundOn :
    (now id : ℕ) (before : List (ℕ × Sender)) (t : Sender) (s : Session)
    → AllWentOn before s.streams
    → get? id s.streams ≡ some t
    → t.failed ≡ none
    → RoundOn id before (after_send s (send_block now id t s))
unfolding send_block dispatch
send_block-RoundOn now id before t s on e fine =
    case (take_block (min t.block_size (size t.buffered)) t.buffered)
      (take_block-Smaller (min t.block_size (size t.buffered)) t.buffered)
  where
    case :
        (taken : Taken)
        → Smaller (size t.buffered) taken
        → RoundOn id before (after_send s (took now id t s taken))
    case (block bytes rest) (le, pos) =
        all_then before s.streams (put id (sent bytes rest t) s.streams) on
          (put-AllWentOn id t _ s.streams e (sent-WentOn bytes rest t fine le pos))
    case range_error h = on
    case undefined_part h = on

reserved_round-RoundOn :
    (now id : ℕ) (t : Sender) (before : List (ℕ × Sender)) (reserved : Bool × Session)
    → get? id before ≡ some t
    → t.failed ≡ none
    → AllWentOn before reserved.1.streams
    → RoundOn id before (reserved_round now id reserved)
unfolding sent_round
reserved_round-RoundOn now id t before (false, s) e fine on = on
reserved_round-RoundOn now id t before (true, s) e fine on =
    rw ((on.0 id t e).1, sent_round)
      (send_block-RoundOn now id before (on.0 id t e).0 s on (on.0 id t e).1
        ((on.0 id t e).2.failed ∙ fine))

reserve-AllWentOn :
    (now id : ℕ) (t : Sender) (s : Session)
    → get? id s.streams ≡ some t
    → AllWentOn s.streams (reserve now id t s).1.streams
unfolding reserve
reserve-AllWentOn now id t s e = elim (Bool-cases (ltb 0 t.granted)) [
  | inl has_grant ↦ rw has_grant (put-AllWentOn id t _ s.streams e (granted_on (t.granted - 1) t))
  | inr no_grant ↦ rw no_grant (acquire_send_slot-AllWentOn now id s)
]

pub pump_round-RoundOn : (now id : ℕ) (s : Session) → RoundOn id s.streams (pump_round now id s)
unfolding pump_round
pump_round-RoundOn now id s = elim (Option-cases (get? id s.streams)) [
  | inl e ↦ rw (e, pump_round) (all_stay s.streams, λ t h closed. absurd (ground (arith, e, h)))
  | inr (t, e) ↦
      rw (e, pump_round)
        (elim (Bool-cases (has_block t)) [
          | inl more ↦ rw more (usable t e t.failed refl)
          | inr none_left ↦ rw none_left (
            all_stay s.streams,
            λ u h closed.
                empty u closed
                  (subst (λ x. has_block x ≡ false) (some-injective (sym e ∙ h)) none_left),
          )
        ])
]
  where
    empty : (u : Sender) → u.closed ≡ true → has_block u ≡ false → size u.buffered ≡ 0
    empty u closed none_left = ground (arith, closed, none_left)

    open_one :
        (t : Sender)
        → get? id s.streams ≡ some t
        → t.failed ≡ none
        → RoundOn id s.streams (open_round now id t s)
    open_one t e fine = elim (Bool-cases (leb t.window t.in_flight)) [
      | inl full ↦ rw full (all_stay s.streams)
      | inr room ↦ rw room (
          reserved_round-RoundOn now id t s.streams (reserve now id t s) e fine
            (reserve-AllWentOn now id t s e))
    ]

    unfailed :
        (t : Sender)
        → get? id s.streams ≡ some t
        → t.failed ≡ none
        → (peer : Bool) → RoundOn id s.streams (usable_round now id (error_of none peer) t s)
    unfailed t e fine true = all_stay s.streams
    unfailed t e fine false = open_one t e fine

    usable :
        (t : Sender)
        → get? id s.streams ≡ some t
        → (failed : Option Failure) → t.failed ≡ failed
        → RoundOn id s.streams (usable_round now id (error_of failed t.closed_by_peer) t s)
    usable t e none fine = unfailed t e fine t.closed_by_peer
    usable t e (some failure) failed = all_stay s.streams
