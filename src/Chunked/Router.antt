-- ===== src/Chunked/Router.antt =====
-- The class `ChunkRouter` of src/transport/chunked.ts.
-- A reassembler is known by a number, its address in the heap, so that two registrations of one
-- object share its state. `hooks` of a reassembler are the keys that the chain of its `onFinished`
-- functions deletes.
pub mod Orphans
pub mod Accounting
pub mod Replay
pub mod Orders
mod Tests
use xmpp_httpx.Prelude.{
  ℕ, zero, suc, ◌+◌, ◌-◌, List, [], ◌∷◌, ◌++◌, map, Option, none, some, Bool, true, false, ◌&&◌,
  ◌||◌, not, ltb, leb, ◌==◌, if◌then◌else◌, length,
}
use xmpp_httpx.Errors.{aborted}
use xmpp_httpx.JsMap.{text_key, text_beq, get?, put, delete}
use xmpp_httpx.Base64.{Text}
use xmpp_httpx.Session.{bare_jid}
use xmpp_httpx.Chunked.Reassembler as Reassembler
use xmpp_httpx.Chunked.Reassembler.{Reassembler}

pub record OrphanChunk : Type 0 where
  pub nr : ℕ
  pub last : Bool
  pub payload : Text
  pub arrived_at : ℕ

abbrev pub orphan_max_total_payload : ℕ
orphan_max_total_payload = 524288

abbrev pub orphan_ttl_ms : ℕ
orphan_ttl_ms = 10000

-- A reassembler object as the router sees it.
pub record Receiver : Type 0 where
  pub stream_id : Text
  pub state : Reassembler
  pub hooks : List Text

abbrev pub Orphans : Type 0
Orphans = List (Text × List OrphanChunk)

pub record Router : Type 0 where
  pub refs : ℕ
  pub listening : Bool  -- whether the session calls the stanza handler
  pub expected : List (Text × ℕ)
  pub orphans : Orphans
  pub orphan_bytes : ℕ
  pub heap : ℕ → Receiver

-- The constructor, before the first `acquire`. `heap` are the objects that may be registered.
abbrev pub new : (ℕ → Receiver) → Router
new heap = record {
  refs = 0;
  listening = false;
  expected = [];
  orphans = [];
  orphan_bytes = 0;
  heap = heap;
}

abbrev pub set_at : ℕ → Receiver → (ℕ → Receiver) → ℕ → Receiver
set_at id receiver heap j = if id == j then receiver else heap j

abbrev pub delete_all : List Text → List (Text × ℕ) → List (Text × ℕ)
delete_all [] m = m
delete_all (key ∷ keys) m = delete key (delete_all keys m)

-- A call on the reassembler at an address. One that finishes it runs its `onFinished`.
unfoldable pub on_receiver : ℕ → (Reassembler → Reassembler) → Router → Router
on_receiver id f r =
    let receiver = r.heap id in
    let after = f receiver.state in
    record r {
      heap = set_at id (record receiver { state = after }) r.heap;
      expected =
          if after.finished && not receiver.state.finished
          then delete_all receiver.hooks r.expected
          else r.expected;
    }

unfoldable pub acquire : Router → Router
acquire r =
    let refs = r.refs + 1 in
    record r { refs = refs; listening = if refs == 1 then true else r.listening }

-- The loop of `release`, over the entries that were there when it began: aborting a reassembler
-- only takes entries out, and one that is gone is not visited.
unfoldable pub abort_loop : List (Text × ℕ) → Router → Router
abort_loop [] r = r
abort_loop ((key, id) ∷ more) r = elim (get? key r.expected) [
  | none ↦ abort_loop more r
  | some now ↦ abort_loop more (on_receiver now (Reassembler.abort aborted) r)
]

unfoldable pub close : Router → Router
close r = record (abort_loop r.expected r) { expected = []; orphans = []; orphan_bytes = 0 }

unfoldable pub release : Router → Router
release r =
    let released = record r { refs = r.refs - 1 } in
    if leb r.refs 1 then close (record released { listening = false }) else released

unfoldable pub key_of : Text → Text → Text
key_of peer stream_id = bare_jid peer ++ (b'\n' ∷ stream_id)

-- The orphans of a key go to their reassembler in the order in which they arrived.
unfoldable pub replay : ℕ → List OrphanChunk → Router → Router
replay id [] r = r
replay id (chunk ∷ chunks) r =
    let counted = record r { orphan_bytes = r.orphan_bytes - length chunk.payload } in
    replay id chunks (on_receiver id (Reassembler.push chunk.nr chunk.last chunk.payload) counted)

abbrev pub register : Text → ℕ → Router → Router
register key id r =
    let receiver = r.heap id in
    record r {
      expected = put key id r.expected;
      heap = set_at id (record receiver { hooks = key ∷ receiver.hooks }) r.heap;
    }

unfoldable pub expect : Text → ℕ → Router → Router
expect peer id r =
    let key = key_of peer (r.heap id).stream_id in
    let registered = register key id r in
    elim (get? key r.orphans) [
      | none ↦ registered
      | some buffered ↦ replay id buffered (record registered { orphans = delete key r.orphans })
    ]

-- `c.arrivedAt >= now - ORPHAN_TTL_MS`
abbrev pub is_kept : ℕ → OrphanChunk → Bool
is_kept now chunk = leb now (chunk.arrived_at + orphan_ttl_ms)

abbrev pub kept_of : ℕ → List OrphanChunk → List OrphanChunk
kept_of now [] = []
kept_of now (chunk ∷ chunks) =
    let kept = kept_of now chunks in if is_kept now chunk then chunk ∷ kept else kept

-- What is left of `#orphanBytes` when the chunks of a list that are too old are taken off it.
abbrev pub without_stale : ℕ → List OrphanChunk → ℕ → ℕ
without_stale now [] bytes = bytes
without_stale now (chunk ∷ chunks) bytes =
    without_stale now chunks (if is_kept now chunk then bytes else bytes - length chunk.payload)

abbrev pub with_list : Text → List OrphanChunk → Orphans → Orphans
with_list key [] rest = rest
with_list key (chunk ∷ chunks) rest = (key, chunk ∷ chunks) ∷ rest

-- The entries after a sweep, and the count after it.
abbrev pub swept : ℕ → Orphans → Orphans
swept now [] = []
swept now ((key, list) ∷ rest) =
    let later = swept now rest in
    if length (kept_of now list) == length list
    then (key, list) ∷ later
    else with_list key (kept_of now list) later

abbrev pub swept_bytes : ℕ → Orphans → ℕ → ℕ
swept_bytes now [] bytes = bytes
swept_bytes now ((key, list) ∷ rest) bytes =
    swept_bytes now rest
      (if length (kept_of now list) == length list then bytes else without_stale now list bytes)

unfoldable pub sweep_orphans : ℕ → Router → Router
sweep_orphans now r = record r {
  orphans = swept now r.orphans;
  orphan_bytes = swept_bytes now r.orphans r.orphan_bytes;
}

abbrev pub orphans_of : Text → Orphans → List OrphanChunk
orphans_of key m = elim (get? key m) [ none ↦ [] | some list ↦ list ]

unfoldable pub hold : Text → OrphanChunk → Router → Router
hold key chunk r =
    if ltb orphan_max_total_payload (r.orphan_bytes + length chunk.payload) then r else record r {
      orphans = put key (orphans_of key r.orphans ++ (chunk ∷ [])) r.orphans;
      orphan_bytes = r.orphan_bytes + length chunk.payload;
    }

-- `#bufferOrphan`, at the time that `Date.now()` returns.
unfoldable pub buffer_orphan : Text → OrphanChunk → Router → Router
buffer_orphan key chunk r = hold key chunk (sweep_orphans chunk.arrived_at r)

-- The end of `#handleStanza`, for a chunk under a key.
unfoldable pub route : Text → OrphanChunk → Router → Router
route key chunk r = elim (get? key r.expected) [
  | some id ↦ on_receiver id (Reassembler.push chunk.nr chunk.last chunk.payload) r
  | none ↦ buffer_orphan key chunk r
]

-- A stanza as far as the router reads it: the attributes of a message and of its chunk.
pub data Stanza : Type 0 where
  other : Stanza
  chunk_message : (from stream_id nr last : Option Text) → Text → Stanza

-- What JavaScript takes for false: an attribute that is missing or empty.
abbrev pub falsy : Option Text → Bool
falsy none = true
falsy (some t) = length t == 0

abbrev text_or_empty : Option Text → Text
text_or_empty none = []
text_or_empty (some t) = t

-- `chunk.attrs["last"] === "true" || chunk.attrs["last"] === "1"`
abbrev says_last : Option Text → Bool
says_last none = false
says_last (some t) = text_beq t (b't' ∷ b'r' ∷ b'u' ∷ b'e' ∷ []) || text_beq t (b'1' ∷ [])

-- `#handleStanza`. `integer` is `Number` of an attribute, where that is an integer that is not
-- negative.
unfoldable pub handle_stanza : (Option Text → Option ℕ) → ℕ → Stanza → Router → Router
handle_stanza integer now other r = r
handle_stanza integer now (chunk_message from stream_id nr last payload) r =
    if falsy from || falsy stream_id then r else elim (integer nr) [
      | none ↦ r
      | some n ↦
          route (key_of (text_or_empty from) (text_or_empty stream_id))
            (record { nr = n; last = says_last last; payload = payload; arrived_at = now }) r
    ]

-- What happens to a router: its own calls, a stanza that the session hands on, and what a
-- reassembler does on its own, its timer or a cancel.
pub data Event : Type 0 where
  acquired released : Event
  expected_from : Text → ℕ → Event
  stanza_at : ℕ → Stanza → Event
  timer_fired cancelled aborted_by : ℕ → Event

unfoldable pub handle_event : (Option Text → Option ℕ) → Router → Event → Router
handle_event integer r acquired = acquire r
handle_event integer r released = release r
handle_event integer r (expected_from peer id) = expect peer id r
handle_event integer r (stanza_at now stanza) =
    if r.listening then handle_stanza integer now stanza r else r
handle_event integer r (timer_fired id) = on_receiver id Reassembler.timer_fires r
handle_event integer r (cancelled id) = on_receiver id Reassembler.cancel r
handle_event integer r (aborted_by id) = on_receiver id (Reassembler.abort aborted) r
