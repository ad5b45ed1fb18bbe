-- ===== src/Session/Dedupe.antt =====
-- crates/peering/src/session.rs: the history of accepted messages and the messages under way, with which a peer's
-- session tells a repeated message from a new one.
pub mod History
pub mod Calls
pub mod Memory
pub mod Refinement
pub mod Waiters
mod Examples
use aurelia.Prelude.Words.{saturating_mul}
use aurelia.Prelude.{
  ℕ, ◌+◌, max, Option, none, some, List, [], ◌∷◌, ◌++◌, ltb, if◌then◌else◌, length,
}
use aurelia.Prelude.Maps.{Map, get, insert, remove, contains_key}
use aurelia.Ids.{AureliaError}

abbrev pub min_dedupe_history : ℕ
min_dedupe_history = 128

-- The sending end of a oneshot channel, and of the callis that is woken, are numbers.
pub record DedupeWaiter : Type 0 where
  pub tx : ℕ
  pub notify : Option ℕ

-- A set is a map without values.
pub record DedupeState : Type 0 where
  pub set : Map {0} Unit
  pub order : List ℕ
  pub pending : Map (List DedupeWaiter)

pub data DedupeDecision : Type 0 where
  ack : DedupeDecision
  error : AureliaError → DedupeDecision
  abandoned : DedupeDecision

pub data DedupeBegin : Type 0 where
  begin_new : DedupeBegin
  duplicate : DedupeDecision → DedupeBegin
  -- the channel of the waiter
  pending_duplicate : ℕ → DedupeBegin

-- What is sent to a waiter.
pub record Answer : Type 0 where
  pub waiter : DedupeWaiter
  pub decision : DedupeDecision

unfoldable pub new : DedupeState
new = record { set = []; order = []; pending = [] }

unfoldable pub clear : DedupeState → DedupeState
clear s = record { set = []; order = []; pending = [] }

-- On the configuration's send_queue_size.
unfoldable pub dedupe_limit : ℕ → ℕ
dedupe_limit send_queue_size = max (saturating_mul send_queue_size 2) min_dedupe_history

abbrev pub begin_pending :
    DedupeState → ℕ → DedupeWaiter → Option (List DedupeWaiter) → DedupeState × DedupeBegin
begin_pending s peer_msg_id waiter none =
    (record s { pending = insert s.pending peer_msg_id [] }, begin_new)
begin_pending s peer_msg_id waiter (some waiters) = (
  record s { pending = insert s.pending peer_msg_id (waiters ++ waiter ∷ []) },
  pending_duplicate waiter.tx,
)

unfoldable pub dedupe_begin : DedupeState → ℕ → DedupeWaiter → DedupeState × DedupeBegin
dedupe_begin s peer_msg_id waiter =
    if contains_key s.set peer_msg_id
    then (s, duplicate ack)
    else begin_pending s peer_msg_id waiter (get s.pending peer_msg_id)

-- The loop that forgets the oldest.
unfoldable pub evict : ℕ → Map {0} Unit → List ℕ → Map {0} Unit × List ℕ
evict limit ids [] = (ids, [])
evict limit ids (evicted ∷ order) =
    let rest = evict limit (remove ids evicted) order in
    if ltb limit (length (evicted ∷ order)) then rest else (ids, evicted ∷ order)

abbrev pub record_accepted : DedupeState → ℕ → ℕ → DedupeState
record_accepted s limit peer_msg_id =
    if contains_key s.set peer_msg_id
    then s
    else let (ids, order) =
        evict limit (insert s.set peer_msg_id tt) (s.order ++ peer_msg_id ∷ []) in
      record s { set = ids; order = order }

abbrev pub waiters_of : Option (List DedupeWaiter) → List DedupeWaiter
waiters_of none = []
waiters_of (some waiters) = waiters

unfoldable pub answer_all : DedupeDecision → List DedupeWaiter → List Answer
answer_all decision [] = []
answer_all decision (waiter ∷ waiters) =
    record { waiter = waiter; decision = decision } ∷ answer_all decision waiters

abbrev pub forget_pending : DedupeState → ℕ → DedupeState
forget_pending s peer_msg_id = record s { pending = remove s.pending peer_msg_id }

-- `none` is `Ok(())`.
unfoldable pub dedupe_complete :
    DedupeState → ℕ → ℕ → Option AureliaError → DedupeState × List Answer
dedupe_complete s send_queue_size peer_msg_id none = (
  record_accepted (forget_pending s peer_msg_id) (dedupe_limit send_queue_size) peer_msg_id,
  answer_all ack (waiters_of (get s.pending peer_msg_id)),
)
dedupe_complete s send_queue_size peer_msg_id (some err) =
    (forget_pending s peer_msg_id, answer_all (error err) (waiters_of (get s.pending peer_msg_id)))

unfoldable pub dedupe_abandon : DedupeState → ℕ → DedupeState × List Answer
dedupe_abandon s peer_msg_id =
    (forget_pending s peer_msg_id, answer_all abandoned (waiters_of (get s.pending peer_msg_id)))
