-- ===== src/Dispatch.antt =====
-- crates/peering/src/transport/primary_dispatch/retained.rs and primary_dispatch.rs: the retained store behind its
-- lock, with the wake-ups, reports and completions that each call causes, and the requests to close a callis.
-- Calls take their effects in a list, in the order in which they happen; a oneshot channel or a `Notify` is a number.
pub mod Frames
pub mod Closing
pub mod Admission
pub mod Calls
mod Examples
use aurelia.Prelude.{
  ℕ, ◌+◌, Bool, true, false, not, ◌&&◌, Option, none, some, List, [], ◌∷◌, ◌++◌, ltb, if◌then◌else◌,
  is_some,
}
use aurelia.Prelude.Maps.{Map, get, insert, remove, contains_key}
use aurelia.Ids.{
  AureliaError, ErrorId, MessagePriorityClass, classify_message_priority, msg_ack, msg_error,
}
use aurelia.Retained.{
  RetainedLane, RetainedCapacities, from_send_queue_size, capacity, OutboundFrame, PeerMessage,
  TrackedOutbound, SlotState,
}
use aurelia.Retained.Store.{
  RetainedStore, CompletionEffect, ResponseInsertOutcome, TrackedInsert, RetainedInsertError,
  insert_tracked, insert_ack, insert_error, ack_one, fail_one, fail_all, fail_non_a1,
  begin_shutdown, drop_responses, set_capacities, tracked_messages, is_empty_store,
  response_lanes_empty, message_of, deadline_of, contains_tracked, tracked_state,
}
use aurelia.Retained.Store
use aurelia.Retained.Flow.{
  RetainedClaim, claim_next, has_dispatchable_work, complete_write, mark_all_tracked_replay_ready,
  mark_tracked_replay_ready, mark_callis_replay_ready, expire_due, next_deadline,
}

pub record CloseState : Type 0 where
  pub intents : Map {0} Unit
  pub waiters : Map ℕ

-- The peer's address, once it is known, and the configuration's send_queue_size.
pub record OutboundQueueOverrunReporter : Type 0 where
  pub peer : Option ℕ
  pub send_queue_size : ℕ

pub record PrimaryOutboundStore : Type 0 where
  pub state : RetainedStore
  pub overrun_reporter : Option OutboundQueueOverrunReporter
  pub close_state : CloseState
  pub shutdown : Bool

pub data OutboundQueueTierReport : Type 0 where
  a1 a2 a3 : OutboundQueueTierReport

pub data Effect : Type 0 where
  completes : CompletionEffect → Effect
  -- `notify_work_changed`: the callis that waits for work, the reaper, and those who wait for an empty store
  work_changed : Effect
  -- only the callis that waits for work
  work_available : Effect
  -- peer, tier, limit, msg_type
  overrun : ℕ → OutboundQueueTierReport → ℕ → ℕ → Effect
  -- the notifier of a callis
  wakes : ℕ → Effect

unfoldable pub new : ℕ → Option OutboundQueueOverrunReporter → ℕ → PrimaryOutboundStore
new send_queue_size reporter now = record {
  state = Store.new (from_send_queue_size send_queue_size) now;
  overrun_reporter = reporter;
  close_state = record { intents = []; waiters = [] };
  shutdown = false;
}

unfoldable pub retained_lane_report : RetainedLane → OutboundQueueTierReport
retained_lane_report RetainedLane.a1_ack = a1
retained_lane_report RetainedLane.a1_error = a1
retained_lane_report RetainedLane.a2 = a2
retained_lane_report RetainedLane.a3 = a3

-- `none` is a panic.
abbrev pub lane_for : MessagePriorityClass → Option RetainedLane
lane_for MessagePriorityClass.a1 = none
lane_for MessagePriorityClass.a2 = some RetainedLane.a2
lane_for MessagePriorityClass.a3 = some RetainedLane.a3

unfoldable pub tracked_lane_for_msg_type : ℕ → Option RetainedLane
tracked_lane_for_msg_type msg_type = lane_for (classify_message_priority msg_type)

abbrev pub report_to : Option OutboundQueueOverrunReporter → RetainedLane → ℕ → List Effect
report_to none lane msg_type = []
report_to (some reporter) lane msg_type = elim reporter.peer [
  | none ↦ []
  | some peer ↦
      overrun peer (retained_lane_report lane)
        (capacity (from_send_queue_size reporter.send_queue_size) lane) msg_type
      ∷ []
]

unfoldable pub report_overrun : PrimaryOutboundStore → RetainedLane → ℕ → List Effect
report_overrun q lane msg_type = report_to q.overrun_reporter lane msg_type

unfoldable pub apply_effects : List CompletionEffect → List Effect
apply_effects [] = []
apply_effects (effect ∷ effects) = completes effect ∷ apply_effects effects

-- A write through the lock, the completions that it gives, and the wake-up after it.
abbrev pub after_effects :
    PrimaryOutboundStore
    → RetainedStore × List CompletionEffect
    → PrimaryOutboundStore × List Effect
after_effects q (s, effects) = (record q { state = s }, apply_effects effects ++ work_changed ∷ [])

abbrev pub after_write : PrimaryOutboundStore → RetainedStore → PrimaryOutboundStore × List Effect
after_write q s = (record q { state = s }, work_changed ∷ [])

-- What a sender gets: the channel of its result, an error, or a panic.
pub data EnqueueResult : Type 0 where
  enqueued : ℕ → EnqueueResult
  refused : ErrorId → EnqueueResult
  panics : EnqueueResult

abbrev pub report_full :
    PrimaryOutboundStore
    → ℕ
    → Option RetainedLane
    → PrimaryOutboundStore × List Effect × EnqueueResult
report_full q msg_type none = (q, [], panics)
report_full q msg_type (some lane) =
    (q, report_overrun q lane msg_type, refused ErrorId.local_queue_full)

abbrev pub enqueue_result :
    PrimaryOutboundStore
    → ℕ
    → ℕ
    → TrackedInsert
    → PrimaryOutboundStore × List Effect × EnqueueResult
enqueue_result q msg_type ack_tx TrackedInsert.tracked_ok = (q, work_changed ∷ [], enqueued ack_tx)
enqueue_result q msg_type ack_tx TrackedInsert.unreachable = (q, [], panics)
enqueue_result q msg_type ack_tx (TrackedInsert.tracked_error err) = elim err [
  | RetainedInsertError.full_of t ↦ report_full q msg_type (tracked_lane_for_msg_type msg_type)
  | RetainedInsertError.shut_down_for t ↦ (q, [], refused ErrorId.peer_unavailable)
  | RetainedInsertError.expired_for t ↦ (q, [], refused ErrorId.send_timeout)
  | RetainedInsertError.duplicate_of t ↦ (q, [], refused ErrorId.protocol_violation)
  | RetainedInsertError.a1_tracked t ↦ (q, [], refused ErrorId.protocol_violation)
]

abbrev pub with_state : PrimaryOutboundStore → RetainedStore → PrimaryOutboundStore
with_state q s = record q { state = s }

-- `ack_tx` is the new channel and `now` the time at which the store is asked.
unfoldable pub enqueue_message :
    PrimaryOutboundStore
    → PeerMessage
    → ℕ
    → ℕ
    → ℕ
    → PrimaryOutboundStore × List Effect × EnqueueResult
enqueue_message q message deadline ack_tx now =
    let (s, result) =
      insert_tracked q.state (record { message = message; ack_tx = ack_tx }) deadline now in
    enqueue_result (with_state q s) message.msg_type ack_tx result

abbrev pub handle_response_insert_outcome :
    PrimaryOutboundStore → ResponseInsertOutcome → ℕ → List Effect
handle_response_insert_outcome q ResponseInsertOutcome.inserted msg_type = work_changed ∷ []
handle_response_insert_outcome q (ResponseInsertOutcome.duplicate attempted m) msg_type = []
handle_response_insert_outcome q (ResponseInsertOutcome.full lane m) msg_type =
    report_overrun q lane msg_type
handle_response_insert_outcome q (ResponseInsertOutcome.shut_down m) msg_type = []
handle_response_insert_outcome q (ResponseInsertOutcome.expired m) msg_type = []

abbrev pub response_result :
    PrimaryOutboundStore
    → ℕ
    → RetainedStore × ResponseInsertOutcome
    → PrimaryOutboundStore × List Effect
response_result q msg_type (s, outcome) =
    (with_state q s, handle_response_insert_outcome (with_state q s) outcome msg_type)

unfoldable pub enqueue_ack : PrimaryOutboundStore → ℕ → ℕ → ℕ → PrimaryOutboundStore × List Effect
enqueue_ack q peer_msg_id deadline now =
    response_result q msg_ack (insert_ack q.state peer_msg_id deadline now)

unfoldable pub frame_peer_msg_id : OutboundFrame → ℕ
frame_peer_msg_id (OutboundFrame.ack_frame peer_msg_id) = peer_msg_id
frame_peer_msg_id (OutboundFrame.control_frame msg_type peer_msg_id payload) = peer_msg_id
frame_peer_msg_id (OutboundFrame.message_frame message) = message.peer_msg_id

unfoldable pub enqueue_error :
    PrimaryOutboundStore → OutboundFrame → ℕ → ℕ → PrimaryOutboundStore × List Effect
enqueue_error q frame deadline now =
    response_result q msg_error (insert_error q.state (frame_peer_msg_id frame) frame deadline now)

abbrev pub claimed :
    PrimaryOutboundStore
    → RetainedStore × Option RetainedClaim
    → PrimaryOutboundStore × List Effect × Option RetainedClaim
claimed q (s, claim) = (
  with_state q s,
  if is_some claim && has_dispatchable_work s then work_available ∷ [] else [],
  claim,
)

unfoldable pub claim_next_for :
    PrimaryOutboundStore → ℕ → PrimaryOutboundStore × List Effect × Option RetainedClaim
claim_next_for q callis_id = claimed q (claim_next q.state callis_id)

unfoldable pub complete_claim :
    PrimaryOutboundStore → RetainedClaim → Bool → PrimaryOutboundStore × List Effect
complete_claim q claim failed = after_effects q (complete_write q.state claim failed, [])

abbrev pub one_effect :
    PrimaryOutboundStore
    → RetainedStore × Option CompletionEffect
    → PrimaryOutboundStore × List Effect × Bool
one_effect q (s, none) = (with_state q s, [], false)
one_effect q (s, some effect) = (with_state q s, completes effect ∷ work_changed ∷ [], true)

unfoldable pub ack_message : PrimaryOutboundStore → ℕ → PrimaryOutboundStore × List Effect × Bool
ack_message q peer_msg_id = one_effect q (ack_one q.state peer_msg_id)

unfoldable pub fail_message :
    PrimaryOutboundStore → ℕ → AureliaError → PrimaryOutboundStore × List Effect × Bool
fail_message q peer_msg_id err = one_effect q (fail_one q.state peer_msg_id err)

unfoldable pub fail_all_tracked :
    PrimaryOutboundStore → AureliaError → PrimaryOutboundStore × List Effect
fail_all_tracked q err = after_effects q (fail_all q.state err)

-- Of the manager: the messages that were tracked are returned.
unfoldable pub fail_all_messages :
    PrimaryOutboundStore → AureliaError → PrimaryOutboundStore × List Effect × List PeerMessage
fail_all_messages q err =
    let (r, effects) = fail_all_tracked q err in (r, effects, tracked_messages q.state)

unfoldable pub clear : PrimaryOutboundStore → PrimaryOutboundStore × List Effect
clear q = fail_all_tracked q (aurelia.Ids.new ErrorId.peer_restarted)

unfoldable pub fail_all_non_a1 :
    PrimaryOutboundStore → AureliaError → PrimaryOutboundStore × List Effect
fail_all_non_a1 q err = after_effects q (fail_non_a1 q.state err)

unfoldable pub shut_down : PrimaryOutboundStore → AureliaError → PrimaryOutboundStore × List Effect
shut_down q err = after_effects (record q { shutdown = true }) (begin_shutdown q.state err)

unfoldable pub drop_a1_responses : PrimaryOutboundStore → PrimaryOutboundStore × List Effect
drop_a1_responses q = after_write q (drop_responses q.state)

unfoldable pub set_capacity : PrimaryOutboundStore → ℕ → ℕ → PrimaryOutboundStore × List Effect
set_capacity q send_queue_size now =
    after_write q (set_capacities q.state (from_send_queue_size send_queue_size) now)

unfoldable pub mark_all_replay_ready : PrimaryOutboundStore → PrimaryOutboundStore × List Effect
mark_all_replay_ready q = after_write q (mark_all_tracked_replay_ready q.state)

unfoldable pub mark_replay_ready :
    PrimaryOutboundStore → List ℕ → PrimaryOutboundStore × List Effect
mark_replay_ready q peer_msg_ids = after_write q (mark_tracked_replay_ready q.state peer_msg_ids)

abbrev pub without_close_intent : CloseState → ℕ → CloseState
without_close_intent c callis_id = record {
  intents = remove c.intents callis_id;
  waiters = remove c.waiters callis_id;
}

unfoldable pub clear_close_intent : PrimaryOutboundStore → ℕ → PrimaryOutboundStore
clear_close_intent q callis_id = record q {
  close_state = without_close_intent q.close_state callis_id;
}

unfoldable pub callis_ended : PrimaryOutboundStore → ℕ → PrimaryOutboundStore × List Effect
callis_ended q callis_id = (
  clear_close_intent (with_state q (mark_callis_replay_ready q.state callis_id)) callis_id,
  work_changed ∷ [],
)

unfoldable pub has_entries : PrimaryOutboundStore → Bool
has_entries q = not (is_empty_store q.state)

-- What the reaper does when it wakes: it ends, or waits for a change, or sleeps to the deadline and then expires.
pub data ReaperWait : Type 0 where
  ends waits_for_change expires_now : ReaperWait
  sleeps_until : ℕ → ReaperWait

abbrev pub reaper_wait : ℕ → Option ℕ → ReaperWait
reaper_wait now none = waits_for_change
reaper_wait now (some deadline) = if ltb now deadline then sleeps_until deadline else expires_now

-- From the top of the loop to the sleep.
unfoldable pub reaper_looks : PrimaryOutboundStore → ℕ → PrimaryOutboundStore × ReaperWait
reaper_looks q now =
    if q.shutdown
    then (q, ends)
    else let (s, deadline) = next_deadline q.state in (with_state q s, reaper_wait now deadline)

-- After the sleep: `false` ends the reaper.
unfoldable pub reaper_expires : PrimaryOutboundStore → ℕ → PrimaryOutboundStore × List Effect × Bool
reaper_expires q now =
    if q.shutdown
    then (q, [], false)
    else let (r, effects) = after_effects q (expire_due q.state now) in (r, effects, true)
