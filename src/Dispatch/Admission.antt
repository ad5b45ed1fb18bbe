-- ===== src/Dispatch/Admission.antt =====
-- What a sender is told when its message is to be retained.
use aurelia.Retained.Items.{IsStored}
use aurelia.Prelude.{
  ℕ, ◌≡◌, refl, sym, ap, ◌∙◌, ◌≢◌, inl, inr, Option, none, some, ltb, leb, if◌then◌else◌,
  Bool-cases, if_maps,
}
use aurelia.Prelude.Maps.{contains_key}
use aurelia.Ids.{ErrorId, MessagePriorityClass, classify_message_priority}
use aurelia.Retained.{PeerMessage, TrackedOutbound, RetainedLane}
use aurelia.Retained.Store.{
  RetainedStore, lane, tracked_ok, tracked_error, full_of, unreachable, shut_down_for, expired_for,
  duplicate_of, a1_tracked, insert_tracked,
}
use aurelia.Retained.Admission.{
  verdict, class_verdict, insert_tracked-verdict, insert_tracked-unchanged,
}
use aurelia.Dispatch.{
  lane_for, TrackedInsert, report_full, PrimaryOutboundStore, EnqueueResult, enqueued, refused,
  enqueue_result, tracked_lane_for_msg_type, with_state, enqueue_message,
}

abbrev pub full_or : RetainedStore → RetainedLane → ℕ → EnqueueResult
full_or s kind ack_tx =
    if ltb (lane s kind).live_count (lane s kind).target_capacity
    then enqueued ack_tx
    else refused ErrorId.local_queue_full

abbrev pub admitted_in : RetainedStore → ℕ → MessagePriorityClass → EnqueueResult
admitted_in s ack_tx MessagePriorityClass.a1 = refused ErrorId.protocol_violation
admitted_in s ack_tx MessagePriorityClass.a2 = full_or s RetainedLane.a2 ack_tx
admitted_in s ack_tx MessagePriorityClass.a3 = full_or s RetainedLane.a3 ack_tx

-- By the state of the store alone: the first of these that holds.
unfoldable pub admission : RetainedStore → PeerMessage → ℕ → ℕ → ℕ → EnqueueResult
admission s message deadline ack_tx now =
    if s.shutdown
    then refused ErrorId.peer_unavailable
    else if leb deadline now
    then refused ErrorId.send_timeout
    else if contains_key s.tracked message.peer_msg_id
    then refused ErrorId.protocol_violation
    else admitted_in s ack_tx (classify_message_priority message.msg_type)

abbrev tracked_for : PeerMessage → ℕ → TrackedOutbound
tracked_for message ack_tx = record { message = message; ack_tx = ack_tx }

class-admission :
    (q : PrimaryOutboundStore) (message : PeerMessage) (ack_tx : ℕ) (class : MessagePriorityClass)
    → classify_message_priority message.msg_type ≡ class
    → (enqueue_result q message.msg_type ack_tx
        (class_verdict q.state (tracked_for message ack_tx) class)).2
      ≡ admitted_in q.state ack_tx class
unfolding tracked_lane_for_msg_type
class-admission q message ack_tx MessagePriorityClass.a1 e = refl
class-admission q message ack_tx MessagePriorityClass.a2 e =
    elim (Bool-cases (ltb q.state.a2.live_count q.state.a2.target_capacity)) [
      | inl room ↦ rw room refl
      | inr full ↦ rw full (ap (λ k. (report_full q message.msg_type k).2) (ap lane_for e))
    ]
class-admission q message ack_tx MessagePriorityClass.a3 e =
    elim (Bool-cases (ltb q.state.a3.live_count q.state.a3.target_capacity)) [
      | inl room ↦ rw room refl
      | inr full ↦ rw full (ap (λ k. (report_full q message.msg_type k).2) (ap lane_for e))
    ]

enqueue_verdict :
    (q : PrimaryOutboundStore) (message : PeerMessage) (deadline ack_tx now : ℕ)
    → (enqueue_result q message.msg_type ack_tx
        (verdict q.state (tracked_for message ack_tx) deadline now)).2
      ≡ admission q.state message deadline ack_tx now
unfolding verdict admission
enqueue_verdict q message deadline ack_tx now =
    let f : TrackedInsert → EnqueueResult = λ r. (enqueue_result q message.msg_type ack_tx r).2 in
    if_maps f q.state.shutdown (λ _. refl)
      (λ _.
        if_maps f (leb deadline now) (λ _. refl)
          (λ _.
            if_maps f (contains_key q.state.tracked message.peer_msg_id) (λ _. refl)
              (λ _.
                class-admission q message ack_tx (classify_message_priority message.msg_type)
                  refl)))

full_state :
    (q : PrimaryOutboundStore) (m : ℕ) (kind : Option RetainedLane)
    → (report_full q m kind).0.state ≡ q.state
full_state q m none = refl
full_state q m (some kind) = refl

-- The reporting of a full lane leaves the state.
pub enqueue_result-state :
    (q : PrimaryOutboundStore) (msg_type ack_tx : ℕ) (r : TrackedInsert)
    → (enqueue_result q msg_type ack_tx r).0.state ≡ q.state
enqueue_result-state q msg_type ack_tx tracked_ok = refl
enqueue_result-state q msg_type ack_tx unreachable = refl
enqueue_result-state q msg_type ack_tx (tracked_error (full_of t)) =
    full_state q msg_type (tracked_lane_for_msg_type msg_type)
enqueue_result-state q msg_type ack_tx (tracked_error (shut_down_for t)) = refl
enqueue_result-state q msg_type ack_tx (tracked_error (expired_for t)) = refl
enqueue_result-state q msg_type ack_tx (tracked_error (duplicate_of t)) = refl
enqueue_result-state q msg_type ack_tx (tracked_error (a1_tracked t)) = refl

-- What the sender is told does not depend on the rest of the store.
enqueue_result-told :
    (q p : PrimaryOutboundStore) (msg_type ack_tx : ℕ) (r : TrackedInsert)
    → (enqueue_result q msg_type ack_tx r).2 ≡ (enqueue_result p msg_type ack_tx r).2
enqueue_result-told q p msg_type ack_tx tracked_ok = refl
enqueue_result-told q p msg_type ack_tx unreachable = refl
enqueue_result-told q p msg_type ack_tx (tracked_error (full_of t)) =
    elim (tracked_lane_for_msg_type msg_type)
      as (λ k. (report_full q msg_type k).2 ≡ (report_full p msg_type k).2) [
        | none ↦ refl
        | some kind ↦ refl
      ]
enqueue_result-told q p msg_type ack_tx (tracked_error (shut_down_for t)) = refl
enqueue_result-told q p msg_type ack_tx (tracked_error (expired_for t)) = refl
enqueue_result-told q p msg_type ack_tx (tracked_error (duplicate_of t)) = refl
enqueue_result-told q p msg_type ack_tx (tracked_error (a1_tracked t)) = refl

-- On a valid store the result of enqueue_message is decided by the store alone: PeerUnavailable
-- after a shutdown, else SendTimeout from the deadline on, else ProtocolViolation for an identifier
-- that is tracked already or an A1 type, else LocalQueueFull when the lane holds its capacity, and
-- otherwise the message is taken; it never panics, and a message that is not taken leaves the store
-- unchanged.
pub enqueue_message-admission :
    (q : PrimaryOutboundStore) (message : PeerMessage) (deadline ack_tx now : ℕ)
    → IsStored q.state
    → ((enqueue_message q message deadline ack_tx now).2
        ≡ admission q.state message deadline ack_tx now)
      × (admission q.state message deadline ack_tx now ≢ enqueued ack_tx
          → (enqueue_message q message deadline ack_tx now).0.state ≡ q.state)
unfolding enqueue_message
enqueue_message-admission q message deadline ack_tx now v =
    let t : TrackedOutbound = tracked_for message ack_tx in
    let s : RetainedStore = (insert_tracked q.state t deadline now).0 in
    let r : TrackedInsert = (insert_tracked q.state t deadline now).1 in
    let told : (enqueue_message q message deadline ack_tx now).2
        ≡ admission q.state message deadline ack_tx now =
      enqueue_result-told (with_state q s) q message.msg_type ack_tx r
      ∙ ap (λ r. (enqueue_result q message.msg_type ack_tx r).2)
          (insert_tracked-verdict q.state t deadline now v)
      ∙ enqueue_verdict q message deadline ack_tx now in
    (
      told,
      λ not_in.
          enqueue_result-state (with_state q s) message.msg_type ack_tx r
          ∙ insert_tracked-unchanged q.state t deadline now v (λ ok. not_in (
              sym told
              ∙ ap (λ r. (enqueue_result (with_state q s) message.msg_type ack_tx r).2) ok)),
    )
