-- ===== src/Dispatch/Calls.antt =====
-- Every call of the dispatch manager is one operation on the retained store, or none.
use aurelia.Prelude.Words.{u64_max}
use aurelia.Prelude.{
  ℕ, ◌+◌, ◌≤◌, ◌≡◌, refl, sym, subst, inl, inr, Bool, true, false, Option, none, some, List, [],
  ◌∷◌, arith, ◌==◌, if◌then◌else◌, Bool-cases, if_holds, All,
}
use aurelia.Ids.{AureliaError, msg_error}
use aurelia.Retained.{OutboundFrame, PeerMessage, RetainedLane, from_send_queue_size}
use aurelia.Retained.Store.{CompletionEffect, RetainedStore}
use aurelia.Retained.Flow.{RetainedClaim}
use aurelia.Retained.Items.{IsStored}
use aurelia.Retained.Steps.{
  Operation, inserts_ack, inserts_error, inserts_tracked, claims, ends_write, acks, fails_one,
  fails_all, fails_non_a1, callis_fails, replays_all, replays, expires, looks_ahead, shuts_down,
  drops_responses, resizes, apply, apply-IsStored, new-IsStored, Sized, AreWords,
}
use aurelia.Dispatch.{
  ReaperWait, PrimaryOutboundStore, Effect, OutboundQueueOverrunReporter, new, enqueue_message,
  enqueue_ack, enqueue_error, claim_next_for, complete_claim, ack_message, fail_message,
  fail_all_tracked, fail_all_non_a1, shut_down, drop_a1_responses, set_capacity,
  mark_all_replay_ready, mark_replay_ready, callis_ended, clear_close_intent, reaper_looks,
  reaper_expires, frame_peer_msg_id, one_effect,
}
use aurelia.Dispatch.Frames.{enqueue_a1_frame, a1_response_ttl}
use aurelia.Prelude.Maps.{get, contains_key}
use aurelia.Dispatch.Closing.{notifier_of, request_close, take_close_intent, close_notifier}
use aurelia.Dispatch.Admission.{enqueue_result-state}

pub data DispatchCall : Type 0 where
  -- message, deadline, channel, time
  enqueue : PeerMessage → ℕ → ℕ → ℕ → DispatchCall
  respond : OutboundFrame → ℕ → DispatchCall
  claim_for : ℕ → DispatchCall
  written : RetainedClaim → Bool → DispatchCall
  acked : ℕ → DispatchCall
  failed : ℕ → AureliaError → DispatchCall
  failed_all : AureliaError → DispatchCall
  failed_non_a1 : AureliaError → DispatchCall
  shutting_down : AureliaError → DispatchCall
  drop_all_responses : DispatchCall
  resize : ℕ → ℕ → DispatchCall
  replay_all : DispatchCall
  replay_of : List ℕ → DispatchCall
  callis_gone : ℕ → DispatchCall
  close_wanted : ℕ → DispatchCall
  close_taken : ℕ → DispatchCall
  close_cleared : ℕ → DispatchCall
  close_listened : ℕ → ℕ → DispatchCall
  reaper_at : ℕ → DispatchCall
  reaper_after : ℕ → DispatchCall

unfoldable pub dispatch : PrimaryOutboundStore → DispatchCall → PrimaryOutboundStore
dispatch q (enqueue message deadline ack_tx now) = (enqueue_message q message deadline ack_tx now).0
dispatch q (respond frame now) = (enqueue_a1_frame q frame now).0
dispatch q (claim_for k) = (claim_next_for q k).0
dispatch q (written claim is_bad) = (complete_claim q claim is_bad).0
dispatch q (acked m) = (ack_message q m).0
dispatch q (failed m err) = (fail_message q m err).0
dispatch q (failed_all err) = (fail_all_tracked q err).0
dispatch q (failed_non_a1 err) = (fail_all_non_a1 q err).0
dispatch q (shutting_down err) = (shut_down q err).0
dispatch q drop_all_responses = (drop_a1_responses q).0
dispatch q (resize n now) = (set_capacity q n now).0
dispatch q replay_all = (mark_all_replay_ready q).0
dispatch q (replay_of ms) = (mark_replay_ready q ms).0
dispatch q (callis_gone k) = (callis_ended q k).0
dispatch q (close_wanted k) = (request_close q k).0
dispatch q (close_taken k) = (take_close_intent q k).0
dispatch q (close_cleared k) = clear_close_intent q k
dispatch q (close_listened k n) = (close_notifier q k n).0
dispatch q (reaper_at now) = (reaper_looks q now).0
dispatch q (reaper_after now) = (reaper_expires q now).0

unfoldable pub dispatch_all : PrimaryOutboundStore → List DispatchCall → PrimaryOutboundStore
dispatch_all q [] = q
dispatch_all q (c ∷ cs) = dispatch_all (dispatch q c) cs

abbrev pub response_to : OutboundFrame → ℕ → Option Operation
response_to (OutboundFrame.ack_frame m) now = some (inserts_ack m (now + a1_response_ttl) now)
response_to (OutboundFrame.control_frame msg_type m payload) now =
    if msg_type == msg_error
    then some (
        inserts_error m (OutboundFrame.control_frame msg_type m payload) (now + a1_response_ttl)
          now)
    else none
response_to (OutboundFrame.message_frame message) now = none

-- What a call does to the retained store. The reaper does nothing after the shutdown.
unfoldable pub operation_of : Bool → DispatchCall → Option Operation
operation_of ended (enqueue message deadline ack_tx now) =
    some (inserts_tracked (record { message = message; ack_tx = ack_tx }) deadline now)
operation_of ended (respond frame now) = response_to frame now
operation_of ended (claim_for k) = some (claims k)
operation_of ended (written claim is_bad) = some (ends_write claim is_bad)
operation_of ended (acked m) = some (acks m)
operation_of ended (failed m err) = some (fails_one m err)
operation_of ended (failed_all err) = some (fails_all err)
operation_of ended (failed_non_a1 err) = some (fails_non_a1 err)
operation_of ended (shutting_down err) = some (shuts_down err)
operation_of ended drop_all_responses = some drops_responses
operation_of ended (resize n now) = some (resizes (from_send_queue_size n) now)
operation_of ended replay_all = some replays_all
operation_of ended (replay_of ms) = some (replays ms)
operation_of ended (callis_gone k) = some (callis_fails k)
operation_of ended (close_wanted k) = none
operation_of ended (close_taken k) = none
operation_of ended (close_cleared k) = none
operation_of ended (close_listened k n) = none
operation_of ended (reaper_at now) = if ended then none else some looks_ahead
operation_of ended (reaper_after now) = if ended then none else some (expires now)

abbrev pub apply_some : RetainedStore → Option Operation → RetainedStore
apply_some s none = s
apply_some s (some op) = apply s op

one_effect-state :
    (q : PrimaryOutboundStore) (r : RetainedStore × Option CompletionEffect)
    → (one_effect q r).0.state ≡ r.0
one_effect-state q (s, none) = refl
one_effect-state q (s, some effect) = refl

take-state : (q : PrimaryOutboundStore) (k : ℕ) → (take_close_intent q k).0.state ≡ q.state
unfolding take_close_intent
take-state q k =
    if_holds (λ (r : PrimaryOutboundStore × Bool). r.0.state ≡ q.state)
      (contains_key q.close_state.intents k) (λ _. refl) (λ _. refl)

listen-state : (q : PrimaryOutboundStore) (k n : ℕ) → (close_notifier q k n).0.state ≡ q.state
unfolding close_notifier
listen-state q k n =
    elim (get q.close_state.waiters k) as (λ o. (notifier_of q k n o).0.state ≡ q.state) [
      | none ↦ refl
      | some old ↦ refl
    ]

respond-state :
    (q : PrimaryOutboundStore) (frame : OutboundFrame) (now : ℕ)
    → (enqueue_a1_frame q frame now).0.state ≡ apply_some q.state (response_to frame now)
unfolding enqueue_a1_frame enqueue_ack enqueue_error apply frame_peer_msg_id
respond-state q (OutboundFrame.ack_frame m) now = refl
respond-state q (OutboundFrame.control_frame msg_type m payload) now =
    elim (Bool-cases (msg_type == msg_error)) [ inl e ↦ rw e refl | inr e ↦ rw e refl ]
respond-state q (OutboundFrame.message_frame message) now = refl

reaper-state :
    {R : Type 0} (state_of : R → RetainedStore) (s : RetainedStore) (op : Operation) (ended : Bool)
    (x y : R)
    → state_of x ≡ s
    → state_of y ≡ apply s op
    → state_of (if ended then x else y) ≡ apply_some s (if ended then none else some op)
reaper-state state_of s op true x y hx hy = hx
reaper-state state_of s op false x y hx hy = hy

looks-state :
    (q : PrimaryOutboundStore) (now : ℕ)
    → (reaper_looks q now).0.state
      ≡ apply_some q.state (if q.shutdown then none else some looks_ahead)
unfolding reaper_looks apply
looks-state q now =
    reaper-state (λ (r : PrimaryOutboundStore × ReaperWait). r.0.state) q.state looks_ahead
      q.shutdown _ _ refl refl

expires-state :
    (q : PrimaryOutboundStore) (now : ℕ)
    → (reaper_expires q now).0.state
      ≡ apply_some q.state (if q.shutdown then none else some (expires now))
unfolding reaper_expires apply
expires-state q now =
    reaper-state (λ (r : PrimaryOutboundStore × List Effect × Bool). r.0.state) q.state
      (expires now) q.shutdown _ _ refl refl

-- Each call of the dispatch manager changes the retained store by exactly one of its operations, or
-- not at all: requests to close never touch it, nor does the reaper once the manager shuts down,
-- and a bare frame that is neither an acknowledgement nor an error is dropped.
pub dispatch-state :
    (q : PrimaryOutboundStore) (c : DispatchCall)
    → (dispatch q c).state ≡ apply_some q.state (operation_of q.shutdown c)
unfolding dispatch operation_of apply enqueue_message claim_next_for complete_claim ack_message
    fail_message fail_all_tracked fail_all_non_a1 shut_down drop_a1_responses set_capacity
    mark_all_replay_ready mark_replay_ready callis_ended clear_close_intent request_close
dispatch-state q (enqueue message deadline ack_tx now) =
    enqueue_result-state _ message.msg_type ack_tx _
dispatch-state q (respond frame now) = respond-state q frame now
dispatch-state q (claim_for k) = refl
dispatch-state q (written claim is_bad) = refl
dispatch-state q (acked m) = one_effect-state q _
dispatch-state q (failed m err) = one_effect-state q _
dispatch-state q (failed_all err) = refl
dispatch-state q (failed_non_a1 err) = refl
dispatch-state q (shutting_down err) = refl
dispatch-state q drop_all_responses = refl
dispatch-state q (resize n now) = refl
dispatch-state q replay_all = refl
dispatch-state q (replay_of ms) = refl
dispatch-state q (callis_gone k) = refl
dispatch-state q (close_wanted k) = refl
dispatch-state q (close_taken k) = take-state q k
dispatch-state q (close_cleared k) = refl
dispatch-state q (close_listened k n) = listen-state q k n
dispatch-state q (reaper_at now) = looks-state q now
dispatch-state q (reaper_after now) = expires-state q now

-- The configuration's size is a machine word.
unfoldable pub Sizes : DispatchCall → Type 0
Sizes (resize n now) = n ≤ u64_max
Sizes _ = Unit

from_send_queue_size-AreWords : (n : ℕ) → n ≤ u64_max → AreWords (from_send_queue_size n)
unfolding from_send_queue_size
from_send_queue_size-AreWords n h RetainedLane.a1_ack = omega arith
from_send_queue_size-AreWords n h RetainedLane.a1_error = omega arith
from_send_queue_size-AreWords n h RetainedLane.a2 = omega arith
from_send_queue_size-AreWords n h RetainedLane.a3 = omega (arith, h)

maybe-IsStored :
    (s : RetainedStore) (op : Operation) (ended : Bool)
    → IsStored (apply s op)
    → IsStored s
    → IsStored (apply_some s (if ended then none else some op))
maybe-IsStored s op true done v = v
maybe-IsStored s op false done v = done

respond-IsStored :
    (s : RetainedStore) (frame : OutboundFrame) (now : ℕ)
    → IsStored s
    → IsStored (apply_some s (response_to frame now))
unfolding Sized
respond-IsStored s (OutboundFrame.ack_frame m) now v =
    apply-IsStored s (inserts_ack m (now + a1_response_ttl) now) tt v
respond-IsStored s (OutboundFrame.control_frame msg_type m payload) now v =
    if_holds (λ (o : Option Operation). IsStored (apply_some s o)) (msg_type == msg_error)
      (λ _.
        apply-IsStored s
          (inserts_error m (OutboundFrame.control_frame msg_type m payload) (now + a1_response_ttl)
            now)
          tt v)
      (λ _. v)
respond-IsStored s (OutboundFrame.message_frame message) now v = v

operation-IsStored :
    (s : RetainedStore) (ended : Bool) (c : DispatchCall)
    → Sizes c
    → IsStored s
    → IsStored (apply_some s (operation_of ended c))
unfolding operation_of Sizes Sized
operation-IsStored s ended (enqueue message deadline ack_tx now) h v =
    apply-IsStored s (inserts_tracked (record { message = message; ack_tx = ack_tx }) deadline now)
      tt v
operation-IsStored s ended (respond frame now) h v = respond-IsStored s frame now v
operation-IsStored s ended (claim_for k) h v = apply-IsStored s (claims k) tt v
operation-IsStored s ended (written claim is_bad) h v =
    apply-IsStored s (ends_write claim is_bad) tt v
operation-IsStored s ended (acked m) h v = apply-IsStored s (acks m) tt v
operation-IsStored s ended (failed m err) h v = apply-IsStored s (fails_one m err) tt v
operation-IsStored s ended (failed_all err) h v = apply-IsStored s (fails_all err) tt v
operation-IsStored s ended (failed_non_a1 err) h v = apply-IsStored s (fails_non_a1 err) tt v
operation-IsStored s ended (shutting_down err) h v = apply-IsStored s (shuts_down err) tt v
operation-IsStored s ended drop_all_responses h v = apply-IsStored s drops_responses tt v
operation-IsStored s ended (resize n now) h v =
    apply-IsStored s (resizes (from_send_queue_size n) now) (from_send_queue_size-AreWords n h) v
operation-IsStored s ended replay_all h v = apply-IsStored s replays_all tt v
operation-IsStored s ended (replay_of ms) h v = apply-IsStored s (replays ms) tt v
operation-IsStored s ended (callis_gone k) h v = apply-IsStored s (callis_fails k) tt v
operation-IsStored s ended (close_wanted k) h v = v
operation-IsStored s ended (close_taken k) h v = v
operation-IsStored s ended (close_cleared k) h v = v
operation-IsStored s ended (close_listened k n) h v = v
operation-IsStored s ended (reaper_at now) h v =
    maybe-IsStored s looks_ahead ended (apply-IsStored s looks_ahead tt v) v
operation-IsStored s ended (reaper_after now) h v =
    maybe-IsStored s (expires now) ended (apply-IsStored s (expires now) tt v) v

pub dispatch_all-keeps :
    (q : PrimaryOutboundStore) (cs : List DispatchCall)
    → All Sizes cs
    → IsStored q.state
    → IsStored (dispatch_all q cs).state
unfolding dispatch_all
dispatch_all-keeps q [] sizes v = v
dispatch_all-keeps q (c ∷ cs) sizes v =
    dispatch_all-keeps (dispatch q c) cs sizes.1 (
      subst IsStored (sym (dispatch-state q c)) (operation-IsStored q.state q.shutdown c sizes.0 v))

pub dispatch_all-IsStored :
    (size started : ℕ) (reporter : Option OutboundQueueOverrunReporter) (cs : List DispatchCall)
    → size ≤ u64_max
    → All Sizes cs
    → IsStored (dispatch_all (new size reporter started) cs).state
unfolding new
dispatch_all-IsStored size started reporter cs fits sizes =
    dispatch_all-keeps (new size reporter started) cs sizes
      (new-IsStored (from_send_queue_size size) started (from_send_queue_size-AreWords size fits))
