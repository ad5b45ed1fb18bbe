-- ===== src/Session.antt =====
-- crates/peering/src/session.rs: a peer's session. It numbers the messages that leave, hands them to the dispatch
-- manager, completes them by the peer's answers, and tells which incoming messages are new.
-- The configuration, the time and the new oneshot channels are arguments of the calls.
pub mod Dedupe
pub mod Receiving
pub mod Becoming
pub mod Calls
pub mod Closing
pub mod Restart
pub mod Numbers
mod Examples
use aurelia.Prelude.{
  ℕ, ◌+◌, ◌%◌, ◌^◌, Bool, true, false, not, ◌&&◌, Option, none, some, List, [], ◌++◌, leb, ◌==◌,
  if◌then◌else◌,
}
use aurelia.Prelude.Maps.{Map, get, contains_key}
use aurelia.Ids.{AureliaError, ErrorId}
use aurelia.Retained.{PeerMessage}
use aurelia.Retained.Store.{RetainedStore, deadline_of, tracked_messages}
use aurelia.Dispatch.{
  PrimaryOutboundStore, Effect, EnqueueResult, enqueued, refused, panics, enqueue_message,
  ack_message, fail_message, fail_all_messages, set_capacity, has_entries,
}
use aurelia.Session.Dedupe.{DedupeState, clear}
use aurelia.Session.Dedupe

-- What a session reads of the configuration.
pub record SessionConfig : Type 0 where
  pub send_queue_size : ℕ
  pub send_timeout : ℕ

-- crates/peering/src/message_id.rs: the counter is a u32 and `fetch_add` wraps.
pub record PeerMessageIdAllocator : Type 0 where
  pub next : ℕ

abbrev pub next_id : PeerMessageIdAllocator → PeerMessageIdAllocator × ℕ
next_id a = (record { next = (a.next + 1) % 2 ^ 32 }, a.next)

pub data CancelReason : Type 0 where
  not_cancelled connection_lost remote_close local_shutdown : CancelReason

unfoldable pub should_error : CancelReason → Bool
should_error remote_close = true
should_error local_shutdown = true
should_error not_cancelled = false
should_error connection_lost = false

pub record AckWaiter : Type 0 where
  pub rx : Option ℕ
  pub peer_msg_id : ℕ
  pub deadline : ℕ

-- `limit_snapshot` is the send_queue_size that the dispatch manager has.
pub record PeerSession : Type 0 where
  pub allocator : PeerMessageIdAllocator
  pub dedupe : DedupeState
  pub queue : PrimaryOutboundStore
  pub limit_snapshot : Option ℕ
  pub active : Bool
  pub closing : Bool

unfoldable pub new : PeerMessageIdAllocator → PrimaryOutboundStore → PeerSession
new allocator queue = record {
  allocator = allocator;
  dedupe = Dedupe.new;
  queue = queue;
  limit_snapshot = none;
  active = false;
  closing = false;
}

-- `*guard` against the configuration.
abbrev pub differs : Option ℕ → ℕ → Bool
differs none size = true
differs (some old) size = not (old == size)

abbrev pub with_limit :
    PeerSession → ℕ → PrimaryOutboundStore × List Effect → PeerSession × List Effect
with_limit s size (q, effects) = (record s { queue = q; limit_snapshot = some size }, effects)

unfoldable pub refresh_limits : PeerSession → SessionConfig → ℕ → PeerSession × List Effect
refresh_limits s config now =
    if differs s.limit_snapshot config.send_queue_size
    then with_limit s config.send_queue_size (set_capacity s.queue config.send_queue_size now)
    else (s, [])

abbrev pub with_queue : PeerSession → PrimaryOutboundStore → PeerSession
with_queue s q = record s { queue = q }

-- The panic is that of the dispatch manager.
pub data Outgoing : Type 0 where
  outgoing : PeerMessage → AckWaiter → Outgoing
  not_sent : ErrorId → Outgoing
  panicked : Outgoing

abbrev pub outgoing_result :
    PeerSession
    → PeerMessage
    → ℕ
    → List Effect
    → PrimaryOutboundStore × List Effect × EnqueueResult
    → PeerSession × List Effect × Outgoing
outgoing_result s message deadline before (q, effects, enqueued rx) = (
  with_queue s q,
  before ++ effects,
  outgoing message
      (record { rx = some rx; peer_msg_id = message.peer_msg_id; deadline = deadline }),
)
outgoing_result s message deadline before (q, effects, refused err) =
    (with_queue s q, before ++ effects, not_sent err)
outgoing_result s message deadline before (q, effects, panics) =
    (with_queue s q, before ++ effects, panicked)

-- Without the number, which the session gives.
pub record OutgoingRequest : Type 0 where
  pub src_taberna : ℕ
  pub dst_taberna : ℕ
  pub msg_type : ℕ
  pub flags : ℕ
  pub payload : List ℕ

abbrev pub numbered : OutgoingRequest → ℕ → PeerMessage
numbered r peer_msg_id = record {
  peer_msg_id = peer_msg_id;
  src_taberna = r.src_taberna;
  dst_taberna = r.dst_taberna;
  msg_type = r.msg_type;
  flags = r.flags;
  payload = r.payload;
}

abbrev pub send_numbered :
    PeerSession × List Effect
    → SessionConfig
    → OutgoingRequest
    → ℕ
    → ℕ
    → PeerSession × List Effect × Outgoing
send_numbered (s, before) config request ack_tx now =
    let (allocator, peer_msg_id) = next_id s.allocator in
    let message : PeerMessage = numbered request peer_msg_id in
    outgoing_result (record s { allocator = allocator }) message (now + config.send_timeout) before
      (enqueue_message s.queue message (now + config.send_timeout) ack_tx now)

unfoldable pub create_outgoing :
    PeerSession → SessionConfig → OutgoingRequest → ℕ → ℕ → PeerSession × List Effect × Outgoing
create_outgoing s config request ack_tx now =
    if s.closing
    then (s, [], not_sent ErrorId.peer_unavailable)
    else send_numbered (refresh_limits s config now) config request ack_tx now

unfoldable pub fail_inflight : PeerSession → ℕ → AureliaError → PeerSession × List Effect
fail_inflight s peer_msg_id err =
    let (q, effects, found) = fail_message s.queue peer_msg_id err in (with_queue s q, effects)

abbrev pub error_of : ErrorId → AureliaError
error_of kind = aurelia.Ids.new kind

-- The failure of a message, and the error that the caller gets.
abbrev pub fails_with : PeerSession → ℕ → ErrorId → PeerSession × List Effect × Option ErrorId
fails_with s peer_msg_id kind =
    let (t, effects) = fail_inflight s peer_msg_id (error_of kind) in (t, effects, some kind)

abbrev pub ready_result : PeerSession × List Effect → PeerSession × List Effect × Option ErrorId
ready_result (s, effects) = (s, effects, none)

abbrev pub prepare_until :
    PeerSession → SessionConfig → ℕ → ℕ → Option ℕ → PeerSession × List Effect × Option ErrorId
prepare_until s config peer_msg_id now none = (s, [], some ErrorId.send_timeout)
prepare_until s config peer_msg_id now (some deadline) =
    if leb deadline now
    then fails_with s peer_msg_id ErrorId.send_timeout
    else ready_result (refresh_limits s config now)

-- `none` is `Ok(())`.
unfoldable pub prepare_dispatch :
    PeerSession → SessionConfig → ℕ → ℕ → PeerSession × List Effect × Option ErrorId
prepare_dispatch s config peer_msg_id now =
    if s.closing
    then fails_with s peer_msg_id ErrorId.peer_unavailable
    else prepare_until s config peer_msg_id now (deadline_of s.queue.state peer_msg_id)

unfoldable pub handle_ack : PeerSession → ℕ → PeerSession × List Effect × Bool
handle_ack s peer_msg_id =
    let (q, effects, acked) = ack_message s.queue peer_msg_id in (with_queue s q, effects, acked)

unfoldable pub handle_error : PeerSession → ℕ → AureliaError → PeerSession × List Effect × Bool
handle_error s peer_msg_id err =
    let (q, effects, failed) = fail_message s.queue peer_msg_id err in
    (with_queue s q, effects, failed)

unfoldable pub has_inflight : PeerSession → Bool
has_inflight s = has_entries s.queue

abbrev pub fail_queue : PeerSession → ErrorId → PeerSession × List Effect
fail_queue s kind =
    let (q, effects, messages) = fail_all_messages s.queue (error_of kind) in
    (with_queue s q, effects)

unfoldable pub handle_close : PeerSession → PeerSession × List Effect
handle_close s = fail_queue (record s { closing = true }) ErrorId.peer_unavailable

unfoldable pub begin_close : PeerSession → PeerSession
begin_close s = record s { closing = true }

-- What the receiver of a oneshot channel sees by the deadline: a result, the channel dropped, or nothing.
pub data Awaited : Type 0 where
  arrived : Option AureliaError → Awaited
  dropped timed_out : Awaited

abbrev pub awaited_result :
    PeerSession → ℕ → Awaited → PeerSession × List Effect × Option AureliaError
awaited_result s peer_msg_id (arrived result) = (s, [], result)
awaited_result s peer_msg_id dropped =
    let (t, effects) = fail_inflight s peer_msg_id (error_of ErrorId.connection_lost) in
    (t, effects, some (error_of ErrorId.connection_lost))
awaited_result s peer_msg_id timed_out =
    let (t, effects) = fail_inflight s peer_msg_id (error_of ErrorId.send_timeout) in
    (t, effects, some (error_of ErrorId.send_timeout))

abbrev pub wait_on :
    PeerSession → ℕ → Option ℕ → Awaited → PeerSession × List Effect × Option AureliaError
wait_on s peer_msg_id none seen = awaited_result s peer_msg_id dropped
wait_on s peer_msg_id (some rx) seen = awaited_result s peer_msg_id seen

-- `now` is the time of the call and `seen` what its channel gives by the deadline.
unfoldable pub wait_for_ack :
    PeerSession → AckWaiter → ℕ → Awaited → PeerSession × List Effect × Option AureliaError
wait_for_ack s waiter now seen =
    if leb waiter.deadline now
    then awaited_result s waiter.peer_msg_id timed_out
    else wait_on s waiter.peer_msg_id waiter.rx seen

abbrev pub clear_history : PeerSession × List Effect → PeerSession × List Effect
clear_history (s, effects) = (record s { dedupe = clear s.dedupe }, effects)

unfoldable pub handle_hello_response :
    PeerSession → Bool → PeerSession × List Effect × List PeerMessage
handle_hello_response s reconnect =
    if reconnect
    then (s, [], tracked_messages s.queue.state)
    else let (t, effects) = clear_history (fail_queue s ErrorId.peer_restarted) in (t, effects, [])

-- `active.swap(true)`
abbrev pub restart : PeerSession → PeerSession × List Effect
restart s =
    if s.active then fail_queue s ErrorId.peer_restarted else (record s { active = true }, [])

unfoldable pub accept_hello : PeerSession → Bool → PeerSession × List Effect × Bool
accept_hello s reconnect =
    if reconnect && s.active
    then (s, [], true)
    else let (t, effects) = clear_history (restart s) in (t, effects, false)

unfoldable pub set_active : PeerSession → Bool → PeerSession
set_active s active = record s { active = active }
