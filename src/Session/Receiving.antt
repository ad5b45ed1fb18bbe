-- ===== src/Session/Receiving.antt =====
-- crates/peering/src/session.rs and transport/callis.rs: messages that arrive, the taberna's decisions on them, and the
-- cancellation of those that wait. The taberna's inbox is asked through `SinkReply`, what `enqueue` of the sink gives.
pub mod Once
use aurelia.Prelude.{ℕ, Bool, true, false, not, Option, none, some, List, [], if◌then◌else◌}
use aurelia.Prelude.Maps.{Map, get, contains_key}
use aurelia.Ids.{AureliaError, ErrorId}
use aurelia.Retained.{PeerMessage}
use aurelia.Session.{PeerSession, SessionConfig, CancelReason, should_error, error_of}
use aurelia.Session.Dedupe.{
  DedupeState, DedupeWaiter, DedupeBegin, DedupeDecision, Answer, ack, error, abandoned, begin_new,
  duplicate, pending_duplicate, dedupe_begin, dedupe_complete, dedupe_abandon,
}

pub data ReceiveOutcome : Type 0 where
  acks : ℕ → ReceiveOutcome
  errs : AureliaError → ReceiveOutcome
  skips : ReceiveOutcome

-- A pending message has its taberna and the channel of the decision; a pending duplicate the channel only.
pub data ReceiveSchedule : Type 0 where
  immediate : ReceiveOutcome → ReceiveSchedule
  pending : ℕ → ℕ → ReceiveSchedule
  pending_duplicate_of : ℕ → ReceiveSchedule

pub data SinkReply : Type 0 where
  queued : ℕ → SinkReply
  sink_error : AureliaError → SinkReply

-- Whether the sink got the message is the last component.
pub record Received : Type 0 where
  pub session : PeerSession
  pub answers : List Answer
  pub schedule : ReceiveSchedule
  pub handed : Bool

abbrev pub at_once : PeerSession → ReceiveOutcome → Received
at_once s outcome = record {
  session = s;
  answers = [];
  schedule = immediate outcome;
  handed = false;
}

abbrev pub duplicate_outcome : ℕ → DedupeDecision → ReceiveOutcome
duplicate_outcome peer_msg_id ack = acks peer_msg_id
duplicate_outcome peer_msg_id (error err) = errs err
duplicate_outcome peer_msg_id abandoned = skips

abbrev pub with_dedupe : PeerSession → DedupeState → PeerSession
with_dedupe s d = record s { dedupe = d }

abbrev pub hand_over : PeerSession → SessionConfig → PeerMessage → SinkReply → Received
hand_over s config message (queued accept_rx) = record {
  session = s;
  answers = [];
  schedule = pending message.dst_taberna accept_rx;
  handed = true;
}
hand_over s config message (sink_error err) =
    let (d, answers) =
      dedupe_complete s.dedupe config.send_queue_size message.peer_msg_id (some err) in
    record {
      session = with_dedupe s d;
      answers = answers;
      schedule = immediate (errs err);
      handed = true;
    }

abbrev pub after_begin :
    PeerSession → SessionConfig → PeerMessage → SinkReply → DedupeState × DedupeBegin → Received
after_begin s config message reply (d, duplicate decision) =
    at_once (with_dedupe s d) (duplicate_outcome message.peer_msg_id decision)
after_begin s config message reply (d, pending_duplicate rx) = record {
  session = with_dedupe s d;
  answers = [];
  schedule = pending_duplicate_of rx;
  handed = false;
}
after_begin s config message reply (d, begin_new) = hand_over (with_dedupe s d) config message reply

-- `known`: the registry has the taberna.
unfoldable pub receive_message_schedule :
    PeerSession → SessionConfig → PeerMessage → Bool → DedupeWaiter → SinkReply → Received
receive_message_schedule s config message known waiter reply =
    if s.closing
    then at_once s (errs (error_of ErrorId.peer_unavailable))
    else if not known
    then at_once s (errs (error_of ErrorId.unknown_taberna))
    else after_begin s config message reply (dedupe_begin s.dedupe message.peer_msg_id waiter)

-- crates/peering/src/transport/callis.rs

pub data InboundOutcome : Type 0 where
  ack_outcome : ℕ → InboundOutcome
  error_outcome : ℕ → AureliaError → InboundOutcome
  skip_outcome : InboundOutcome

-- What the taberna's decision channel gives.
pub data AcceptReady : Type 0 where
  accepted : AcceptReady
  rejected : AureliaError → AcceptReady
  channel_closed : AcceptReady

unfoldable pub drain_duplicate_waiter : ℕ → DedupeDecision → InboundOutcome
drain_duplicate_waiter peer_msg_id ack = ack_outcome peer_msg_id
drain_duplicate_waiter peer_msg_id (error err) = error_outcome peer_msg_id err
drain_duplicate_waiter peer_msg_id abandoned = skip_outcome

abbrev pub completed_with :
    PeerSession
    → ℕ
    → ℕ
    → Option AureliaError
    → InboundOutcome
    → PeerSession × List Answer × InboundOutcome
completed_with s size peer_msg_id result outcome =
    let (d, answers) = dedupe_complete s.dedupe size peer_msg_id result in
    (with_dedupe s d, answers, outcome)

unfoldable pub drain_message_waiter :
    PeerSession → SessionConfig → ℕ → AcceptReady → PeerSession × List Answer × InboundOutcome
drain_message_waiter s config peer_msg_id accepted =
    completed_with s config.send_queue_size peer_msg_id none (ack_outcome peer_msg_id)
drain_message_waiter s config peer_msg_id (rejected err) =
    completed_with s config.send_queue_size peer_msg_id (some err) (error_outcome peer_msg_id err)
drain_message_waiter s config peer_msg_id channel_closed =
    completed_with s config.send_queue_size peer_msg_id
      (some (error_of ErrorId.remote_taberna_rejected))
      (error_outcome peer_msg_id (error_of ErrorId.remote_taberna_rejected))

abbrev pub settled : PeerSession → DedupeState × List Answer → PeerSession × List Answer
settled s (d, answers) = (with_dedupe s d, answers)

-- `cancel_waiters` for a message.
unfoldable pub cancel_message :
    PeerSession → SessionConfig → ℕ → CancelReason → PeerSession × List Answer
cancel_message s config peer_msg_id reason =
    if should_error reason
    then settled s (
        dedupe_complete s.dedupe config.send_queue_size peer_msg_id
          (some (error_of ErrorId.peer_unavailable)))
    else settled s (dedupe_abandon s.dedupe peer_msg_id)
