-- ===== src/Dispatch/Frames.antt =====
-- crates/peering/src/transport/primary_dispatch.rs: frames for the retained lanes, and from claims.
use aurelia.Prelude.{ℕ, ◌+◌, ◌*◌, Option, none, some, List, [], ◌==◌, if◌then◌else◌}
use aurelia.Ids.{msg_ack, msg_error}
use aurelia.Retained.{OutboundFrame}
use aurelia.Retained.Flow.{RetainedClaim, RetainedWriteItem}
use aurelia.Dispatch.{PrimaryOutboundStore, Effect, enqueue_ack, enqueue_error}

-- In nanoseconds.
abbrev pub a1_response_ttl : ℕ
a1_response_ttl = 600 * 1_000_000_000

unfoldable pub frame_msg_type : OutboundFrame → ℕ
frame_msg_type (OutboundFrame.ack_frame m) = msg_ack
frame_msg_type (OutboundFrame.message_frame message) = message.msg_type
frame_msg_type (OutboundFrame.control_frame msg_type m payload) = msg_type

-- Other frames are only reported.
unfoldable pub enqueue_a1_frame :
    PrimaryOutboundStore → OutboundFrame → ℕ → PrimaryOutboundStore × List Effect
enqueue_a1_frame q (OutboundFrame.ack_frame m) now = enqueue_ack q m (now + a1_response_ttl) now
enqueue_a1_frame q (OutboundFrame.control_frame msg_type m payload) now =
    if msg_type == msg_error
    then enqueue_error q (OutboundFrame.control_frame msg_type m payload) (now + a1_response_ttl)
        now
    else (q, [])
enqueue_a1_frame q (OutboundFrame.message_frame message) now = (q, [])

abbrev pub item_to_frame : RetainedWriteItem → OutboundFrame
item_to_frame (RetainedWriteItem.write_ack m) = OutboundFrame.ack_frame m
item_to_frame (RetainedWriteItem.write_error m frame) = frame
item_to_frame (RetainedWriteItem.write_message m message) = OutboundFrame.message_frame message

unfoldable pub claim_to_frame : RetainedClaim → OutboundFrame
claim_to_frame claim = item_to_frame claim.item

unfoldable pub claim_message_id : RetainedClaim → Option ℕ
claim_message_id claim = elim claim.item [
  | RetainedWriteItem.write_message m message ↦ some m
  | _ ↦ none
]
