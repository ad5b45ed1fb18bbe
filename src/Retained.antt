-- ===== src/Retained.antt =====
-- crates/peering/src/transport/primary_dispatch/store.rs: the messages and responses that are retained until
-- they are written, acknowledged or expired. This file has the data and the operations of one lane.
pub mod Store
pub mod Flow
pub mod Items
pub mod Removal
pub mod Places
pub mod Insertion
pub mod Resizing
pub mod Admission
pub mod Operations
pub mod Claims
pub mod Moves
pub mod Replays
pub mod Steps
pub mod Completion
pub mod Failing
mod Examples
use aurelia.Prelude.{
  ℕ, zero, suc, ◌+◌, ◌-◌, ◌%◌, ◌^◌, max, Bool, not, ◌&&◌, ◌||◌, Option, none, some, List, [], ◌∷◌,
  ◌++◌, ltb, leb, ◌==◌, if◌then◌else◌, length, get_elem?, set, replicate,
}
use aurelia.Prelude.Words.{u64_max, saturating_add, saturating_mul}

pub data RetainedLane : Type 0 where
  a1_ack a1_error a2 a3 : RetainedLane

-- Each with the callis that it is written to, or was sent on last.
pub data SlotState : Type 0 where
  empty ready : SlotState
  replay_ready writing inflight : ℕ → SlotState

pub data ResponseKind : Type 0 where
  ack error : ResponseKind

-- crates/peering/src/session.rs
pub record PeerMessage : Type 0 where
  pub peer_msg_id : ℕ
  pub src_taberna : ℕ
  pub dst_taberna : ℕ
  pub msg_type : ℕ
  pub flags : ℕ
  pub payload : List ℕ

-- crates/peering/src/transport/peer.rs
pub data OutboundFrame : Type 0 where
  ack_frame : ℕ → OutboundFrame
  message_frame : PeerMessage → OutboundFrame
  -- msg_type, peer_msg_id, payload
  control_frame : ℕ → ℕ → List ℕ → OutboundFrame

-- The sending end of a oneshot channel is a number that tells it from the others.
pub record TrackedOutbound : Type 0 where
  pub message : PeerMessage
  pub ack_tx : ℕ

pub data RetainedItem : Type 0 where
  ack_item : ℕ → RetainedItem
  error_item : ℕ → OutboundFrame → RetainedItem
  tracked_item : TrackedOutbound → RetainedItem

abbrev pub item_peer_msg_id : RetainedItem → ℕ
item_peer_msg_id (ack_item peer_msg_id) = peer_msg_id
item_peer_msg_id (error_item peer_msg_id frame) = peer_msg_id
item_peer_msg_id (tracked_item t) = t.message.peer_msg_id

pub data ItemKind : Type 0 where
  ack_kind error_kind tracked_kind : ItemKind

abbrev pub item_kind : RetainedItem → ItemKind
item_kind (ack_item _) = ack_kind
item_kind (error_item _ _) = error_kind
item_kind (tracked_item _) = tracked_kind

pub record ItemIdentity : Type 0 where
  pub peer_msg_id : ℕ
  pub seq : ℕ
  pub kind : ItemKind

pub record SlotId : Type 0 where
  pub lane : RetainedLane
  pub index : ℕ

pub record QueueKey : Type 0 where
  pub index : ℕ
  pub seq : ℕ

pub record DeadlineKey : Type 0 where
  pub deadline : ℕ
  pub slot : SlotId
  pub seq : ℕ

abbrev pub lane_rank : RetainedLane → ℕ
lane_rank a1_ack = 0
lane_rank a1_error = 1
lane_rank a2 = 2
lane_rank a3 = 3

-- The first of the differing components decides: deadline, lane, index, sequence number.
unfoldable pub key_leb : DeadlineKey → DeadlineKey → Bool
key_leb a b =
    ltb a.deadline b.deadline
    || (a.deadline == b.deadline
        && (ltb (lane_rank a.slot.lane) (lane_rank b.slot.lane)
            || (lane_rank a.slot.lane == lane_rank b.slot.lane
                && (ltb a.slot.index b.slot.index
                    || (a.slot.index == b.slot.index && leb a.seq b.seq)))))

-- A binary heap of reversed keys, as the list of its keys from the least.
unfoldable pub heap_push : List DeadlineKey → DeadlineKey → List DeadlineKey
heap_push [] key = key ∷ []
heap_push (first ∷ keys) key =
    let rest = heap_push keys key in if key_leb key first then key ∷ first ∷ keys else first ∷ rest

pub record RetainedSlot : Type 0 where
  pub item : Option RetainedItem
  pub original_deadline : ℕ
  pub lane : RetainedLane
  pub seq : ℕ
  pub state : SlotState

-- `now` is the time of the call.
abbrev pub empty_slot : RetainedLane → ℕ → RetainedSlot
empty_slot lane now = record {
  item = none;
  original_deadline = now;
  lane = lane;
  seq = 0;
  state = empty;
}

abbrev pub identity_of : ℕ → Option RetainedItem → Option ItemIdentity
identity_of seq none = none
identity_of seq (some item) =
    some (record { peer_msg_id = item_peer_msg_id item; seq = seq; kind = item_kind item })

abbrev pub identity : RetainedSlot → Option ItemIdentity
identity slot = identity_of slot.seq slot.item

pub record LaneState : Type 0 where
  pub lane : RetainedLane
  pub slots : List RetainedSlot
  -- A stack, from its top.
  pub free : List ℕ
  pub ready : List QueueKey
  pub replay : List QueueKey
  pub target_capacity : ℕ
  pub live_count : ℕ

-- The numbers from the first one, so many.
unfoldable pub range : ℕ → ℕ → List ℕ
range first zero = []
range first (suc count) = first ∷ range (first + 1) count

unfoldable pub new_lane : RetainedLane → ℕ → ℕ → LaneState
new_lane lane target_capacity now =
    let target : ℕ = max target_capacity 1 in
    record {
      lane = lane;
      slots = replicate target (empty_slot lane now);
      free = range 0 target;
      ready = [];
      replay = [];
      target_capacity = target;
      live_count = 0;
    }

-- `for index in slots.len()..target_capacity`, with the number of rounds.
unfoldable pub grow : ℕ → ℕ → LaneState → LaneState
grow zero now l = l
grow (suc rounds) now l =
    grow rounds now
      (record l { slots = l.slots ++ empty_slot l.lane now ∷ []; free = length l.slots ∷ l.free })

unfoldable pub set_target_capacity : LaneState → ℕ → ℕ → LaneState
set_target_capacity l target_capacity now =
    let target : ℕ = max target_capacity 1 in
    record (grow (target - length l.slots) now l) { target_capacity = target }

unfoldable pub available : LaneState → Bool
available l = ltb l.live_count l.target_capacity

-- The rest of `allocate`, once a slot is found.
unfoldable pub occupy :
    LaneState → ℕ → RetainedItem → ℕ → ℕ → LaneState × Option (SlotId × ItemIdentity)
occupy l index item deadline seq = (
  record l {
    slots = set l.slots index (record {
      item = some item;
      original_deadline = deadline;
      lane = l.lane;
      seq = seq;
      state = ready;
    });
    live_count = saturating_add l.live_count 1;
    ready = l.ready ++ record { index = index; seq = seq } ∷ [];
  },
  some (
    record { lane = l.lane; index = index },
    record { peer_msg_id = item_peer_msg_id item; seq = seq; kind = item_kind item },
  ),
)

abbrev pub take_free :
    LaneState → List ℕ → RetainedItem → ℕ → ℕ → ℕ → LaneState × Option (SlotId × ItemIdentity)
take_free l (index ∷ free) item deadline seq now =
    occupy (record l { free = free }) index item deadline seq
take_free l [] item deadline seq now =
    if ltb (length l.slots) l.target_capacity
    then occupy (record l { slots = l.slots ++ empty_slot l.lane now ∷ [] }) (length l.slots) item
        deadline seq
    else (l, none)

unfoldable pub allocate_in :
    LaneState → RetainedItem → ℕ → ℕ → ℕ → LaneState × Option (SlotId × ItemIdentity)
allocate_in l item deadline seq now =
    if not (available l) then (l, none) else take_free l l.free item deadline seq now

-- `wrapping_add(1).max(1)`
abbrev pub next_seq_of : ℕ → ℕ
next_seq_of seq = max ((seq + 1) % 2 ^ 64) 1

abbrev pub vacate :
    LaneState → ℕ → RetainedSlot → Option RetainedItem → LaneState × Option RetainedItem
vacate l index slot none = (l, none)
vacate l index slot (some item) = (
  record l {
    slots =
        set l.slots index (record slot { item = none; state = empty; seq = next_seq_of slot.seq });
    live_count = l.live_count - 1;
    free = index ∷ l.free;
  },
  some item,
)

abbrev pub remove_found : LaneState → ℕ → Option RetainedSlot → LaneState × Option RetainedItem
remove_found l index none = (l, none)
remove_found l index (some slot) = vacate l index slot slot.item

unfoldable pub remove_slot : LaneState → ℕ → LaneState × Option RetainedItem
remove_slot l index = remove_found l index (get_elem? l.slots index)

-- crates/peering/src/transport/primary_dispatch.rs
abbrev pub a2_capacity : ℕ
a2_capacity = 128

abbrev pub a1_ack_capacity_multiplier : ℕ
a1_ack_capacity_multiplier = 16

abbrev pub a1_error_capacity_multiplier : ℕ
a1_error_capacity_multiplier = 2

pub record RetainedCapacities : Type 0 where
  pub a1_ack : ℕ
  pub a1_error : ℕ
  pub a2 : ℕ
  pub a3 : ℕ

unfoldable pub from_send_queue_size : ℕ → RetainedCapacities
from_send_queue_size send_queue_size =
    let size : ℕ = max send_queue_size 1 in
    record {
      a1_ack = saturating_mul size a1_ack_capacity_multiplier;
      a1_error = saturating_mul size a1_error_capacity_multiplier;
      a2 = a2_capacity;
      a3 = size;
    }

abbrev pub capacity : RetainedCapacities → RetainedLane → ℕ
capacity c a1_ack = c.a1_ack
capacity c a1_error = c.a1_error
capacity c a2 = c.a2
capacity c a3 = c.a3
