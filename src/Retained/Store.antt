-- ===== src/Retained/Store.antt =====
-- crates/peering/src/transport/primary_dispatch/store.rs: the store of four lanes; insertion, removal and the
-- completions that the waiting senders get.
use aurelia.Prelude.{
  ℕ, suc, Bool, true, false, not, ◌&&◌, Option, none, some, List, [], ◌∷◌, ◌++◌, leb, ◌==◌,
  if◌then◌else◌, get_elem?,
}
use aurelia.Prelude.Maps.{Map, get, insert, remove, contains_key}
use aurelia.Ids.{AureliaError, MessagePriorityClass, classify_message_priority}
use aurelia.Retained.{
  lane_rank, RetainedLane, a1_ack, a1_error, a2, a3, ResponseKind, ack, error, SlotState, SlotId,
  RetainedItem, ack_item, error_item, tracked_item, OutboundFrame, TrackedOutbound, PeerMessage,
  DeadlineKey, heap_push, LaneState, RetainedSlot, ItemIdentity, RetainedCapacities, new_lane,
  set_target_capacity, available, allocate_in, remove_slot, next_seq_of,
}

pub record RetainedStore : Type 0 where
  pub a1_ack : LaneState
  pub a1_error : LaneState
  pub a2 : LaneState
  pub a3 : LaneState
  pub tracked : Map SlotId
  pub responses : Map SlotId
  pub deadlines : List DeadlineKey
  pub next_seq : ℕ
  pub shutdown : Bool

unfoldable pub new : RetainedCapacities → ℕ → RetainedStore
new c now = record {
  a1_ack = new_lane a1_ack c.a1_ack now;
  a1_error = new_lane a1_error c.a1_error now;
  a2 = new_lane a2 c.a2 now;
  a3 = new_lane a3 c.a3 now;
  tracked = [];
  responses = [];
  deadlines = [];
  next_seq = 1;
  shutdown = false;
}

abbrev pub lane : RetainedStore → RetainedLane → LaneState
lane s a1_ack = s.a1_ack
lane s a1_error = s.a1_error
lane s a2 = s.a2
lane s a3 = s.a3

-- A write through `lane_mut`.
abbrev pub set_lane : RetainedStore → RetainedLane → LaneState → RetainedStore
set_lane s a1_ack l = record s { a1_ack = l }
set_lane s a1_error l = record s { a1_error = l }
set_lane s a2 l = record s { a2 = l }
set_lane s a3 l = record s { a3 = l }

unfoldable pub set_capacities : RetainedStore → RetainedCapacities → ℕ → RetainedStore
set_capacities s c now = record s {
  a1_ack = set_target_capacity s.a1_ack c.a1_ack now;
  a1_error = set_target_capacity s.a1_error c.a1_error now;
  a2 = set_target_capacity s.a2 c.a2 now;
  a3 = set_target_capacity s.a3 c.a3 now;
}

unfoldable pub set_shutdown : RetainedStore → RetainedStore
set_shutdown s = record s { shutdown = true }

abbrev pub note_deadline :
    RetainedStore
    → RetainedLane
    → ℕ
    → ℕ
    → LaneState × Option (SlotId × ItemIdentity)
    → RetainedStore × Option SlotId
note_deadline s kind deadline seq (l, none) = (set_lane s kind l, none)
note_deadline s kind deadline seq (l, some (slot, identity)) = (
  record (set_lane s kind l) {
    deadlines = heap_push s.deadlines (record { deadline = deadline; slot = slot; seq = seq });
  },
  some slot,
)

-- A sequence number is taken even where the lane has no slot.
unfoldable pub allocate :
    RetainedStore → RetainedLane → RetainedItem → ℕ → ℕ → RetainedStore × Option SlotId
allocate s kind item deadline now =
    note_deadline (record s { next_seq = next_seq_of s.next_seq }) kind deadline s.next_seq
      (allocate_in (lane s kind) item deadline s.next_seq now)

pub data ResponseInsertOutcome : Type 0 where
  inserted : ResponseInsertOutcome
  duplicate : ResponseKind → ℕ → ResponseInsertOutcome
  full : RetainedLane → ℕ → ResponseInsertOutcome
  shut_down : ℕ → ResponseInsertOutcome
  expired : ℕ → ResponseInsertOutcome

abbrev pub note_response :
    RetainedLane → ℕ → RetainedStore × Option SlotId → RetainedStore × ResponseInsertOutcome
note_response kind peer_msg_id (s, some slot) =
    (record s { responses = insert s.responses peer_msg_id slot }, inserted)
note_response kind peer_msg_id (s, none) = (s, full kind peer_msg_id)

unfoldable pub insert_response :
    RetainedStore
    → ResponseKind
    → RetainedLane
    → ℕ
    → ℕ
    → RetainedItem
    → ℕ
    → RetainedStore × ResponseInsertOutcome
insert_response s attempted kind peer_msg_id deadline item now =
    if s.shutdown
    then (s, shut_down peer_msg_id)
    else if leb deadline now
    then (s, expired peer_msg_id)
    else if contains_key s.responses peer_msg_id
    then (s, duplicate attempted peer_msg_id)
    else note_response kind peer_msg_id (allocate s kind item deadline now)

unfoldable pub insert_ack : RetainedStore → ℕ → ℕ → ℕ → RetainedStore × ResponseInsertOutcome
insert_ack s peer_msg_id deadline now =
    insert_response s ack a1_ack peer_msg_id deadline (ack_item peer_msg_id) now

unfoldable pub insert_error :
    RetainedStore → ℕ → OutboundFrame → ℕ → ℕ → RetainedStore × ResponseInsertOutcome
insert_error s peer_msg_id frame deadline now =
    insert_response s error a1_error peer_msg_id deadline (error_item peer_msg_id frame) now

-- The errors hand the message back to the caller.
pub data RetainedInsertError : Type 0 where
  full_of duplicate_of shut_down_for expired_for a1_tracked : TrackedOutbound → RetainedInsertError

-- `unreachable` is what the source marks so: a panic.
pub data TrackedInsert : Type 0 where
  tracked_ok unreachable : TrackedInsert
  tracked_error : RetainedInsertError → TrackedInsert

abbrev pub note_tracked : ℕ → RetainedStore × Option SlotId → RetainedStore × TrackedInsert
note_tracked peer_msg_id (s, some slot) =
    (record s { tracked = insert s.tracked peer_msg_id slot }, tracked_ok)
note_tracked peer_msg_id (s, none) = (s, unreachable)

abbrev pub insert_in_lane :
    RetainedStore → TrackedOutbound → RetainedLane → ℕ → ℕ → RetainedStore × TrackedInsert
insert_in_lane s t kind deadline now =
    if not (available (lane s kind))
    then (s, tracked_error (full_of t))
    else note_tracked t.message.peer_msg_id (allocate s kind (tracked_item t) deadline now)

-- The test for A1 and `tracked_lane`.
abbrev pub insert_by_class :
    RetainedStore → TrackedOutbound → MessagePriorityClass → ℕ → ℕ → RetainedStore × TrackedInsert
insert_by_class s t MessagePriorityClass.a1 deadline now = (s, tracked_error (a1_tracked t))
insert_by_class s t MessagePriorityClass.a2 deadline now = insert_in_lane s t a2 deadline now
insert_by_class s t MessagePriorityClass.a3 deadline now = insert_in_lane s t a3 deadline now

unfoldable pub insert_tracked :
    RetainedStore → TrackedOutbound → ℕ → ℕ → RetainedStore × TrackedInsert
insert_tracked s t deadline now =
    if s.shutdown
    then (s, tracked_error (shut_down_for t))
    else if leb deadline now
    then (s, tracked_error (expired_for t))
    else if contains_key s.tracked t.message.peer_msg_id
    then (s, tracked_error (duplicate_of t))
    else insert_by_class s t (classify_message_priority t.message.msg_type) deadline now

abbrev pub forget :
    RetainedStore
    → RetainedLane
    → LaneState × Option RetainedItem
    → RetainedStore × Option RetainedItem
forget s kind (l, none) = (set_lane s kind l, none)
forget s kind (l, some (tracked_item t)) = (
  record (set_lane s kind l) { tracked = remove s.tracked t.message.peer_msg_id },
  some (tracked_item t),
)
forget s kind (l, some (ack_item m)) =
    (record (set_lane s kind l) { responses = remove s.responses m }, some (ack_item m))
forget s kind (l, some (error_item m frame)) =
    (record (set_lane s kind l) { responses = remove s.responses m }, some (error_item m frame))

unfoldable pub remove_by_slot : RetainedStore → SlotId → RetainedStore × Option RetainedItem
remove_by_slot s slot = forget s slot.lane (remove_slot (lane s slot.lane) slot.index)

-- The result that a sender gets: `none` is `Ok(())`.
pub record CompletionEffect : Type 0 where
  pub peer_msg_id : ℕ
  pub ack_tx : ℕ
  pub result : Option AureliaError

abbrev pub effect_of : ℕ → Option AureliaError → Option RetainedItem → Option CompletionEffect
effect_of peer_msg_id result (some (tracked_item t)) =
    some (record { peer_msg_id = peer_msg_id; ack_tx = t.ack_tx; result = result })
effect_of peer_msg_id result _ = none

abbrev pub complete_removed :
    ℕ
    → Option AureliaError
    → RetainedStore × Option RetainedItem
    → RetainedStore × Option CompletionEffect
complete_removed peer_msg_id result (s, item) = (s, effect_of peer_msg_id result item)

abbrev pub complete_at :
    RetainedStore
    → ℕ
    → Option AureliaError
    → Option SlotId
    → RetainedStore × Option CompletionEffect
complete_at s peer_msg_id result none = (s, none)
complete_at s peer_msg_id result (some slot) =
    complete_removed peer_msg_id result (remove_by_slot s slot)

-- `RetainedStore::ack`
unfoldable pub ack_one : RetainedStore → ℕ → RetainedStore × Option CompletionEffect
ack_one s peer_msg_id = complete_at s peer_msg_id none (get s.tracked peer_msg_id)

unfoldable pub fail_one : RetainedStore → ℕ → AureliaError → RetainedStore × Option CompletionEffect
fail_one s peer_msg_id err = complete_at s peer_msg_id (some err) (get s.tracked peer_msg_id)

abbrev pub own_effect : Option AureliaError → Option RetainedItem → List CompletionEffect
own_effect result (some (tracked_item t)) =
    record { peer_msg_id = t.message.peer_msg_id; ack_tx = t.ack_tx; result = result } ∷ []
own_effect result _ = []

-- The loop of `fail_all`, `fail_non_a1` and `begin_shutdown`.
unfoldable pub fail_slots :
    RetainedStore → AureliaError → List SlotId → RetainedStore × List CompletionEffect
fail_slots s err [] = (s, [])
fail_slots s err (slot ∷ slots) =
    let (t, item) = remove_by_slot s slot in
    let (u, effects) = fail_slots t err slots in (u, own_effect (some err) item ++ effects)

-- In the order of the map, which the source leaves open.
abbrev pub values : Map SlotId → List SlotId
values [] = []
values ((m, slot) ∷ rest) = slot ∷ values rest

abbrev pub is_a1 : RetainedLane → Bool
is_a1 a1_ack = true
is_a1 a1_error = true
is_a1 a2 = false
is_a1 a3 = false

unfoldable pub non_a1 : List SlotId → List SlotId
non_a1 [] = []
non_a1 (slot ∷ slots) = if is_a1 slot.lane then non_a1 slots else slot ∷ non_a1 slots

unfoldable pub fail_all : RetainedStore → AureliaError → RetainedStore × List CompletionEffect
fail_all s err = fail_slots s err (values s.tracked)

unfoldable pub fail_non_a1 : RetainedStore → AureliaError → RetainedStore × List CompletionEffect
fail_non_a1 s err = fail_slots s err (non_a1 (values s.tracked))

unfoldable pub begin_shutdown : RetainedStore → AureliaError → RetainedStore × List CompletionEffect
begin_shutdown s err = fail_slots (record s { shutdown = true }) err (non_a1 (values s.tracked))

unfoldable pub drop_slots : RetainedStore → List SlotId → RetainedStore
drop_slots s [] = s
drop_slots s (slot ∷ slots) = drop_slots (remove_by_slot s slot).0 slots

unfoldable pub drop_responses : RetainedStore → RetainedStore
drop_responses s = drop_slots s (values s.responses)

abbrev pub count_errors : List SlotId → ℕ
count_errors [] = 0
count_errors (slot ∷ slots) =
    if lane_rank slot.lane == 1 then suc (count_errors slots) else count_errors slots

unfoldable pub response_lanes_empty : RetainedStore → Bool
response_lanes_empty s = s.a1_ack.live_count == 0 && count_errors (values s.responses) == 0

unfoldable pub is_empty_store : RetainedStore → Bool
is_empty_store s =
    s.a1_ack.live_count == 0
    && (s.a1_error.live_count == 0 && (s.a2.live_count == 0 && s.a3.live_count == 0))

unfoldable pub contains_tracked : RetainedStore → ℕ → Bool
contains_tracked s peer_msg_id = contains_key s.tracked peer_msg_id

abbrev pub slot_at : RetainedStore → SlotId → Option RetainedSlot
slot_at s slot = get_elem? (lane s slot.lane).slots slot.index

abbrev pub tracked_slot : RetainedStore → Option SlotId → Option RetainedSlot
tracked_slot s none = none
tracked_slot s (some slot) = slot_at s slot

abbrev pub state_in : Option RetainedSlot → Option SlotState
state_in none = none
state_in (some slot) = some slot.state

unfoldable pub tracked_state : RetainedStore → ℕ → Option SlotState
tracked_state s peer_msg_id = state_in (tracked_slot s (get s.tracked peer_msg_id))

abbrev pub deadline_in : Option RetainedSlot → Option ℕ
deadline_in none = none
deadline_in (some slot) = some slot.original_deadline

unfoldable pub deadline_of : RetainedStore → ℕ → Option ℕ
deadline_of s peer_msg_id = deadline_in (tracked_slot s (get s.tracked peer_msg_id))

abbrev pub message_in : Option RetainedSlot → Option PeerMessage
message_in none = none
message_in (some slot) = elim slot.item [
  | none ↦ none
  | some item ↦ elim item [
    | tracked_item t ↦ some t.message
    | ack_item m ↦ none
    | error_item m frame ↦ none
  ]
]

unfoldable pub message_of : RetainedStore → ℕ → Option PeerMessage
message_of s peer_msg_id = message_in (tracked_slot s (get s.tracked peer_msg_id))

abbrev pub messages_at : RetainedStore → List SlotId → List PeerMessage
messages_at s [] = []
messages_at s (slot ∷ slots) = elim (message_in (slot_at s slot)) [
  | none ↦ messages_at s slots
  | some message ↦ message ∷ messages_at s slots
]

-- In the order of the map, which the source leaves open.
unfoldable pub tracked_messages : RetainedStore → List PeerMessage
tracked_messages s = messages_at s (values s.tracked)
