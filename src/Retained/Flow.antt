-- ===== src/Retained/Flow.antt =====
-- crates/peering/src/transport/primary_dispatch/store.rs: the writers' side of the store, the replay after a
-- failure and the deadlines.
use aurelia.Prelude.{
  ℕ, ◌+◌, Bool, true, false, not, ◌&&◌, ◌||◌, Option, none, some, List, [], ◌∷◌, ◌++◌, ltb, ◌==◌,
  if◌then◌else◌, is_some, get_elem?, set,
}
use aurelia.Prelude.Maps.{get}
use aurelia.Ids.{AureliaError, send_timeout}
use aurelia.Retained.{
  item_kind, item_peer_msg_id, RetainedLane, a1_ack, a1_error, a2, a3, SlotState, empty, ready,
  replay_ready, writing, inflight, SlotId, RetainedItem, ack_item, error_item, tracked_item,
  OutboundFrame, PeerMessage, DeadlineKey, QueueKey, LaneState, RetainedSlot, ItemIdentity,
  ItemKind, ack_kind, error_kind, tracked_kind, identity,
}
use aurelia.Retained.Store.{
  RetainedStore, lane, set_lane, remove_by_slot, own_effect, CompletionEffect, is_a1, values,
  slot_at,
}

pub data RetainedWriteItem : Type 0 where
  write_ack : ℕ → RetainedWriteItem
  write_error : ℕ → OutboundFrame → RetainedWriteItem
  write_message : ℕ → PeerMessage → RetainedWriteItem

abbrev pub write_item : RetainedItem → RetainedWriteItem
write_item (ack_item m) = write_ack m
write_item (error_item m frame) = write_error m frame
write_item (tracked_item t) = write_message t.message.peer_msg_id t.message

pub record RetainedClaim : Type 0 where
  pub slot : SlotId
  pub identity : ItemIdentity
  pub callis_id : ℕ
  pub deadline : ℕ
  pub item : RetainedWriteItem

abbrev pub is_ready : SlotState → Bool
is_ready ready = true
is_ready _ = false

abbrev pub is_replay_ready : SlotState → Bool
is_replay_ready (replay_ready _) = true
is_replay_ready _ = false

abbrev pub is_empty_state : SlotState → Bool
is_empty_state empty = true
is_empty_state _ = false

abbrev pub is_expected : Bool → SlotState → Bool
is_expected true state = is_replay_ready state
is_expected false state = is_ready state

-- The queue that is left, and the slot that the key leads to.
abbrev pub Scan : Type 0
Scan = List QueueKey × Option (ℕ × RetainedSlot)

abbrev pub scan_key : Bool → QueueKey → List QueueKey → Scan → Option RetainedSlot → Scan
scan_key replay key keys rest none = (keys, none)
scan_key replay key keys rest (some slot) =
    if slot.seq == key.seq && is_expected replay slot.state
    then (keys, some (key.index, slot))
    else rest

-- The loop of `claim_from_queue`: stale keys are dropped.
unfoldable pub scan : Bool → List RetainedSlot → List QueueKey → Scan
scan replay slots [] = ([], none)
scan replay slots (key ∷ keys) =
    scan_key replay key keys (scan replay slots keys) (get_elem? slots key.index)

abbrev pub keep_queue : Bool → LaneState → List QueueKey → LaneState
keep_queue true l keys = record l { replay = keys }
keep_queue false l keys = record l { ready = keys }

abbrev pub claim_slot :
    RetainedLane
    → ℕ
    → LaneState
    → ℕ
    → RetainedSlot
    → Option RetainedItem
    → LaneState × Option RetainedClaim
claim_slot kind callis_id l index slot none = (l, none)
claim_slot kind callis_id l index slot (some item) = (
  record l { slots = set l.slots index (record slot { state = writing callis_id }) },
  some (record {
    slot = record { lane = kind; index = index };
    identity = record {
      peer_msg_id = item_peer_msg_id item;
      seq = slot.seq;
      kind = item_kind item;
    };
    callis_id = callis_id;
    deadline = slot.original_deadline;
    item = write_item item;
  }),
)

abbrev pub claim_found :
    RetainedLane → ℕ → Bool → LaneState → Scan → LaneState × Option RetainedClaim
claim_found kind callis_id replay l (keys, none) = (keep_queue replay l keys, none)
claim_found kind callis_id replay l (keys, some (index, slot)) =
    claim_slot kind callis_id (keep_queue replay l keys) index slot slot.item

abbrev pub queue : Bool → LaneState → List QueueKey
queue true l = l.replay
queue false l = l.ready

unfoldable pub claim_in : RetainedLane → Bool → ℕ → LaneState → LaneState × Option RetainedClaim
claim_in kind replay callis_id l =
    claim_found kind callis_id replay l (scan replay l.slots (queue replay l))

abbrev pub put_claim :
    RetainedStore
    → RetainedLane
    → LaneState × Option RetainedClaim
    → RetainedStore × Option RetainedClaim
put_claim s kind (l, claim) = (set_lane s kind l, claim)

unfoldable pub claim_from_queue :
    RetainedStore → RetainedLane → Bool → ℕ → RetainedStore × Option RetainedClaim
claim_from_queue s kind replay callis_id =
    put_claim s kind (claim_in kind replay callis_id (lane s kind))

-- The second attempt, in the state that the first one left.
abbrev pub or_claim :
    RetainedStore × Option RetainedClaim
    → (RetainedStore → RetainedStore × Option RetainedClaim)
    → RetainedStore × Option RetainedClaim
or_claim (s, some claim) next = (s, some claim)
or_claim (s, none) next = next s

unfoldable pub claim_lane : RetainedStore → RetainedLane → ℕ → RetainedStore × Option RetainedClaim
claim_lane s kind callis_id =
    if is_a1 kind
    then claim_from_queue s kind false callis_id
    else if s.shutdown
    then (s, none)
    else or_claim (claim_from_queue s kind true callis_id)
        (λ t. claim_from_queue t kind false callis_id)

unfoldable pub claim_next : RetainedStore → ℕ → RetainedStore × Option RetainedClaim
claim_next s callis_id = or_claim (claim_lane s a1_ack callis_id) (λ t.
    or_claim (claim_lane t a1_error callis_id)
      (λ u. or_claim (claim_lane u a2 callis_id) (λ v. claim_lane v a3 callis_id)))

unfoldable pub any_dispatchable : List RetainedSlot → Bool
any_dispatchable [] = false
any_dispatchable (slot ∷ slots) =
    ((is_ready slot.state || is_replay_ready slot.state) && is_some slot.item)
    || any_dispatchable slots

unfoldable pub has_dispatchable_work : RetainedStore → Bool
has_dispatchable_work s =
    any_dispatchable s.a1_ack.slots
    || (any_dispatchable s.a1_error.slots
        || (not s.shutdown && (any_dispatchable s.a2.slots || any_dispatchable s.a3.slots)))

abbrev pub is_writing_on : ℕ → SlotState → Bool
is_writing_on callis_id (writing k) = k == callis_id
is_writing_on callis_id _ = false

abbrev pub same_kind : ItemKind → ItemKind → Bool
same_kind ack_kind ack_kind = true
same_kind error_kind error_kind = true
same_kind tracked_kind tracked_kind = true
same_kind _ _ = false

abbrev pub same_identity : Option ItemIdentity → ItemIdentity → Bool
same_identity none b = false
same_identity (some a) b =
    a.peer_msg_id == b.peer_msg_id && (a.seq == b.seq && same_kind a.kind b.kind)

-- A new state for a slot, and its key on one of the queues or on none.
abbrev pub set_state : LaneState → ℕ → RetainedSlot → SlotState → LaneState
set_state l index slot state = record l {
  slots = set l.slots index (record slot { state = state });
}

abbrev pub push_ready : LaneState → ℕ → ℕ → LaneState
push_ready l index seq = record l { ready = l.ready ++ record { index = index; seq = seq } ∷ [] }

abbrev pub push_replay : LaneState → ℕ → ℕ → LaneState
push_replay l index seq = record l { replay = l.replay ++ record { index = index; seq = seq } ∷ [] }

-- A response goes once; a tracked message waits for its acknowledgement, or is sent again.
abbrev pub finish_write :
    RetainedStore → RetainedClaim → RetainedSlot → Bool → Option RetainedItem → RetainedStore
finish_write s claim slot failed none = s
finish_write s claim slot true (some (tracked_item t)) = set_lane s claim.slot.lane (
    push_replay
      (set_state (lane s claim.slot.lane) claim.slot.index slot (replay_ready claim.callis_id))
      claim.slot.index slot.seq)
finish_write s claim slot false (some (tracked_item t)) =
    set_lane s claim.slot.lane
      (set_state (lane s claim.slot.lane) claim.slot.index slot (inflight claim.callis_id))
finish_write s claim slot true (some response) = set_lane s claim.slot.lane (
    push_ready (set_state (lane s claim.slot.lane) claim.slot.index slot ready) claim.slot.index
      slot.seq)
finish_write s claim slot false (some response) = (remove_by_slot s claim.slot).0

abbrev pub finish_found : RetainedStore → RetainedClaim → Bool → Option RetainedSlot → RetainedStore
finish_found s claim failed none = s
finish_found s claim failed (some slot) =
    if is_writing_on claim.callis_id slot.state && same_identity (identity slot) claim.identity
    then finish_write s claim slot failed slot.item
    else s

-- `failed`: the write ended in an error. No sender gets a result from it.
unfoldable pub complete_write : RetainedStore → RetainedClaim → Bool → RetainedStore
complete_write s claim failed = finish_found s claim failed (slot_at s claim.slot)

abbrev pub is_tracked : Option RetainedItem → Bool
is_tracked (some (tracked_item t)) = true
is_tracked _ = false

abbrev pub carried_by : ℕ → SlotState → Bool
carried_by callis_id (writing k) = k == callis_id
carried_by callis_id (inflight k) = k == callis_id
carried_by callis_id _ = false

abbrev pub replay_slot : LaneState → ℕ → ℕ → RetainedSlot → Option RetainedItem → LaneState
replay_slot l callis_id index slot none = l
replay_slot l callis_id index slot (some (tracked_item t)) =
    if carried_by callis_id slot.state
    then push_replay (set_state l index slot (replay_ready callis_id)) index slot.seq
    else l
replay_slot l callis_id index slot (some response) =
    if is_writing_on callis_id slot.state
    then push_ready (set_state l index slot ready) index slot.seq
    else l

-- `for index in 0..lane_state.slots.len()`, over the slots from an index on. The keys for replay go to
-- the queue one by one; the source collects them first, which gives the same queue.
unfoldable pub replay_slots : ℕ → ℕ → List RetainedSlot → LaneState → LaneState
replay_slots callis_id index [] l = l
replay_slots callis_id index (slot ∷ slots) l =
    replay_slots callis_id (index + 1) slots (replay_slot l callis_id index slot slot.item)

abbrev pub replay_lane : ℕ → RetainedLane → RetainedStore → RetainedStore
replay_lane callis_id kind s =
    set_lane s kind (replay_slots callis_id 0 (lane s kind).slots (lane s kind))

-- The acknowledgements' lane is left as it is.
unfoldable pub mark_callis_replay_ready : RetainedStore → ℕ → RetainedStore
mark_callis_replay_ready s callis_id =
    replay_lane callis_id a3 (replay_lane callis_id a2 (replay_lane callis_id a1_error s))

abbrev pub last_callis : SlotState → Option ℕ
last_callis (writing k) = some k
last_callis (inflight k) = some k
last_callis (replay_ready k) = some k
last_callis ready = none
last_callis empty = none

abbrev pub mark_slot : RetainedStore → SlotId → RetainedSlot → Option ℕ → RetainedStore
mark_slot s id slot none = s
mark_slot s id slot (some k) =
    if is_tracked slot.item
    then set_lane s id.lane
        (push_replay (set_state (lane s id.lane) id.index slot (replay_ready k)) id.index slot.seq)
    else s

abbrev pub mark_found : RetainedStore → SlotId → Option RetainedSlot → RetainedStore
mark_found s id none = s
mark_found s id (some slot) = mark_slot s id slot (last_callis slot.state)

unfoldable pub mark_slots_replay_ready : RetainedStore → List SlotId → RetainedStore
mark_slots_replay_ready s [] = s
mark_slots_replay_ready s (id ∷ ids) = mark_slots_replay_ready (mark_found s id (slot_at s id)) ids

unfoldable pub mark_all_tracked_replay_ready : RetainedStore → RetainedStore
mark_all_tracked_replay_ready s = mark_slots_replay_ready s (values s.tracked)

abbrev pub add_found : Option SlotId → List SlotId → List SlotId
add_found none ids = ids
add_found (some id) ids = id ∷ ids

unfoldable pub slots_of : RetainedStore → List ℕ → List SlotId
slots_of s [] = []
slots_of s (m ∷ ms) = add_found (get s.tracked m) (slots_of s ms)

unfoldable pub mark_tracked_replay_ready : RetainedStore → List ℕ → RetainedStore
mark_tracked_replay_ready s peer_msg_ids = mark_slots_replay_ready s (slots_of s peer_msg_ids)

-- The key still belongs to the message that the slot holds.
abbrev pub is_current : DeadlineKey → Option RetainedSlot → Bool
is_current key none = false
is_current key (some slot) =
    slot.seq == key.seq
    && (slot.original_deadline == key.deadline && not (is_empty_state slot.state))

abbrev pub timed_out : AureliaError
timed_out = record { kind = send_timeout; message = none }

-- `while let Some(key) = self.deadlines.peek()`, over the heap.
unfoldable pub expire_keys :
    RetainedStore → ℕ → List DeadlineKey → RetainedStore × List CompletionEffect
expire_keys s now [] = (record s { deadlines = [] }, [])
expire_keys s now (key ∷ keys) =
    let (removed, item) = remove_by_slot s key.slot in
    let expired = expire_keys removed now keys in
    let skipped = expire_keys s now keys in
    if ltb now key.deadline
    then (record s { deadlines = key ∷ keys }, [])
    else if is_current key (slot_at s key.slot)
    then (expired.0, own_effect (some timed_out) item ++ expired.1)
    else skipped

unfoldable pub expire_due : RetainedStore → ℕ → RetainedStore × List CompletionEffect
expire_due s now = expire_keys s now s.deadlines

unfoldable pub next_keys : RetainedStore → List DeadlineKey → List DeadlineKey × Option ℕ
next_keys s [] = ([], none)
next_keys s (key ∷ keys) =
    let rest = next_keys s keys in
    if is_current key (slot_at s key.slot) then (key ∷ keys, some key.deadline) else rest

abbrev pub keep_keys : RetainedStore → List DeadlineKey × Option ℕ → RetainedStore × Option ℕ
keep_keys s (keys, deadline) = (record s { deadlines = keys }, deadline)

unfoldable pub next_deadline : RetainedStore → RetainedStore × Option ℕ
next_deadline s = keep_keys s (next_keys s s.deadlines)
