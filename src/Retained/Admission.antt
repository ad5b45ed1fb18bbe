-- ===== src/Retained/Admission.antt =====
-- A lane with room always has a slot for a message: the store never runs into what it marks as unreachable.
use aurelia.Prelude.{
  ℕ, ◌≡◌, refl, ap, ◌≢◌, inl, inr, true, Option, none, some, List, [], ◌∷◌, arith, ltb, leb,
  if◌then◌else◌, is_some, ltb→lt, lt→ltb, Bool-cases, if_holds, length,
}
use aurelia.Ids.{MessagePriorityClass, classify_message_priority}
use aurelia.Prelude.Maps.{contains_key}
use aurelia.Retained.{
  ItemIdentity, RetainedLane, a2, a3, SlotId, RetainedItem, tracked_item, LaneState,
  TrackedOutbound, available, take_free, allocate_in, occupy, next_seq_of,
}
use aurelia.Retained.Store.{
  RetainedStore, lane, allocate, note_deadline, note_tracked, insert_in_lane, insert_by_class,
  insert_tracked, TrackedInsert, tracked_ok, tracked_error, full_of, duplicate_of, shut_down_for,
  expired_for, a1_tracked,
}
use aurelia.Retained.Items.{LaneIsValid, IsStored, length-items_of}

take_free-is_some :
    (kind : RetainedLane) (l : LaneState) (free : List ℕ) (item : RetainedItem)
    (deadline seq now : ℕ)
    → l.free ≡ free
    → LaneIsValid kind l
    → available l ≡ true
    → is_some (take_free l free item deadline seq now).1 ≡ true
unfolding available occupy
take_free-is_some kind l (index ∷ free) item deadline seq now e v room = refl
take_free-is_some kind l [] item deadline seq now e v room =
    let grows : ltb (length l.slots) l.target_capacity ≡ true =
      lt→ltb _ _
        (omega (arith, ltb→lt _ _ room, v.balanced, ap length e, length-items_of l.slots)) in
    rw grows refl

-- The store's own numbering does not change a lane.
renumbered_lane_of :
    (s : RetainedStore) (kind : RetainedLane) (n : ℕ)
    → lane (record s { next_seq = n }) kind ≡ lane s kind
renumbered_lane_of s RetainedLane.a1_ack n = refl
renumbered_lane_of s RetainedLane.a1_error n = refl
renumbered_lane_of s a2 n = refl
renumbered_lane_of s a3 n = refl

note_tracked-ok :
    (s : RetainedStore) (kind : RetainedLane) (item : RetainedItem) (m deadline now : ℕ)
    → IsStored s
    → available (lane s kind) ≡ true
    → (note_tracked m (allocate s kind item deadline now)).1 ≡ tracked_ok
unfolding allocate allocate_in
note_tracked-ok s kind item m deadline now v room = rw room (
    noted (take_free (lane s kind) (lane s kind).free item deadline s.next_seq now) (
      take_free-is_some kind (lane s kind) (lane s kind).free item deadline s.next_seq now refl
        (v.lanes kind) room))
  where
    noted :
        (r : LaneState × Option (SlotId × ItemIdentity))
        → is_some r.1 ≡ true
        → (note_tracked m (
            note_deadline
              (record s { next_seq = next_seq_of s.next_seq })
              kind
              deadline
              s.next_seq
              r)).1
          ≡ tracked_ok
    noted (l, none) h = cc
    noted (l, some (slot, identity)) h = refl

-- What becomes of a message that is to be tracked, by the state that the store is in.
abbrev pub lane_verdict : RetainedStore → TrackedOutbound → RetainedLane → TrackedInsert
lane_verdict s t kind =
    if ltb (lane s kind).live_count (lane s kind).target_capacity
    then tracked_ok
    else tracked_error (full_of t)

abbrev pub class_verdict : RetainedStore → TrackedOutbound → MessagePriorityClass → TrackedInsert
class_verdict s t MessagePriorityClass.a1 = tracked_error (a1_tracked t)
class_verdict s t MessagePriorityClass.a2 = lane_verdict s t a2
class_verdict s t MessagePriorityClass.a3 = lane_verdict s t a3

unfoldable pub verdict : RetainedStore → TrackedOutbound → ℕ → ℕ → TrackedInsert
verdict s t deadline now =
    if s.shutdown
    then tracked_error (shut_down_for t)
    else if leb deadline now
    then tracked_error (expired_for t)
    else if contains_key s.tracked t.message.peer_msg_id
    then tracked_error (duplicate_of t)
    else class_verdict s t (classify_message_priority t.message.msg_type)

insert_in_lane-verdict :
    (s : RetainedStore) (t : TrackedOutbound) (kind : RetainedLane) (deadline now : ℕ)
    → IsStored s
    → (insert_in_lane s t kind deadline now).1 ≡ lane_verdict s t kind
unfolding available
insert_in_lane-verdict s t kind deadline now v = elim (Bool-cases (available (lane s kind))) [
  | inl room ↦
      rw room (note_tracked-ok s kind (tracked_item t) t.message.peer_msg_id deadline now v room)
  | inr no_room ↦ rw no_room refl
]

insert_by_class-verdict :
    (s : RetainedStore) (t : TrackedOutbound) (class : MessagePriorityClass) (deadline now : ℕ)
    → IsStored s
    → (insert_by_class s t class deadline now).1 ≡ class_verdict s t class
insert_by_class-verdict s t MessagePriorityClass.a1 deadline now v = refl
insert_by_class-verdict s t MessagePriorityClass.a2 deadline now v =
    insert_in_lane-verdict s t a2 deadline now v
insert_by_class-verdict s t MessagePriorityClass.a3 deadline now v =
    insert_in_lane-verdict s t a3 deadline now v

pub insert_tracked-verdict :
    (s : RetainedStore) (t : TrackedOutbound) (deadline now : ℕ)
    → IsStored s
    → (insert_tracked s t deadline now).1 ≡ verdict s t deadline now
unfolding insert_tracked verdict
insert_tracked-verdict s t deadline now v = ground (
  arith,
  insert_by_class-verdict s t (classify_message_priority t.message.msg_type) deadline now v,
)

-- A message that is not taken leaves the store as it was.
insert_in_lane-unchanged :
    (s : RetainedStore) (t : TrackedOutbound) (kind : RetainedLane) (deadline now : ℕ)
    → IsStored s
    → (insert_in_lane s t kind deadline now).1 ≢ tracked_ok
    → (insert_in_lane s t kind deadline now).0 ≡ s
unfolding available
insert_in_lane-unchanged s t kind deadline now v = elim (Bool-cases (available (lane s kind))) [
  | inl room ↦ λ h. absurd (
      h (
        rw room
          (note_tracked-ok s kind (tracked_item t) t.message.peer_msg_id deadline now v room)))
  | inr no_room ↦ rw no_room (λ h. refl)
]

insert_by_class-unchanged :
    (s : RetainedStore) (t : TrackedOutbound) (class : MessagePriorityClass) (deadline now : ℕ)
    → IsStored s
    → (insert_by_class s t class deadline now).1 ≢ tracked_ok
    → (insert_by_class s t class deadline now).0 ≡ s
insert_by_class-unchanged s t MessagePriorityClass.a1 deadline now v h = refl
insert_by_class-unchanged s t MessagePriorityClass.a2 deadline now v h =
    insert_in_lane-unchanged s t a2 deadline now v h
insert_by_class-unchanged s t MessagePriorityClass.a3 deadline now v h =
    insert_in_lane-unchanged s t a3 deadline now v h

abbrev UnchangedUnlessTaken : RetainedStore → RetainedStore × TrackedInsert → Type 0
UnchangedUnlessTaken s (t, result) = result ≢ tracked_ok → t ≡ s

pub insert_tracked-unchanged :
    (s : RetainedStore) (t : TrackedOutbound) (deadline now : ℕ)
    → IsStored s
    → (insert_tracked s t deadline now).1 ≢ tracked_ok
    → (insert_tracked s t deadline now).0 ≡ s
unfolding insert_tracked
insert_tracked-unchanged s t deadline now v =
    if_holds (UnchangedUnlessTaken s) s.shutdown (λ _ h. refl)
      (λ _.
        if_holds (UnchangedUnlessTaken s) (leb deadline now) (λ _ h. refl)
          (λ _.
            if_holds (UnchangedUnlessTaken s) (contains_key s.tracked t.message.peer_msg_id)
              (λ _ h. refl)
              (λ _.
                insert_by_class-unchanged s t (classify_message_priority t.message.msg_type)
                  deadline now v)))
