-- ===== src/Retained/Operations.antt =====
-- Every operation of the store keeps it valid: the insertions, the completions and the clearing of lanes.
use aurelia.Prelude.{
  ℕ, ◌≡◌, refl, ap, subst, ◌∙◌, inl, inr, Bool, true, false, Option, none, some, List, [], ◌∷◌,
  arith, leb, Bool-cases, Option-cases, if_holds,
}
use aurelia.Prelude.Maps.{Map, get, contains_key}
use aurelia.Ids.{AureliaError, MessagePriorityClass, classify_message_priority}
use aurelia.Retained.{
  next_seq_of, error, ack, RetainedLane, a1_ack, a1_error, a2, a3, SlotId, RetainedItem, ack_item,
  error_item, tracked_item, OutboundFrame, TrackedOutbound, ResponseKind, item_peer_msg_id,
  available,
}
use aurelia.Retained.Store.{
  ResponseInsertOutcome, TrackedInsert, RetainedStore, lane, insert_response, insert_ack,
  insert_error, insert_tracked, insert_in_lane, remove_by_slot, ack_one, fail_one, complete_at,
  fail_slots, drop_slots, insert_by_class,
}
use aurelia.Retained.Items.{LaneSame, LaneSame-refl, is_tracked_item, book, IsStored, same-IsStored}
use aurelia.Retained.Removal.{remove_by_slot-IsStored}
use aurelia.Retained.Insertion.{
  note_in, allocate-cases, note_in-IsStored, renumbered_lane, renumbered_book,
}

renumbered-IsStored :
    (s : RetainedStore) (n : ℕ) → IsStored s → IsStored (record s { next_seq = n })
renumbered-IsStored s n v =
    same-IsStored s (record s { next_seq = n }) (λ k. renumbered_lane s k n) (renumbered_book s n) v

absent : {V : Type 0} (m : Map V) (k : ℕ) → contains_key m k ≡ false → get m k ≡ none
absent m k h = elim (Option-cases (get m k)) [ inl e ↦ e | inr (x, e) ↦ ground (arith, e, h) ]

insert_response-IsStored :
    (s : RetainedStore) (attempted : ResponseKind) (kind : RetainedLane) (deadline : ℕ)
    (item : RetainedItem) (now : ℕ)
    → is_tracked_item item ≡ false
    → IsStored s
    → IsStored (insert_response s attempted kind (item_peer_msg_id item) deadline item now).0
unfolding insert_response
insert_response-IsStored s attempted kind deadline item now response v =
    if_holds (λ (r : RetainedStore × ResponseInsertOutcome). IsStored r.0) s.shutdown (λ _. v)
      (λ _.
        if_holds (λ (r : RetainedStore × ResponseInsertOutcome). IsStored r.0) (leb deadline now)
          (λ _. v)
          (λ _.
            if_holds (λ (r : RetainedStore × ResponseInsertOutcome). IsStored r.0)
              (contains_key s.responses (item_peer_msg_id item)) (λ _. v)
              (λ new_id. elim (allocate-cases s kind item deadline now v) [
                | inl e ↦ rw e (renumbered-IsStored s (next_seq_of s.next_seq) v)
                | inr (index, t, e, w) ↦ rw e (
                    subst
                      (λ b. IsStored (
                        note_in b (item_peer_msg_id item) (record { lane = kind; index = index })
                          t))
                      response
                      (note_in-IsStored s t item (record { lane = kind; index = index }) v w
                        (ap (λ b. get (book s b) (item_peer_msg_id item)) response
                          ∙ absent s.responses (item_peer_msg_id item) new_id)))
              ])))

insert_in_lane-IsStored :
    (s : RetainedStore) (t : TrackedOutbound) (kind : RetainedLane) (deadline now : ℕ)
    → get s.tracked t.message.peer_msg_id ≡ none
    → IsStored s
    → IsStored (insert_in_lane s t kind deadline now).0
insert_in_lane-IsStored s t kind deadline now fresh v =
    elim (Bool-cases (available (lane s kind))) [
      | inr no_room ↦ rw no_room v
      | inl room ↦ elim (allocate-cases s kind (tracked_item t) deadline now v) [
        | inl e ↦ rw (room, e) (renumbered-IsStored s _ v)
        | inr (index, u, e, w) ↦ rw (room, e) (note_in-IsStored s u (tracked_item t) _ v w fresh)
      ]
    ]

insert_by_class-IsStored :
    (s : RetainedStore) (t : TrackedOutbound) (class : MessagePriorityClass) (deadline now : ℕ)
    → get s.tracked t.message.peer_msg_id ≡ none
    → IsStored s
    → IsStored (insert_by_class s t class deadline now).0
insert_by_class-IsStored s t MessagePriorityClass.a1 deadline now fresh v = v
insert_by_class-IsStored s t MessagePriorityClass.a2 deadline now fresh v =
    insert_in_lane-IsStored s t a2 deadline now fresh v
insert_by_class-IsStored s t MessagePriorityClass.a3 deadline now fresh v =
    insert_in_lane-IsStored s t a3 deadline now fresh v

pub insert_tracked-IsStored :
    (s : RetainedStore) (t : TrackedOutbound) (deadline now : ℕ)
    → IsStored s
    → IsStored (insert_tracked s t deadline now).0
unfolding insert_tracked
insert_tracked-IsStored s t deadline now v =
    if_holds (λ (r : RetainedStore × TrackedInsert). IsStored r.0) s.shutdown (λ _. v)
      (λ _.
        if_holds (λ (r : RetainedStore × TrackedInsert). IsStored r.0) (leb deadline now) (λ _. v)
          (λ _.
            if_holds (λ (r : RetainedStore × TrackedInsert). IsStored r.0)
              (contains_key s.tracked t.message.peer_msg_id) (λ _. v)
              (λ new_id.
                insert_by_class-IsStored s t (classify_message_priority t.message.msg_type) deadline
                  now (absent s.tracked t.message.peer_msg_id new_id) v)))

pub insert_ack-IsStored :
    (s : RetainedStore) (m deadline now : ℕ) → IsStored s → IsStored (insert_ack s m deadline now).0
unfolding insert_ack
insert_ack-IsStored s m deadline now v =
    insert_response-IsStored s ack a1_ack deadline (ack_item m) now refl v

pub insert_error-IsStored :
    (s : RetainedStore) (m : ℕ) (frame : OutboundFrame) (deadline now : ℕ)
    → IsStored s
    → IsStored (insert_error s m frame deadline now).0
unfolding insert_error
insert_error-IsStored s m frame deadline now v =
    insert_response-IsStored s error a1_error deadline (error_item m frame) now refl v

complete_at-IsStored :
    (s : RetainedStore) (m : ℕ) (result : Option AureliaError) (o : Option SlotId)
    → IsStored s
    → IsStored (complete_at s m result o).0
complete_at-IsStored s m result none v = v
complete_at-IsStored s m result (some id) v = remove_by_slot-IsStored s id v

pub ack_one-IsStored : (s : RetainedStore) (m : ℕ) → IsStored s → IsStored (ack_one s m).0
unfolding ack_one
ack_one-IsStored s m v = complete_at-IsStored s m none (get s.tracked m) v

pub fail_one-IsStored :
    (s : RetainedStore) (m : ℕ) (err : AureliaError) → IsStored s → IsStored (fail_one s m err).0
unfolding fail_one
fail_one-IsStored s m err v = complete_at-IsStored s m (some err) (get s.tracked m) v

pub fail_slots-IsStored :
    (ids : List SlotId) (s : RetainedStore) (err : AureliaError)
    → IsStored s
    → IsStored (fail_slots s err ids).0
unfolding fail_slots
fail_slots-IsStored [] s err v = v
fail_slots-IsStored (id ∷ ids) s err v =
    fail_slots-IsStored ids (remove_by_slot s id).0 err (remove_by_slot-IsStored s id v)

pub drop_slots-IsStored :
    (ids : List SlotId) (s : RetainedStore) → IsStored s → IsStored (drop_slots s ids)
unfolding drop_slots
drop_slots-IsStored [] s v = v
drop_slots-IsStored (id ∷ ids) s v =
    drop_slots-IsStored ids (remove_by_slot s id).0 (remove_by_slot-IsStored s id v)

shutdown_lane :
    (s : RetainedStore) (j : RetainedLane) (b : Bool)
    → LaneSame (lane s j) (lane (record s { shutdown = b }) j)
shutdown_lane s a1_ack b = LaneSame-refl _
shutdown_lane s a1_error b = LaneSame-refl _
shutdown_lane s a2 b = LaneSame-refl _
shutdown_lane s a3 b = LaneSame-refl _

shutdown_book : (s : RetainedStore) (b c : Bool) → book (record s { shutdown = b }) c ≡ book s c
shutdown_book s b true = refl
shutdown_book s b false = refl

pub shutdown-IsStored :
    (s : RetainedStore) (b : Bool) → IsStored s → IsStored (record s { shutdown = b })
shutdown-IsStored s b v =
    same-IsStored s (record s { shutdown = b }) (λ j. shutdown_lane s j b) (shutdown_book s b) v
