-- ===== src/Retained/Moves.antt =====
-- The ends of writes, the marks for replay and the deadlines keep the store valid.
use aurelia.Prelude.{
  ℕ, ◌≡◌, refl, Bool, true, false, ◌&&◌, Option, none, some, List, [], ◌∷◌, ltb, if_holds,
}
use aurelia.Retained.{
  ready, inflight, identity, replay_ready, RetainedLane, a1_ack, a1_error, a2, a3, SlotId,
  RetainedItem, ack_item, error_item, tracked_item, LaneState, RetainedSlot, DeadlineKey,
}
use aurelia.Retained.Store.{RetainedStore, lane, remove_by_slot, slot_at, CompletionEffect}
use aurelia.Retained.Flow.{
  RetainedClaim, push_ready, push_replay, finish_write, finish_found, complete_write, last_callis,
  mark_slot, mark_found, mark_slots_replay_ready, expire_keys, is_current, is_writing_on,
  same_identity, is_tracked,
}
use aurelia.Retained.Items.{LaneSame, LaneSame-refl, LaneSame-trans, IsStored, same-IsStored, book}
use aurelia.Retained.Removal.{remove_by_slot-IsStored}
use aurelia.Retained.Claims.{set_state-LaneSame, queued-LaneSame, relane-IsStored}

pub push_replay-LaneSame : (l : LaneState) (i seq : ℕ) → LaneSame l (push_replay l i seq)
push_replay-LaneSame l i seq = queued-LaneSame l l.ready _

pub push_ready-LaneSame : (l : LaneState) (i seq : ℕ) → LaneSame l (push_ready l i seq)
push_ready-LaneSame l i seq = queued-LaneSame l _ l.replay

finish_write-IsStored :
    (s : RetainedStore) (claim : RetainedClaim) (slot : RetainedSlot) (failed : Bool)
    (o : Option RetainedItem)
    → slot_at s claim.slot ≡ some slot
    → IsStored s
    → IsStored (finish_write s claim slot failed o)
finish_write-IsStored s claim slot failed none at v = v
finish_write-IsStored s claim slot true (some (tracked_item t)) at v =
    relane-IsStored s claim.slot.lane _
      (LaneSame-trans
        (set_state-LaneSame (lane s claim.slot.lane) claim.slot.index slot
          (replay_ready claim.callis_id) at)
        (push_replay-LaneSame _ claim.slot.index slot.seq))
      v
finish_write-IsStored s claim slot false (some (tracked_item t)) at v =
    relane-IsStored s claim.slot.lane _
      (set_state-LaneSame (lane s claim.slot.lane) claim.slot.index slot (inflight claim.callis_id)
        at)
      v
finish_write-IsStored s claim slot true (some (ack_item m)) at v =
    relane-IsStored s claim.slot.lane _
      (LaneSame-trans (set_state-LaneSame (lane s claim.slot.lane) claim.slot.index slot ready at)
        (push_ready-LaneSame _ claim.slot.index slot.seq))
      v
finish_write-IsStored s claim slot true (some (error_item m frame)) at v =
    relane-IsStored s claim.slot.lane _
      (LaneSame-trans (set_state-LaneSame (lane s claim.slot.lane) claim.slot.index slot ready at)
        (push_ready-LaneSame _ claim.slot.index slot.seq))
      v
finish_write-IsStored s claim slot false (some (ack_item m)) at v =
    remove_by_slot-IsStored s claim.slot v
finish_write-IsStored s claim slot false (some (error_item m frame)) at v =
    remove_by_slot-IsStored s claim.slot v

finish_found-IsStored :
    (s : RetainedStore) (claim : RetainedClaim) (failed : Bool) (o : Option RetainedSlot)
    → slot_at s claim.slot ≡ o
    → IsStored s
    → IsStored (finish_found s claim failed o)
finish_found-IsStored s claim failed none at v = v
finish_found-IsStored s claim failed (some slot) at v =
    if_holds IsStored
      (is_writing_on claim.callis_id slot.state && same_identity (identity slot) claim.identity)
      (λ _. finish_write-IsStored s claim slot failed slot.item at v) (λ _. v)

pub complete_write-IsStored :
    (s : RetainedStore) (claim : RetainedClaim) (failed : Bool)
    → IsStored s
    → IsStored (complete_write s claim failed)
unfolding complete_write
complete_write-IsStored s claim failed v =
    finish_found-IsStored s claim failed (slot_at s claim.slot) refl v

mark_slot-IsStored :
    (s : RetainedStore) (id : SlotId) (slot : RetainedSlot) (o : Option ℕ)
    → slot_at s id ≡ some slot
    → IsStored s
    → IsStored (mark_slot s id slot o)
mark_slot-IsStored s id slot none at v = v
mark_slot-IsStored s id slot (some k) at v =
    if_holds IsStored (is_tracked slot.item)
      (λ _.
        relane-IsStored s id.lane _
          (LaneSame-trans (set_state-LaneSame (lane s id.lane) id.index slot (replay_ready k) at)
            (push_replay-LaneSame _ id.index slot.seq))
          v)
      (λ _. v)

mark_found-IsStored :
    (s : RetainedStore) (id : SlotId) (o : Option RetainedSlot)
    → slot_at s id ≡ o
    → IsStored s
    → IsStored (mark_found s id o)
mark_found-IsStored s id none at v = v
mark_found-IsStored s id (some slot) at v =
    mark_slot-IsStored s id slot (last_callis slot.state) at v

pub mark_slots_replay_ready-IsStored :
    (ids : List SlotId) (s : RetainedStore) → IsStored s → IsStored (mark_slots_replay_ready s ids)
unfolding mark_slots_replay_ready
mark_slots_replay_ready-IsStored [] s v = v
mark_slots_replay_ready-IsStored (id ∷ ids) s v =
    mark_slots_replay_ready-IsStored ids (mark_found s id (slot_at s id))
      (mark_found-IsStored s id (slot_at s id) refl v)

deadlines_lane :
    (s : RetainedStore) (j : RetainedLane) (d : List DeadlineKey)
    → LaneSame (lane s j) (lane (record s { deadlines = d }) j)
deadlines_lane s a1_ack d = LaneSame-refl _
deadlines_lane s a1_error d = LaneSame-refl _
deadlines_lane s a2 d = LaneSame-refl _
deadlines_lane s a3 d = LaneSame-refl _

deadlines_book :
    (s : RetainedStore) (d : List DeadlineKey) (c : Bool)
    → book (record s { deadlines = d }) c ≡ book s c
deadlines_book s d true = refl
deadlines_book s d false = refl

pub deadlines-IsStored :
    (s : RetainedStore) (d : List DeadlineKey) → IsStored s → IsStored (record s { deadlines = d })
deadlines-IsStored s d v =
    same-IsStored s (record s { deadlines = d }) (λ j. deadlines_lane s j d) (deadlines_book s d) v

pub expire_keys-IsStored :
    (keys : List DeadlineKey) (s : RetainedStore) (now : ℕ)
    → IsStored s
    → IsStored (expire_keys s now keys).0
unfolding expire_keys
expire_keys-IsStored [] s now v = deadlines-IsStored s [] v
expire_keys-IsStored (key ∷ keys) s now v =
    if_holds (λ (r : RetainedStore × List CompletionEffect). IsStored r.0) (ltb now key.deadline)
      (λ _. deadlines-IsStored s (key ∷ keys) v)
      (λ _.
        if_holds (λ (r : RetainedStore × List CompletionEffect). IsStored r.0)
          (is_current key (slot_at s key.slot))
          (λ _.
            expire_keys-IsStored keys (remove_by_slot s key.slot).0 now
              (remove_by_slot-IsStored s key.slot v))
          (λ _. expire_keys-IsStored keys s now v))
