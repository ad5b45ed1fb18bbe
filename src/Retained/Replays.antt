-- ===== src/Retained/Replays.antt =====
-- When a callis fails, the slots that it had are put up for replay, and the store stays valid.
use aurelia.Retained.Claims.{set_state-LaneSame, relane-IsStored}
use aurelia.Retained.Moves.{push_replay-LaneSame, push_ready-LaneSame}
use aurelia.Prelude.{
  ℕ, suc, ◌+◌, ◌≡◌, refl, sym, ap, ◌∙◌, ◌≢◌, Option, none, some, List, [], ◌∷◌, arith, if_holds,
  get_elem?, get_elem?-set_ne,
}
use aurelia.Retained.{
  ready, replay_ready, RetainedLane, a1_error, a2, a3, RetainedItem, ack_item, error_item,
  tracked_item, LaneState, RetainedSlot,
}
use aurelia.Retained.Store.{RetainedStore, lane}
use aurelia.Retained.Flow.{
  carried_by, mark_callis_replay_ready, replay_lane, replay_slots, replay_slot, is_writing_on,
}
use aurelia.Retained.Items.{LaneSame, LaneSame-refl, LaneSame-trans, IsStored}

-- A step of the loop over a lane's slots, and the slots after it.
Replays : LaneState → ℕ → LaneState → Type 0
Replays l i m = LaneSame l m × ((j : ℕ) → i ≢ j → get_elem? m.slots j ≡ get_elem? l.slots j)

replay_slot-Replays :
    (l : LaneState) (k i : ℕ) (slot : RetainedSlot) (o : Option RetainedItem)
    → get_elem? l.slots i ≡ some slot
    → Replays l i (replay_slot l k i slot o)
unfolding Replays
replay_slot-Replays l k i slot none at = (LaneSame-refl l, λ j ne. refl)
replay_slot-Replays l k i slot (some (tracked_item t)) at =
    if_holds (Replays l i) (carried_by k slot.state)
      (λ _. (
        LaneSame-trans (set_state-LaneSame l i slot (replay_ready k) at)
            (push_replay-LaneSame _ i slot.seq),
        λ j ne. get_elem?-set_ne l.slots _ ne,
      ))
      (λ _. (LaneSame-refl l, λ j ne. refl))
replay_slot-Replays l k i slot (some (ack_item m)) at =
    if_holds (Replays l i) (is_writing_on k slot.state)
      (λ _. (
        LaneSame-trans (set_state-LaneSame l i slot ready at) (push_ready-LaneSame _ i slot.seq),
        λ j ne. get_elem?-set_ne l.slots _ ne,
      ))
      (λ _. (LaneSame-refl l, λ j ne. refl))
replay_slot-Replays l k i slot (some (error_item m frame)) at =
    if_holds (Replays l i) (is_writing_on k slot.state)
      (λ _. (
        LaneSame-trans (set_state-LaneSame l i slot ready at) (push_ready-LaneSame _ i slot.seq),
        λ j ne. get_elem?-set_ne l.slots _ ne,
      ))
      (λ _. (LaneSame-refl l, λ j ne. refl))

replay_slots-LaneSame :
    (slots : List RetainedSlot) (k i : ℕ) (l : LaneState)
    → ((j : ℕ) → get_elem? slots j ≡ get_elem? l.slots (i + j))
    → LaneSame l (replay_slots k i slots l)
unfolding replay_slots Replays
replay_slots-LaneSame [] k i l h = LaneSame-refl l
replay_slots-LaneSame (slot ∷ slots) k i l h =
    let at : get_elem? l.slots i ≡ some slot = sym (h 0 ∙ ap (get_elem? l.slots) (omega arith)) in
    let (same, rest) = replay_slot-Replays l k i slot slot.item at in
    LaneSame-trans same (
      replay_slots-LaneSame slots k (i + 1) (replay_slot l k i slot slot.item) (λ j.
        h (suc j)
        ∙ ap (get_elem? l.slots) (let e : i + suc j ≡ i + 1 + j = omega arith in e)
        ∙ sym (rest (i + 1 + j) (λ e. omega arith))))

replay_lane-IsStored :
    (k : ℕ) (kind : RetainedLane) (s : RetainedStore) → IsStored s → IsStored (replay_lane k kind s)
replay_lane-IsStored k kind s v =
    relane-IsStored s kind _
      (replay_slots-LaneSame (lane s kind).slots k 0 (lane s kind)
        (λ j. ap (get_elem? (lane s kind).slots) (omega arith)))
      v

pub mark_callis_replay_ready-IsStored :
    (s : RetainedStore) (k : ℕ) → IsStored s → IsStored (mark_callis_replay_ready s k)
unfolding mark_callis_replay_ready
mark_callis_replay_ready-IsStored s k v =
    replay_lane-IsStored k a3 _ (replay_lane-IsStored k a2 _ (replay_lane-IsStored k a1_error s v))
