-- ===== src/Retained/Resizing.antt =====
-- New capacities keep the store valid: lanes only grow, and what they hold stays.
use aurelia.Prelude.{
  ℕ, zero, suc, ◌-◌, ◌≤◌, max, ◌≡◌, refl, sym, ap, subst, ◌∙◌, ◌≢◌, ◌↔◌, Bool, true, false, Option,
  none, some, [], ◌∷◌, ◌++◌, arith, length, get_elem?, length-append, get_elem?-lt,
}
use aurelia.Prelude.Maps.{get}
use aurelia.Retained.{
  u64_max, RetainedLane, a1_ack, a1_error, a2, a3, SlotId, RetainedItem, LaneState,
  RetainedCapacities, capacity, item_peer_msg_id, grow, set_target_capacity, empty_slot,
}
use native.Mathlib.Decide.{ℕ_discrete}
use aurelia.Retained.Store.{RetainedStore, lane, set_capacities}
use aurelia.Retained.Items.{
  items_of, count_some, LaneIsValid, IsStored, held, items_of-append, length-items_of, All-map,
  is_tracked_item, book,
}
use aurelia.Retained.Places.{append-get, append-last, count_some-append}

-- The same items, in at least as many slots.
abbrev pub SameHeld : LaneState → LaneState → Type 0
SameHeld l m =
    (j : ℕ) (x : RetainedItem)
    → (get_elem? (items_of l.slots) j ≡ some (some x))
      ↔ (get_elem? (items_of m.slots) j ≡ some (some x))

abbrev grow_once : LaneState → ℕ → LaneState
grow_once l now = record l {
  slots = l.slots ++ empty_slot l.lane now ∷ [];
  free = length l.slots ∷ l.free;
}

grown_items :
    (l : LaneState) (now : ℕ) → items_of (grow_once l now).slots ≡ items_of l.slots ++ none ∷ []
grown_items l now = items_of-append l.slots (empty_slot l.lane now ∷ [])

last_none :
    (l : LaneState) (now : ℕ)
    → get_elem? (items_of (grow_once l now).slots) (length l.slots) ≡ some none
last_none l now =
    ap (λ is. get_elem? is (length l.slots)) (grown_items l now)
    ∙ ap (get_elem? (items_of l.slots ++ none ∷ [])) (sym (length-items_of l.slots))
    ∙ append-last (items_of l.slots) none

earlier :
    (l : LaneState) (now j : ℕ)
    → j ≢ length l.slots
    → get_elem? (items_of (grow_once l now).slots) j ≡ get_elem? (items_of l.slots) j
earlier l now j ne =
    ap (λ is. get_elem? is j) (grown_items l now)
    ∙ append-get (items_of l.slots) none j (λ d. ne (d ∙ length-items_of l.slots))

below :
    (l : LaneState) (j : ℕ) {o : Option RetainedItem}
    → get_elem? (items_of l.slots) j ≡ some o
    → j ≢ length l.slots
below l j h e = omega (arith, get_elem?-lt (items_of l.slots) j h, length-items_of l.slots, e)

grow_once-LaneIsValid :
    (kind : RetainedLane) (l : LaneState) (now : ℕ)
    → LaneIsValid kind l
    → LaneIsValid kind (grow_once l now)
grow_once-LaneIsValid kind l now v = record {
  named = v.named;
  counted =
      v.counted ∙ sym (ap count_some (grown_items l now) ∙ count_some-append (items_of l.slots));
  free_empty =
      (last_none l now, All-map l.free (λ i h. earlier l now i (below l i h) ∙ h) v.free_empty);
  free_distinct = (All-map l.free (λ i h. below l i h) v.free_empty, v.free_distinct);
  balanced = omega (
    arith,
    v.balanced,
    ap length (grown_items l now),
    length-append (items_of l.slots) (none ∷ []),
  );
  fits = v.fits;
}

neither_held : {x : RetainedItem} → some none ≢ some (some x)
neither_held e = cc

grow_once-SameHeld : (l : LaneState) (now : ℕ) → SameHeld l (grow_once l now)
grow_once-SameHeld l now j x = (
  λ h. earlier l now j (below l j h) ∙ h,
  λ h. elim (ℕ_discrete j (length l.slots)) [
    | yes e ↦ absurd (
        neither_held
          (sym (last_none l now) ∙ ap (get_elem? (items_of (grow_once l now).slots)) (sym e) ∙ h))
    | no ne ↦ sym (earlier l now j ne) ∙ h
  ],
)

grow-LaneIsValid :
    (rounds now : ℕ) (kind : RetainedLane) (l : LaneState)
    → LaneIsValid kind l
    → LaneIsValid kind (grow rounds now l) × SameHeld l (grow rounds now l)
unfolding grow
grow-LaneIsValid zero now kind l v = (v, λ j x. (λ h. h, λ h. h))
grow-LaneIsValid (suc rounds) now kind l v =
    let (w, same) =
      grow-LaneIsValid rounds now kind (grow_once l now) (grow_once-LaneIsValid kind l now v) in
    (
      w,
      λ j x. (
        λ h. (same j x).0 ((grow_once-SameHeld l now j x).0 h),
        λ h. (grow_once-SameHeld l now j x).1 ((same j x).1 h),
      ),
    )

abbrev resized : LaneState → ℕ → ℕ → LaneState
resized l target now = record (grow (max target 1 - length l.slots) now l) {
  target_capacity = max target 1;
}

resized-LaneIsValid :
    (kind : RetainedLane) (l : LaneState) (target now : ℕ)
    → target ≤ u64_max
    → LaneIsValid kind l
    → LaneIsValid kind (set_target_capacity l target now)
      × SameHeld l (set_target_capacity l target now)
unfolding set_target_capacity
resized-LaneIsValid kind l target now fits v =
    let (w, same) = grow-LaneIsValid (max target 1 - length l.slots) now kind l v in
    (
      record {
        named = w.named;
        counted = w.counted;
        free_empty = w.free_empty;
        free_distinct = w.free_distinct;
        balanced = w.balanced;
        fits = omega (arith, fits);
      },
      same,
    )

resized_lane :
    (s : RetainedStore) (c : RetainedCapacities) (now : ℕ) (kind : RetainedLane)
    → lane (set_capacities s c now) kind ≡ set_target_capacity (lane s kind) (capacity c kind) now
unfolding set_capacities
resized_lane s c now a1_ack = refl
resized_lane s c now a1_error = refl
resized_lane s c now a2 = refl
resized_lane s c now a3 = refl

resized_book :
    (s : RetainedStore) (c : RetainedCapacities) (now : ℕ) (b : Bool)
    → book (set_capacities s c now) b ≡ book s b
unfolding set_capacities
resized_book s c now true = refl
resized_book s c now false = refl

pub set_capacities-IsStored :
    (s : RetainedStore) (c : RetainedCapacities) (now : ℕ)
    → ((kind : RetainedLane) → capacity c kind ≤ u64_max)
    → IsStored s
    → IsStored (set_capacities s c now)
set_capacities-IsStored s c now fits v =
    let both = λ (kind : RetainedLane).
      resized-LaneIsValid kind (lane s kind) (capacity c kind) now (fits kind) (v.lanes kind) in
    let held_iff = λ (id : SlotId) (x : RetainedItem).
      subst
        (λ l. (held s id ≡ some (some x)) ↔ (get_elem? (items_of l.slots) id.index ≡ some (some x)))
        (sym (resized_lane s c now id.lane)) ((both id.lane).1 id.index x) in
    record {
      lanes = λ kind. subst (LaneIsValid kind) (sym (resized_lane s c now kind)) (both kind).0;
      known = λ b m id h.
          let (item, holds, kind, names) =
            v.known b m id (ap (λ k. get k m) (sym (resized_book s c now b)) ∙ h) in
          (item, (held_iff id item).0 holds, kind, names);
      booked = λ id item h.
          ap (λ k. get k (item_peer_msg_id item)) (resized_book s c now (is_tracked_item item))
          ∙ v.booked id item ((held_iff id item).1 h);
    }
