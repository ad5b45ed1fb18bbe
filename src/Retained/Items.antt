-- ===== src/Retained/Items.antt =====
-- The items that the store holds, and its invariant: the slots, the counts, the stacks of free slots and
-- the two maps agree.
use aurelia.Prelude.{
  ℕ, zero, suc, ◌+◌, ◌≤◌, ◌≡◌, refl, sym, ap, subst, ◌∙◌, ◌≢◌, ◌⊎◌, inl, inr, Bool, true, false,
  Option, none, some, List, [], ◌∷◌, ◌++◌, arith, All, length, get_elem?, set,
}
use aurelia.Prelude.Maps.{Map, get}
use aurelia.Retained.{
  u64_max, RetainedLane, a1_ack, a1_error, a2, a3, SlotId, RetainedItem, ack_item, error_item,
  tracked_item, LaneState, RetainedSlot, item_peer_msg_id,
}
use aurelia.Retained.Store.{RetainedStore, lane, set_lane}

abbrev pub items_of : List RetainedSlot → List (Option RetainedItem)
items_of [] = []
items_of (slot ∷ slots) = slot.item ∷ items_of slots

abbrev pub count_some : List (Option RetainedItem) → ℕ
count_some [] = 0
count_some (none ∷ items) = count_some items
count_some (some item ∷ items) = suc (count_some items)

abbrev pub Distinct : List ℕ → Type 0
Distinct [] = Unit
Distinct (i ∷ is) = All (λ j. j ≢ i) is × Distinct is

-- Of a lane, except that so many of its slots are taken from the stack of free slots and hold no item.
pub record LaneHolds (taken : ℕ) (kind : RetainedLane) (l : LaneState) : Type 0 where
  pub named : l.lane ≡ kind
  pub counted : l.live_count ≡ count_some (items_of l.slots)
  pub free_empty : All (λ i. get_elem? (items_of l.slots) i ≡ some none) l.free
  pub free_distinct : Distinct l.free
  pub balanced : taken + length l.free + l.live_count ≡ length (items_of l.slots)
  pub fits : l.target_capacity ≤ u64_max

abbrev pub LaneIsValid : RetainedLane → LaneState → Type 0
LaneIsValid = LaneHolds 0

abbrev pub held : RetainedStore → SlotId → Option (Option RetainedItem)
held s id = get_elem? (items_of (lane s id.lane).slots) id.index

abbrev pub is_tracked_item : RetainedItem → Bool
is_tracked_item (tracked_item t) = true
is_tracked_item (ack_item m) = false
is_tracked_item (error_item m frame) = false

-- The map of the tracked messages, or of the responses.
abbrev pub book : RetainedStore → Bool → Map SlotId
book s true = s.tracked
book s false = s.responses

pub record IsStored (s : RetainedStore) : Type 0 where
  pub lanes : (kind : RetainedLane) → LaneIsValid kind (lane s kind)
  pub known :
      (b : Bool) (m : ℕ) (id : SlotId)
      → get (book s b) m ≡ some id
      → (item : RetainedItem) × (held s id ≡ some (some item))
        × (is_tracked_item item ≡ b)
        × (item_peer_msg_id item ≡ m)
  pub booked :
      (id : SlotId) (item : RetainedItem)
      → held s id ≡ some (some item)
      → get (book s (is_tracked_item item)) (item_peer_msg_id item) ≡ some id

pub lane_cases : (k j : RetainedLane) → (k ≡ j) ⊎ (k ≢ j)
lane_cases a1_ack a1_ack = inl refl
lane_cases a1_ack a1_error = inr (λ e. cc)
lane_cases a1_ack a2 = inr (λ e. cc)
lane_cases a1_ack a3 = inr (λ e. cc)
lane_cases a1_error a1_ack = inr (λ e. cc)
lane_cases a1_error a1_error = inl refl
lane_cases a1_error a2 = inr (λ e. cc)
lane_cases a1_error a3 = inr (λ e. cc)
lane_cases a2 a1_ack = inr (λ e. cc)
lane_cases a2 a1_error = inr (λ e. cc)
lane_cases a2 a2 = inl refl
lane_cases a2 a3 = inr (λ e. cc)
lane_cases a3 a1_ack = inr (λ e. cc)
lane_cases a3 a1_error = inr (λ e. cc)
lane_cases a3 a2 = inr (λ e. cc)
lane_cases a3 a3 = inl refl

pub lane-set_lane :
    (s : RetainedStore) (k : RetainedLane) (l : LaneState) → lane (set_lane s k l) k ≡ l
lane-set_lane s a1_ack l = refl
lane-set_lane s a1_error l = refl
lane-set_lane s a2 l = refl
lane-set_lane s a3 l = refl

pub lane-set_lane_ne :
    (s : RetainedStore) (k j : RetainedLane) (l : LaneState)
    → k ≢ j
    → lane (set_lane s k l) j ≡ lane s j
lane-set_lane_ne s a1_ack a1_ack l ne = absurd (ne refl)
lane-set_lane_ne s a1_ack a1_error l ne = refl
lane-set_lane_ne s a1_ack a2 l ne = refl
lane-set_lane_ne s a1_ack a3 l ne = refl
lane-set_lane_ne s a1_error a1_ack l ne = refl
lane-set_lane_ne s a1_error a1_error l ne = absurd (ne refl)
lane-set_lane_ne s a1_error a2 l ne = refl
lane-set_lane_ne s a1_error a3 l ne = refl
lane-set_lane_ne s a2 a1_ack l ne = refl
lane-set_lane_ne s a2 a1_error l ne = refl
lane-set_lane_ne s a2 a2 l ne = absurd (ne refl)
lane-set_lane_ne s a2 a3 l ne = refl
lane-set_lane_ne s a3 a1_ack l ne = refl
lane-set_lane_ne s a3 a1_error l ne = refl
lane-set_lane_ne s a3 a2 l ne = refl
lane-set_lane_ne s a3 a3 l ne = absurd (ne refl)

pub items_of-set :
    (slots : List RetainedSlot) (i : ℕ) (slot : RetainedSlot)
    → items_of (set slots i slot) ≡ set (items_of slots) i slot.item
items_of-set [] i slot = refl
items_of-set (x ∷ slots) zero slot = refl
items_of-set (x ∷ slots) (suc i) slot = ap (λ is. x.item ∷ is) (items_of-set slots i slot)

some_eq : {x y : RetainedSlot} → some x ≡ some y → x ≡ y
some_eq h = cc

pub items_of-get :
    (slots : List RetainedSlot) (i : ℕ) (slot : RetainedSlot)
    → get_elem? slots i ≡ some slot
    → get_elem? (items_of slots) i ≡ some slot.item
items_of-get [] i slot h = cc
items_of-get (x ∷ slots) zero slot h =
    subst (λ (y : RetainedSlot). some x.item ≡ some y.item) (some_eq h) refl
items_of-get (x ∷ slots) (suc i) slot h = items_of-get slots i slot h

pub items_of-append : (xs ys : List RetainedSlot) → items_of (xs ++ ys) ≡ items_of xs ++ items_of ys
items_of-append [] ys = refl
items_of-append (x ∷ xs) ys = ap (λ is. x.item ∷ is) (items_of-append xs ys)

pub length-items_of : (slots : List RetainedSlot) → length (items_of slots) ≡ length slots
length-items_of [] = refl
length-items_of (x ∷ slots) = ap suc (length-items_of slots)

abbrev pub as_count : Option RetainedItem → ℕ
as_count none = 0
as_count (some item) = 1

pub All-map {ℓ κ μ} :
    {A : Type ℓ} {P : A → Type κ} {Q : A → Type μ} (xs : List A)
    → ((x : A) → P x → Q x)
    → All P xs
    → All Q xs
All-map [] f h = tt
All-map (x ∷ xs) f h = (f x h.0, All-map xs f h.1)

pub count_some-set :
    (items : List (Option RetainedItem)) (i : ℕ) (old item : Option RetainedItem)
    → get_elem? items i ≡ some old
    → count_some (set items i item) + as_count old ≡ count_some items + as_count item
count_some-set [] i old item h = cc
count_some-set (none ∷ items) zero none none h = refl
count_some-set (none ∷ items) zero none (some x) h = omega arith
count_some-set (none ∷ items) zero (some y) item h = cc
count_some-set (some y ∷ items) zero none item h = cc
count_some-set (some y ∷ items) zero (some z) none h = omega arith
count_some-set (some y ∷ items) zero (some z) (some x) h = refl
count_some-set (none ∷ items) (suc i) old item h = count_some-set items i old item h
count_some-set (some y ∷ items) (suc i) old item h =
    omega (arith, count_some-set items i old item h)

-- Two lanes that differ at most in the states of their slots and in the queues.
pub record LaneSame (l m : LaneState) : Type 0 where
  pub named : m.lane ≡ l.lane
  pub live_count : m.live_count ≡ l.live_count
  pub free : m.free ≡ l.free
  pub items : items_of m.slots ≡ items_of l.slots
  pub target_capacity : m.target_capacity ≡ l.target_capacity

pub LaneSame-refl : (l : LaneState) → LaneSame l l
LaneSame-refl l = record {
  named = refl;
  live_count = refl;
  free = refl;
  items = refl;
  target_capacity = refl;
}

pub LaneSame-trans : {l m n : LaneState} → LaneSame l m → LaneSame m n → LaneSame l n
LaneSame-trans p q = record {
  named = q.named ∙ p.named;
  live_count = q.live_count ∙ p.live_count;
  free = q.free ∙ p.free;
  items = q.items ∙ p.items;
  target_capacity = q.target_capacity ∙ p.target_capacity;
}

pub LaneSame-IsValid :
    (k : RetainedLane) (l m : LaneState) → LaneSame l m → LaneIsValid k l → LaneIsValid k m
LaneSame-IsValid k l m e v = record {
  named = e.named ∙ v.named;
  counted = e.live_count ∙ v.counted ∙ sym (ap count_some e.items);
  free_empty =
      subst (λ is. All (λ i. get_elem? is i ≡ some none) m.free) (sym e.items)
        (subst (All (λ i. get_elem? (items_of l.slots) i ≡ some none)) (sym e.free) v.free_empty);
  free_distinct = subst Distinct (sym e.free) v.free_distinct;
  balanced = omega (arith, v.balanced, ap length e.items, ap length e.free, e.live_count);
  fits = subst (λ n. n ≤ u64_max) (sym e.target_capacity) v.fits;
}

-- The invariant speaks of items and maps only.
pub same-IsStored :
    (s t : RetainedStore)
    → ((k : RetainedLane) → LaneSame (lane s k) (lane t k))
    → ((b : Bool) → book t b ≡ book s b)
    → IsStored s
    → IsStored t
same-IsStored s t lanes books v = record {
  lanes = λ k. LaneSame-IsValid k (lane s k) (lane t k) (lanes k) (v.lanes k);
  known = λ b m id h.
      let (item, holds, kind, names) = v.known b m id (ap (λ x. get x m) (sym (books b)) ∙ h) in
      (item, ap (λ is. get_elem? is id.index) (lanes id.lane).items ∙ holds, kind, names);
  booked = λ id item h.
      ap (λ x. get x (item_peer_msg_id item)) (books (is_tracked_item item))
      ∙ v.booked id item (ap (λ is. get_elem? is id.index) (sym (lanes id.lane).items) ∙ h);
}
