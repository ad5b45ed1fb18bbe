-- ===== src/Retained/Removal.antt =====
-- `remove_by_slot`: the slot is free again and its message is in no map.
use aurelia.Prelude.{
  ℕ, zero, suc, ◌-◌, ◌≡◌, refl, sym, ap, subst, ◌∙◌, ◌≢◌, ◌⊎◌, inl, inr, Bool, true, false, Option,
  none, some, List, [], ◌∷◌, arith, Option-cases, length, get_elem?, set, length-set,
  get_elem?-set_self, get_elem?-set_ne, get_elem?-lt,
}
use aurelia.Prelude.Maps.{get, remove, get-remove}
use aurelia.Retained.{
  a3, a2, a1_error, empty, a1_ack, RetainedLane, SlotId, RetainedItem, ack_item, error_item,
  tracked_item, LaneState, RetainedSlot, item_peer_msg_id, remove_slot, next_seq_of,
}
use aurelia.Retained.Store.{RetainedStore, lane, set_lane, remove_by_slot, forget}
use aurelia.Retained.Items.{
  lane-set_lane, IsStored, lane-set_lane_ne, lane_cases, items_of, count_some, LaneIsValid, held,
  is_tracked_item, book, items_of-set, items_of-get, count_some-set, All-map,
}

-- The lane after its slot at `index` is emptied.
abbrev pub vacated : LaneState → ℕ → RetainedSlot → LaneState
vacated l index slot = record l {
  slots =
      set l.slots index (record slot { item = none; state = empty; seq = next_seq_of slot.seq });
  live_count = l.live_count - 1;
  free = index ∷ l.free;
}

-- Where the item of the slot was, nothing is left to find.
abbrev pub unbooked : RetainedStore → RetainedLane → LaneState → RetainedItem → RetainedStore
unbooked s kind l (tracked_item t) = record (set_lane s kind l) {
  tracked = remove s.tracked t.message.peer_msg_id;
}
unbooked s kind l (ack_item m) = record (set_lane s kind l) { responses = remove s.responses m }
unbooked s kind l (error_item m frame) = record (set_lane s kind l) {
  responses = remove s.responses m;
}

forget-unbooked :
    (s : RetainedStore) (kind : RetainedLane) (l : LaneState) (item : RetainedItem)
    → forget s kind (l, some item) ≡ (unbooked s kind l item, some item)
forget-unbooked s kind l (ack_item m) = refl
forget-unbooked s kind l (error_item m frame) = refl
forget-unbooked s kind l (tracked_item t) = refl

set_lane-same : (s : RetainedStore) (kind : RetainedLane) → set_lane s kind (lane s kind) ≡ s
set_lane-same s a1_ack = refl
set_lane-same s a1_error = refl
set_lane-same s a2 = refl
set_lane-same s a3 = refl

injected : {x y : Option RetainedItem} → some x ≡ some y → x ≡ y
injected h = cc

item_of_slot :
    (slots : List RetainedSlot) (i : ℕ) (o : Option RetainedItem)
    → get_elem? (items_of slots) i ≡ some o
    → (slot : RetainedSlot) × (get_elem? slots i ≡ some slot) × (slot.item ≡ o)
item_of_slot [] i o h = cc
item_of_slot (x ∷ slots) zero o h = (x, refl, injected h)
item_of_slot (x ∷ slots) (suc i) o h = item_of_slot slots i o h

-- `remove_by_slot` changes nothing where the slot holds no item; otherwise it empties the slot.
pub remove_by_slot-cases :
    (s : RetainedStore) (id : SlotId)
    → (((item : RetainedItem) → held s id ≢ some (some item)) × (remove_by_slot s id ≡ (s, none)))
      ⊎ ((slot : RetainedSlot) × (item : RetainedItem) × (get_elem? (lane s id.lane).slots id.index
            ≡ some slot)
          × (slot.item ≡ some item)
          × (remove_by_slot s id
              ≡ (unbooked s id.lane (vacated (lane s id.lane) id.index slot) item, some item)))
unfolding remove_by_slot remove_slot
remove_by_slot-cases s id = elim (Option-cases (get_elem? (lane s id.lane).slots id.index)) [
  | inl e ↦ inl (
    λ item h.
        let (slot, at, _) = item_of_slot (lane s id.lane).slots id.index _ h in
        ground (arith, at, e),
    rw e (ap (λ t. (t, none)) (set_lane-same s id.lane)),
  )
  | inr (slot, e) ↦ elim (Option-cases slot.item) [
    | inl d ↦ inl (
      λ item h. ground (arith, items_of-get (lane s id.lane).slots id.index slot e, h, d),
      rw (e, d) (ap (λ t. (t, none)) (set_lane-same s id.lane)),
    )
    | inr (item, d) ↦ inr (slot, item, e, d, rw (e, d) (forget-unbooked s id.lane _ item))
  ]
]

pub nothing_is_item : {item : RetainedItem} → some none ≢ some (some item)
nothing_is_item e = cc

vacated-LaneIsValid :
    (kind : RetainedLane) (l : LaneState) (index : ℕ) (slot : RetainedSlot) (item : RetainedItem)
    → LaneIsValid kind l
    → get_elem? l.slots index ≡ some slot
    → slot.item ≡ some item
    → LaneIsValid kind (vacated l index slot)
vacated-LaneIsValid kind l index slot item v at has =
    let items : List (Option RetainedItem) = items_of l.slots in
    let here : get_elem? items index ≡ some (some item) =
      items_of-get l.slots index slot at ∙ ap some has in
    let eq : items_of (vacated l index slot).slots ≡ set items index none =
      items_of-set l.slots index _ in
    let ne : (i : ℕ) → get_elem? items i ≡ some none → i ≢ index =
      λ i h e. nothing_is_item (sym h ∙ ap (get_elem? items) e ∙ here) in
    record {
      named = v.named;
      counted =
          omega
            (arith, v.counted, ap count_some eq, count_some-set items index (some item) none here);
      free_empty = (
        ap (λ is. get_elem? is index) eq
            ∙ get_elem?-set_self items index none (get_elem?-lt items index here),
        All-map l.free
            (λ i h.
              ap (λ is. get_elem? is i) eq ∙ get_elem?-set_ne items none (λ e. ne i h (sym e)) ∙ h)
            v.free_empty,
      );
      free_distinct = (All-map l.free ne v.free_empty, v.free_distinct);
      balanced = omega (
        arith,
        v.balanced,
        v.counted,
        ap length eq,
        length-set items index none,
        count_some-set items index (some item) none here,
      );
      fits = v.fits;
    }

unbooked-lane :
    (s : RetainedStore) (k j : RetainedLane) (l : LaneState) (item : RetainedItem)
    → lane (unbooked s k l item) j ≡ lane (set_lane s k l) j
unbooked-lane s k a1_ack l (ack_item m) = refl
unbooked-lane s k a1_ack l (error_item m frame) = refl
unbooked-lane s k a1_ack l (tracked_item t) = refl
unbooked-lane s k a1_error l (ack_item m) = refl
unbooked-lane s k a1_error l (error_item m frame) = refl
unbooked-lane s k a1_error l (tracked_item t) = refl
unbooked-lane s k a2 l (ack_item m) = refl
unbooked-lane s k a2 l (error_item m frame) = refl
unbooked-lane s k a2 l (tracked_item t) = refl
unbooked-lane s k a3 l (ack_item m) = refl
unbooked-lane s k a3 l (error_item m frame) = refl
unbooked-lane s k a3 l (tracked_item t) = refl

pub set_lane-book :
    (s : RetainedStore) (k : RetainedLane) (l : LaneState) (b : Bool)
    → book (set_lane s k l) b ≡ book s b
set_lane-book s a1_ack l true = refl
set_lane-book s a1_ack l false = refl
set_lane-book s a1_error l true = refl
set_lane-book s a1_error l false = refl
set_lane-book s a2 l true = refl
set_lane-book s a2 l false = refl
set_lane-book s a3 l true = refl
set_lane-book s a3 l false = refl

-- What the maps have after the removal.
unbooked-book :
    (s : RetainedStore) (k : RetainedLane) (l : LaneState) (item : RetainedItem) (b : Bool)
    → ((b ≡ is_tracked_item item)
        × (book (unbooked s k l item) b ≡ remove (book s b) (item_peer_msg_id item)))
      ⊎ ((b ≢ is_tracked_item item) × (book (unbooked s k l item) b ≡ book s b))
unbooked-book s k l (ack_item m) true = inr (λ e. cc, set_lane-book s k l true)
unbooked-book s k l (ack_item m) false = inl (refl, refl)
unbooked-book s k l (error_item m frame) true = inr (λ e. cc, set_lane-book s k l true)
unbooked-book s k l (error_item m frame) false = inl (refl, refl)
unbooked-book s k l (tracked_item t) true = inl (refl, refl)
unbooked-book s k l (tracked_item t) false = inr (λ e. cc, set_lane-book s k l false)

pub unbooked-keeps :
    (s : RetainedStore) (k : RetainedLane) (l : LaneState) (item : RetainedItem) (b : Bool) (m : ℕ)
    (id : SlotId)
    → get (book (unbooked s k l item) b) m ≡ some id
    → (get (book s b) m ≡ some id) × (b ≡ is_tracked_item item → item_peer_msg_id item ≢ m)
unbooked-keeps s k l item b m id h = elim (unbooked-book s k l item b) [
  | inl (same, e) ↦
      let g : get (remove (book s b) (item_peer_msg_id item)) m ≡ some id =
        ap (λ x. get x m) (sym e) ∙ h in
      (
        ground (arith, get-remove (book s b) (item_peer_msg_id item) m, g),
        λ _ d. ground (arith, get-remove (book s b) (item_peer_msg_id item) m, g, d),
      )
  | inr (other, e) ↦ (ap (λ x. get x m) (sym e) ∙ h, λ same. absurd (other same))
]

unbooked-kept :
    (s : RetainedStore) (k : RetainedLane) (l : LaneState) (item : RetainedItem) (b : Bool) (m : ℕ)
    (id : SlotId)
    → get (book s b) m ≡ some id
    → (b ≡ is_tracked_item item → item_peer_msg_id item ≢ m)
    → get (book (unbooked s k l item) b) m ≡ some id
unbooked-kept s k l item b m id h ne = elim (unbooked-book s k l item b) [
  | inl (same, e) ↦
      ap (λ x. get x m) e
      ∙ ground (arith, get-remove (book s b) (item_peer_msg_id item) m, h, ne same)
  | inr (other, e) ↦ ap (λ x. get x m) e ∙ h
]

pub slot_id_eq : {a b : SlotId} → a.lane ≡ b.lane → a.index ≡ b.index → a ≡ b
slot_id_eq e d = cc

-- The item of every other slot is as before.
pub held-unbooked :
    (s : RetainedStore) (id other : SlotId) (slot : RetainedSlot) (item : RetainedItem)
    → other ≢ id
    → held (unbooked s id.lane (vacated (lane s id.lane) id.index slot) item) other ≡ held s other
held-unbooked s id other slot item ne = elim (lane_cases id.lane other.lane) [
  | inr apart ↦
      ap (λ (l : LaneState). get_elem? (items_of l.slots) other.index)
        (unbooked-lane s id.lane other.lane _ item ∙ lane-set_lane_ne s id.lane other.lane _ apart)
  | inl same ↦
      ap (λ (l : LaneState). get_elem? (items_of l.slots) other.index)
        (unbooked-lane s id.lane other.lane _ item)
      ∙ subst
          (λ k.
            get_elem? (items_of (lane (set_lane s id.lane v) k).slots) other.index
            ≡ get_elem? (items_of (lane s k).slots) other.index)
          same
          (ap (λ (l : LaneState). get_elem? (items_of l.slots) other.index)
              (lane-set_lane s id.lane v)
            ∙ ap (λ is. get_elem? is other.index) (items_of-set (lane s id.lane).slots id.index _)
            ∙ get_elem?-set_ne (items_of (lane s id.lane).slots) none
                (λ e. ne (slot_id_eq (sym same) (sym e))))
]
  where
    v : LaneState
    v = vacated (lane s id.lane) id.index slot

pub held-vacated :
    (s : RetainedStore) (id : SlotId) (slot : RetainedSlot) (item : RetainedItem)
    → get_elem? (lane s id.lane).slots id.index ≡ some slot
    → held (unbooked s id.lane (vacated (lane s id.lane) id.index slot) item) id ≡ some none
held-vacated s id slot item at =
    ap (λ (l : LaneState). get_elem? (items_of l.slots) id.index)
      (unbooked-lane s id.lane id.lane _ item ∙ lane-set_lane s id.lane _)
    ∙ ap (λ is. get_elem? is id.index) (items_of-set (lane s id.lane).slots id.index _)
    ∙ get_elem?-set_self (items_of (lane s id.lane).slots) id.index none (
        get_elem?-lt (items_of (lane s id.lane).slots) id.index
          (items_of-get (lane s id.lane).slots id.index slot at))

pub both_some : {x y : RetainedItem} → some (some x) ≡ some (some y) → x ≡ y
both_some h = cc

pub slot_some : {x y : SlotId} → some x ≡ some y → x ≡ y
slot_some h = cc

unbooked-IsStored :
    (s : RetainedStore) (id : SlotId) (slot : RetainedSlot) (item : RetainedItem)
    → IsStored s
    → get_elem? (lane s id.lane).slots id.index ≡ some slot
    → slot.item ≡ some item
    → IsStored (unbooked s id.lane (vacated (lane s id.lane) id.index slot) item)
unbooked-IsStored s id slot item v at has = record {
  lanes = λ k. elim (lane_cases id.lane k) [
    | inl same ↦
        subst (λ k. LaneIsValid k (lane (unbooked s id.lane l item) k)) same
          (subst (LaneIsValid id.lane)
            (sym (unbooked-lane s id.lane id.lane l item ∙ lane-set_lane s id.lane l))
            (vacated-LaneIsValid id.lane (lane s id.lane) id.index slot item (v.lanes id.lane) at
              has))
    | inr apart ↦
        subst (LaneIsValid k)
          (sym (unbooked-lane s id.lane k l item ∙ lane-set_lane_ne s id.lane k l apart))
          (v.lanes k)
  ];
  known = λ b m other h.
      let (kept, ne) = unbooked-keeps s id.lane l item b m other h in
      let (x, holds, kind, names) = v.known b m other kept in
      (
        x,
        held-unbooked s id other slot item (λ e.
              let same : item ≡ x = both_some (sym here ∙ ap (held s) (sym e) ∙ holds) in
              ne (sym kind ∙ ap is_tracked_item (sym same)) (ap item_peer_msg_id same ∙ names))
            ∙ holds,
        kind,
        names,
      );
  booked = λ other x h.
      let apart : other ≢ id = λ e. nothing_is_item (
        sym (held-vacated s id slot item at) ∙ ap (held (unbooked s id.lane l item)) (sym e) ∙ h) in
      let before : held s other ≡ some (some x) =
        sym (held-unbooked s id other slot item apart) ∙ h in
      unbooked-kept s id.lane l item (is_tracked_item x) (item_peer_msg_id x) other
        (v.booked other x before)
        (λ same names. apart (
          slot_some (
            sym (v.booked other x before)
            ∙ ap (λ b. get (book s b) (item_peer_msg_id x)) same
            ∙ ap (λ m. get (book s (is_tracked_item item)) m) (sym names)
            ∙ v.booked id item here)));
}
  where
    l : LaneState
    l = vacated (lane s id.lane) id.index slot

    here : held s id ≡ some (some item)
    here = items_of-get (lane s id.lane).slots id.index slot at ∙ ap some has

pub remove_by_slot-IsStored :
    (s : RetainedStore) (id : SlotId) → IsStored s → IsStored (remove_by_slot s id).0
remove_by_slot-IsStored s id v = elim (remove_by_slot-cases s id) [
  | inl (_, e) ↦ subst (λ r. IsStored r.0) (sym e) v
  | inr (slot, item, at, has, e) ↦
      subst (λ r. IsStored r.0) (sym e) (unbooked-IsStored s id slot item v at has)
]
