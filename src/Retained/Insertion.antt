-- ===== src/Retained/Insertion.antt =====
-- An insertion: the message gets a slot that held none, and its map leads to it.
use aurelia.Prelude.{
  ℕ, ◌≤◌, ◌≡◌, refl, sym, ap, subst, ◌∙◌, ◌≢◌, ◌⊎◌, inl, inr, Bool, true, false, none, some, List,
  arith, ◌==◌, Bool-cases, get_elem?,
}
use native.Mathlib.Decide.{ℕ_discrete}
use aurelia.Prelude.Maps.{get, insert, get-insert}
use aurelia.Retained.{
  heap_push, a3, a2, a1_error, DeadlineKey, a1_ack, RetainedLane, SlotId, RetainedItem, LaneState,
  item_peer_msg_id, next_seq_of,
}
use aurelia.Retained.Store.{RetainedStore, lane, set_lane, allocate}
use aurelia.Retained.Items.{
  LaneSame-refl, LaneSame, items_of, LaneIsValid, held, is_tracked_item, book, IsStored, lane_cases,
  lane-set_lane, lane-set_lane_ne,
}
use aurelia.Retained.Removal.{slot_some, slot_id_eq, both_some}
use aurelia.Retained.Places.{Occupies, allocate_in-cases}

-- The store after an insertion: the item is in the slot, and the map of its kind leads there.
pub record Stores (s : RetainedStore) (item : RetainedItem) (id : SlotId) (t : RetainedStore)
    : Type 0 where
  pub lanes : (kind : RetainedLane) → LaneIsValid kind (lane t kind)
  pub here : held t id ≡ some (some item)
  pub others : (other : SlotId) → other ≢ id → held t other ≡ held s other
  pub was_free : (x : RetainedItem) → held s id ≢ some (some x)
  pub within : (lane t id.lane).live_count ≤ (lane t id.lane).target_capacity
  pub books : (b : Bool) → book t b ≡ book s b

stored_lane :
    (s : RetainedStore) (k j : RetainedLane) (m : LaneState) (n : ℕ) (d : List DeadlineKey)
    → lane (record (set_lane (record s { next_seq = n }) k m) { deadlines = d }) j
      ≡ lane (set_lane s k m) j
stored_lane s a1_ack a1_ack m n d = refl
stored_lane s a1_ack a1_error m n d = refl
stored_lane s a1_ack a2 m n d = refl
stored_lane s a1_ack a3 m n d = refl
stored_lane s a1_error a1_ack m n d = refl
stored_lane s a1_error a1_error m n d = refl
stored_lane s a1_error a2 m n d = refl
stored_lane s a1_error a3 m n d = refl
stored_lane s a2 a1_ack m n d = refl
stored_lane s a2 a1_error m n d = refl
stored_lane s a2 a2 m n d = refl
stored_lane s a2 a3 m n d = refl
stored_lane s a3 a1_ack m n d = refl
stored_lane s a3 a1_error m n d = refl
stored_lane s a3 a2 m n d = refl
stored_lane s a3 a3 m n d = refl

stored_book :
    (s : RetainedStore) (k : RetainedLane) (m : LaneState) (n : ℕ) (d : List DeadlineKey) (b : Bool)
    → book (record (set_lane (record s { next_seq = n }) k m) { deadlines = d }) b ≡ book s b
stored_book s a1_ack m n d true = refl
stored_book s a1_ack m n d false = refl
stored_book s a1_error m n d true = refl
stored_book s a1_error m n d false = refl
stored_book s a2 m n d true = refl
stored_book s a2 m n d false = refl
stored_book s a3 m n d true = refl
stored_book s a3 m n d false = refl

renumbered :
    (s : RetainedStore) (k : RetainedLane) (n : ℕ)
    → set_lane (record s { next_seq = n }) k (lane s k) ≡ record s { next_seq = n }
renumbered s a1_ack n = refl
renumbered s a1_error n = refl
renumbered s a2 n = refl
renumbered s a3 n = refl

pub renumbered_lane :
    (s : RetainedStore) (j : RetainedLane) (n : ℕ)
    → LaneSame (lane s j) (lane (record s { next_seq = n }) j)
renumbered_lane s a1_ack n = LaneSame-refl _
renumbered_lane s a1_error n = LaneSame-refl _
renumbered_lane s a2 n = LaneSame-refl _
renumbered_lane s a3 n = LaneSame-refl _

pub renumbered_book :
    (s : RetainedStore) (n : ℕ) (b : Bool) → book (record s { next_seq = n }) b ≡ book s b
renumbered_book s n true = refl
renumbered_book s n false = refl

set_lane-deadlines :
    (s : RetainedStore) (k : RetainedLane) (m : LaneState) (n : ℕ)
    → s.deadlines ≡ (set_lane (record s { next_seq = n }) k m).deadlines
set_lane-deadlines s a1_ack m n = refl
set_lane-deadlines s a1_error m n = refl
set_lane-deadlines s a2 m n = refl
set_lane-deadlines s a3 m n = refl

stored :
    (s : RetainedStore) (k : RetainedLane) (item : RetainedItem) (index : ℕ) (m : LaneState) (n : ℕ)
    (d : List DeadlineKey)
    → IsStored s
    → Occupies k (lane s k) item index m
    → Stores s item
        (record { lane = k; index = index })
        (record (set_lane (record s { next_seq = n }) k m) { deadlines = d })
stored s k item index m n d v o = record {
  lanes = λ j. elim (lane_cases k j) [
    | inl same ↦
        subst (λ j. LaneIsValid j (lane t j)) same (subst (LaneIsValid k) (sym mine) o.valid)
    | inr apart ↦
        subst (LaneIsValid j) (sym (stored_lane s k j m n d ∙ lane-set_lane_ne s k j m apart))
          (v.lanes j)
  ];
  here = ap (λ (l : LaneState). get_elem? (items_of l.slots) index) mine ∙ o.here;
  others = λ other ne. elim (lane_cases k other.lane) [
    | inl same ↦
        subst
          (λ j.
            get_elem? (items_of (lane t j).slots) other.index
            ≡ get_elem? (items_of (lane s j).slots) other.index)
          same
          (ap (λ (l : LaneState). get_elem? (items_of l.slots) other.index) mine
            ∙ o.others other.index (λ e. ne (slot_id_eq (sym same) e)))
    | inr apart ↦
        ap (λ (l : LaneState). get_elem? (items_of l.slots) other.index)
          (stored_lane s k other.lane m n d ∙ lane-set_lane_ne s k other.lane m apart)
  ];
  was_free = o.was_free;
  within = subst (λ (l : LaneState). l.live_count ≤ l.target_capacity) (sym mine) o.within;
  books = stored_book s k m n d;
}
  where
    t : RetainedStore
    t = record (set_lane (record s { next_seq = n }) k m) { deadlines = d }

    mine : lane t k ≡ m
    mine = stored_lane s k k m n d ∙ lane-set_lane s k m

-- `allocate` of the store takes a slot, or changes the sequence number only.
pub allocate-cases :
    (s : RetainedStore) (kind : RetainedLane) (item : RetainedItem) (deadline now : ℕ)
    → IsStored s
    → ((allocate s kind item deadline now ≡ (record s { next_seq = next_seq_of s.next_seq }, none)))
      ⊎ ((index : ℕ) × (t : RetainedStore) × (allocate s kind item deadline now
            ≡ (t, some (record { lane = kind; index = index })))
          × Stores s item (record { lane = kind; index = index }) t)
unfolding allocate
allocate-cases s kind item deadline now v =
    elim (allocate_in-cases kind (lane s kind) item deadline s.next_seq now (v.lanes kind)) [
      | inl e ↦ inl (rw e (ap (λ t. (t, none)) (renumbered s kind (next_seq_of s.next_seq))))
      | inr (index, m, identity, e, o) ↦
          let keys : List DeadlineKey =
            heap_push (set_lane (record s { next_seq = next_seq_of s.next_seq }) kind m).deadlines
              (record {
                deadline = deadline;
                slot = record { lane = kind; index = index };
                seq = s.next_seq;
              }) in
          inr (
            index,
            record (set_lane (record s { next_seq = next_seq_of s.next_seq }) kind m) {
              deadlines = keys;
            },
            rw e (
                ap
                  (λ d. (
                    record (set_lane (record s { next_seq = next_seq_of s.next_seq }) kind m) {
                      deadlines = heap_push d (record {
                        deadline = deadline;
                        slot = record { lane = kind; index = index };
                        seq = s.next_seq;
                      });
                    },
                    some (record { lane = kind; index = index }),
                  ))
                  (set_lane-deadlines s kind m (next_seq_of s.next_seq))),
            stored s kind item index m (next_seq_of s.next_seq) keys v o,
          )
    ]

-- The map of the item's kind leads to its slot.
abbrev pub note_in : Bool → ℕ → SlotId → RetainedStore → RetainedStore
note_in true m id t = record t { tracked = insert t.tracked m id }
note_in false m id t = record t { responses = insert t.responses m id }

note_in-lane :
    (b : Bool) (m : ℕ) (id : SlotId) (t : RetainedStore) (k : RetainedLane)
    → lane (note_in b m id t) k ≡ lane t k
note_in-lane true m id t a1_ack = refl
note_in-lane false m id t a1_ack = refl
note_in-lane true m id t a1_error = refl
note_in-lane false m id t a1_error = refl
note_in-lane true m id t a2 = refl
note_in-lane false m id t a2 = refl
note_in-lane true m id t a3 = refl
note_in-lane false m id t a3 = refl

note_in-book :
    (b c : Bool) (m : ℕ) (id : SlotId) (t : RetainedStore)
    → ((b ≡ c) × (book (note_in b m id t) c ≡ insert (book t c) m id))
      ⊎ ((b ≢ c) × (book (note_in b m id t) c ≡ book t c))
note_in-book true true m id t = inl (refl, refl)
note_in-book true false m id t = inr (λ e. cc, refl)
note_in-book false true m id t = inr (λ e. cc, refl)
note_in-book false false m id t = inl (refl, refl)

pub slot_cases : (a b : SlotId) → (a ≡ b) ⊎ (a ≢ b)
slot_cases a b = elim (lane_cases a.lane b.lane) [
  | inr apart ↦ inr (λ e. apart (ap (λ x. x.lane) e))
  | inl same ↦ elim (ℕ_discrete a.index b.index) [
    | yes here ↦ inl (slot_id_eq same here)
    | no ne ↦ inr (λ e. ne (ap (λ x. x.index) e))
  ]
]

-- A new item whose identifier is not in its map keeps the store valid.
pub note_in-IsStored :
    (s t : RetainedStore) (item : RetainedItem) (id : SlotId)
    → IsStored s
    → Stores s item id t
    → get (book s (is_tracked_item item)) (item_peer_msg_id item) ≡ none
    → IsStored (note_in (is_tracked_item item) (item_peer_msg_id item) id t)
note_in-IsStored s t item id v w fresh = record {
  lanes = λ k. subst (LaneIsValid k) (sym (note_in-lane b m id t k)) (w.lanes k);
  known = λ c n other h. elim (note_in-book b c m id t) [
    | inr (_, e) ↦ old c n other (ap (λ x. get x n) (sym e) ∙ h)
    | inl (same, e) ↦
        let g : get (insert (book t c) m id) n ≡ some other = ap (λ x. get x n) (sym e) ∙ h in
        elim (Bool-cases (m == n)) [
          | inl here ↦
              let at : id ≡ other =
                slot_some (ground (arith, get-insert (book t c) m id n, g, here)) in
              (item, at_note other ∙ ap (held t) (sym at) ∙ w.here, same, ground (arith, here))
          | inr elsewhere ↦
              old c n other (ground (arith, get-insert (book t c) m id n, g, elsewhere))
        ]
  ];
  booked = λ other x h. elim (slot_cases other id) [
    | inl same ↦
        let it : item ≡ x =
          both_some (sym w.here ∙ ap (held t) (sym same) ∙ sym (at_note other) ∙ h) in
        subst
          (λ y. get (book (note_in b m id t) (is_tracked_item y)) (item_peer_msg_id y) ≡ some other)
          it (found ∙ ap some (sym same))
    | inr apart ↦
        let before : get (book s (is_tracked_item x)) (item_peer_msg_id x) ≡ some other =
          v.booked other x (sym (w.others other apart) ∙ sym (at_note other) ∙ h) in
        elim (note_in-book b (is_tracked_item x) m id t) [
          | inr (_, e) ↦
              ap (λ y. get y (item_peer_msg_id x)) (e ∙ w.books (is_tracked_item x)) ∙ before
          | inl (same, e) ↦
              ap (λ y. get y (item_peer_msg_id x))
                (e ∙ ap (λ y. insert y m id) (w.books (is_tracked_item x)))
              ∙ kept (is_tracked_item x) (item_peer_msg_id x) other same before
        ]
  ];
}
  where
    b : Bool
    b = is_tracked_item item

    m : ℕ
    m = item_peer_msg_id item

    at_note : (o : SlotId) → held (note_in b m id t) o ≡ held t o
    at_note o =
        ap (λ (l : LaneState). get_elem? (items_of l.slots) o.index) (note_in-lane b m id t o.lane)

    old :
        (c : Bool) (n : ℕ) (other : SlotId)
        → get (book t c) n ≡ some other
        → (x : RetainedItem) × (held (note_in b m id t) other ≡ some (some x))
          × (is_tracked_item x ≡ c)
          × (item_peer_msg_id x ≡ n)
    old c n other h =
        let (x, holds, kind, names) = v.known c n other (ap (λ y. get y n) (sym (w.books c)) ∙ h) in
        (
          x,
          at_note other ∙ w.others other (λ e. w.was_free x (ap (held s) (sym e) ∙ holds)) ∙ holds,
          kind,
          names,
        )

    found : get (book (note_in b m id t) b) m ≡ some id
    found = elim (note_in-book b b m id t) [
      | inl (_, e) ↦ ap (λ y. get y m) e ∙ ground (arith, get-insert (book t b) m id m)
      | inr (ne, _) ↦ absurd (ne refl)
    ]

    kept :
        (c : Bool) (n : ℕ) (other : SlotId)
        → b ≡ c
        → get (book s c) n ≡ some other
        → get (insert (book s c) m id) n ≡ some other
    kept c n other same before =
        let none_here : get (book s c) m ≡ none = subst (λ c. get (book s c) m ≡ none) same fresh in
        ground (arith, get-insert (book s c) m id n, before, none_here, ap (get (book s c)))
