-- ===== src/Retained/Claims.antt =====
-- The claim of the next slot by a writer keeps the store valid.
use aurelia.Prelude.{
  ℕ, zero, suc, ◌≡◌, refl, sym, ap, subst, ◌∙◌, inl, inr, Bool, true, false, ◌&&◌, Option, none,
  some, List, [], ◌∷◌, arith, ◌==◌, if_holds, get_elem?, set,
}
use aurelia.Retained.{
  writing, RetainedLane, a1_ack, a1_error, a2, a3, SlotState, RetainedItem, LaneState, RetainedSlot,
  QueueKey,
}
use aurelia.Retained.Store.{is_a1, RetainedStore, lane, set_lane}
use aurelia.Retained.Flow.{
  Scan, scan, scan_key, claim_slot, claim_found, claim_in, keep_queue, queue, claim_from_queue,
  or_claim, claim_lane, claim_next, RetainedClaim, set_state, is_expected,
}
use aurelia.Retained.Items.{
  items_of, LaneSame, LaneSame-refl, LaneSame-trans, IsStored, same-IsStored, lane_cases,
  lane-set_lane, lane-set_lane_ne, items_of-set, items_of-get,
}
use aurelia.Retained.Removal.{set_lane-book}

set_same :
    (xs : List (Option RetainedItem)) (i : ℕ) (x : Option RetainedItem)
    → get_elem? xs i ≡ some x
    → set xs i x ≡ xs
set_same [] i x h = refl
set_same (y ∷ xs) zero x h = cc
set_same (y ∷ xs) (suc i) x h = ap (λ zs. y ∷ zs) (set_same xs i x h)

pub set_state-LaneSame :
    (l : LaneState) (i : ℕ) (slot : RetainedSlot) (state : SlotState)
    → get_elem? l.slots i ≡ some slot
    → LaneSame l (set_state l i slot state)
set_state-LaneSame l i slot state at = record {
  named = refl;
  live_count = refl;
  free = refl;
  items =
      items_of-set l.slots i _
      ∙ set_same (items_of l.slots) i slot.item (items_of-get l.slots i slot at);
  target_capacity = refl;
}

pub queued-LaneSame :
    (l : LaneState) (fresh old : List QueueKey)
    → LaneSame l (record l { ready = fresh; replay = old })
queued-LaneSame l fresh old = record {
  named = refl;
  live_count = refl;
  free = refl;
  items = refl;
  target_capacity = refl;
}

-- A lane is put back with other states.
pub relane-IsStored :
    (s : RetainedStore) (k : RetainedLane) (m : LaneState)
    → LaneSame (lane s k) m
    → IsStored s
    → IsStored (set_lane s k m)
relane-IsStored s k m e v =
    same-IsStored s (set_lane s k m)
      (λ j. elim (lane_cases k j) [
        | inl same ↦
            subst (λ j. LaneSame (lane s j) (lane (set_lane s k m) j)) same
              (subst (LaneSame (lane s k)) (sym (lane-set_lane s k m)) e)
        | inr apart ↦
            subst (LaneSame (lane s j)) (sym (lane-set_lane_ne s k j m apart))
              (LaneSame-refl (lane s j))
      ])
      (set_lane-book s k m) v

pair_some :
    (a b : List QueueKey) (i j : ℕ) (x y : RetainedSlot)
    → ◌≡◌ {A = Scan} (a, some (i, x)) (b, some (j, y))
    → (i ≡ j) × (x ≡ y)
pair_some a b i j x y e = found (ap (λ (r : Scan). r.1) e)
  where
    found : ◌≡◌ {A = Option (ℕ × RetainedSlot)} (some (i, x)) (some (j, y)) → (i ≡ j) × (x ≡ y)
    found d = (cc, cc)

not_found : (a b : List QueueKey) (r : ℕ × RetainedSlot) → ◌≡◌ {A = Scan} (a, none) (b, some r) → ⊥
not_found a b r e = ground (arith, ap (λ (r : Scan). r.1) e)

scan_key-at :
    (replay : Bool) (slots : List RetainedSlot) (key : QueueKey) (keys : List QueueKey)
    (later : Scan) (o : Option RetainedSlot) (rest : List QueueKey) (i : ℕ) (slot : RetainedSlot)
    → get_elem? slots key.index ≡ o
    → (later ≡ (rest, some (i, slot)) → get_elem? slots i ≡ some slot)
    → scan_key replay key keys later o ≡ (rest, some (i, slot))
    → get_elem? slots i ≡ some slot
scan_key-at replay slots key keys later none rest i slot at ih = λ h. absurd (not_found _ _ _ h)
scan_key-at replay slots key keys later (some x) rest i slot at ih =
    if_holds (λ (r : Scan). r ≡ (rest, some (i, slot)) → get_elem? slots i ≡ some slot)
      (x.seq == key.seq && is_expected replay x.state)
      (λ _ h.
        let (ei, ex) = pair_some keys rest key.index i x slot h in
        ap (get_elem? slots) (sym ei) ∙ at ∙ ap some ex)
      (λ _. ih)

scan-at :
    (replay : Bool) (slots : List RetainedSlot) (keys rest : List QueueKey) (i : ℕ)
    (slot : RetainedSlot)
    → scan replay slots keys ≡ (rest, some (i, slot))
    → get_elem? slots i ≡ some slot
unfolding scan
scan-at replay slots [] rest i slot h = absurd (not_found _ _ _ h)
scan-at replay slots (key ∷ keys) rest i slot h =
    scan_key-at replay slots key keys (scan replay slots keys) (get_elem? slots key.index) rest i
      slot refl (scan-at replay slots keys rest i slot) h

keep_queue-LaneSame :
    (replay : Bool) (l : LaneState) (keys : List QueueKey) → LaneSame l (keep_queue replay l keys)
keep_queue-LaneSame true l keys = queued-LaneSame l l.ready keys
keep_queue-LaneSame false l keys = queued-LaneSame l keys l.replay

keep_queue-slots :
    (replay : Bool) (l : LaneState) (keys : List QueueKey)
    → (keep_queue replay l keys).slots ≡ l.slots
keep_queue-slots true l keys = refl
keep_queue-slots false l keys = refl

claim_slot-LaneSame :
    (kind : RetainedLane) (k : ℕ) (l : LaneState) (i : ℕ) (slot : RetainedSlot)
    (o : Option RetainedItem)
    → get_elem? l.slots i ≡ some slot
    → LaneSame l (claim_slot kind k l i slot o).0
claim_slot-LaneSame kind k l i slot none at = LaneSame-refl l
claim_slot-LaneSame kind k l i slot (some item) at = set_state-LaneSame l i slot (writing k) at

claim_found-LaneSame :
    (kind : RetainedLane) (k : ℕ) (replay : Bool) (l : LaneState) (r : Scan)
    → scan replay l.slots (queue replay l) ≡ r
    → LaneSame l (claim_found kind k replay l r).0
claim_found-LaneSame kind k replay l (keys, none) e = keep_queue-LaneSame replay l keys
claim_found-LaneSame kind k replay l (keys, some (i, slot)) e =
    LaneSame-trans (keep_queue-LaneSame replay l keys) (
      claim_slot-LaneSame kind k (keep_queue replay l keys) i slot slot.item (
        ap (λ xs. get_elem? xs i) (keep_queue-slots replay l keys)
        ∙ scan-at replay l.slots (queue replay l) keys i slot e))

claim_from_queue-IsStored :
    (s : RetainedStore) (kind : RetainedLane) (replay : Bool) (k : ℕ)
    → IsStored s
    → IsStored (claim_from_queue s kind replay k).0
unfolding claim_from_queue claim_in
claim_from_queue-IsStored s kind replay k v =
    relane-IsStored s kind _ (claim_found-LaneSame kind k replay (lane s kind) _ refl) v

or_claim-IsStored :
    (r : RetainedStore × Option RetainedClaim)
    (next : RetainedStore → RetainedStore × Option RetainedClaim)
    → IsStored r.0
    → ((t : RetainedStore) → IsStored t → IsStored (next t).0)
    → IsStored (or_claim r next).0
or_claim-IsStored (s, none) next v h = h s v
or_claim-IsStored (s, some claim) next v h = v

claim_lane-IsStored :
    (s : RetainedStore) (kind : RetainedLane) (k : ℕ)
    → IsStored s
    → IsStored (claim_lane s kind k).0
unfolding claim_lane
claim_lane-IsStored s kind k v =
    if_holds (λ (r : RetainedStore × Option RetainedClaim). IsStored r.0) (is_a1 kind)
      (λ _. claim_from_queue-IsStored s kind false k v)
      (λ _.
        if_holds (λ (r : RetainedStore × Option RetainedClaim). IsStored r.0) s.shutdown (λ _. v)
          (λ _.
            or_claim-IsStored (claim_from_queue s kind true k)
              (λ t. claim_from_queue t kind false k) (claim_from_queue-IsStored s kind true k v)
              (λ t w. claim_from_queue-IsStored t kind false k w)))

pub claim_next-IsStored : (s : RetainedStore) (k : ℕ) → IsStored s → IsStored (claim_next s k).0
unfolding claim_next
claim_next-IsStored s k v =
    or_claim-IsStored (claim_lane s a1_ack k) _ (claim_lane-IsStored s a1_ack k v) (λ t w.
      or_claim-IsStored (claim_lane t a1_error k) _ (claim_lane-IsStored t a1_error k w) (λ u x.
        or_claim-IsStored (claim_lane u a2 k) _ (claim_lane-IsStored u a2 k x)
          (λ y z. claim_lane-IsStored y a3 k z)))
