-- ===== src/Retained/Places.antt =====
-- The slot that an insertion takes: it held no item before, and the lane counts it.
use aurelia.Prelude.{
  ℕ, zero, suc, ◌+◌, ◌≤◌, ◌≡◌, refl, sym, ap, subst, ◌∙◌, ◌≢◌, ◌⊎◌, inl, inr, true, Option, none,
  some, List, [], ◌∷◌, ◌++◌, arith, ltb, ltb→lt, Bool-cases, All, length, get_elem?, set,
  length-append, length-set, get_elem?-set_self, get_elem?-set_ne, get_elem?-lt, get_elem?-length,
}
use aurelia.Prelude.Words.{saturating_add}
use aurelia.Retained.{
  item_kind, RetainedLane, SlotId, ItemIdentity, RetainedItem, LaneState, item_peer_msg_id,
  allocate_in, occupy, available, take_free, empty_slot,
}
use aurelia.Retained.Items.{
  LaneHolds, items_of, count_some, Distinct, LaneIsValid, items_of-set, items_of-append,
  length-items_of, count_some-set,
}

-- The lane after the item went into the slot at `index`.
pub record Occupies (kind : RetainedLane) (l : LaneState) (item : RetainedItem) (index : ℕ)
    (m : LaneState) : Type 0 where
  pub valid : LaneIsValid kind m
  pub here : get_elem? (items_of m.slots) index ≡ some (some item)
  pub others : (j : ℕ) → j ≢ index → get_elem? (items_of m.slots) j ≡ get_elem? (items_of l.slots) j
  pub was_free : (x : RetainedItem) → get_elem? (items_of l.slots) index ≢ some (some x)
  pub within : m.live_count ≤ m.target_capacity

pub append-get :
    (xs : List (Option RetainedItem)) (x : Option RetainedItem) (j : ℕ)
    → j ≢ length xs
    → get_elem? (xs ++ x ∷ []) j ≡ get_elem? xs j
append-get [] x zero ne = absurd (ne refl)
append-get [] x (suc j) ne = refl
append-get (y ∷ xs) x zero ne = refl
append-get (y ∷ xs) x (suc j) ne = append-get xs x j (λ e. ne (ap suc e))

pub append-last :
    (xs : List (Option RetainedItem)) (x : Option RetainedItem)
    → get_elem? (xs ++ x ∷ []) (length xs) ≡ some x
append-last [] x = refl
append-last (y ∷ xs) x = append-last xs x

pub count_some-append :
    (xs : List (Option RetainedItem)) → count_some (xs ++ none ∷ []) ≡ count_some xs
count_some-append [] = refl
count_some-append (none ∷ xs) = count_some-append xs
count_some-append (some x ∷ xs) = ap suc (count_some-append xs)

-- `occupy` on a lane whose stack of free slots no longer has `index`.
occupy-Occupies :
    (kind : RetainedLane) (l : LaneState) (item : RetainedItem) (index deadline seq : ℕ)
    → LaneHolds 1 kind l
    → get_elem? (items_of l.slots) index ≡ some none
    → All (λ j. j ≢ index) l.free
    → available l ≡ true
    → Occupies kind l item index (occupy l index item deadline seq).0
unfolding occupy available
occupy-Occupies kind l item index deadline seq v free apart room =
    let items : List (Option RetainedItem) = items_of l.slots in
    let eq : items_of (occupy l index item deadline seq).0.slots ≡ set items index (some item) =
      items_of-set l.slots index _ in
    let live : saturating_add l.live_count 1 ≡ l.live_count + 1 =
      omega (arith, ltb→lt _ _ room, v.fits) in
    record {
      valid = record {
        named = v.named;
        counted = omega (
          arith,
          live,
          v.counted,
          ap count_some eq,
          count_some-set items index none (some item) free,
        );
        free_empty = still_free l.free eq apart v.free_empty;
        free_distinct = v.free_distinct;
        balanced =
            omega (arith, live, v.balanced, ap length eq, length-set items index (some item));
        fits = v.fits;
      };
      here =
          ap (λ is. get_elem? is index) eq
          ∙ get_elem?-set_self items index (some item) (get_elem?-lt items index free);
      others = λ j ne.
          ap (λ is. get_elem? is j) eq ∙ get_elem?-set_ne items (some item) (λ e. ne (sym e));
      was_free = λ x h. not_held (sym free ∙ h);
      within = omega (arith, live, ltb→lt _ _ room);
    }
  where
    not_held : {x : RetainedItem} → some none ≢ some (some x)
    not_held e = cc

    still_free :
        (is : List ℕ) {after : List (Option RetainedItem)}
        → after ≡ set (items_of l.slots) index (some item)
        → All (λ j. j ≢ index) is
        → All (λ j. get_elem? (items_of l.slots) j ≡ some none) is
        → All (λ j. get_elem? after j ≡ some none) is
    still_free [] eq apart h = tt
    still_free (j ∷ is) eq apart h = (
      ap (λ xs. get_elem? xs j) eq
          ∙ get_elem?-set_ne (items_of l.slots) (some item) (λ e. apart.0 (sym e))
          ∙ h.0,
      still_free is eq apart.1 h.1,
    )

abbrev identity_for : RetainedItem → ℕ → ItemIdentity
identity_for item seq = record {
  peer_msg_id = item_peer_msg_id item;
  seq = seq;
  kind = item_kind item;
}

occupy-result :
    (kind : RetainedLane) (l : LaneState) (item : RetainedItem) (index deadline seq : ℕ)
    → l.lane ≡ kind
    → occupy l index item deadline seq ≡ (
      (occupy l index item deadline seq).0,
      some (
        record { lane = kind; index = index },
        record { peer_msg_id = item_peer_msg_id item; seq = seq; kind = item_kind item },
      ),
    )
unfolding occupy
occupy-result kind l item index deadline seq e =
    ap
      (λ k. (
        (occupy l index item deadline seq).0,
        some (record { lane = k; index = index }, identity_for item seq),
      ))
      e

-- What `allocate` of a lane does: nothing, or it takes a slot that held no item.
abbrev pub AllocatesIn :
    RetainedLane → LaneState → RetainedItem → LaneState × Option (SlotId × ItemIdentity) → Type 0
AllocatesIn kind l item r =
    (r ≡ (l, none))
    ⊎ ((index : ℕ) × (m : LaneState) × (identity : ItemIdentity) × (r
          ≡ (m, some (record { lane = kind; index = index }, identity)))
        × Occupies kind l item index m)

take_free-cases :
    (kind : RetainedLane) (l : LaneState) (free : List ℕ) (item : RetainedItem)
    (deadline seq now : ℕ)
    → l.free ≡ free
    → LaneIsValid kind l
    → available l ≡ true
    → AllocatesIn kind l item (take_free l free item deadline seq now)
take_free-cases kind l (index ∷ free) item deadline seq now e v room =
    let is_free : All (λ i. get_elem? (items_of l.slots) i ≡ some none) (index ∷ free) =
      subst (All _) e v.free_empty in
    let apart : Distinct (index ∷ free) = subst Distinct e v.free_distinct in
    let popped : LaneState = record l { free = free } in
    let v' : LaneHolds 1 kind popped = record {
      named = v.named;
      counted = v.counted;
      free_empty = is_free.1;
      free_distinct = apart.1;
      balanced = omega (arith, v.balanced, ap length e);
      fits = v.fits;
    } in
    let o : Occupies kind popped item index (occupy popped index item deadline seq).0 =
      occupy-Occupies kind popped item index deadline seq v' is_free.0 apart.0
        (unfold available in room) in
    inr (
      index,
      (occupy popped index item deadline seq).0,
      identity_for item seq,
      occupy-result kind popped item index deadline seq v.named,
      record {
        valid = o.valid;
        here = o.here;
        others = o.others;
        was_free = o.was_free;
        within = o.within;
      },
    )
take_free-cases kind l [] item deadline seq now e v room =
    elim (Bool-cases (ltb (length l.slots) l.target_capacity)) [
      | inr no_room ↦ inl (rw no_room refl)
      | inl growth ↦
          let grown : LaneState = record l { slots = l.slots ++ empty_slot l.lane now ∷ [] } in
          let items : List (Option RetainedItem) = items_of l.slots in
          let eq : items_of grown.slots ≡ items ++ none ∷ [] =
            items_of-append l.slots (empty_slot l.lane now ∷ []) in
          let v' : LaneHolds 1 kind grown = record {
            named = v.named;
            counted = v.counted ∙ sym (ap count_some eq ∙ count_some-append items);
            free_empty = subst (All _) (sym e) tt;
            free_distinct = v.free_distinct;
            balanced = omega (arith, v.balanced, ap length eq, length-append items (none ∷ []));
            fits = v.fits;
          } in
          let last : get_elem? (items_of grown.slots) (length l.slots) ≡ some none =
            ap (λ is. get_elem? is (length l.slots)) eq
            ∙ ap (get_elem? (items ++ none ∷ [])) (sym (length-items_of l.slots))
            ∙ append-last items none in
          let o : Occupies kind grown item (length l.slots)
              (occupy grown (length l.slots) item deadline seq).0 =
            occupy-Occupies kind grown item (length l.slots) deadline seq v' last
              (subst (All _) (sym e) tt) (unfold available in room) in
          inr (
            length l.slots,
            (occupy grown (length l.slots) item deadline seq).0,
            identity_for item seq,
            rw growth (occupy-result kind grown item (length l.slots) deadline seq v.named),
            record {
              valid = o.valid;
              here = o.here;
              others = λ j ne.
                  o.others j ne
                  ∙ ap (λ is. get_elem? is j) eq
                  ∙ append-get items none j (λ d. ne (d ∙ length-items_of l.slots));
              was_free = λ x h. beyond (
                  sym
                    (ap (get_elem? items) (sym (length-items_of l.slots)) ∙ get_elem?-length items)
                  ∙ h);
              within = o.within;
            },
          )
    ]
  where
    beyond : {x : RetainedItem} → none ≢ some (some x)
    beyond e = cc

pub allocate_in-cases :
    (kind : RetainedLane) (l : LaneState) (item : RetainedItem) (deadline seq now : ℕ)
    → LaneIsValid kind l
    → AllocatesIn kind l item (allocate_in l item deadline seq now)
unfolding allocate_in
allocate_in-cases kind l item deadline seq now v = elim (Bool-cases (available l)) [
  | inl room ↦ rw room (take_free-cases kind l l.free item deadline seq now refl v room)
  | inr full_lane ↦ inl (rw full_lane refl)
]
