-- ===== src/Retained/Failing.antt =====
-- The failure of all tracked messages: `fail_all` of primary_dispatch/store.rs.
use aurelia.Retained.Operations.{fail_slots-IsStored}
use aurelia.Prelude.{
  ℕ, ◌≡◌, refl, sym, ap, subst, ◌∙◌, ◌≢◌, ◌⊎◌, inl, inr, true, Option, none, some, List, [], ◌∷◌,
  ◌++◌, map, append_assoc, append-nil, arith, ◌==◌, if◌then◌else◌, ==_iff, Bool-cases, Option-cases,
  get_elem?,
}
use aurelia.Prelude.Maps.{Map, get, remove, get-remove}
use aurelia.Ids.{AureliaError}
use aurelia.Retained.{
  SlotId, RetainedItem, tracked_item, ack_item, error_item, RetainedSlot, item_peer_msg_id,
}
use aurelia.Retained.Store.{
  RetainedStore, lane, remove_by_slot, own_effect, fail_slots, fail_all, values, CompletionEffect,
}
use aurelia.Retained.Items.{IsStored, held, is_tracked_item, items_of-get}
use aurelia.Retained.Removal.{
  set_lane-book, vacated, unbooked, unbooked-keeps, remove_by_slot-cases, remove_by_slot-IsStored,
  held-unbooked, held-vacated, nothing_is_item, both_some,
}

-- What the senders of the message m are told.
unfoldable pub told_to : ℕ → List CompletionEffect → List CompletionEffect
told_to m [] = []
told_to m (effect ∷ effects) =
    let rest = told_to m effects in if effect.peer_msg_id == m then effect ∷ rest else rest

-- What the sender of m is to be told: the error once, if m is tracked, and nothing else.
abbrev pub notice : AureliaError → Option (Option RetainedItem) → List CompletionEffect
notice err (some item) = own_effect (some err) item
notice err none = []

abbrev pub notice_at : RetainedStore → AureliaError → Option SlotId → List CompletionEffect
notice_at s err none = []
notice_at s err (some id) = notice err (held s id)

abbrev pub due : RetainedStore → AureliaError → ℕ → List CompletionEffect
due s err m = notice_at s err (get s.tracked m)

unfoldable pub In : SlotId → List SlotId → Type 0
In id [] = ⊥
In id (first ∷ ids) = (first ≡ id) ⊎ In id ids

listed : (map : Map SlotId) (m : ℕ) (id : SlotId) → get map m ≡ some id → In id (values map)
unfolding In get
listed [] m id h = cc
listed ((j, first) ∷ map) m id h = elim (Bool-cases (j == m)) [
  | inl e ↦ inl (ground arith)
  | inr e ↦ inr (listed map m id (ground arith))
]

-- What one removal leaves: fewer items, fewer tracked messages, and what was due, told or still due.
record IsFailed (s : RetainedStore) (err : AureliaError) (t : RetainedStore)
    (effects : List CompletionEffect) : Type 0 where
  fewer : (id : SlotId) (x : RetainedItem) → held t id ≡ some (some x) → held s id ≡ some (some x)
  shrinks : (m : ℕ) (id : SlotId) → get t.tracked m ≡ some id → get s.tracked m ≡ some id
  owed : (m : ℕ) → told_to m effects ++ due t err m ≡ due s err m

told_to-append :
    (m : ℕ) (xs ys : List CompletionEffect) → told_to m (xs ++ ys) ≡ told_to m xs ++ told_to m ys
unfolding told_to
told_to-append m [] ys = refl
told_to-append m (x ∷ xs) ys = elim (Bool-cases (x.peer_msg_id == m)) [
  | inl e ↦ rw e (ap (◌∷◌ x) (told_to-append m xs ys))
  | inr e ↦ rw e (told_to-append m xs ys)
]

stays : (s : RetainedStore) (err : AureliaError) → IsFailed s err s []
unfolding told_to
stays s err = record { fewer = λ id x h. h; shrinks = λ m id h. h; owed = λ m. refl }

then-IsFailed :
    {s t u : RetainedStore} {err : AureliaError} {xs ys : List CompletionEffect}
    → IsFailed s err t xs
    → IsFailed t err u ys
    → IsFailed s err u (xs ++ ys)
then-IsFailed {u = u} {err = err} {xs = xs} {ys = ys} f g = record {
  fewer = λ id x h. f.fewer id x (g.fewer id x h);
  shrinks = λ m id h. f.shrinks m id (g.shrinks m id h);
  owed = λ m.
      ap (λ zs. zs ++ due u err m) (told_to-append m xs ys)
      ∙ append_assoc (told_to m xs) (told_to m ys) (due u err m)
      ∙ ap (◌++◌ (told_to m xs)) (g.owed m)
      ∙ f.owed m;
}

module _ (s : RetainedStore) (err : AureliaError) (id : SlotId) (slot : RetainedSlot)
    (item : RetainedItem) (v : IsStored s)
    (at : get_elem? (lane s id.lane).slots id.index ≡ some slot) (has : slot.item ≡ some item) where
  abbrev after_it : RetainedStore
  after_it = unbooked s id.lane (vacated (lane s id.lane) id.index slot) item

  here : held s id ≡ some (some item)
  here = items_of-get (lane s id.lane).slots id.index slot at ∙ ap some has

  apart : (other : SlotId) (x : RetainedItem) → held after_it other ≡ some (some x) → other ≢ id
  apart other x h e =
      nothing_is_item (sym (held-vacated s id slot item at) ∙ ap (held after_it) (sym e) ∙ h)

  due-other :
      (m : ℕ)
      → get after_it.tracked m ≡ get s.tracked m
      → get s.tracked m ≢ some id
      → due after_it err m ≡ due s err m
  due-other m same ne = elim (Option-cases (get s.tracked m)) [
    | inl e ↦ ap (notice_at after_it err) (same ∙ e) ∙ ap (notice_at s err) (sym e)
    | inr (other, e) ↦
        ap (notice_at after_it err) (same ∙ e)
        ∙ ap (notice err) (held-unbooked s id other slot item (λ d. ne (e ∙ ap some d)))
        ∙ ap (notice_at s err) (sym e)
  ]

  item_at :
      (m : ℕ)
      → get s.tracked m ≡ some id
      → (is_tracked_item item ≡ true) × (item_peer_msg_id item ≡ m)
  item_at m h =
      let (x, holds, kind, names) = v.known true m id h in
      let same : x ≡ item = both_some (sym holds ∙ here) in
      (ap is_tracked_item (sym same) ∙ kind, ap item_peer_msg_id (sym same) ∙ names)

  removal-fewer :
      (other : SlotId) (x : RetainedItem)
      → held after_it other ≡ some (some x)
      → held s other ≡ some (some x)
  removal-fewer other x h = sym (held-unbooked s id other slot item (apart other x h)) ∙ h

  removal-shrinks :
      (m : ℕ) (other : SlotId) → get after_it.tracked m ≡ some other → get s.tracked m ≡ some other
  removal-shrinks m other h =
      (unbooked-keeps s id.lane (vacated (lane s id.lane) id.index slot) item true m other h).0

removal-owed :
    (s : RetainedStore) (err : AureliaError) (id : SlotId) (slot : RetainedSlot)
    (item : RetainedItem) (v : IsStored s)
    (at : get_elem? (lane s id.lane).slots id.index ≡ some slot) (has : slot.item ≡ some item)
    (m : ℕ)
    → told_to m (own_effect (some err) (some item))
        ++ due (after_it s err id slot item v at has) err m
      ≡ due s err m
unfolding told_to
removal-owed s err id slot (ack_item k) v at has m =
    due-other s err id slot (ack_item k) v at has m
      (ap (λ b. get b m) (set_lane-book s id.lane _ true))
      (λ e. let kind = (item_at s err id slot (ack_item k) v at has m e).0 in cc)
removal-owed s err id slot (error_item k frame) v at has m =
    due-other s err id slot (error_item k frame) v at has m
      (ap (λ b. get b m) (set_lane-book s id.lane _ true))
      (λ e. let kind = (item_at s err id slot (error_item k frame) v at has m e).0 in cc)
removal-owed s err id slot (tracked_item t) v at has m =
    let k : ℕ = t.message.peer_msg_id in
    let here : held s id ≡ some (some (tracked_item t)) =
      items_of-get (lane s id.lane).slots id.index slot at ∙ ap some has in
    elim (Bool-cases (k == m)) [
      | inl e ↦
          let unlisted : get (remove s.tracked k) m ≡ none = get-remove s.tracked k m ∙ rw e refl in
          let found : get s.tracked m ≡ some id =
            ap (get s.tracked) (sym ((==_iff k m).0 e)) ∙ v.booked id (tracked_item t) here in
          rw e (
            ap
              (λ o.
                own_effect (some err) (some (tracked_item t))
                ++ notice_at (after_it s err id slot (tracked_item t) v at has) err o)
              unlisted
            ∙ ap (notice err) (sym here)
            ∙ ap (notice_at s err) (sym found))
      | inr e ↦ rw e (
          due-other s err id slot (tracked_item t) v at has m (get-remove s.tracked k m ∙ rw e refl)
            (λ d.
              let names = (item_at s err id slot (tracked_item t) v at has m d).1 in ground arith))
    ]

removal-IsFailed :
    (s : RetainedStore) (err : AureliaError) (id : SlotId)
    → IsStored s
    → IsFailed s err (remove_by_slot s id).0 (own_effect (some err) (remove_by_slot s id).1)
removal-IsFailed s err id v = elim (remove_by_slot-cases s id) [
  | inl (_, e) ↦ subst (λ r. IsFailed s err r.0 (own_effect (some err) r.1)) (sym e) (stays s err)
  | inr (slot, item, at, has, e) ↦
      subst (λ r. IsFailed s err r.0 (own_effect (some err) r.1)) (sym e)
        (record {
          fewer = removal-fewer s err id slot item v at has;
          shrinks = removal-shrinks s err id slot item v at has;
          owed = removal-owed s err id slot item v at has;
        })
]

removal-empties :
    (s : RetainedStore) (id : SlotId) (x : RetainedItem)
    → held (remove_by_slot s id).0 id ≢ some (some x)
removal-empties s id x h = elim (remove_by_slot-cases s id) [
  | inl (nothing, e) ↦ nothing x (subst (λ r. held r.0 id ≡ some (some x)) e h)
  | inr (slot, item, at, has, e) ↦
      nothing_is_item
        (sym (held-vacated s id slot item at) ∙ subst (λ r. held r.0 id ≡ some (some x)) e h)
]

fail_slots-IsFailed :
    (ids : List SlotId) (s : RetainedStore) (err : AureliaError)
    → IsStored s
    → IsFailed s err (fail_slots s err ids).0 (fail_slots s err ids).1
unfolding fail_slots
fail_slots-IsFailed [] s err v = stays s err
fail_slots-IsFailed (id ∷ ids) s err v =
    then-IsFailed (removal-IsFailed s err id v)
      (fail_slots-IsFailed ids (remove_by_slot s id).0 err (remove_by_slot-IsStored s id v))

fail_slots-empties :
    (ids : List SlotId) (s : RetainedStore) (err : AureliaError) (id : SlotId) (x : RetainedItem)
    → IsStored s
    → In id ids
    → held (fail_slots s err ids).0 id ≢ some (some x)
unfolding fail_slots In
fail_slots-empties [] s err id x v never h = absurd never
fail_slots-empties (first ∷ ids) s err id x v (inl e) h =
    let t : RetainedStore = (remove_by_slot s first).0 in
    let before : held t id ≡ some (some x) =
      (fail_slots-IsFailed ids t err (remove_by_slot-IsStored s first v)).fewer id x h in
    removal-empties s first x (ap (held t) e ∙ before)
fail_slots-empties (first ∷ ids) s err id x v (inr more) h =
    fail_slots-empties ids (remove_by_slot s first).0 err id x (remove_by_slot-IsStored s first v)
      more h

-- Every tracked message is failed: its sender is told the error, once, nobody else is told anything, and no
-- message is tracked any more.
pub record FailsAll (s : RetainedStore) (err : AureliaError) (t : RetainedStore)
    (effects : List CompletionEffect) : Type 0 where
  pub told : (m : ℕ) → told_to m effects ≡ due s err m
  pub gone : (m : ℕ) → get t.tracked m ≡ none

pub fail_all-FailsAll :
    (s : RetainedStore) (err : AureliaError)
    → IsStored s
    → FailsAll s err (fail_all s err).0 (fail_all s err).1
unfolding fail_all
fail_all-FailsAll s err v = record {
  told = λ m.
      sym (append-nil (told_to m effects))
      ∙ ap (λ o. told_to m effects ++ notice_at t err o) (sym (gone m))
      ∙ failed.owed m;
  gone = gone;
}
  where
    t : RetainedStore
    t = (fail_slots s err (values s.tracked)).0

    effects : List CompletionEffect
    effects = (fail_slots s err (values s.tracked)).1

    failed : IsFailed s err t effects
    failed = fail_slots-IsFailed (values s.tracked) s err v

    gone : (m : ℕ) → get t.tracked m ≡ none
    gone m = elim (Option-cases (get t.tracked m)) [
      | inl e ↦ e
      | inr (id, e) ↦
          let (x, holds, _, _) =
            (fail_slots-IsStored (values s.tracked) s err v).known true m id e in
          absurd (
            fail_slots-empties (values s.tracked) s err id x v
              (listed s.tracked m id (failed.shrinks m id e)) holds)
    ]
