-- ===== src/Retained/Steps.antt =====
-- The store stays valid under every sequence of operations, and what a completion does.
use aurelia.Prelude.{
  ℕ, zero, suc, ◌+◌, ◌≤◌, ◌<◌, max, ◌≡◌, refl, sym, ap, ◌≢◌, Bool, true, false, none, some, List,
  [], ◌∷◌, arith, All, length, get_elem?, replicate, length-replicate,
}
use aurelia.Prelude.Maps.{get-nil, get}
use aurelia.Prelude.Words.{u64_max}
use aurelia.Ids.{AureliaError}
use aurelia.Retained.{
  RetainedLane, a1_ack, a1_error, a2, a3, SlotId, RetainedItem, OutboundFrame, TrackedOutbound,
  RetainedCapacities, new_lane, empty_slot, range, capacity,
}
use aurelia.Retained.Store.{
  RetainedStore, new, lane, insert_ack, insert_error, insert_tracked, ack_one, fail_one, fail_all,
  fail_non_a1, begin_shutdown, drop_responses, values, non_a1, set_capacities,
}
use aurelia.Retained.Flow.{
  mark_callis_replay_ready, RetainedClaim, claim_next, complete_write,
  mark_all_tracked_replay_ready, mark_tracked_replay_ready, slots_of, expire_due, next_deadline,
  next_keys,
}
use aurelia.Retained.Items.{
  length-items_of, items_of, count_some, Distinct, LaneIsValid, IsStored, book,
}
use aurelia.Retained.Resizing.{set_capacities-IsStored}
use aurelia.Retained.Operations.{
  insert_ack-IsStored, insert_error-IsStored, insert_tracked-IsStored, ack_one-IsStored,
  fail_one-IsStored, fail_slots-IsStored, drop_slots-IsStored, shutdown-IsStored,
}
use aurelia.Retained.Claims.{claim_next-IsStored}
use aurelia.Retained.Moves.{
  complete_write-IsStored, mark_slots_replay_ready-IsStored, expire_keys-IsStored,
  deadlines-IsStored,
}
use aurelia.Retained.Replays.{mark_callis_replay_ready-IsStored}

-- A call on the store. `now` is the time of the call.
pub data Operation : Type 0 where
  inserts_ack : ℕ → ℕ → ℕ → Operation
  inserts_error : ℕ → OutboundFrame → ℕ → ℕ → Operation
  inserts_tracked : TrackedOutbound → ℕ → ℕ → Operation
  claims : ℕ → Operation
  ends_write : RetainedClaim → Bool → Operation
  acks : ℕ → Operation
  fails_one : ℕ → AureliaError → Operation
  fails_all : AureliaError → Operation
  fails_non_a1 : AureliaError → Operation
  callis_fails : ℕ → Operation
  replays_all : Operation
  replays : List ℕ → Operation
  expires : ℕ → Operation
  looks_ahead : Operation
  shuts_down : AureliaError → Operation
  drops_responses : Operation
  resizes : RetainedCapacities → ℕ → Operation

unfoldable pub apply : RetainedStore → Operation → RetainedStore
apply s (inserts_ack peer_msg_id deadline now) = (insert_ack s peer_msg_id deadline now).0
apply s (inserts_error peer_msg_id frame deadline now) =
    (insert_error s peer_msg_id frame deadline now).0
apply s (inserts_tracked t deadline now) = (insert_tracked s t deadline now).0
apply s (claims callis_id) = (claim_next s callis_id).0
apply s (ends_write claim failed) = complete_write s claim failed
apply s (acks peer_msg_id) = (ack_one s peer_msg_id).0
apply s (fails_one peer_msg_id err) = (fail_one s peer_msg_id err).0
apply s (fails_all err) = (fail_all s err).0
apply s (fails_non_a1 err) = (fail_non_a1 s err).0
apply s (callis_fails callis_id) = mark_callis_replay_ready s callis_id
apply s replays_all = mark_all_tracked_replay_ready s
apply s (replays peer_msg_ids) = mark_tracked_replay_ready s peer_msg_ids
apply s (expires now) = (expire_due s now).0
apply s looks_ahead = (next_deadline s).0
apply s (shuts_down err) = (begin_shutdown s err).0
apply s drops_responses = drop_responses s
apply s (resizes c now) = set_capacities s c now

unfoldable pub apply_all : RetainedStore → List Operation → RetainedStore
apply_all s [] = s
apply_all s (op ∷ ops) = apply_all (apply s op) ops

-- The capacities are machine words.
abbrev pub AreWords : RetainedCapacities → Type 0
AreWords c = (kind : RetainedLane) → capacity c kind ≤ u64_max

-- New capacities are machine words too.
unfoldable pub Sized : Operation → Type 0
Sized (resizes c now) = AreWords c
Sized _ = Unit

pub apply-IsStored :
    (s : RetainedStore) (op : Operation) → Sized op → IsStored s → IsStored (apply s op)
unfolding apply Sized fail_all fail_non_a1 begin_shutdown drop_responses
    mark_all_tracked_replay_ready mark_tracked_replay_ready expire_due next_deadline
apply-IsStored s (inserts_ack m deadline now) sized v = insert_ack-IsStored s m deadline now v
apply-IsStored s (inserts_error m frame deadline now) sized v =
    insert_error-IsStored s m frame deadline now v
apply-IsStored s (inserts_tracked t deadline now) sized v =
    insert_tracked-IsStored s t deadline now v
apply-IsStored s (claims k) sized v = claim_next-IsStored s k v
apply-IsStored s (ends_write claim failed) sized v = complete_write-IsStored s claim failed v
apply-IsStored s (acks m) sized v = ack_one-IsStored s m v
apply-IsStored s (fails_one m err) sized v = fail_one-IsStored s m err v
apply-IsStored s (fails_all err) sized v = fail_slots-IsStored (values s.tracked) s err v
apply-IsStored s (fails_non_a1 err) sized v =
    fail_slots-IsStored (non_a1 (values s.tracked)) s err v
apply-IsStored s (callis_fails k) sized v = mark_callis_replay_ready-IsStored s k v
apply-IsStored s replays_all sized v = mark_slots_replay_ready-IsStored (values s.tracked) s v
apply-IsStored s (replays ms) sized v = mark_slots_replay_ready-IsStored (slots_of s ms) s v
apply-IsStored s (expires now) sized v = expire_keys-IsStored s.deadlines s now v
apply-IsStored s looks_ahead sized v = deadlines-IsStored s (next_keys s s.deadlines).0 v
apply-IsStored s (shuts_down err) sized v =
    fail_slots-IsStored (non_a1 (values s.tracked)) (record s { shutdown = true }) err
      (shutdown-IsStored s true v)
apply-IsStored s drops_responses sized v = drop_slots-IsStored (values s.responses) s v
apply-IsStored s (resizes c now) sized v = set_capacities-IsStored s c now sized v

items_of-replicate :
    (n i : ℕ) (kind : RetainedLane) (now : ℕ)
    → i < n
    → get_elem? (items_of (replicate n (empty_slot kind now))) i ≡ some none
items_of-replicate zero i kind now h = absurd (omega arith)
items_of-replicate (suc n) zero kind now h = refl
items_of-replicate (suc n) (suc i) kind now h = items_of-replicate n i kind now (omega arith)

count_some-replicate :
    (n : ℕ) (kind : RetainedLane) (now : ℕ)
    → count_some (items_of (replicate n (empty_slot kind now))) ≡ 0
count_some-replicate zero kind now = refl
count_some-replicate (suc n) kind now = count_some-replicate n kind now

nothing_held :
    (n i : ℕ) (kind : RetainedLane) (now : ℕ) (x : RetainedItem)
    → get_elem? (items_of (replicate n (empty_slot kind now))) i ≢ some (some x)
nothing_held zero i kind now x h = cc
nothing_held (suc n) zero kind now x h = cc
nothing_held (suc n) (suc i) kind now x h = nothing_held n i kind now x h

range-All :
    (P : ℕ → Type 0) (first count : ℕ)
    → ((i : ℕ) → first ≤ i → i < first + count → P i)
    → All P (range first count)
unfolding range
range-All P first zero h = tt
range-All P first (suc count) h = (
  h first (omega arith) (omega arith),
  range-All P (first + 1) count (λ i a b. h i (omega arith) (omega arith)),
)

range-Distinct : (first count : ℕ) → Distinct (range first count)
unfolding range
range-Distinct first zero = tt
range-Distinct first (suc count) = (
  range-All (λ j. j ≢ first) (first + 1) count (λ i a b e. omega arith),
  range-Distinct (first + 1) count,
)

length-range : (first count : ℕ) → length (range first count) ≡ count
unfolding range
length-range first zero = refl
length-range first (suc count) = ap suc (length-range (first + 1) count)

new_lane-LaneIsValid :
    (kind : RetainedLane) (target now : ℕ)
    → target ≤ u64_max
    → LaneIsValid kind (new_lane kind target now)
unfolding new_lane
new_lane-LaneIsValid kind target now h =
    let n : ℕ = max target 1 in
    record {
      named = refl;
      counted = sym (count_some-replicate n kind now);
      free_empty = range-All _ 0 n (λ i a b. items_of-replicate n i kind now (omega arith));
      free_distinct = range-Distinct 0 n;
      balanced = omega (
        arith,
        length-range 0 n,
        length-items_of (replicate n (empty_slot kind now)),
        length-replicate n (empty_slot kind now),
      );
      fits = omega arith;
    }

pub new-IsStored : (c : RetainedCapacities) (now : ℕ) → AreWords c → IsStored (new c now)
unfolding new
new-IsStored c now fits = record {
  lanes = lanes;
  known = λ b m id h. absurd (no_entry b m id h);
  booked = λ id item h. absurd (empty_everywhere id.lane id.index item h);
}
  where
    lanes : (kind : RetainedLane) → LaneIsValid kind (lane (new c now) kind)
    lanes a1_ack = new_lane-LaneIsValid a1_ack c.a1_ack now (fits a1_ack)
    lanes a1_error = new_lane-LaneIsValid a1_error c.a1_error now (fits a1_error)
    lanes a2 = new_lane-LaneIsValid a2 c.a2 now (fits a2)
    lanes a3 = new_lane-LaneIsValid a3 c.a3 now (fits a3)

    empty_everywhere :
        (kind : RetainedLane) (i : ℕ) (x : RetainedItem)
        → get_elem? (items_of (lane (new c now) kind).slots) i ≢ some (some x)
    empty_everywhere a1_ack i x = unfold new_lane in nothing_held _ i a1_ack now x
    empty_everywhere a1_error i x = unfold new_lane in nothing_held _ i a1_error now x
    empty_everywhere a2 i x = unfold new_lane in nothing_held _ i a2 now x
    empty_everywhere a3 i x = unfold new_lane in nothing_held _ i a3 now x

    no_entry : (b : Bool) (m : ℕ) (id : SlotId) → get (book (new c now) b) m ≢ some id
    no_entry true m id h = ground (arith, get-nil {V = SlotId} m)
    no_entry false m id h = ground (arith, get-nil {V = SlotId} m)

apply_all-keeps :
    (ops : List Operation) (s : RetainedStore)
    → All Sized ops
    → IsStored s
    → IsStored (apply_all s ops)
unfolding apply_all
apply_all-keeps [] s sized v = v
apply_all-keeps (op ∷ ops) s sized v =
    apply_all-keeps ops (apply s op) sized.1 (apply-IsStored s op sized.0 v)

-- From a new store whose capacities are machine words, every sequence of insertions, claims, ends
-- of writes, acknowledgements, failures, replays, expiries, shutdowns, drops and changes of the
-- capacities, to machine words, leaves a valid store: each lane counts its items, its stack of free
-- slots lists only slots without an item, none twice and as many as there are, and the maps of
-- tracked messages and of responses lead exactly to the slots that hold them.
pub apply_all-IsStored :
    (c : RetainedCapacities) (started : ℕ) (ops : List Operation)
    → AreWords c
    → All Sized ops
    → IsStored (apply_all (new c started) ops)
apply_all-IsStored c started ops fits sized =
    apply_all-keeps ops (new c started) sized (new-IsStored c started fits)
