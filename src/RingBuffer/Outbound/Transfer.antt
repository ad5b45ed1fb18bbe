-- ===== src/RingBuffer/Outbound/Transfer.antt =====
-- crates/peering/src/ring_buffer/outbound/chunks.rs: the end of the stream, and the life of a chunk in
-- its slot: leased for a write, in flight, ready for replay on another callis, completed.
use aurelia.Prelude.{
  ℕ, ◌+◌, ◌-◌, Bool, true, false, not, ◌&&◌, ◌||◌, Option, none, some, List, [], ◌∷◌, map, ltb,
  ◌==◌, if◌then◌else◌, is_none, is_empty, get_elem?, set,
}
use aurelia.Prelude.Words.{saturating_add}
use aurelia.Prelude.Maps.{Map, get, insert, remove}
use aurelia.RingBuffer.Outbound.{
  OutboundChunks, OutboundSlot, empty, ready, writing, in_flight, replay_ready, ChunkWriteLease,
  FinalizeDecision, wait_for_capacity, finalized, ChunkCompletion, ack, error,
  has_window_capacity_for, enqueue_chunk, live_chunk_count,
}

abbrev pub needs_extra : Option (List ℕ) → List ℕ → ℕ
needs_extra (some pending) [] = 0
needs_extra (some pending) (b ∷ buf) = 1
needs_extra none buf = 1

-- The buffered bytes as the last chunk.
unfoldable pub enqueue_rest : OutboundChunks → OutboundChunks
enqueue_rest s = enqueue_chunk (record s { write_buf = [] }) s.write_buf true

unfoldable pub finalize_with : OutboundChunks → Option (List ℕ) → OutboundChunks
finalize_with s (some pending) =
    if is_empty s.write_buf
    then enqueue_chunk s pending true
    else enqueue_rest (enqueue_chunk s pending false)
finalize_with s none =
    if is_empty s.write_buf && s.created_any
    then s
    else enqueue_rest (record s { created_any = s.created_any || not (is_empty s.write_buf) })

unfoldable pub finalize : OutboundChunks → OutboundChunks × FinalizeDecision
unfolding finalize_with enqueue_rest
finalize s =
    if has_window_capacity_for s (needs_extra s.pending_full s.write_buf)
    then (finalize_with (record s { pending_full = none }) s.pending_full, finalized true)
    else (s, wait_for_capacity)

-- The chunk of a slot that a lease looks for: a fresh one, or one to replay.
abbrev pub candidate : Bool → OutboundSlot → Option ℕ
candidate false (ready chunk_id _ _ _) = some chunk_id
candidate true (replay_ready chunk_id _ _ _ _) = some chunk_id
candidate _ _ = none

abbrev pub pick : Option ℕ → ℕ → Option (ℕ × ℕ) → Option (ℕ × ℕ)
pick none index best = best
pick (some chunk_id) index none = some (index, chunk_id)
pick (some chunk_id) index (some (other, other_id)) =
    if ltb other_id chunk_id then some (other, other_id) else some (index, chunk_id)

-- `enumerate().filter_map(…).min_by_key(|(_, chunk_id)| *chunk_id)`: the first of the smallest.
unfoldable pub lowest : Bool → List OutboundSlot → ℕ → Option (ℕ × ℕ)
lowest replay [] index = none
lowest replay (slot ∷ slots) index =
    pick (candidate replay slot) index (lowest replay slots (index + 1))

abbrev pub lease_slot :
    OutboundChunks → ℕ → ℕ → ℕ → Option OutboundSlot → OutboundChunks × Option ChunkWriteLease
lease_slot s index callis_id peer_msg_id (some (ready chunk_id bytes is_last seq)) =
    let next_seq = saturating_add seq 1 in
    (
      record s {
        slots = set s.slots index (writing chunk_id bytes peer_msg_id callis_id is_last next_seq);
      },
      some (record {
        chunk_id = chunk_id;
        bytes = bytes;
        is_last = is_last;
        peer_msg_id = peer_msg_id;
        callis_id = callis_id;
        slot_seq = next_seq;
      }),
    )
lease_slot s index callis_id peer_msg_id (some (replay_ready chunk_id bytes _ is_last seq)) =
    let next_seq = saturating_add seq 1 in
    (
      record s {
        slots = set s.slots index (writing chunk_id bytes peer_msg_id callis_id is_last next_seq);
      },
      some (record {
        chunk_id = chunk_id;
        bytes = bytes;
        is_last = is_last;
        peer_msg_id = peer_msg_id;
        callis_id = callis_id;
        slot_seq = next_seq;
      }),
    )
lease_slot s index callis_id peer_msg_id _ = (s, none)

abbrev pub lease_at :
    OutboundChunks → ℕ → ℕ → Option (ℕ × ℕ) → OutboundChunks × Option ChunkWriteLease
lease_at s callis_id peer_msg_id none = (s, none)
lease_at s callis_id peer_msg_id (some (index, _)) =
    lease_slot s index callis_id peer_msg_id (get_elem? s.slots index)

unfoldable pub lease_matching :
    OutboundChunks → Bool → ℕ → ℕ → OutboundChunks × Option ChunkWriteLease
lease_matching s replay callis_id peer_msg_id =
    lease_at s callis_id peer_msg_id (lowest replay s.slots 0)

abbrev pub or_fresh :
    OutboundChunks × Option ChunkWriteLease
    → OutboundChunks × Option ChunkWriteLease
    → OutboundChunks × Option ChunkWriteLease
or_fresh (s, some lease) fresh = (s, some lease)
or_fresh (s, none) fresh = fresh

unfoldable pub lease_next_chunk_for_write :
    OutboundChunks → ℕ → ℕ → OutboundChunks × Option ChunkWriteLease
lease_next_chunk_for_write s callis_id peer_msg_id =
    or_fresh (lease_matching s true callis_id peer_msg_id)
      (lease_matching s false callis_id peer_msg_id)

abbrev pub bool_eq : Bool → Bool → Bool
bool_eq true b = b
bool_eq false b = not b

abbrev pub start_flight :
    OutboundChunks → ChunkWriteLease → ℕ → Option OutboundSlot → OutboundChunks × Bool
start_flight s lease index (some (writing chunk_id bytes peer_msg_id callis_id is_last seq)) =
    if chunk_id == lease.chunk_id
      && (peer_msg_id == lease.peer_msg_id
          && (callis_id == lease.callis_id
              && (seq == lease.slot_seq && bool_eq is_last lease.is_last)))
    then (
      record s {
        slots =
            set s.slots index
              (in_flight chunk_id bytes lease.peer_msg_id lease.callis_id is_last seq);
        ack_map = insert s.ack_map lease.peer_msg_id lease.chunk_id;
        inflight = saturating_add s.inflight 1;
      },
      true,
    )
    else (s, false)
start_flight s lease index _ = (s, false)

abbrev pub mark_at : OutboundChunks → ChunkWriteLease → Option ℕ → OutboundChunks × Bool
mark_at s lease none = (s, false)
mark_at s lease (some index) = start_flight s lease index (get_elem? s.slots index)

unfoldable pub mark_inflight : OutboundChunks → ChunkWriteLease → OutboundChunks × Bool
mark_inflight s lease = mark_at s lease (get s.chunk_index lease.chunk_id)

-- A slot that was written to or in flight on the callis becomes ready for replay.
unfoldable pub replay_one : ℕ → OutboundSlot → OutboundSlot
replay_one callis_id (writing chunk_id bytes peer_msg_id slot_callis_id is_last seq) =
    if slot_callis_id == callis_id
    then replay_ready chunk_id bytes callis_id is_last seq
    else writing chunk_id bytes peer_msg_id slot_callis_id is_last seq
replay_one callis_id (in_flight chunk_id bytes peer_msg_id slot_callis_id is_last seq) =
    if slot_callis_id == callis_id
    then replay_ready chunk_id bytes callis_id is_last seq
    else in_flight chunk_id bytes peer_msg_id slot_callis_id is_last seq
replay_one callis_id slot = slot

-- What the loop of `mark_callis_replay_ready` changes beside the slots.
pub record Booking : Type 0 where
  pub ack_map : Map ℕ
  pub inflight : ℕ
  pub changed : Bool

unfoldable pub unbook : ℕ → OutboundSlot → Booking → Booking
unbook callis_id (writing _ _ _ slot_callis_id _ _) b =
    if slot_callis_id == callis_id then record b { changed = true } else b
unbook callis_id (in_flight _ _ peer_msg_id slot_callis_id _ _) b =
    if slot_callis_id == callis_id
    then record {
      ack_map = remove b.ack_map peer_msg_id;
      inflight = b.inflight - 1;
      changed = true;
    }
    else b
unbook callis_id slot b = b

-- The loop, slot after slot.
unfoldable pub unbook_all : ℕ → List OutboundSlot → Booking → Booking
unbook_all callis_id [] b = b
unbook_all callis_id (slot ∷ slots) b = unbook_all callis_id slots (unbook callis_id slot b)

unfoldable pub mark_callis_replay_ready : OutboundChunks → ℕ → OutboundChunks × Bool
mark_callis_replay_ready s callis_id =
    let b =
      unbook_all callis_id s.slots
        (record { ack_map = s.ack_map; inflight = s.inflight; changed = false }) in
    (
      record s {
        slots = map (replay_one callis_id) s.slots;
        ack_map = b.ack_map;
        inflight = b.inflight;
      },
      b.changed,
    )

abbrev pub is_in_flight : OutboundSlot → Bool
is_in_flight (in_flight _ _ _ _ _ _) = true
is_in_flight _ = false

abbrev pub free_slot : OutboundChunks → ℕ → Option OutboundSlot → OutboundChunks × Bool
free_slot s index none = (s, false)
free_slot s index (some slot) = (
  record s {
    slots = set s.slots index empty;
    inflight = if is_in_flight slot then s.inflight - 1 else s.inflight;
  },
  true,
)

abbrev pub complete_at : OutboundChunks → Option ℕ → OutboundChunks × Bool
complete_at s none = (s, false)
complete_at s (some index) = free_slot s index (get_elem? s.slots index)

abbrev pub complete_chunk : OutboundChunks → Option ℕ → OutboundChunks × Bool
complete_chunk s none = (s, false)
complete_chunk s (some chunk_id) =
    complete_at (record s { chunk_index = remove s.chunk_index chunk_id })
      (get s.chunk_index chunk_id)

-- Both kinds of completion free the slot.
unfoldable pub note_completion : OutboundChunks → ℕ → ChunkCompletion → OutboundChunks × Bool
note_completion s peer_msg_id ack =
    complete_chunk (record s { ack_map = remove s.ack_map peer_msg_id }) (get s.ack_map peer_msg_id)
note_completion s peer_msg_id error =
    complete_chunk (record s { ack_map = remove s.ack_map peer_msg_id }) (get s.ack_map peer_msg_id)

abbrev pub is_replay_ready : OutboundSlot → Bool
is_replay_ready (replay_ready _ _ _ _ _) = true
is_replay_ready _ = false

abbrev pub is_ready : OutboundSlot → Bool
is_ready (ready _ _ _ _) = true
is_ready _ = false

unfoldable pub any_slot : (OutboundSlot → Bool) → List OutboundSlot → Bool
any_slot test [] = false
any_slot test (slot ∷ slots) = test slot || any_slot test slots

unfoldable pub has_replay_ready : OutboundChunks → Bool
has_replay_ready s = any_slot is_replay_ready s.slots

unfoldable pub has_fresh_ready : OutboundChunks → Bool
has_fresh_ready s = any_slot is_ready s.slots

unfoldable pub is_drained : OutboundChunks → Bool
is_drained s = live_chunk_count s == 0 && is_none s.pending_full
