-- ===== src/RingBuffer/Outbound.antt =====
-- crates/peering/src/ring_buffer/outbound/chunks.rs: the window of chunks to send. Bytes are split off a
-- write buffer in chunks; the newest full chunk is held back until it is known not to be the last.
pub mod Transfer
pub mod Slots
pub mod Emission
pub mod Push
pub mod Accept
pub mod Finalize
pub mod Booking
pub mod Restage
pub mod Complete
pub mod Awaiting
pub mod Lease
pub mod Flight
pub mod Replay
pub mod Steps
mod Examples
use aurelia.Prelude.{
  ℕ, zero, suc, ◌+◌, ◌-◌, ◌%◌, min, Bool, true, false, not, ◌||◌, Option, none, some, List, [], ◌∷◌,
  ◌++◌, ltb, leb, if◌then◌else◌, is_some, length, is_empty, get_elem?, set, take, drop, replicate,
}
use aurelia.Prelude.Words.{saturating_add}
use aurelia.Prelude.Maps.{Map, get, insert, remove}

pub data OutboundSlot : Type 0 where
  empty : OutboundSlot
  -- chunk_id, data, is_last, seq
  ready : ℕ → List ℕ → Bool → ℕ → OutboundSlot
  -- chunk_id, data, peer_msg_id, callis_id, is_last, seq
  writing : ℕ → List ℕ → ℕ → ℕ → Bool → ℕ → OutboundSlot
  in_flight : ℕ → List ℕ → ℕ → ℕ → Bool → ℕ → OutboundSlot
  -- chunk_id, data, previous_callis_id, is_last, seq
  replay_ready : ℕ → List ℕ → ℕ → Bool → ℕ → OutboundSlot

pub record OutboundChunks : Type 0 where
  pub chunk_size : ℕ
  pub window_size : ℕ
  pub next_chunk_id : ℕ
  pub write_cursor : ℕ
  pub write_buf : List ℕ
  pub pending_full : Option (List ℕ)
  pub slots : List OutboundSlot
  pub chunk_index : Map ℕ
  pub ack_map : Map ℕ
  pub inflight : ℕ
  pub created_any : Bool

pub record ChunkWriteLease : Type 0 where
  pub chunk_id : ℕ
  pub bytes : List ℕ
  pub is_last : Bool
  pub peer_msg_id : ℕ
  pub callis_id : ℕ
  pub slot_seq : ℕ

pub data FinalizeDecision : Type 0 where
  wait_for_capacity : FinalizeDecision
  finalized : Bool → FinalizeDecision

pub data ChunkCompletion : Type 0 where
  ack error : ChunkCompletion

unfoldable pub new : ℕ → ℕ → OutboundChunks
new chunk_size window_size = record {
  chunk_size = chunk_size;
  window_size = window_size;
  next_chunk_id = 0;
  write_cursor = 0;
  write_buf = [];
  pending_full = none;
  slots = replicate window_size empty;
  chunk_index = [];
  ack_map = [];
  inflight = 0;
  created_any = false;
}

abbrev pub is_empty_slot : OutboundSlot → Bool
is_empty_slot empty = true
is_empty_slot (ready _ _ _ _) = false
is_empty_slot (writing _ _ _ _ _ _) = false
is_empty_slot (in_flight _ _ _ _ _ _) = false
is_empty_slot (replay_ready _ _ _ _ _) = false

unfoldable pub count_live : List OutboundSlot → ℕ
count_live [] = 0
count_live (slot ∷ slots) = if is_empty_slot slot then count_live slots else suc (count_live slots)

unfoldable pub live_chunk_count : OutboundChunks → ℕ
live_chunk_count s = count_live s.slots

abbrev pub as_usize : Bool → ℕ
as_usize true = 1
as_usize false = 0

unfoldable pub has_window_capacity_for : OutboundChunks → ℕ → Bool
unfolding live_chunk_count
has_window_capacity_for s count =
    leb (live_chunk_count s + as_usize (is_some s.pending_full) + count) s.window_size

abbrev pub empty_at : Option OutboundSlot → Bool
empty_at none = false
empty_at (some slot) = is_empty_slot slot

-- `for offset in 0..window_size`, with the number of rounds left.
unfoldable pub find_empty : List OutboundSlot → ℕ → ℕ → ℕ → ℕ → Option ℕ
find_empty slots cursor window zero offset = none
find_empty slots cursor window (suc rounds) offset =
    let index = (cursor + offset) % window in
    let rest = find_empty slots cursor window rounds (offset + 1) in
    if empty_at (get_elem? slots index) then some index else rest

unfoldable pub next_empty_slot : OutboundChunks → Option ℕ
next_empty_slot s = find_empty s.slots s.write_cursor s.window_size s.window_size 0

-- The rest of `enqueue_chunk`, once a slot is found.
unfoldable pub place : OutboundChunks → List ℕ → Bool → ℕ → OutboundChunks
place s chunk is_last index = record s {
  next_chunk_id = saturating_add s.next_chunk_id 1;
  created_any = true;
  slots = set s.slots index (ready s.next_chunk_id chunk is_last 0);
  chunk_index = insert s.chunk_index s.next_chunk_id index;
  write_cursor = (index + 1) % s.window_size;
}

-- With no empty slot the chunk is dropped.
unfoldable pub enqueue_chunk : OutboundChunks → List ℕ → Bool → OutboundChunks
enqueue_chunk s chunk is_last = elim (next_empty_slot s) [
  | none ↦ s
  | some index ↦ place s chunk is_last index
]

-- The bytes of a push that are not accepted yet, beside the buffers and the two results.
pub record PushState : Type 0 where
  pub chunks : OutboundChunks
  pub rest : List ℕ
  pub accepted : ℕ
  pub notify_waiters : Bool

-- Fill the write buffer up to one chunk.
unfoldable pub fill : PushState → PushState
fill p =
    let take_len : ℕ = min (length p.rest) (p.chunks.chunk_size - length p.chunks.write_buf) in
    record p {
      chunks = record p.chunks { write_buf = p.chunks.write_buf ++ take take_len p.rest };
      rest = drop take_len p.rest;
      accepted = p.accepted + take_len;
    }

-- A round of the loop up to its `break`: a chunk is split off the buffer and becomes the pending one;
-- the chunk that was pending, if any, is enqueued.
unfoldable pub split_with : PushState → Option (List ℕ) → PushState
split_with p none =
    let s = p.chunks in
    record p {
      chunks = record s {
        write_buf = drop s.chunk_size s.write_buf;
        created_any = true;
        pending_full = some (take s.chunk_size s.write_buf);
      };
    }
split_with p (some pending) =
    let s = p.chunks in
    let taken = record s {
      write_buf = drop s.chunk_size s.write_buf;
      created_any = true;
      pending_full = none;
    } in
    record p {
      chunks = record (enqueue_chunk taken pending false) {
        pending_full = some (take s.chunk_size s.write_buf);
      };
      notify_waiters = true;
    }

unfoldable pub split_chunk : PushState → PushState
unfolding split_with
split_chunk p = split_with p p.chunks.pending_full

-- `while self.write_buf.len() >= self.chunk_size`, with fuel; `none` means that the fuel ran out.
unfoldable pub push_loop : ℕ → PushState → Option PushState
push_loop zero p = none
push_loop (suc fuel) p =
    let more = push_loop fuel (fill (split_chunk p)) in
    if ltb (length p.chunks.write_buf) p.chunks.chunk_size
    then some p
    else if not (has_window_capacity_for p.chunks 1)
    then some p
    else if is_empty p.rest
    then some (split_chunk p)
    else more

-- `if self.pending_full.is_some() && !self.write_buf.is_empty()`
unfoldable pub flush_with : PushState → Option (List ℕ) → PushState
flush_with p none = p
flush_with p (some pending) = if is_empty p.chunks.write_buf then p else record p {
  chunks = enqueue_chunk (record p.chunks { pending_full = none }) pending false;
  notify_waiters = true;
}

unfoldable pub flush_pending : PushState → PushState
unfolding flush_with
flush_pending p = flush_with p p.chunks.pending_full

abbrev pub push_fuel : OutboundChunks → List ℕ → ℕ
push_fuel s bytes = length s.write_buf + length bytes + 1

abbrev pub start_push : OutboundChunks → List ℕ → PushState
start_push s bytes = record { chunks = s; rest = bytes; accepted = 0; notify_waiters = false }

abbrev pub finish : Option PushState → Option PushState
finish none = none
finish (some p) = some (flush_pending p)

unfoldable pub push_available : OutboundChunks → List ℕ → Option PushState
push_available s bytes = finish (push_loop (push_fuel s bytes) (fill (start_push s bytes)))

unfoldable pub can_accept_bytes : OutboundChunks → Bool
can_accept_bytes s = ltb (length s.write_buf) s.chunk_size || has_window_capacity_for s 1
