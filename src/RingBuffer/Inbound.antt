-- ===== src/RingBuffer/Inbound.antt =====
-- crates/peering/src/ring_buffer/inbound.rs: the window of received chunks. Each operation runs under
-- the buffer's mutex, so it is a function on the state; `notify_waiters` wakes tasks that look at the
-- state again and is not modelled. Chunk data is a list of bytes.
pub mod Advance
pub mod Window
pub mod Invariant
pub mod Delivery
pub mod Repeats
mod Examples
use aurelia.Prelude.{
  ℕ, zero, suc, Bool, false, not, ◌&&◌, ◌||◌, Option, none, some, List, [], ◌∷◌, ltb, leb, ◌==◌,
  if◌then◌else◌, length,
}
use aurelia.Prelude.Words.{saturating_add}
use aurelia.Prelude.Maps.{Map, get, insert, remove, contains_key}
use aurelia.Ids.{
  ErrorId, Result, ok, err, protocol_violation, blob_ack_window_exceeded, blob_buffer_full,
  blob_stream_missing_chunk,
}

pub data InboundInsertOutcome : Type 0 where
  duplicate : InboundInsertOutcome
  -- complete, wait_for_space
  stored : Bool → Bool → InboundInsertOutcome

pub record InboundState : Type 0 where
  pub chunk_size : ℕ
  pub window_size : ℕ
  pub next_expected : ℕ
  pub next_deliver : ℕ
  pub last_chunk_id : Option ℕ
  pub received : Map (List ℕ)

unfoldable pub new : ℕ → ℕ → Result InboundState
new chunk_size window_size =
    if chunk_size == 0 || window_size == 0
    then err protocol_violation
    else ok (record {
      chunk_size = chunk_size;
      window_size = window_size;
      next_expected = 0;
      next_deliver = 0;
      last_chunk_id = none;
      received = [];
    })

-- `while received.contains_key(&next_expected) { next_expected = next_expected.saturating_add(1); }`
unfoldable pub advance : ℕ → Map (List ℕ) → ℕ → ℕ
advance zero received expected = expected
advance (suc fuel) received expected =
    let further = advance fuel received (saturating_add expected 1) in
    if contains_key received expected then further else expected

-- A round for each stored chunk is enough, by `advance_stops`.
unfoldable pub after_insert : InboundState → ℕ → ℕ
after_insert s chunk_id =
    if chunk_id == s.next_expected
    then advance (suc (length s.received)) s.received s.next_expected
    else s.next_expected

-- `received.keys().any(|&chunk_id| chunk_id > next_expected)`
unfoldable pub any_above : Map (List ℕ) → ℕ → Bool
any_above [] expected = false
any_above ((k, v) ∷ m) expected = ltb expected k || any_above m expected

unfoldable pub has_blocking_gap : InboundState → Bool
unfolding any_above
has_blocking_gap s =
    leb s.window_size (length s.received)
    && (not (contains_key s.received s.next_expected) && any_above s.received s.next_expected)

abbrev pub is_complete_at : ℕ → Option ℕ → Bool
is_complete_at next_expected (some last) = next_expected == saturating_add last 1
is_complete_at next_expected none = false

-- The end of `insert_chunk`, from `if is_last` on.
unfoldable pub note_stored : InboundState → ℕ → Bool → InboundState × Result InboundInsertOutcome
note_stored s chunk_id is_last =
    let last : Option ℕ = if is_last then some chunk_id else s.last_chunk_id in
    (record s { last_chunk_id = last }, ok (stored (is_complete_at s.next_expected last) false))

-- The insertion and the loop after it.
unfoldable pub with_chunk : InboundState → ℕ → List ℕ → InboundState
unfolding after_insert
with_chunk s chunk_id bytes =
    let s1 = record s { received = insert s.received chunk_id bytes } in
    record s1 { next_expected = after_insert s1 chunk_id }

-- From the insertion on: what was stored stays stored on the error path too.
unfoldable pub store_chunk :
    InboundState → ℕ → List ℕ → Bool → InboundState × Result InboundInsertOutcome
store_chunk s chunk_id bytes is_last =
    let s2 = with_chunk s chunk_id bytes in
    if has_blocking_gap s2
    then (s2, err blob_stream_missing_chunk)
    else note_stored s2 chunk_id is_last

unfoldable pub insert_chunk :
    InboundState → ℕ → List ℕ → Bool → InboundState × Result InboundInsertOutcome
insert_chunk s chunk_id bytes is_last =
    if ltb s.chunk_size (length bytes)
    then (s, err protocol_violation)
    else if ltb chunk_id s.next_deliver
    then (s, ok duplicate)
    else if leb (saturating_add s.next_expected s.window_size) chunk_id
    then (s, err blob_ack_window_exceeded)
    else if contains_key s.received chunk_id
    then (s, ok duplicate)
    else if leb s.window_size (length s.received)
    then (s, err blob_buffer_full)
    else if is_last && ltb s.next_expected chunk_id
    then (s, err blob_stream_missing_chunk)
    else store_chunk s chunk_id bytes is_last

abbrev take_found : InboundState → Option (List ℕ) → InboundState × Option (List ℕ)
take_found s none = (s, none)
take_found s (some bytes) =
    let delivered = saturating_add s.next_deliver 1 in
    (
      record s {
        received = remove s.received s.next_deliver;
        next_deliver = delivered;
        next_expected = if ltb s.next_expected delivered then delivered else s.next_expected;
      },
      some bytes,
    )

unfoldable pub take_next : InboundState → InboundState × Option (List ℕ)
take_next s = take_found s (get s.received s.next_deliver)

unfoldable pub is_complete : InboundState → Bool
is_complete s = elim s.last_chunk_id [ some last ↦ ltb last s.next_deliver | none ↦ false ]
