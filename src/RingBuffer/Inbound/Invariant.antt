-- ===== src/RingBuffer/Inbound/Invariant.antt =====
-- What holds of the inbound window between operations.
use aurelia.Prelude.{
  ℕ, suc, ◌+◌, ◌≤◌, ◌<◌, ◌≡◌, sym, subst, ◌⊎◌, inl, inr, Bool, true, false, Option, none, some,
  List, arith, ◌==◌, if◌then◌else◌, ==_iff, Bool-cases, Option-cases, length,
}
use aurelia.Prelude.Words.{u64_max, saturating_add}
use aurelia.Prelude.Maps.{remove, Map, get, insert, contains_key}
use aurelia.Ids.{ok}
use aurelia.RingBuffer.Inbound.{
  has_blocking_gap, note_stored, take_next, advance, store_chunk, with_chunk, insert_chunk,
  InboundState, new,
}
use aurelia.RingBuffer.Inbound.Window.{
  IsWindow, contains-insert, insert-KeysBelow, IsWindow-filled, IsWindow-ahead, take_next-IsWindow,
}
use aurelia.RingBuffer.Inbound.Advance.{advance_stops, advance-MovesOver, KeysBelow, MovesOver}

pub record IsValid (s : InboundState) : Type 0 where
  pub window : IsWindow s.window_size s.next_deliver s.next_expected s.received
  pub last : (l : ℕ) → s.last_chunk_id ≡ some l → l < s.next_expected

pub new-IsValid :
    (chunk_size window_size : ℕ) (s : InboundState) → new chunk_size window_size ≡ ok s → IsValid s
unfolding new get
new-IsValid c w s h = record {
  window = record {
    ordered = ground arith;
    limit = ground arith;
    bounded = ground arith;
    small = λ k p. ground arith;
    above = λ k p. ground arith;
    contiguous = λ k p q. ground arith;
    gap = ground arith;
  };
  last = λ l p. ground arith;
}

-- The guards of `insert_chunk` that a chunk passes to be stored.
pub record IsAdmitted (s : InboundState) (chunk_id : ℕ) (bytes : List ℕ) (is_last : Bool)
    : Type 0 where
  pub fits : length bytes ≤ s.chunk_size
  pub undelivered : s.next_deliver ≤ chunk_id
  pub in_window : chunk_id < saturating_add s.next_expected s.window_size
  pub fresh : contains_key s.received chunk_id ≡ false
  pub room : length s.received < s.window_size
  pub not_early : is_last ≡ true → chunk_id ≤ s.next_expected

-- Either a guard refuses the chunk and nothing changes, or the chunk is stored.
pub insert_chunk-cases :
    (s : InboundState) (chunk_id : ℕ) (bytes : List ℕ) (is_last : Bool)
    → ((insert_chunk s chunk_id bytes is_last).0 ≡ s)
      ⊎ (IsAdmitted s chunk_id bytes is_last
          × (insert_chunk s chunk_id bytes is_last ≡ store_chunk s chunk_id bytes is_last))
unfolding insert_chunk
insert_chunk-cases s chunk_id bytes is_last = ground arith

module _ (s : InboundState) (chunk_id : ℕ) (bytes : List ℕ) {is_last : Bool} (v : IsValid s)
    (g : IsAdmitted s chunk_id bytes is_last) where
  stored_map : Map (List ℕ)
  stored_map = insert s.received chunk_id bytes

  stored-KeysBelow : KeysBelow u64_max stored_map
  unfolding stored_map
  stored-KeysBelow =
      insert-KeysBelow _ _ _ chunk_id s.received bytes v.window g.undelivered g.in_window g.fresh
        g.room

  moved :
      MovesOver stored_map s.next_expected
        (advance (suc (length stored_map)) stored_map s.next_expected)
  moved = advance-MovesOver _ stored_map s.next_expected stored-KeysBelow

  pub with_chunk-IsWindow :
      IsWindow s.window_size s.next_deliver
        (with_chunk s chunk_id bytes).next_expected
        (insert s.received chunk_id bytes)
  unfolding with_chunk stored_map
  with_chunk-IsWindow = elim (Bool-cases (chunk_id == s.next_expected)) [
    | inl same ↦ rw same (
        IsWindow-filled _ _ _ chunk_id s.received bytes v.window g.undelivered g.in_window g.fresh
          g.room ((==_iff chunk_id s.next_expected).0 same) _ moved
          (advance_stops stored_map s.next_expected stored-KeysBelow))
    | inr other ↦ rw other (
        IsWindow-ahead _ _ _ chunk_id s.received bytes v.window g.undelivered g.in_window g.fresh
          g.room (ground arith))
  ]

  pub with_chunk_grows : s.next_expected ≤ (with_chunk s chunk_id bytes).next_expected
  unfolding with_chunk stored_map
  with_chunk_grows = ground (arith, moved.0)

  -- The last chunk is accepted only when it is the one expected.
  last_stored : is_last ≡ true → chunk_id < (with_chunk s chunk_id bytes).next_expected
  unfolding with_chunk
  last_stored h = ground (
    arith,
    v.window.contiguous chunk_id,
    with_chunk-IsWindow.gap,
    with_chunk_grows,
    contains-insert _ _ _ chunk_id s.received bytes v.window
        (with_chunk s chunk_id bytes).next_expected,
  )

  last_kept :
      (l : ℕ)
      → (if is_last then some chunk_id else s.last_chunk_id) ≡ some l
      → l < (with_chunk s chunk_id bytes).next_expected
  last_kept l h = ground (arith, last_stored, with_chunk_grows, v.last l)

  stored-IsValid :
      (last : Option ℕ)
      → ((l : ℕ) → last ≡ some l → l < (with_chunk s chunk_id bytes).next_expected)
      → IsValid (record (with_chunk s chunk_id bytes) { last_chunk_id = last })
  unfolding with_chunk
  stored-IsValid last h = record { window = with_chunk-IsWindow; last = h }

  store_chunk-IsValid : IsValid (store_chunk s chunk_id bytes is_last).0
  unfolding store_chunk note_stored with_chunk
  store_chunk-IsValid = elim (Bool-cases (has_blocking_gap (with_chunk s chunk_id bytes))) [
    | inl blocked ↦ rw blocked (
        unfold with_chunk in
        stored-IsValid s.last_chunk_id λ l h. omega (arith, v.last l h, with_chunk_grows))
    | inr clear ↦ rw clear (stored-IsValid _ last_kept)
  ]

-- insert_chunk keeps the inbound window valid, whatever the chunk and whether or not it is refused:
-- the chunks from the next delivery up to the next expected one are stored, the next expected one
-- is not, no more than the window's size is stored and all of it lies in the window.
pub insert_chunk-IsValid :
    (s : InboundState) (chunk_id : ℕ) (bytes : List ℕ) (is_last : Bool)
    → IsValid s
    → IsValid (insert_chunk s chunk_id bytes is_last).0
insert_chunk-IsValid s chunk_id bytes is_last v =
    elim (insert_chunk-cases s chunk_id bytes is_last) [
      | inl same ↦ subst IsValid (sym same) v
      | inr (g, e) ↦ subst (λ r. IsValid r.0) (sym e) (store_chunk-IsValid s chunk_id bytes v g)
    ]

-- What `take_next` does on a valid window: nothing if the next chunk is missing, and otherwise the next
-- delivery moves up by one, while `next_expected` stays.
pub take_next-cases :
    (s : InboundState)
    → IsValid s
    → ((get s.received s.next_deliver ≡ none) × (take_next s ≡ (s, none)))
      ⊎ ((bytes : List ℕ) × (get s.received s.next_deliver ≡ some bytes)
          × (s.next_deliver < s.next_expected)
          × (take_next s ≡ (
            record s {
              received = remove s.received s.next_deliver;
              next_deliver = s.next_deliver + 1;
            },
            some bytes,
          )))
unfolding take_next
take_next-cases s v = elim (Option-cases (get s.received s.next_deliver)) [
  | inl e ↦ inl (e, ground arith)
  | inr (bytes, e) ↦
      let before : s.next_deliver < s.next_expected =
        ground (arith, v.window.ordered, v.window.gap) in
      inr (bytes, e, before, ground (arith, v.window.limit))
]

-- take_next keeps the inbound window valid.
pub take_next-IsValid : (s : InboundState) → IsValid s → IsValid (take_next s).0
take_next-IsValid s v = elim (take_next-cases s v) [
  | inl (_, same) ↦ subst (λ r. IsValid r.0) (sym same) v
  | inr (bytes, _, before, e) ↦
      subst (λ r. IsValid r.0) (sym e)
        (record { window = take_next-IsWindow _ _ _ s.received v.window before; last = v.last })
]
