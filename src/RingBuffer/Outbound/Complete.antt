-- ===== src/RingBuffer/Outbound/Complete.antt =====
-- `note_completion`: an acknowledgement or an error frees the slot of the chunk that its message carried.
use aurelia.Prelude.{
  ℕ, ◌-◌, ◌≡◌, refl, sym, ap, subst, ◌∙◌, ◌⊎◌, inl, inr, true, false, Option, none, some, arith,
  Option-cases, get_elem?, set, length-set,
}
use aurelia.Prelude.Maps.{get, remove, get-remove, remove_missing}
use aurelia.RingBuffer.Outbound.{
  OutboundChunks, OutboundSlot, empty, in_flight, ready, writing, replay_ready, ChunkCompletion,
  ack, error,
}
use aurelia.RingBuffer.Outbound.Transfer.{
  complete_at, free_slot, is_in_flight, note_completion, complete_chunk,
}
use aurelia.RingBuffer.Outbound.Booking.{chunk_id_of, awaited_by, IsBooked, count_where-set}
use aurelia.RingBuffer.Outbound.Restage.{elem_set, kept_elsewhere}

pub awaited_by-in_flight :
    (slot : OutboundSlot) (c m : ℕ)
    → awaited_by slot ≡ some (c, m)
    → (is_in_flight slot ≡ true) × (chunk_id_of slot ≡ some c)
awaited_by-in_flight empty c m h = cc
awaited_by-in_flight (ready _ _ _ _) c m h = cc
awaited_by-in_flight (writing _ _ _ _ _ _) c m h = cc
awaited_by-in_flight (in_flight _ _ _ _ _ _) c m h = (refl, ground arith)
awaited_by-in_flight (replay_ready _ _ _ _ _) c m h = cc

-- The state after the completion of the chunk in a slot.
abbrev pub freed : OutboundChunks → ℕ → ℕ → ℕ → OutboundChunks
freed s peer_msg_id chunk_id index = record s {
  slots = set s.slots index empty;
  chunk_index = remove s.chunk_index chunk_id;
  ack_map = remove s.ack_map peer_msg_id;
  inflight = s.inflight - 1;
}

-- Where the books agree with the slots, a completion for a message with no expected acknowledgement
-- changes nothing; any other finds the slot in flight that awaits this message and frees it, with
-- its entries of both maps and one from the count in flight, and changes nothing else.
pub note_completion-cases :
    (s : OutboundChunks) (m : ℕ) (kind : ChunkCompletion)
    → IsBooked s
    → ((get s.ack_map m ≡ none) × (note_completion s m kind ≡ (s, false)))
      ⊎ ((c : ℕ) × (i : ℕ) × (slot : OutboundSlot) × (get_elem? s.slots i ≡ some slot)
          × (awaited_by slot ≡ some (c, m))
          × (note_completion s m kind ≡ (freed s m c i, true)))
note_completion-cases s m kind b = elim (Option-cases (get s.ack_map m)) [
  | inl e ↦ inl (e, open_kind s m kind ∙ rw (e, remove_missing s.ack_map m e) refl)
  | inr (c, e) ↦
      let (i, slot, at, a) = b.awaited m c e in
      let (flight, id) = awaited_by-in_flight slot c m a in
      let (index, _) = b.indexed i slot c at id in
      inr (c, i, slot, at, a, open_kind s m kind ∙ rw (e, index, at, flight) refl)
]
  where
    open_kind :
        (s : OutboundChunks) (m : ℕ) (kind : ChunkCompletion)
        → note_completion s m kind
          ≡ complete_chunk (record s { ack_map = remove s.ack_map m }) (get s.ack_map m)
    open_kind s m ack = unfold note_completion in refl
    open_kind s m error = unfold note_completion in refl

freed-IsBooked :
    (s : OutboundChunks) (m c i : ℕ) (slot : OutboundSlot)
    → IsBooked s
    → get_elem? s.slots i ≡ some slot
    → awaited_by slot ≡ some (c, m)
    → IsBooked (freed s m c i)
freed-IsBooked s m c i slot b at a =
    let (flight, id) = awaited_by-in_flight slot c m a in
    record {
      small = omega (arith, length-set s.slots i empty, b.small);
      indexed = λ j x c' at_j id'. elim (elem_set s.slots i j empty x at_j) [
        | inl (e, d) ↦ absurd (ground (arith, ap chunk_id_of d, id'))
        | inr (n, d) ↦
            let (mine, _) = b.indexed i slot c at id in
            let (other, lt) = b.indexed j x c' d id' in
            (
              ground (arith, get-remove s.chunk_index c c', mine, other, n, ap (get s.chunk_index)),
              lt,
            )
      ];
      known = λ c' j h.
          let (x, at_j, id') = b.known c' j (ground (arith, get-remove s.chunk_index c c', h)) in
          (
            x,
            kept_elsewhere s.slots i j slot empty x at at_j
                (λ e. ground (arith, get-remove s.chunk_index c c', h, ap chunk_id_of e, id, id')),
            id',
          );
      awaited = λ m' c' h.
          let (j, x, at_j, a') = b.awaited m' c' (ground (arith, get-remove s.ack_map m m', h)) in
          (
            j,
            x,
            kept_elsewhere s.slots i j slot empty x at at_j
                (λ e. ground (arith, get-remove s.ack_map m m', h, ap awaited_by e, a, a')),
            a',
          );
      counted =
          ground (arith, b.counted, flight, count_where-set is_in_flight s.slots i slot empty at);
    }

pub note_completion-IsBooked :
    (s : OutboundChunks) (m : ℕ) (kind : ChunkCompletion)
    → IsBooked s
    → IsBooked (note_completion s m kind).0
note_completion-IsBooked s m kind b = elim (note_completion-cases s m kind b) [
  | inl (_, e) ↦ subst (λ r. IsBooked r.0) (sym e) b
  | inr (c, i, slot, at, a, e) ↦
      subst (λ r. IsBooked r.0) (sym e) (freed-IsBooked s m c i slot b at a)
]

free_slot-next_chunk_id :
    (s : OutboundChunks) (i : ℕ) (o : Option OutboundSlot)
    → (free_slot s i o).0.next_chunk_id ≡ s.next_chunk_id
free_slot-next_chunk_id s i none = refl
free_slot-next_chunk_id s i (some x) = refl

complete_chunk-next_chunk_id :
    (s : OutboundChunks) (o : Option ℕ) → (complete_chunk s o).0.next_chunk_id ≡ s.next_chunk_id
complete_chunk-next_chunk_id s none = refl
complete_chunk-next_chunk_id s (some c) = at (get s.chunk_index c)
  where
    m : OutboundChunks
    m = record s { chunk_index = remove s.chunk_index c }

    at : (o : Option ℕ) → (complete_at m o).0.next_chunk_id ≡ s.next_chunk_id
    at none = refl
    at (some i) = free_slot-next_chunk_id m i (get_elem? s.slots i)

-- A completion makes no identifiers.
pub note_completion-next_chunk_id :
    (s : OutboundChunks) (m : ℕ) (kind : ChunkCompletion)
    → (note_completion s m kind).0.next_chunk_id ≡ s.next_chunk_id
unfolding note_completion
note_completion-next_chunk_id s m ack =
    complete_chunk-next_chunk_id (record s { ack_map = remove s.ack_map m }) (get s.ack_map m)
note_completion-next_chunk_id s m error =
    complete_chunk-next_chunk_id (record s { ack_map = remove s.ack_map m }) (get s.ack_map m)
