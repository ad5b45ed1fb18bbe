-- ===== src/RingBuffer/Outbound/Restage.antt =====
-- The books are kept when a chunk is placed, when its slot changes its stage, and when it is completed.
use aurelia.Prelude.{
  ℕ, zero, suc, ◌+◌, ◌<◌, ◌≡◌, refl, sym, ap, ◌∙◌, ◌≢◌, ◌⊎◌, inl, inr, Bool, some, List, [], ◌∷◌,
  arith, ◌==◌, Bool-cases, get_elem?, set, length-set, get_elem?-set_self, get_elem?-set_ne,
  get_elem?-lt,
}
use native.Mathlib.Decide.{ℕ_discrete}
use aurelia.Prelude.Maps.{Map, get, get-insert}
use aurelia.Prelude.Words.{u64_max}
use aurelia.RingBuffer.Outbound.{OutboundChunks, OutboundSlot, empty, ready, place, as_usize}
use aurelia.RingBuffer.Outbound.Transfer.{is_in_flight}
use aurelia.RingBuffer.Outbound.Booking.{
  content, id_of, chunk_id_of, awaited_by, IsBooked, count_where-set,
}

-- The element at `j` after a write at `i`.
pub elem_set :
    (xs : List OutboundSlot) (i j : ℕ) (v y : OutboundSlot)
    → get_elem? (set xs i v) j ≡ some y
    → ((j ≡ i) × (y ≡ v)) ⊎ ((j ≢ i) × (get_elem? xs j ≡ some y))
elem_set [] i j v y h = cc
elem_set (x ∷ xs) zero zero v y h = inl (refl, ground arith)
elem_set (x ∷ xs) zero (suc j) v y h = inr (ground arith, h)
elem_set (x ∷ xs) (suc i) zero v y h = inr (ground arith, h)
elem_set (x ∷ xs) (suc i) (suc j) v y h = elim (elem_set xs i j v y h) [
  | inl (e, d) ↦ inl (ap suc e, d)
  | inr (n, d) ↦ inr (ground arith, d)
]

-- A slot with a different holding is another slot.
pub kept_elsewhere :
    (xs : List OutboundSlot) (i j : ℕ) (old v y : OutboundSlot)
    → get_elem? xs i ≡ some old
    → get_elem? xs j ≡ some y
    → y ≢ old
    → get_elem? (set xs i v) j ≡ some y
kept_elsewhere xs i j old v y at_i at_j ne =
    get_elem?-set_ne xs v (λ e. ne (ground (arith, ap (get_elem? xs) e))) ∙ at_j

pub place-IsBooked :
    (s : OutboundChunks) (bytes : List ℕ) (last : Bool) (index : ℕ)
    → IsBooked s
    → get_elem? s.slots index ≡ some empty
    → s.next_chunk_id < u64_max
    → IsBooked (place s bytes last index)
unfolding place
place-IsBooked s bytes last index b free fresh = record {
  small = omega (arith, length-set s.slots index slot, b.small);
  indexed = λ i x c at id. elim (elem_set s.slots index i slot x at) [
    | inl (e, d) ↦
        ground
          (arith, ap chunk_id_of d, id, e, fresh, get-insert s.chunk_index s.next_chunk_id index c)
    | inr (n, d) ↦
        let (booked, small) = b.indexed i x c d id in
        ground (arith, booked, small, fresh, get-insert s.chunk_index s.next_chunk_id index c)
  ];
  known = λ c i h. elim (Bool-cases (s.next_chunk_id == c)) [
    | inl e ↦
        let here : i ≡ index =
          ground (arith, get-insert s.chunk_index s.next_chunk_id index c, h) in
        (
          slot,
          ap (get_elem? (set s.slots index slot)) here
              ∙ get_elem?-set_self s.slots index slot (get_elem?-lt s.slots index free),
          ground arith,
        )
    | inr n ↦
        let (x, at, id) =
          b.known c i (ground (arith, get-insert s.chunk_index s.next_chunk_id index c, h)) in
        (
          x,
          kept_elsewhere s.slots index i empty slot x free at
              (λ e. ground (arith, ap chunk_id_of e, id)),
          id,
        )
  ];
  awaited = λ m c h.
      let (i, x, at, a) = b.awaited m c h in
      (
        i,
        x,
        kept_elsewhere s.slots index i empty slot x free at
            (λ e. ground (arith, ap awaited_by e, a)),
        a,
      );
  counted = omega (arith, b.counted, count_where-set is_in_flight s.slots index empty slot free);
}
  where
    slot : OutboundSlot
    slot = ready s.next_chunk_id bytes last 0

-- A new stage of the chunk that a slot holds, with the acknowledgement map for it.
pub stage-IsBooked :
    (s : OutboundChunks) (index inflight : ℕ) (old slot : OutboundSlot) (ack_map : Map ℕ)
    → IsBooked s
    → get_elem? s.slots index ≡ some old
    → content slot ≡ content old
    → ((m c : ℕ)
        → get ack_map m ≡ some c
        → (awaited_by slot ≡ some (c, m))
          ⊎ ((get s.ack_map m ≡ some c) × (awaited_by old ≢ some (c, m))))
    → inflight + as_usize (is_in_flight old) ≡ s.inflight + as_usize (is_in_flight slot)
    → IsBooked (record s { slots = set s.slots index slot; ack_map = ack_map; inflight = inflight })
stage-IsBooked s index inflight old slot ack_map b at same acks count = record {
  small = omega (arith, length-set s.slots index slot, b.small);
  indexed = λ i x c at_i id. elim (elem_set s.slots index i slot x at_i) [
    | inl (e, d) ↦
        let (booked, small) =
          b.indexed index old c at (ap id_of (sym same) ∙ ap chunk_id_of (sym d) ∙ id) in
        (booked ∙ ap some (sym e), small)
    | inr (n, d) ↦ b.indexed i x c d id
  ];
  known = λ c i h.
      let (x, at_i, id) = b.known c i h in
      elim (ℕ_discrete i index) [
        | yes e ↦ (
          slot,
          ap (get_elem? (set s.slots index slot)) e
              ∙ get_elem?-set_self s.slots index slot (get_elem?-lt s.slots index at),
          ap id_of same ∙ ground (arith, at, at_i, ap (get_elem? s.slots) e, id),
        )
        | no n ↦ (x, get_elem?-set_ne s.slots slot (λ e. n (sym e)) ∙ at_i, id)
      ];
  awaited = λ m c h. elim (acks m c h) [
    | inl mine ↦
        (index, slot, get_elem?-set_self s.slots index slot (get_elem?-lt s.slots index at), mine)
    | inr (other, ne) ↦
        let (i, x, at_i, a) = b.awaited m c other in
        (
          i,
          x,
          kept_elsewhere s.slots index i old slot x at at_i (λ e. ne (ap awaited_by (sym e) ∙ a)),
          a,
        )
  ];
  counted = omega (arith, count, b.counted, count_where-set is_in_flight s.slots index old slot at);
}
