-- ===== src/RingBuffer/Outbound/Flight.antt =====
-- A lease, and `mark_inflight` once the chunk is written: the books are kept, and a stale lease is refused.
use aurelia.Prelude.{
  ℕ, ◌≡◌, refl, sym, ap, subst, ◌∙◌, ◌⊎◌, inl, inr, Bool, true, false, ◌&&◌, none, some, List,
  arith, ◌==◌, Bool-cases, Option-cases, get_elem?, set,
}
use aurelia.Prelude.Maps.{get, insert, get-insert}
use aurelia.Prelude.Words.{saturating_add}
use aurelia.RingBuffer.Outbound.{
  OutboundChunks, OutboundSlot, ChunkWriteLease, empty, in_flight, ready, writing, replay_ready,
  as_usize,
}
use aurelia.RingBuffer.Outbound.Transfer.{
  is_in_flight, candidate, lease_next_chunk_for_write, mark_inflight, start_flight, bool_eq,
}
use aurelia.RingBuffer.Outbound.Booking.{awaited_by, IsBooked, count_where-le}
use aurelia.RingBuffer.Outbound.Restage.{stage-IsBooked}
use aurelia.RingBuffer.Outbound.Lease.{lease_next_chunk_for_write-cases}

candidate-awaited_by :
    (replay : Bool) (slot : OutboundSlot) (c : ℕ)
    → candidate replay slot ≡ some c
    → (awaited_by slot ≡ none) × (is_in_flight slot ≡ false)
candidate-awaited_by false empty c h = cc
candidate-awaited_by true empty c h = cc
candidate-awaited_by replay (ready _ _ _ _) c h = (refl, refl)
candidate-awaited_by replay (writing _ _ _ _ _ _) c h = (refl, refl)
candidate-awaited_by false (in_flight _ _ _ _ _ _) c h = cc
candidate-awaited_by true (in_flight _ _ _ _ _ _) c h = cc
candidate-awaited_by replay (replay_ready _ _ _ _ _) c h = (refl, refl)

pub lease_next_chunk_for_write-IsBooked :
    (s : OutboundChunks) (callis_id peer_msg_id : ℕ)
    → IsBooked s
    → IsBooked (lease_next_chunk_for_write s callis_id peer_msg_id).0
lease_next_chunk_for_write-IsBooked s k m b = elim (lease_next_chunk_for_write-cases s k m) [
  | inl (_, _, e) ↦ subst (λ r. IsBooked r.0) (sym e) b
  | inr (replay, i, c, low, _, leased) ↦
      let (no_await, no_flight) = candidate-awaited_by replay low.slot c low.has in
      subst (λ r. IsBooked r.0) (sym leased.result)
        (stage-IsBooked s i s.inflight low.slot _ s.ack_map b low.at (sym leased.holds)
          (λ m' c' h. inr (h, λ a. ground (arith, a, no_await)))
          (omega (arith, ap as_usize no_flight)))
]

-- The state after the write of a leased chunk.
abbrev pub flown : OutboundChunks → ChunkWriteLease → ℕ → List ℕ → OutboundChunks
flown s lease i bytes = record s {
  slots = set s.slots i (
      in_flight lease.chunk_id bytes lease.peer_msg_id lease.callis_id lease.is_last
        lease.slot_seq);
  ack_map = insert s.ack_map lease.peer_msg_id lease.chunk_id;
  inflight = saturating_add s.inflight 1;
}

-- The stage of a slot that a lease has left.
abbrev pub written : ChunkWriteLease → List ℕ → OutboundSlot
written lease bytes =
    writing lease.chunk_id bytes lease.peer_msg_id lease.callis_id lease.is_last lease.slot_seq

bool_eq-eq : (a b : Bool) → bool_eq a b ≡ true → a ≡ b
bool_eq-eq true b h = ground arith
bool_eq-eq false b h = ground arith

-- The five tests that a lease is still the slot's own.
same_lease :
    (lease : ChunkWriteLease) (c m k seq : ℕ) (last : Bool)
    → (c == lease.chunk_id
        && (m == lease.peer_msg_id
            && (k == lease.callis_id && (seq == lease.slot_seq && bool_eq last lease.is_last))))
      ≡ true
    → (c ≡ lease.chunk_id)
      × (m ≡ lease.peer_msg_id)
      × (k ≡ lease.callis_id)
      × (seq ≡ lease.slot_seq)
      × (last ≡ lease.is_last)
same_lease lease c m k seq last h = (
  ground arith,
  ground arith,
  ground arith,
  ground arith,
  ground (arith, bool_eq-eq last lease.is_last),
)

start_flight-cases :
    (s : OutboundChunks) (lease : ChunkWriteLease) (i : ℕ) (slot : OutboundSlot)
    → (start_flight s lease i (some slot) ≡ (s, false))
      ⊎ ((bytes : List ℕ) × (slot ≡ written lease bytes)
          × (start_flight s lease i (some slot) ≡ (flown s lease i bytes, true)))
start_flight-cases s lease i empty = inl refl
start_flight-cases s lease i (ready _ _ _ _) = inl refl
start_flight-cases s lease i (writing c bytes m k last seq) =
    elim (Bool-cases (
      c == lease.chunk_id
      && (m == lease.peer_msg_id
          && (k == lease.callis_id && (seq == lease.slot_seq && bool_eq last lease.is_last))))) [
            | inr differs ↦ inl (rw differs refl)
            | inl same ↦
                let (ec, em, ek, es, el) = same_lease lease c m k seq last same in
                inr (bytes, rw (ec, em, ek, es, el) refl, rw same (rw (ec, es, el) refl))
          ]
start_flight-cases s lease i (in_flight _ _ _ _ _ _) = inl refl
start_flight-cases s lease i (replay_ready _ _ _ _ _) = inl refl

-- `mark_inflight` either refuses the lease, or finds the slot still in the stage that the lease left.
pub mark_inflight-cases :
    (s : OutboundChunks) (lease : ChunkWriteLease)
    → (mark_inflight s lease ≡ (s, false))
      ⊎ ((i : ℕ) × (bytes : List ℕ) × (get s.chunk_index lease.chunk_id ≡ some i)
          × (get_elem? s.slots i ≡ some (written lease bytes))
          × (mark_inflight s lease ≡ (flown s lease i bytes, true)))
unfolding mark_inflight
mark_inflight-cases s lease = elim (Option-cases (get s.chunk_index lease.chunk_id)) [
  | inl e ↦ inl (rw (e, mark_inflight) refl)
  | inr (i, e) ↦ elim (Option-cases (get_elem? s.slots i)) [
    | inl h ↦ inl (rw (e, h) refl)
    | inr (slot, h) ↦ elim (start_flight-cases s lease i slot) [
      | inl d ↦ inl (rw (e, h) d)
      | inr (bytes, same, d) ↦ inr (i, bytes, e, h ∙ ap some same, rw (e, h) d)
    ]
  ]
]

pub mark_inflight-IsBooked :
    (s : OutboundChunks) (lease : ChunkWriteLease) → IsBooked s → IsBooked (mark_inflight s lease).0
mark_inflight-IsBooked s lease b = elim (mark_inflight-cases s lease) [
  | inl e ↦ subst (λ r. IsBooked r.0) (sym e) b
  | inr (i, bytes, e, at, d) ↦
      subst (λ r. IsBooked r.0) (sym d)
        (stage-IsBooked s i _ (written lease bytes) _ _ b at refl
          (λ m c h. elim (Bool-cases (lease.peer_msg_id == m)) [
            | inl mine ↦
                inl
                  (ground (arith, get-insert s.ack_map lease.peer_msg_id lease.chunk_id m, h, mine))
            | inr other ↦ inr (
              ground (arith, get-insert s.ack_map lease.peer_msg_id lease.chunk_id m, h, other),
              λ a. ground arith,
            )
          ])
          (omega (arith, b.counted, b.small, count_where-le is_in_flight s.slots)))
]
