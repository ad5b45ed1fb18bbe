-- ===== src/RingBuffer/Outbound/Replay.antt =====
-- `mark_callis_replay_ready`: when a callis fails, the chunks that it carried are sent again on another.
use aurelia.RingBuffer.Outbound.Flight.{mark_inflight-cases}
use aurelia.RingBuffer.Outbound.Lease.{option_eq}
use aurelia.Prelude.{
  ℕ, zero, suc, ◌+◌, ◌≤◌, ◌≡◌, refl, sym, ap, subst, ◌∙◌, ◌≢◌, ◌⊎◌, inl, inr, true, false, Option,
  none, some, List, [], ◌∷◌, map, arith, ◌==◌, Bool-cases, get_elem?, length-map,
}
use aurelia.Prelude.Maps.{get, get-remove}
use aurelia.RingBuffer.Outbound.{
  ChunkWriteLease, OutboundChunks, OutboundSlot, empty, in_flight, ready, writing, replay_ready,
  as_usize,
}
use aurelia.RingBuffer.Outbound.Transfer.{
  mark_inflight, mark_callis_replay_ready, is_in_flight, candidate, Booking, replay_one, unbook,
  unbook_all,
}
use aurelia.RingBuffer.Outbound.Booking.{
  id_of, IsBooked, content, chunk_id_of, awaited_by, count_where,
}

-- The callis that a slot's chunk is written to.
abbrev pub callis_of : OutboundSlot → Option ℕ
callis_of empty = none
callis_of (ready _ _ _ _) = none
callis_of (writing _ _ _ callis_id _ _) = some callis_id
callis_of (in_flight _ _ _ callis_id _ _) = some callis_id
callis_of (replay_ready _ _ _ _ _) = none

replay_one-content : (k : ℕ) (slot : OutboundSlot) → content (replay_one k slot) ≡ content slot
unfolding replay_one
replay_one-content k empty = refl
replay_one-content k (ready _ _ _ _) = refl
replay_one-content k (writing _ _ _ _ _ _) = ground arith
replay_one-content k (in_flight _ _ _ _ _ _) = ground arith
replay_one-content k (replay_ready _ _ _ _ _) = refl

replay_one-leaves : (k : ℕ) (slot : OutboundSlot) → callis_of (replay_one k slot) ≢ some k
unfolding replay_one
replay_one-leaves k empty e = cc
replay_one-leaves k (ready _ _ _ _) e = cc
replay_one-leaves k (writing _ _ _ _ _ _) e = ground arith
replay_one-leaves k (in_flight _ _ _ _ _ _) e = ground arith
replay_one-leaves k (replay_ready _ _ _ _ _) e = cc

-- A slot that the callis carried is to be replayed; the others stay.
pub replay_one-cases :
    (k : ℕ) (slot : OutboundSlot)
    → ((callis_of slot ≡ some k) × (candidate true (replay_one k slot) ≡ chunk_id_of slot))
      ⊎ ((callis_of slot ≢ some k) × (replay_one k slot ≡ slot))
unfolding replay_one
replay_one-cases k empty = inr (λ e. cc, refl)
replay_one-cases k (ready _ _ _ _) = inr (λ e. cc, refl)
replay_one-cases k (writing c bytes m k' last seq) = elim (Bool-cases (k' == k)) [
  | inl same ↦ inl (ground arith, rw same refl)
  | inr other ↦ inr (λ e. ground arith, rw other refl)
]
replay_one-cases k (in_flight c bytes m k' last seq) = elim (Bool-cases (k' == k)) [
  | inl same ↦ inl (ground arith, rw same refl)
  | inr other ↦ inr (λ e. ground arith, rw other refl)
]
replay_one-cases k (replay_ready _ _ _ _ _) = inr (λ e. cc, refl)

pub elem_map :
    (f : OutboundSlot → OutboundSlot) (xs : List OutboundSlot) (i : ℕ) (x : OutboundSlot)
    → get_elem? (map f xs) i ≡ some x
    → (y : OutboundSlot) × (get_elem? xs i ≡ some y) × (x ≡ f y)
elem_map f [] i x h = cc
elem_map f (y ∷ xs) zero x h = (y, refl, ground arith)
elem_map f (y ∷ xs) (suc i) x h = elem_map f xs i x h

map_elem :
    (f : OutboundSlot → OutboundSlot) (xs : List OutboundSlot) (i : ℕ) (y : OutboundSlot)
    → get_elem? xs i ≡ some y
    → get_elem? (map f xs) i ≡ some (f y)
map_elem f [] i y h = cc
map_elem f (x ∷ xs) zero y h = ground arith
map_elem f (x ∷ xs) (suc i) y h = map_elem f xs i y h

-- The acknowledgements only become fewer.
unbook-fewer :
    (k : ℕ) (slot : OutboundSlot) (b : Booking) (m c : ℕ)
    → get (unbook k slot b).ack_map m ≡ some c
    → get b.ack_map m ≡ some c
unfolding unbook
unbook-fewer k empty b m c h = h
unbook-fewer k (ready _ _ _ _) b m c h = h
unbook-fewer k (writing _ _ _ _ _ _) b m c h = ground arith
unbook-fewer k (in_flight _ _ m' _ _ _) b m c h = ground (arith, get-remove b.ack_map m' m)
unbook-fewer k (replay_ready _ _ _ _ _) b m c h = h

unbook_all-fewer :
    (k : ℕ) (slots : List OutboundSlot) (b : Booking) (m c : ℕ)
    → get (unbook_all k slots b).ack_map m ≡ some c
    → get b.ack_map m ≡ some c
unfolding unbook_all
unbook_all-fewer k [] b m c h = h
unbook_all-fewer k (slot ∷ slots) b m c h =
    unbook-fewer k slot b m c (unbook_all-fewer k slots (unbook k slot b) m c h)

unbook-drops :
    (k : ℕ) (slot : OutboundSlot) (b : Booking) (m c : ℕ)
    → awaited_by slot ≡ some (c, m)
    → callis_of slot ≡ some k
    → get (unbook k slot b).ack_map m ≡ none
unfolding unbook
unbook-drops k empty b m c h e = cc
unbook-drops k (ready _ _ _ _) b m c h e = cc
unbook-drops k (writing _ _ _ _ _ _) b m c h e = cc
unbook-drops k (in_flight _ _ m' _ _ _) b m c h e = ground (arith, get-remove b.ack_map m' m)
unbook-drops k (replay_ready _ _ _ _ _) b m c h e = cc

-- No acknowledgement is expected for a chunk that the callis carried.
unbook_all-drops :
    (k : ℕ) (slots : List OutboundSlot) (b : Booking) (i : ℕ) (slot : OutboundSlot) (m c d : ℕ)
    → get_elem? slots i ≡ some slot
    → awaited_by slot ≡ some (c, m)
    → callis_of slot ≡ some k
    → get (unbook_all k slots b).ack_map m ≢ some d
unfolding unbook_all
unbook_all-drops k [] b i slot m c d at a on e = cc
unbook_all-drops k (x ∷ slots) b zero slot m c d at a on e =
    let same : x ≡ slot = option_eq at in
    let kept : get (unbook k slot b).ack_map m ≡ some d =
      unbook_all-fewer k slots (unbook k slot b) m d
        (subst (λ y. get (unbook_all k slots (unbook k y b)).ack_map m ≡ some d) same e) in
    ground (arith, unbook-drops k slot b m c a on, kept)
unbook_all-drops k (x ∷ slots) b (suc i) slot m c d at a on e =
    unbook_all-drops k slots (unbook k x b) i slot m c d at a on e

unbook-count :
    (k : ℕ) (slot : OutboundSlot) (b : Booking)
    → as_usize (is_in_flight slot) ≤ b.inflight
    → (unbook k slot b).inflight + as_usize (is_in_flight slot)
      ≡ b.inflight + as_usize (is_in_flight (replay_one k slot))
unfolding unbook replay_one
unbook-count k empty b h = refl
unbook-count k (ready _ _ _ _) b h = refl
unbook-count k (writing _ _ _ _ _ _) b h = ground arith
unbook-count k (in_flight _ _ _ _ _ _) b h = ground arith
unbook-count k (replay_ready _ _ _ _ _) b h = refl

unbook_all-count :
    (k : ℕ) (slots : List OutboundSlot) (b : Booking)
    → count_where is_in_flight slots ≤ b.inflight
    → (unbook_all k slots b).inflight + count_where is_in_flight slots
      ≡ b.inflight + count_where is_in_flight (map (replay_one k) slots)
unfolding unbook_all count_where
unbook_all-count k [] b h = refl
unbook_all-count k (slot ∷ slots) b h =
    let here : (unbook k slot b).inflight + as_usize (is_in_flight slot)
        ≡ b.inflight + as_usize (is_in_flight (replay_one k slot)) =
      unbook-count k slot b (omega arith) in
    omega (arith, h, here, unbook_all-count k slots (unbook k slot b) (omega (arith, h, here)))

-- The books are kept when a callis fails.
pub mark_callis_replay_ready-IsBooked :
    (s : OutboundChunks) (callis_id : ℕ)
    → IsBooked s
    → IsBooked (mark_callis_replay_ready s callis_id).0
unfolding mark_callis_replay_ready
mark_callis_replay_ready-IsBooked s k b = record {
  small = omega (arith, length-map (replay_one k) s.slots, b.small);
  indexed = λ i x c at id.
      let (y, at_y, e) = elem_map (replay_one k) s.slots i x at in
      b.indexed i y c at_y (ap id_of (sym (replay_one-content k y)) ∙ ap chunk_id_of (sym e) ∙ id);
  known = λ c i h.
      let (y, at, id) = b.known c i h in
      (
        replay_one k y,
        map_elem (replay_one k) s.slots i y at,
        ap id_of (replay_one-content k y) ∙ id,
      );
  awaited = λ m c h.
      let (i, y, at, a) = b.awaited m c (unbook_all-fewer k s.slots start m c h) in
      elim (replay_one-cases k y) [
        | inl (on, _) ↦ absurd (unbook_all-drops k s.slots start i y m c c at a on h)
        | inr (off, same) ↦
            (i, replay_one k y, map_elem (replay_one k) s.slots i y at, ap awaited_by same ∙ a)
      ];
  counted = omega (arith, b.counted, unbook_all-count k s.slots start (omega (arith, b.counted)));
}
  where
    start : Booking
    start = record { ack_map = s.ack_map; inflight = s.inflight; changed = false }

-- When a callis fails, every slot keeps its content, none is left to that callis, each chunk that
-- it carried can be leased for replay under its own identifier, and every other slot is as before.
pub mark_callis_replay_ready-all :
    (s : OutboundChunks) (callis_id i : ℕ) (slot : OutboundSlot)
    → get_elem? s.slots i ≡ some slot
    → (after : OutboundSlot) × (get_elem? (mark_callis_replay_ready s callis_id).0.slots i
        ≡ some after)
      × (content after ≡ content slot)
      × (callis_of after ≢ some callis_id)
      × (((callis_of slot ≡ some callis_id) × (candidate true after ≡ chunk_id_of slot))
          ⊎ ((callis_of slot ≢ some callis_id) × (after ≡ slot)))
unfolding mark_callis_replay_ready
mark_callis_replay_ready-all s k i slot at = (
  replay_one k slot,
  map_elem (replay_one k) s.slots i slot at,
  replay_one-content k slot,
  replay_one-leaves k slot,
  replay_one-cases k slot,
)

-- A lease of a callis that has failed since is refused by mark_inflight, which then changes
-- nothing.
pub mark_inflight_stale :
    (s : OutboundChunks) (lease : ChunkWriteLease)
    → let t = (mark_callis_replay_ready s lease.callis_id).0 in mark_inflight t lease ≡ (t, false)
unfolding mark_callis_replay_ready
mark_inflight_stale s lease =
    elim (mark_inflight-cases (mark_callis_replay_ready s lease.callis_id).0 lease) [
      | inl e ↦ e
      | inr (i, bytes, _, at, _) ↦
          let (y, _, e) = elem_map (replay_one lease.callis_id) s.slots i _ at in
          absurd (replay_one-leaves lease.callis_id y (ap callis_of (sym e)))
    ]
