-- ===== src/RingBuffer/Outbound/Booking.antt =====
-- The books of the window: the index of chunks, the map of expected acknowledgements and the count of
-- chunks in flight agree with the slots.
use aurelia.Prelude.{
  ℕ, zero, suc, ◌+◌, ◌≤◌, ◌<◌, ◌≡◌, refl, sym, ap, Bool, Option, none, some, List, [], ◌∷◌, arith,
  length, get_elem?, set, replicate, length-replicate,
}
use aurelia.Prelude.Maps.{get, get-nil}
use aurelia.Prelude.Words.{u64_max}
use aurelia.RingBuffer.Outbound.{
  OutboundChunks, OutboundSlot, empty, ready, writing, in_flight, replay_ready, new, as_usize,
}
use aurelia.RingBuffer.Outbound.Transfer.{is_in_flight}

-- What a slot holds, whatever its stage.
abbrev pub content : OutboundSlot → Option (ℕ × List ℕ × Bool)
content empty = none
content (ready chunk_id bytes is_last _) = some (chunk_id, bytes, is_last)
content (writing chunk_id bytes _ _ is_last _) = some (chunk_id, bytes, is_last)
content (in_flight chunk_id bytes _ _ is_last _) = some (chunk_id, bytes, is_last)
content (replay_ready chunk_id bytes _ is_last _) = some (chunk_id, bytes, is_last)

abbrev pub id_of : Option (ℕ × List ℕ × Bool) → Option ℕ
id_of none = none
id_of (some (chunk_id, _, _)) = some chunk_id

abbrev pub chunk_id_of : OutboundSlot → Option ℕ
chunk_id_of slot = id_of (content slot)

-- The message that an acknowledgement of the slot's chunk answers.
abbrev pub awaited_by : OutboundSlot → Option (ℕ × ℕ)
awaited_by (in_flight chunk_id _ peer_msg_id _ _ _) = some (chunk_id, peer_msg_id)
awaited_by _ = none

unfoldable pub count_where : (OutboundSlot → Bool) → List OutboundSlot → ℕ
count_where test [] = 0
count_where test (slot ∷ slots) = as_usize (test slot) + count_where test slots

pub record IsBooked (s : OutboundChunks) : Type 0 where
  pub small : length s.slots < u64_max
  pub indexed :
      (i : ℕ) (slot : OutboundSlot) (c : ℕ)
      → get_elem? s.slots i ≡ some slot
      → chunk_id_of slot ≡ some c
      → (get s.chunk_index c ≡ some i) × (c < s.next_chunk_id)
  pub known :
      (c i : ℕ)
      → get s.chunk_index c ≡ some i
      → (slot : OutboundSlot) × (get_elem? s.slots i ≡ some slot) × (chunk_id_of slot ≡ some c)
  pub awaited :
      (m c : ℕ)
      → get s.ack_map m ≡ some c
      → (i : ℕ) × (slot : OutboundSlot) × (get_elem? s.slots i ≡ some slot)
        × (awaited_by slot ≡ some (c, m))
  pub counted : s.inflight ≡ count_where is_in_flight s.slots

pub count_where-set :
    (test : OutboundSlot → Bool) (slots : List OutboundSlot) (i : ℕ) (old slot : OutboundSlot)
    → get_elem? slots i ≡ some old
    → count_where test (set slots i slot) + as_usize (test old)
      ≡ count_where test slots + as_usize (test slot)
unfolding count_where
count_where-set test [] i old slot h = cc
count_where-set test (x ∷ slots) zero old slot h = ground arith
count_where-set test (x ∷ slots) (suc i) old slot h =
    ground (arith, count_where-set test slots i old slot)

pub count_where-le :
    (test : OutboundSlot → Bool) (slots : List OutboundSlot) → count_where test slots ≤ length slots
unfolding count_where
count_where-le test [] = omega arith
count_where-le test (x ∷ slots) = ground (arith, count_where-le test slots)

pub replicate-elem :
    (n i : ℕ) (slot : OutboundSlot) → get_elem? (replicate n empty) i ≡ some slot → slot ≡ empty
replicate-elem zero i slot h = cc
replicate-elem (suc n) zero slot h = ground arith
replicate-elem (suc n) (suc i) slot h = replicate-elem n i slot h

count_where-replicate : (n : ℕ) → count_where is_in_flight (replicate n empty) ≡ 0
unfolding count_where
count_where-replicate zero = refl
count_where-replicate (suc n) = omega (arith, count_where-replicate n)

pub new-IsBooked :
    (chunk_size window_size : ℕ) → window_size < u64_max → IsBooked (new chunk_size window_size)
unfolding new
new-IsBooked chunk_size window_size h = record {
  small = omega (arith, length-replicate window_size empty);
  indexed = λ i slot c at id.
      absurd (ground (arith, ap chunk_id_of (replicate-elem window_size i slot at)));
  known = λ c i h. absurd (ground (arith, get-nil {V = ℕ} c));
  awaited = λ m c h. absurd (ground (arith, get-nil {V = ℕ} m));
  counted = sym (count_where-replicate window_size);
}
