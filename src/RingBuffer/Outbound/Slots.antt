-- ===== src/RingBuffer/Outbound/Slots.antt =====
-- The search for an empty slot, and the room that the window has.
use aurelia.Prelude.{
  ℕ, zero, suc, ◌+◌, ◌-◌, ◌%◌, ◌≤◌, ◌<◌, ◌≡◌, refl, sym, ap, ◌∙◌, ◌≢◌, ◌⊎◌, inl, inr, Bool, true,
  false, Option, none, some, List, [], ◌∷◌, arith, ◌==◌, Bool-cases, Option-cases, length,
  get_elem?, set,
}
use native.Mathlib.Nat.{mod-add-mod, add-mod_right, mod-lt, mod-eq_of_lt}
use native.Mathlib.Decide.{dec_lt}
use aurelia.RingBuffer.Outbound.{
  replay_ready, in_flight, writing, OutboundSlot, OutboundChunks, empty, ready, is_empty_slot,
  empty_at, count_live, find_empty, next_empty_slot, place, enqueue_chunk,
}

find_empty-empty :
    (slots : List OutboundSlot) (cursor window rounds offset i : ℕ)
    → find_empty slots cursor window rounds offset ≡ some i
    → empty_at (get_elem? slots i) ≡ true
unfolding find_empty
find_empty-empty slots c w zero o i h = cc
find_empty-empty slots c w (suc rounds) o i h =
    ground (arith, find_empty-empty slots c w rounds (o + 1) i)

-- A search without a find has seen no empty slot at the offsets that it tried.
find_empty-none :
    (slots : List OutboundSlot) (cursor window rounds offset o : ℕ)
    → find_empty slots cursor window rounds offset ≡ none
    → offset ≤ o
    → o < offset + rounds
    → empty_at (get_elem? slots ((cursor + o) % window)) ≡ false
unfolding find_empty
find_empty-none slots c w zero off o h le lt = absurd (omega arith)
find_empty-none slots c w (suc rounds) off o h le lt = elim (Bool-cases (off == o)) [
  | inl here ↦ ground arith
  | inr later ↦
      find_empty-none slots c w rounds (off + 1) o (ground arith) (ground arith) (omega arith)
]

count_live-all :
    (slots : List OutboundSlot)
    → ((i : ℕ) → i < length slots → empty_at (get_elem? slots i) ≡ false)
    → count_live slots ≡ length slots
unfolding count_live
count_live-all [] h = refl
count_live-all (slot ∷ slots) h =
    ground (arith, h 0, count_live-all slots (λ i lt. h (suc i) (omega arith)))

-- Every index is reached from the cursor.
offset_of :
    (cursor window i : ℕ) → i < window → (o : ℕ) × (o < window) × ((cursor + o) % window ≡ i)
offset_of c w i h = elim (dec_lt i (c % w)) [
  | yes p ↦ (
    i + w - c % w,
    omega arith,
    sym (mod-add-mod c w (i + w - c % w))
        ∙ ap (λ n. n % w) (let e : c % w + (i + w - c % w) ≡ i + w = omega (arith, below) in e)
        ∙ add-mod_right i w
        ∙ mod-eq_of_lt h,
  )
  | no p ↦ (
    i - c % w,
    omega arith,
    sym (mod-add-mod c w (i - c % w))
        ∙ ap (λ n. n % w) (let e : c % w + (i - c % w) ≡ i = omega arith in e)
        ∙ mod-eq_of_lt h,
  )
]
  where
    below : c % w < w
    below = mod-lt c (omega arith)

-- A window that is not full of live chunks has an empty slot, and the search finds it.
next_empty_slot-some :
    (s : OutboundChunks)
    → length s.slots ≡ s.window_size
    → count_live s.slots < s.window_size
    → next_empty_slot s ≢ none
unfolding next_empty_slot
next_empty_slot-some s size room e = omega (arith, room, size, count_live-all s.slots all_live)
  where
    all_live : (i : ℕ) → i < length s.slots → empty_at (get_elem? s.slots i) ≡ false
    all_live i lt =
        let (o, small, at) = offset_of s.write_cursor s.window_size i (omega (arith, size)) in
        rw at at (
          find_empty-none s.slots s.write_cursor s.window_size s.window_size 0 o e (omega arith)
            (omega arith))

empty_at-eq : (o : Option OutboundSlot) → empty_at o ≡ true → o ≡ some empty
empty_at-eq none h = cc
empty_at-eq (some empty) h = refl
empty_at-eq (some (ready _ _ _ _)) h = cc
empty_at-eq (some (writing _ _ _ _ _ _)) h = cc
empty_at-eq (some (in_flight _ _ _ _ _ _)) h = cc
empty_at-eq (some (replay_ready _ _ _ _ _)) h = cc

-- With room in the window, `enqueue_chunk` puts the chunk into an empty slot: none is dropped.
pub enqueue_chunk-place :
    (s : OutboundChunks) (chunk : List ℕ) (is_last : Bool)
    → length s.slots ≡ s.window_size
    → count_live s.slots < s.window_size
    → (index : ℕ) × (get_elem? s.slots index ≡ some empty)
      × (enqueue_chunk s chunk is_last ≡ place s chunk is_last index)
unfolding enqueue_chunk
enqueue_chunk-place s chunk is_last size room = elim (Option-cases (next_empty_slot s)) [
  | inl e ↦ absurd (next_empty_slot-some s size room e)
  | inr (index, e) ↦ (
    index,
    empty_at-eq _ (
        find_empty-empty s.slots s.write_cursor s.window_size s.window_size 0 index
          (unfold next_empty_slot in e)),
    rw (e, enqueue_chunk),
  )
]

pub count_live-set :
    (slots : List OutboundSlot) (index : ℕ) (slot : OutboundSlot)
    → get_elem? slots index ≡ some empty
    → is_empty_slot slot ≡ false
    → count_live (set slots index slot) ≡ suc (count_live slots)
unfolding count_live
count_live-set [] index slot e h = cc
count_live-set (x ∷ slots) zero slot e h = ground arith
count_live-set (x ∷ slots) (suc index) slot e h = ground (arith, count_live-set slots index slot)

pub count_live-le : (slots : List OutboundSlot) → count_live slots ≤ length slots
unfolding count_live
count_live-le [] = omega arith
count_live-le (x ∷ slots) = ground (arith, count_live-le slots)

-- `enqueue_chunk` drops the chunk, or puts it into an empty slot.
pub enqueue_chunk-cases :
    (s : OutboundChunks) (chunk : List ℕ) (is_last : Bool)
    → (enqueue_chunk s chunk is_last ≡ s)
      ⊎ ((index : ℕ) × (get_elem? s.slots index ≡ some empty)
          × (enqueue_chunk s chunk is_last ≡ place s chunk is_last index))
unfolding enqueue_chunk
enqueue_chunk-cases s chunk is_last = elim (Option-cases (next_empty_slot s)) [
  | inl e ↦ inl (rw (e, enqueue_chunk) refl)
  | inr (index, e) ↦ inr (
    index,
    empty_at-eq _ (
        find_empty-empty s.slots s.write_cursor s.window_size s.window_size 0 index
          (unfold next_empty_slot in e)),
    rw (e, enqueue_chunk) refl,
  )
]
