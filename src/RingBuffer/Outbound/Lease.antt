-- ===== src/RingBuffer/Outbound/Lease.antt =====
-- `lease_next_chunk_for_write` and `mark_inflight`: which chunk goes out, and what its slot becomes.
use aurelia.RingBuffer.Outbound.Booking.{content}
use aurelia.Prelude.{
  ℕ, zero, suc, ◌+◌, ◌≤◌, ◌≡◌, refl, ap, subst, ◌∙◌, ◌⊎◌, inl, inr, Bool, true, false, Option, none,
  some, List, [], ◌∷◌, arith, ltb, Bool-cases, Option-cases, get_elem?, set,
}
use aurelia.RingBuffer.Outbound.{
  saturating_add, empty, replay_ready, in_flight, writing, ChunkWriteLease, OutboundChunks, ready,
  OutboundSlot,
}
use aurelia.RingBuffer.Outbound.Transfer.{
  lease_slot, lease_matching, lease_next_chunk_for_write, candidate, lowest,
}

pub option_eq : {x y : OutboundSlot} → some x ≡ some y → x ≡ y
option_eq e = cc

option_ℕ : {x y : ℕ} → some x ≡ some y → x ≡ y
option_ℕ e = cc

-- No slot holds a chunk to lease.
abbrev pub NoCandidate : Bool → List OutboundSlot → Type 0
NoCandidate replay slots =
    (j : ℕ) (x : OutboundSlot) → get_elem? slots j ≡ some x → candidate replay x ≡ none

-- No chunk to lease has a smaller identifier.
abbrev pub IsBelow : Bool → List OutboundSlot → ℕ → Type 0
IsBelow replay slots c =
    (j : ℕ) (x : OutboundSlot) (d : ℕ)
    → get_elem? slots j ≡ some x
    → candidate replay x ≡ some d
    → c ≤ d

-- The slot at `i` has the chunk `c`, the lowest to lease.
pub record IsLowest (replay : Bool) (slots : List OutboundSlot) (i c : ℕ) : Type 0 where
  pub slot : OutboundSlot
  pub at : get_elem? slots i ≡ some slot
  pub has : candidate replay slot ≡ some c
  pub least : IsBelow replay slots c

module _ (replay : Bool) where
  NoCandidate-cons :
      (x : OutboundSlot) (xs : List OutboundSlot)
      → candidate replay x ≡ none
      → NoCandidate replay xs
      → NoCandidate replay (x ∷ xs)
  NoCandidate-cons x xs e h zero y at = ground (arith, ap (candidate replay) (option_eq at), e)
  NoCandidate-cons x xs e h (suc j) y at = h j y at

  IsBelow-cons :
      (x : OutboundSlot) (xs : List OutboundSlot) (c : ℕ)
      → ((d : ℕ) → candidate replay x ≡ some d → c ≤ d)
      → IsBelow replay xs c
      → IsBelow replay (x ∷ xs) c
  IsBelow-cons x xs c first h zero y d at e = first d (ap (candidate replay) (option_eq at) ∙ e)
  IsBelow-cons x xs c first h (suc j) y d at e = h j y d at e

  IsBelow-none : (xs : List OutboundSlot) (c : ℕ) → NoCandidate replay xs → IsBelow replay xs c
  IsBelow-none xs c h j x d at e = absurd (ground (arith, h j x at, e))

  lowest-cases :
      (slots : List OutboundSlot) (index : ℕ)
      → ((lowest replay slots index ≡ none) × NoCandidate replay slots)
        ⊎ ((i : ℕ) × (c : ℕ) × (lowest replay slots index ≡ some (index + i, c))
            × IsLowest replay slots i c)
  unfolding lowest
  lowest-cases [] index = inl (refl, λ j x h. cc)
  lowest-cases (slot ∷ slots) index = elim (Option-cases (candidate replay slot)) [
    | inl e ↦ elim (lowest-cases slots (index + 1)) [
      | inl (l, no_more) ↦ inl (rw (e, l) refl, NoCandidate-cons slot slots e no_more)
      | inr (i, c, l, low) ↦ inr (
        suc i,
        c,
        rw (e, l) (ap (λ n. some (n, c)) (omega arith)),
        record {
          slot = low.slot;
          at = low.at;
          has = low.has;
          least = IsBelow-cons slot slots c (λ d h. ground (arith, e, h)) low.least;
        },
      )
    ]
    | inr (c, e) ↦ elim (lowest-cases slots (index + 1)) [
      | inl (l, no_more) ↦ inr (
        zero,
        c,
        rw (e, l) (ap (λ n. some (n, c)) (omega arith)),
        record {
          slot = slot;
          at = refl;
          has = e;
          least =
              IsBelow-cons slot slots c (λ d h. ground (arith, e, h))
                (IsBelow-none slots c no_more);
        },
      )
      | inr (i, d, l, low) ↦ elim (Bool-cases (ltb d c)) [
        | inl less ↦ inr (
          suc i,
          d,
          rw (e, l, less) (ap (λ n. some (n, d)) (omega arith)),
          record {
            slot = low.slot;
            at = low.at;
            has = low.has;
            least = IsBelow-cons slot slots d (λ d' h. ground (arith, e, h, less)) low.least;
          },
        )
        | inr more ↦ inr (
          zero,
          c,
          rw (e, l, more) (ap (λ n. some (n, c)) (omega arith)),
          record {
            slot = slot;
            at = refl;
            has = e;
            least =
                IsBelow-cons slot slots c (λ d' h. ground (arith, e, h))
                  (λ j x d' at h. ground (arith, more, low.least j x d' at h));
          },
        )
      ]
    ]
  ]

abbrev pub seq_of : OutboundSlot → ℕ
seq_of empty = 0
seq_of (ready _ _ _ seq) = seq
seq_of (writing _ _ _ _ _ seq) = seq
seq_of (in_flight _ _ _ _ _ seq) = seq
seq_of (replay_ready _ _ _ _ seq) = seq

-- The lease of the slot at `i`: what its writer gets, and the state it leaves.
pub record IsLeased (s : OutboundChunks) (callis_id peer_msg_id i c : ℕ) (slot : OutboundSlot)
    (r : OutboundChunks × Option ChunkWriteLease) : Type 0 where
  pub bytes : List ℕ
  pub is_last : Bool
  pub holds : content slot ≡ some (c, bytes, is_last)
  pub result : r ≡ (
    record s {
      slots =
          set s.slots i
            (writing c bytes peer_msg_id callis_id is_last (saturating_add (seq_of slot) 1));
    },
    some (record {
      chunk_id = c;
      bytes = bytes;
      is_last = is_last;
      peer_msg_id = peer_msg_id;
      callis_id = callis_id;
      slot_seq = saturating_add (seq_of slot) 1;
    }),
  )

lease_slot-IsLeased :
    (replay : Bool) (s : OutboundChunks) (callis_id peer_msg_id i c : ℕ) (slot : OutboundSlot)
    → candidate replay slot ≡ some c
    → IsLeased s callis_id peer_msg_id i c slot (lease_slot s i callis_id peer_msg_id (some slot))
lease_slot-IsLeased false s k m i c empty h = cc
lease_slot-IsLeased true s k m i c empty h = cc
lease_slot-IsLeased false s k m i c (ready c' bytes last seq) h =
    subst
      (λ d.
        IsLeased s k m i d (ready c' bytes last seq)
          (lease_slot s i k m (some (ready c' bytes last seq))))
      (option_ℕ h) (record { bytes = bytes; is_last = last; holds = refl; result = refl })
lease_slot-IsLeased true s k m i c (ready _ _ _ _) h = cc
lease_slot-IsLeased false s k m i c (writing _ _ _ _ _ _) h = cc
lease_slot-IsLeased true s k m i c (writing _ _ _ _ _ _) h = cc
lease_slot-IsLeased false s k m i c (in_flight _ _ _ _ _ _) h = cc
lease_slot-IsLeased true s k m i c (in_flight _ _ _ _ _ _) h = cc
lease_slot-IsLeased false s k m i c (replay_ready _ _ _ _ _) h = cc
lease_slot-IsLeased true s k m i c (replay_ready c' bytes k' last seq) h =
    subst
      (λ d.
        IsLeased s k m i d (replay_ready c' bytes k' last seq)
          (lease_slot s i k m (some (replay_ready c' bytes k' last seq))))
      (option_ℕ h) (record { bytes = bytes; is_last = last; holds = refl; result = refl })

-- A lease takes the lowest chunk of the kind, or finds none.
lease_matching-cases :
    (replay : Bool) (s : OutboundChunks) (callis_id peer_msg_id : ℕ)
    → (NoCandidate replay s.slots × (lease_matching s replay callis_id peer_msg_id ≡ (s, none)))
      ⊎ ((i : ℕ) × (c : ℕ) × (low : IsLowest replay s.slots i c) × IsLeased s callis_id peer_msg_id
            i c low.slot
            (lease_matching s replay callis_id peer_msg_id))
unfolding lease_matching
lease_matching-cases replay s k m = elim (lowest-cases replay s.slots 0) [
  | inl (l, no_more) ↦ inl (no_more, rw (l) refl)
  | inr (i, c, l, low) ↦
      let found : lowest replay s.slots 0 ≡ some (i, c) = l ∙ ap (λ n. some (n, c)) (omega arith) in
      inr (i, c, low, rw (found, low.at) (lease_slot-IsLeased replay s k m i c low.slot low.has))
]

-- lease_next_chunk_for_write finds nothing and changes nothing exactly where no slot is ready or
-- ready for replay; otherwise it leases the lowest chunk that is ready for replay, or the lowest
-- fresh one where none is for replay, and its slot becomes written to by the callis with the same
-- content and the next sequence number.
pub lease_next_chunk_for_write-cases :
    (s : OutboundChunks) (callis_id peer_msg_id : ℕ)
    → (NoCandidate true s.slots
        × NoCandidate false s.slots
        × (lease_next_chunk_for_write s callis_id peer_msg_id ≡ (s, none)))
      ⊎ ((replay : Bool) × (i : ℕ) × (c : ℕ) × (low : IsLowest replay s.slots i c) × (replay ≡ false
            → NoCandidate true s.slots)
          × IsLeased s callis_id peer_msg_id i c low.slot
              (lease_next_chunk_for_write s callis_id peer_msg_id))
unfolding lease_next_chunk_for_write
lease_next_chunk_for_write-cases s k m = elim (lease_matching-cases true s k m) [
  | inl (none_old, e) ↦ elim (lease_matching-cases false s k m) [
    | inl (none_new, d) ↦ inl (none_old, none_new, rw (e, d) refl)
    | inr (i, c, low, leased) ↦ inr (false, i, c, low, λ h. none_old, rw e leased)
  ]
  | inr (i, c, low, leased) ↦ inr (
    true,
    i,
    c,
    low,
    λ h. absurd (ground arith),
    record {
      bytes = leased.bytes;
      is_last = leased.is_last;
      holds = leased.holds;
      result = rw leased.result refl;
    },
  )
]
