-- ===== src/RingBuffer/Outbound/Awaiting.antt =====
-- The map of expected acknowledgements from the slots' side: each chunk in flight has its entry. This needs
-- that no two chunks under way go out in messages of one identifier.
use aurelia.Prelude.{
  ℕ, suc, ◌≡◌, refl, sym, ap, subst, ◌∙◌, ◌≢◌, ◌⊎◌, inl, inr, Bool, true, false, Option, none, some,
  List, [], ◌∷◌, arith, ◌==◌, ==_iff, Bool-cases, get_elem?, set,
}
use aurelia.Prelude.Maps.{Map, get, insert, remove, get-insert, get-remove}
use aurelia.RingBuffer.Outbound.{
  OutboundChunks, OutboundSlot, empty, ready, writing, in_flight, replay_ready, ChunkWriteLease,
  ChunkCompletion, new, place,
}
use aurelia.RingBuffer.Outbound.Transfer.{
  candidate, Booking, unbook, unbook_all, replay_one, lease_next_chunk_for_write, mark_inflight,
  mark_callis_replay_ready, note_completion,
}
use aurelia.RingBuffer.Outbound.Booking.{awaited_by, IsBooked, replicate-elem}
use aurelia.RingBuffer.Outbound.Restage.{elem_set}
use aurelia.RingBuffer.Outbound.Lease.{lease_next_chunk_for_write-cases}
use aurelia.RingBuffer.Outbound.Flight.{mark_inflight-cases, written}
use aurelia.RingBuffer.Outbound.Replay.{callis_of, elem_map}
use aurelia.RingBuffer.Outbound.Complete.{note_completion-cases, freed}
use aurelia.RingBuffer.Outbound.Lease.{option_eq}

-- The message that a chunk goes out in.
abbrev pub sent_in : OutboundSlot → Option ℕ
sent_in (writing _ _ peer_msg_id _ _ _) = some peer_msg_id
sent_in (in_flight _ _ peer_msg_id _ _ _) = some peer_msg_id
sent_in _ = none

-- No chunk under way goes out in this message.
unfoldable pub IsUnused : List OutboundSlot → ℕ → Type 0
IsUnused slots m = (i : ℕ) (x : OutboundSlot) → get_elem? slots i ≡ some x → sent_in x ≢ some m

pub record IsAwaiting (slots : List OutboundSlot) (ack_map : Map ℕ) : Type 0 where
  pub single :
      (i j : ℕ) (x y : OutboundSlot) (m : ℕ)
      → get_elem? slots i ≡ some x
      → get_elem? slots j ≡ some y
      → sent_in x ≡ some m
      → sent_in y ≡ some m
      → i ≡ j
  pub expected :
      (i : ℕ) (x : OutboundSlot) (c m : ℕ)
      → get_elem? slots i ≡ some x
      → awaited_by x ≡ some (c, m)
      → get ack_map m ≡ some c

awaited_by-sent_in : (x : OutboundSlot) (c m : ℕ) → awaited_by x ≡ some (c, m) → sent_in x ≡ some m
awaited_by-sent_in empty c m h = cc
awaited_by-sent_in (ready _ _ _ _) c m h = cc
awaited_by-sent_in (writing _ _ _ _ _ _) c m h = cc
awaited_by-sent_in (in_flight _ _ _ _ _ _) c m h = ground arith
awaited_by-sent_in (replay_ready _ _ _ _ _) c m h = cc

-- A slot gets another stage.
set-IsAwaiting :
    (slots : List OutboundSlot) (ack_map after_map : Map ℕ) (i : ℕ) (old slot : OutboundSlot)
    → IsAwaiting slots ack_map
    → get_elem? slots i ≡ some old
    → ((m : ℕ) → sent_in slot ≡ some m → (sent_in old ≡ some m) ⊎ IsUnused slots m)
    → ((c m : ℕ) → awaited_by slot ≡ some (c, m) → get after_map m ≡ some c)
    → ((j : ℕ) (x : OutboundSlot) (c m : ℕ)
        → j ≢ i
        → get_elem? slots j ≡ some x
        → sent_in x ≡ some m
        → get ack_map m ≡ some c
        → get after_map m ≡ some c)
    → IsAwaiting (set slots i slot) after_map
unfolding IsUnused
set-IsAwaiting slots ack_map after_map i old slot a at names mine others = record {
  single = λ p q x y m at_p at_q hx hy. elim (elem_set slots i p slot x at_p) [
    | inl (ep, dx) ↦ elim (elem_set slots i q slot y at_q) [
      | inl (eq, dy) ↦ ep ∙ sym eq
      | inr (nq, at_y) ↦ elim (names m (ap sent_in (sym dx) ∙ hx)) [
        | inl same ↦ absurd (nq (a.single q i y old m at_y at hy same))
        | inr unused ↦ absurd (unused q y at_y hy)
      ]
    ]
    | inr (np, at_x) ↦ elim (elem_set slots i q slot y at_q) [
      | inl (eq, dy) ↦ elim (names m (ap sent_in (sym dy) ∙ hy)) [
        | inl same ↦ absurd (np (a.single p i x old m at_x at hx same))
        | inr unused ↦ absurd (unused p x at_x hx)
      ]
      | inr (nq, at_y) ↦ a.single p q x y m at_x at_y hx hy
    ]
  ];
  expected = λ j x c m at_j h. elim (elem_set slots i j slot x at_j) [
    | inl (e, d) ↦ mine c m (ap awaited_by (sym d) ∙ h)
    | inr (n, at_x) ↦ others j x c m n at_x (awaited_by-sent_in x c m h) (a.expected j x c m at_x h)
  ];
}

-- Another chunk under way goes out in another message.
other_message :
    {slots : List OutboundSlot} {ack_map : Map ℕ} (i j : ℕ) (x y : OutboundSlot) (m k : ℕ)
    → IsAwaiting slots ack_map
    → get_elem? slots i ≡ some x
    → sent_in x ≡ some m
    → get_elem? slots j ≡ some y
    → sent_in y ≡ some k
    → j ≢ i
    → (m == k) ≡ false
other_message i j x y m k a at_x hx at_y hy ne = elim (Bool-cases (m == k)) [
  | inl e ↦ absurd (ne (a.single j i y x m at_y at_x (hy ∙ ap some (sym ((==_iff m k).0 e))) hx))
  | inr e ↦ e
]

pub new-IsAwaiting :
    (chunk_size window_size : ℕ)
    → IsAwaiting (new chunk_size window_size).slots (new chunk_size window_size).ack_map
unfolding new
new-IsAwaiting n w = record {
  single = λ i j x y m at_x at_y hx hy. let e = ap sent_in (replicate-elem w i x at_x) in cc;
  expected = λ i x c m at h. let e = ap awaited_by (replicate-elem w i x at) in cc;
}

pub place-IsAwaiting :
    (s : OutboundChunks) (bytes : List ℕ) (last : Bool) (index : ℕ)
    → get_elem? s.slots index ≡ some empty
    → IsAwaiting s.slots s.ack_map
    → IsAwaiting (place s bytes last index).slots (place s bytes last index).ack_map
unfolding place
place-IsAwaiting s bytes last index free a =
    set-IsAwaiting s.slots s.ack_map s.ack_map index empty (ready s.next_chunk_id bytes last 0) a
      free (λ m h. cc) (λ c m h. cc) (λ j x c m n at hx h. h)

candidate-sent_in :
    (replay : Bool) (slot : OutboundSlot) (c : ℕ)
    → candidate replay slot ≡ some c
    → sent_in slot ≡ none
candidate-sent_in replay empty c h = refl
candidate-sent_in replay (ready _ _ _ _) c h = refl
candidate-sent_in false (writing _ _ _ _ _ _) c h = cc
candidate-sent_in true (writing _ _ _ _ _ _) c h = cc
candidate-sent_in false (in_flight _ _ _ _ _ _) c h = cc
candidate-sent_in true (in_flight _ _ _ _ _ _) c h = cc
candidate-sent_in replay (replay_ready _ _ _ _ _) c h = refl

abbrev pub Awaiting : OutboundChunks → Type 0
Awaiting s = IsAwaiting s.slots s.ack_map

pub lease_next_chunk_for_write-IsAwaiting :
    (s : OutboundChunks) (callis_id peer_msg_id : ℕ)
    → IsUnused s.slots peer_msg_id
    → Awaiting s
    → Awaiting (lease_next_chunk_for_write s callis_id peer_msg_id).0
lease_next_chunk_for_write-IsAwaiting s k m unused a =
    elim (lease_next_chunk_for_write-cases s k m) [
      | inl (_, _, e) ↦ subst (λ r. Awaiting r.0) (sym e) a
      | inr (replay, i, c, low, _, leased) ↦
          subst (λ r. Awaiting r.0) (sym leased.result)
            (set-IsAwaiting s.slots s.ack_map s.ack_map i low.slot
              (writing c leased.bytes m k leased.is_last _) a low.at
              (λ n h. inr (subst (IsUnused s.slots) (some_eq h) unused)) (λ c' n h. cc)
              (λ j x c' n ne at hx h. h))
    ]
  where
    some_eq : {x y : ℕ} → some x ≡ some y → x ≡ y
    some_eq e = cc

pub mark_inflight-IsAwaiting :
    (s : OutboundChunks) (lease : ChunkWriteLease) → Awaiting s → Awaiting (mark_inflight s lease).0
mark_inflight-IsAwaiting s lease a = elim (mark_inflight-cases s lease) [
  | inl e ↦ subst (λ r. Awaiting r.0) (sym e) a
  | inr (i, bytes, _, at, d) ↦
      let m : ℕ = lease.peer_msg_id in
      subst (λ r. Awaiting r.0) (sym d)
        (set-IsAwaiting s.slots s.ack_map (insert s.ack_map m lease.chunk_id) i
          (written lease bytes)
          (in_flight lease.chunk_id bytes m lease.callis_id lease.is_last lease.slot_seq) a at
          (λ n h. inl h) (λ c n h. ground (arith, get-insert s.ack_map m lease.chunk_id n))
          (λ j x c n ne at_x hx h. ground (
            arith,
            get-insert s.ack_map m lease.chunk_id n,
            h,
            other_message i j (written lease bytes) x m n a at refl at_x hx ne,
          )))
]

freed-IsAwaiting :
    (s : OutboundChunks) (m c i : ℕ) (slot : OutboundSlot)
    → get_elem? s.slots i ≡ some slot
    → awaited_by slot ≡ some (c, m)
    → Awaiting s
    → Awaiting (freed s m c i)
freed-IsAwaiting s m c i slot at h a =
    set-IsAwaiting s.slots s.ack_map (remove s.ack_map m) i slot empty a at (λ n e. cc)
      (λ d n e. cc)
      (λ j x d n ne at_x hx e. ground (
        arith,
        get-remove s.ack_map m n,
        e,
        other_message i j slot x m n a at (awaited_by-sent_in slot c m h) at_x hx ne,
      ))

pub note_completion-IsAwaiting :
    (s : OutboundChunks) (m : ℕ) (kind : ChunkCompletion)
    → IsBooked s
    → Awaiting s
    → Awaiting (note_completion s m kind).0
note_completion-IsAwaiting s m kind b a = elim (note_completion-cases s m kind b) [
  | inl (_, e) ↦ subst (λ r. Awaiting r.0) (sym e) a
  | inr (c, i, slot, at, h, e) ↦
      subst (λ r. Awaiting r.0) (sym e) (freed-IsAwaiting s m c i slot at h a)
]

replay_one-sent_in :
    (k : ℕ) (x : OutboundSlot) (m : ℕ) → sent_in (replay_one k x) ≡ some m → sent_in x ≡ some m
unfolding replay_one
replay_one-sent_in k empty m h = h
replay_one-sent_in k (ready _ _ _ _) m h = h
replay_one-sent_in k (writing _ _ _ _ _ _) m h = ground arith
replay_one-sent_in k (in_flight _ _ _ _ _ _) m h = ground arith
replay_one-sent_in k (replay_ready _ _ _ _ _) m h = h

unbook-keeps :
    (k : ℕ) (x : OutboundSlot) (b : Booking) (m : ℕ)
    → ((sent_in x ≡ some m) → callis_of x ≢ some k)
    → get (unbook k x b).ack_map m ≡ get b.ack_map m
unfolding unbook
unbook-keeps k empty b m h = refl
unbook-keeps k (ready _ _ _ _) b m h = refl
unbook-keeps k (writing _ _ _ k' _ _) b m h = ground arith
unbook-keeps k (in_flight _ _ m' k' _ _) b m h = elim (Bool-cases (k' == k)) [
  | inr off ↦ rw off refl
  | inl on ↦ elim (Bool-cases (m' == m)) [
    | inl same ↦ absurd (h (ap some ((==_iff m' m).0 same)) (ap some ((==_iff k' k).0 on)))
    | inr other ↦ rw on (get-remove b.ack_map m' m ∙ rw other refl)
  ]
]
unbook-keeps k (replay_ready _ _ _ _ _) b m h = refl

unbook_all-keeps :
    (k : ℕ) (slots : List OutboundSlot) (b : Booking) (m : ℕ)
    → ((j : ℕ) (x : OutboundSlot)
        → get_elem? slots j ≡ some x
        → sent_in x ≡ some m
        → callis_of x ≢ some k)
    → get (unbook_all k slots b).ack_map m ≡ get b.ack_map m
unfolding unbook_all
unbook_all-keeps k [] b m h = refl
unbook_all-keeps k (x ∷ slots) b m h =
    unbook_all-keeps k slots (unbook k x b) m (λ j y at. h (suc j) y at)
    ∙ unbook-keeps k x b m (h 0 x refl)

-- A chunk that is still in flight was so, on another callis.
replay_one-awaited_by :
    (k : ℕ) (x : OutboundSlot) (c m : ℕ)
    → awaited_by (replay_one k x) ≡ some (c, m)
    → (awaited_by x ≡ some (c, m)) × (callis_of x ≢ some k)
unfolding replay_one
replay_one-awaited_by k empty c m h = cc
replay_one-awaited_by k (ready _ _ _ _) c m h = cc
replay_one-awaited_by k (writing c' bytes m' k' last seq) c m h = elim (Bool-cases (k' == k)) [
  | inl on ↦ ground arith
  | inr off ↦ ground arith
]
replay_one-awaited_by k (in_flight c' bytes m' k' last seq) c m h = elim (Bool-cases (k' == k)) [
  | inl on ↦ ground arith
  | inr off ↦ (ground arith, λ e. ground arith)
]
replay_one-awaited_by k (replay_ready _ _ _ _ _) c m h = cc

pub mark_callis_replay_ready-IsAwaiting :
    (s : OutboundChunks) (callis_id : ℕ)
    → Awaiting s
    → Awaiting (mark_callis_replay_ready s callis_id).0
unfolding mark_callis_replay_ready
mark_callis_replay_ready-IsAwaiting s k a = record {
  single = λ i j x y m at_x at_y hx hy.
      let (x', at_x', ex) = elem_map (replay_one k) s.slots i x at_x in
      let (y', at_y', ey) = elem_map (replay_one k) s.slots j y at_y in
      a.single i j x' y' m at_x' at_y' (replay_one-sent_in k x' m (ap sent_in (sym ex) ∙ hx))
        (replay_one-sent_in k y' m (ap sent_in (sym ey) ∙ hy));
  expected = λ i x c m at h.
      let (y, at_y, e) = elem_map (replay_one k) s.slots i x at in
      let (awaits, off) = replay_one-awaited_by k y c m (ap awaited_by (sym e) ∙ h) in
      unbook_all-keeps k s.slots _ m (λ j z at_z hz on.
        let same : i ≡ j = a.single i j y z m at_y at_z (awaited_by-sent_in y c m awaits) hz in
        let one : y ≡ z = option_eq (sym at_y ∙ ap (get_elem? s.slots) same ∙ at_z) in
        off (ap callis_of one ∙ on))
      ∙ a.expected i y c m at_y awaits;
}
