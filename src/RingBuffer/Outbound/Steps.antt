-- ===== src/RingBuffer/Outbound/Steps.antt =====
-- Every operation keeps the books, so they hold in each state that the operations reach from `new`.
use aurelia.Prelude.{
  ℕ, zero, suc, ◌+◌, ◌≤◌, ◌<◌, ◌≡◌, sym, ap, subst, inl, inr, Bool, true, false, not, ◌&&◌, ◌||◌,
  Option, none, some, List, [], arith, ltb, Bool-cases, Option-cases, length, is_empty, drop,
}
use aurelia.Prelude.Words.{u64_max}
use aurelia.RingBuffer.Outbound.{
  OutboundChunks, PushState, ChunkWriteLease, ChunkCompletion, new, place, enqueue_chunk, fill,
  split_with, split_chunk, push_loop, flush_with, flush_pending, push_available, finish, push_fuel,
  start_push, has_window_capacity_for,
}
use aurelia.RingBuffer.Outbound.Transfer.{
  needs_extra, finalize, finalize_with, enqueue_rest, lease_next_chunk_for_write, mark_inflight,
  mark_callis_replay_ready, note_completion,
}
use aurelia.RingBuffer.Outbound.Booking.{IsBooked, new-IsBooked}
use aurelia.RingBuffer.Outbound.Awaiting.{
  IsUnused, IsAwaiting, Awaiting, new-IsAwaiting, place-IsAwaiting,
  lease_next_chunk_for_write-IsAwaiting, mark_inflight-IsAwaiting,
  mark_callis_replay_ready-IsAwaiting, note_completion-IsAwaiting,
}
use aurelia.RingBuffer.Outbound.Slots.{enqueue_chunk-cases}
use aurelia.RingBuffer.Outbound.Restage.{place-IsBooked}
use aurelia.RingBuffer.Outbound.Complete.{note_completion-next_chunk_id, note_completion-IsBooked}
use aurelia.RingBuffer.Outbound.Lease.{lease_next_chunk_for_write-cases}
use aurelia.RingBuffer.Outbound.Flight.{
  lease_next_chunk_for_write-IsBooked, mark_inflight-IsBooked, mark_inflight-cases,
}
use aurelia.RingBuffer.Outbound.Replay.{mark_callis_replay_ready-IsBooked}

-- Identifiers only grow, and the books are kept while they have not reached the largest.
record Keeps (s t : OutboundChunks) : Type 0 where
  grows : t.next_chunk_id < u64_max → s.next_chunk_id ≤ t.next_chunk_id
  books : IsBooked s → t.next_chunk_id < u64_max → IsBooked t
  awaits : IsBooked s → t.next_chunk_id < u64_max → Awaiting s → Awaiting t

Keeps-trans : {s t u : OutboundChunks} → Keeps s t → Keeps t u → Keeps s u
Keeps-trans p q = record {
  grows = λ h. omega (arith, h, q.grows h, p.grows (omega (arith, h, q.grows h)));
  books = λ b h. q.books (p.books b (omega (arith, q.grows h, h))) h;
  awaits = λ b h a.
      let small = q.grows h in
      q.awaits (p.books b (omega (arith, small, h))) h (p.awaits b (omega (arith, small, h)) a);
}

Keeps-buffers :
    (s : OutboundChunks) (buf : List ℕ) (pending : Option (List ℕ)) (made : Bool)
    → Keeps s (record s { write_buf = buf; pending_full = pending; created_any = made })
Keeps-buffers s buf pending made = record {
  grows = λ h. omega arith;
  books = λ b h. record {
    small = b.small;
    indexed = b.indexed;
    known = b.known;
    awaited = b.awaited;
    counted = b.counted;
  };
  awaits = λ b h a. a;
}

Keeps-enqueue :
    (s : OutboundChunks) (bytes : List ℕ) (last : Bool) → Keeps s (enqueue_chunk s bytes last)
Keeps-enqueue s bytes last = elim (enqueue_chunk-cases s bytes last) [
  | inl e ↦
      subst (Keeps s) (sym e)
        (record { grows = λ h. omega arith; books = λ b h. b; awaits = λ b h a. a })
  | inr (index, free, e) ↦ subst (Keeps s) (sym e) (record {
    grows = λ h. unfold place in omega (arith, small index h);
    books = λ b h. place-IsBooked s bytes last index b free (omega (arith, small index h));
    awaits = λ b h a. place-IsAwaiting s bytes last index free a;
  })
]
  where
    small : (i : ℕ) → (place s bytes last i).next_chunk_id < u64_max → s.next_chunk_id + 1 ≤ u64_max
    small i h = unfold place in omega (arith, h)

Keeps-split_with : (p : PushState) (o : Option (List ℕ)) → Keeps p.chunks (split_with p o).chunks
unfolding split_with
Keeps-split_with p none = Keeps-buffers p.chunks _ _ _
Keeps-split_with p (some pending) =
    let m : OutboundChunks = record p.chunks {
      write_buf = drop p.chunks.chunk_size p.chunks.write_buf;
      created_any = true;
      pending_full = none;
    } in
    Keeps-trans (Keeps-buffers p.chunks _ _ _) (
      Keeps-trans (Keeps-enqueue m pending false)
        (Keeps-buffers (enqueue_chunk m pending false) _ _ _))

Keeps-fill : (p : PushState) → Keeps p.chunks (fill p).chunks
unfolding fill
Keeps-fill p = Keeps-buffers p.chunks _ _ _

Keeps-push_loop : (fuel : ℕ) (p q : PushState) → push_loop fuel p ≡ some q → Keeps p.chunks q.chunks
unfolding push_loop split_chunk
Keeps-push_loop zero p q h = cc
Keeps-push_loop (suc fuel) p q h =
    let stay : p ≡ q → Keeps p.chunks q.chunks =
      λ e. subst (λ (x : PushState). Keeps p.chunks x.chunks) e (Keeps-buffers p.chunks _ _ _) in
    let split : Keeps p.chunks (split_chunk p).chunks = Keeps-split_with p p.chunks.pending_full in
    elim (Bool-cases (ltb (length p.chunks.write_buf) p.chunks.chunk_size)) [
      | inl short ↦ stay (ground arith)
      | inr long ↦ elim (Bool-cases (has_window_capacity_for p.chunks 1)) [
        | inr full ↦ stay (ground arith)
        | inl capacity ↦ elim (Bool-cases (is_empty p.rest)) [
          | inl done ↦
              let same : split_chunk p ≡ q = ground arith in
              subst (λ (x : PushState). Keeps p.chunks x.chunks) same split
          | inr more ↦ Keeps-trans split (
              Keeps-trans (Keeps-fill (split_chunk p))
                (Keeps-push_loop fuel (fill (split_chunk p)) q (ground arith)))
        ]
      ]
    ]

Keeps-flush_with : (p : PushState) (o : Option (List ℕ)) → Keeps p.chunks (flush_with p o).chunks
unfolding flush_with
Keeps-flush_with p none = Keeps-buffers p.chunks _ _ _
Keeps-flush_with p (some pending) = elim (Bool-cases (is_empty p.chunks.write_buf)) [
  | inl none_left ↦ rw none_left (Keeps-buffers p.chunks _ _ _)
  | inr some_left ↦ rw some_left (
      Keeps-trans (Keeps-buffers p.chunks _ _ _)
        (Keeps-enqueue (record p.chunks { pending_full = none }) pending false))
]

Keeps-push_available :
    (s : OutboundChunks) (bytes : List ℕ) (p : PushState)
    → push_available s bytes ≡ some p
    → Keeps s p.chunks
unfolding push_available flush_pending
Keeps-push_available s bytes p e =
    elim (Option-cases (push_loop (push_fuel s bytes) (fill (start_push s bytes)))) [
      | inl out ↦ ground (arith, ap finish out)
      | inr (q, h) ↦
          let same : p ≡ flush_pending q = ground (arith, ap finish h) in
          subst (λ (x : PushState). Keeps s x.chunks) (sym same)
            (Keeps-trans (Keeps-fill (start_push s bytes))
              (Keeps-trans (Keeps-push_loop _ _ q h) (Keeps-flush_with q q.chunks.pending_full)))
    ]

Keeps-enqueue_rest : (s : OutboundChunks) → Keeps s (enqueue_rest s)
unfolding enqueue_rest
Keeps-enqueue_rest s =
    Keeps-trans (Keeps-buffers s [] _ _)
      (Keeps-enqueue (record s { write_buf = [] }) s.write_buf true)

Keeps-finalize_with : (s : OutboundChunks) (o : Option (List ℕ)) → Keeps s (finalize_with s o)
unfolding finalize_with
Keeps-finalize_with s (some pending) = elim (Bool-cases (is_empty s.write_buf)) [
  | inl none_left ↦ rw none_left (Keeps-enqueue s pending true)
  | inr some_left ↦
      rw some_left (Keeps-trans (Keeps-enqueue s pending false) (Keeps-enqueue_rest _))
]
Keeps-finalize_with s none = elim (Bool-cases (is_empty s.write_buf && s.created_any)) [
  | inl closed ↦ rw closed (Keeps-buffers s _ _ _)
  | inr still ↦ rw still (
      Keeps-trans (Keeps-buffers s _ _ _) (
        Keeps-enqueue_rest
          (record s { created_any = s.created_any || not (is_empty s.write_buf) })))
]

Keeps-finalize : (s : OutboundChunks) → Keeps s (finalize s).0
unfolding finalize
Keeps-finalize s =
    elim (Bool-cases (has_window_capacity_for s (needs_extra s.pending_full s.write_buf))) [
      | inl capacity ↦ rw capacity (
          Keeps-trans (Keeps-buffers s _ _ _)
            (Keeps-finalize_with (record s { pending_full = none }) s.pending_full))
      | inr full ↦ rw full (Keeps-buffers s _ _ _)
    ]

-- One operation of the stream, of a writer, or on a message from the peer. A writer leases a chunk for a
-- message whose identifier no chunk under way has.
pub data Step : OutboundChunks → OutboundChunks → Type 0 where
  pushed :
      {s t : OutboundChunks} (bytes : List ℕ) (p : PushState)
      → push_available s bytes ≡ some p
      → t ≡ p.chunks
      → Step s t
  finished : {s t : OutboundChunks} → t ≡ (finalize s).0 → Step s t
  leased :
      {s t : OutboundChunks} (callis_id peer_msg_id : ℕ)
      → IsUnused s.slots peer_msg_id
      → t ≡ (lease_next_chunk_for_write s callis_id peer_msg_id).0
      → Step s t
  sent : {s t : OutboundChunks} (lease : ChunkWriteLease) → t ≡ (mark_inflight s lease).0 → Step s t
  failed :
      {s t : OutboundChunks} (callis_id : ℕ)
      → t ≡ (mark_callis_replay_ready s callis_id).0
      → Step s t
  completed :
      {s t : OutboundChunks} (peer_msg_id : ℕ) (kind : ChunkCompletion)
      → t ≡ (note_completion s peer_msg_id kind).0
      → Step s t

pub data Reachable (chunk_size window_size : ℕ) : OutboundChunks → Type 0 where
  start : {s : OutboundChunks} → s ≡ new chunk_size window_size → Reachable chunk_size window_size s
  after :
      {s t : OutboundChunks}
      → Reachable chunk_size window_size s
      → Step s t
      → Reachable chunk_size window_size t

Step-Keeps : {s t : OutboundChunks} → Step s t → Keeps s t
Step-Keeps {s = s} (pushed bytes p h e) = subst (Keeps s) (sym e) (Keeps-push_available s bytes p h)
Step-Keeps {s = s} (finished e) = subst (Keeps s) (sym e) (Keeps-finalize s)
Step-Keeps {s = s} (leased k m unused e) = subst (Keeps s) (sym e) (record {
  grows = λ h. elim (lease_next_chunk_for_write-cases s k m) [
    | inl (_, _, d) ↦ omega (arith, ap (λ r. r.0.next_chunk_id) d)
    | inr (_, _, _, _, _, l) ↦ omega (arith, ap (λ r. r.0.next_chunk_id) l.result)
  ];
  books = λ b h. lease_next_chunk_for_write-IsBooked s k m b;
  awaits = λ b h a. lease_next_chunk_for_write-IsAwaiting s k m unused a;
})
Step-Keeps {s = s} (sent lease e) = subst (Keeps s) (sym e) (record {
  grows = λ h. elim (mark_inflight-cases s lease) [
    | inl d ↦ omega (arith, ap (λ r. r.0.next_chunk_id) d)
    | inr (_, _, _, _, d) ↦ omega (arith, ap (λ r. r.0.next_chunk_id) d)
  ];
  books = λ b h. mark_inflight-IsBooked s lease b;
  awaits = λ b h a. mark_inflight-IsAwaiting s lease a;
})
Step-Keeps {s = s} (failed k e) = subst (Keeps s) (sym e) (record {
  grows = λ h. unfold mark_callis_replay_ready in omega arith;
  books = λ b h. mark_callis_replay_ready-IsBooked s k b;
  awaits = λ b h a. mark_callis_replay_ready-IsAwaiting s k a;
})
Step-Keeps {s = s} (completed m kind e) = subst (Keeps s) (sym e) (record {
  grows = λ h. omega (arith, note_completion-next_chunk_id s m kind);
  books = λ b h. note_completion-IsBooked s m kind b;
  awaits = λ b h a. note_completion-IsAwaiting s m kind b a;
})

-- In every state that pushes, finalize, leases, sends, failures of a callis and completions reach
-- from a new window of fewer than 2^64 - 1 slots, in any order, while identifiers of chunks are
-- below the largest and each lease is for a message that no chunk under way goes out in, the index
-- of chunks and the count of chunks in flight agree with the slots, and so does the map of expected
-- acknowledgements, both ways: each entry is of the chunk in flight in that message, and each chunk
-- in flight has its entry.
pub Reachable-IsBooked :
    (chunk_size window_size : ℕ) (s : OutboundChunks)
    → window_size < u64_max
    → Reachable chunk_size window_size s
    → s.next_chunk_id < u64_max
    → IsBooked s × IsAwaiting s.slots s.ack_map
Reachable-IsBooked n w s small (start e) h =
    subst (λ t. IsBooked t × Awaiting t) (sym e) (new-IsBooked n w small, new-IsAwaiting n w)
Reachable-IsBooked n w s small (after {s = before} r step) h =
    let keeps : Keeps before s = Step-Keeps step in
    let (books, awaits) = Reachable-IsBooked n w before small r (omega (arith, keeps.grows h, h)) in
    (keeps.books books h, keeps.awaits books h awaits)
