-- ===== src/RingBuffer/Outbound/Examples.antt =====
-- Witnesses and tests for crates/peering/src/ring_buffer/outbound/chunks.rs.
use aurelia.RingBuffer.Outbound.Awaiting.{sent_in, IsUnused, IsAwaiting}
use aurelia.Prelude.Maps.{get, insert, remove}
use aurelia.RingBuffer.Outbound.Complete.{note_completion-cases, freed}
use aurelia.RingBuffer.Outbound.Replay.{mark_callis_replay_ready-all, callis_of}
use aurelia.RingBuffer.Outbound.Finalize.{finalize-Closes, finalize-drained, Closes}
use aurelia.RingBuffer.Outbound.Booking.{awaited_by, content, IsBooked}
use aurelia.RingBuffer.Outbound.Lease.{
  option_eq, lease_next_chunk_for_write-cases, IsLeased, IsLowest, NoCandidate,
}
use aurelia.RingBuffer.Outbound.Transfer.{
  candidate, mark_callis_replay_ready, finalize_with, note_completion, lease_matching,
  lease_next_chunk_for_write, lowest, enqueue_rest, finalize, mark_inflight,
}
use aurelia.RingBuffer.Outbound.Steps.{
  sent, leased, pushed, start, after, Reachable-IsBooked, Reachable,
}
use aurelia.Prelude.{
  ℕ, zero, suc, ◌≡◌, refl, sym, ap, subst, ◌≢◌, ◌⊎◌, Bool, true, false, Option, none, some, List,
  [], ◌∷◌, arith, get_elem?,
}
use aurelia.RingBuffer.Outbound.{
  in_flight, remove, wait_for_capacity, ack, insert, finalized, ChunkWriteLease, OutboundSlot, get,
  OutboundChunks, PushState, new, ready, empty, place, enqueue_chunk, fill, split_with, split_chunk,
  push_loop, flush_with, flush_pending, push_available, next_empty_slot, find_empty, count_live,
  live_chunk_count, has_window_capacity_for,
}
use aurelia.RingBuffer.Outbound.Emission.{Chunk}
use aurelia.RingBuffer.Outbound.Push.{IsOpen, Progress}
use aurelia.RingBuffer.Outbound.Accept.{push_available-accepts}

abbrev fresh : OutboundChunks
fresh = new 2 3

fresh-IsOpen : IsOpen fresh
unfolding new count_live
fresh-IsOpen = record {
  window = record { size = refl; room = omega arith };
  chunk_pos = omega arith;
  pending_full = λ bytes h. cc;
  buffer = omega arith;
  holds = λ h. absurd (ground arith);
}

push_available-accepts_example :
    (p : PushState) × (push_available fresh (1 ∷ 2 ∷ 3 ∷ []) ≡ some p)
    × (cs : List Chunk) × Progress fresh (1 ∷ 2 ∷ 3 ∷ []) cs p
push_available-accepts_example = push_available-accepts fresh (1 ∷ 2 ∷ 3 ∷ []) fresh-IsOpen

abbrev chunks_of : Option PushState → OutboundChunks
chunks_of none = fresh
chunks_of (some p) = p.chunks

-- Two chunks in the window and a byte in the buffer.
abbrev loaded : OutboundChunks
loaded = chunks_of (push_available fresh (1 ∷ 2 ∷ 3 ∷ 4 ∷ 5 ∷ []))

loaded_slots :
    loaded.slots ≡ ready 0 (1 ∷ 2 ∷ []) false 0 ∷ ready 1 (3 ∷ 4 ∷ []) false 0 ∷ empty ∷ []
unfolding new place enqueue_chunk fill split_with split_chunk push_loop flush_with flush_pending
    push_available next_empty_slot find_empty count_live live_chunk_count has_window_capacity_for
loaded_slots = refl

abbrev loaded_push : PushState
loaded_push = record { chunks = loaded; rest = []; accepted = 5; notify_waiters = true }

loaded_push-eq : push_available fresh (1 ∷ 2 ∷ 3 ∷ 4 ∷ 5 ∷ []) ≡ some loaded_push
unfolding new place enqueue_chunk fill split_with split_chunk push_loop flush_with flush_pending
    push_available next_empty_slot find_empty count_live live_chunk_count has_window_capacity_for
loaded_push-eq = refl

finalize-Closes_example :
    (((finalize fresh).1 ≡ finalized true)
      × (cs : List Chunk) × (last : List ℕ) × Closes fresh cs last (finalize fresh).0)
    ⊎ (finalize fresh ≡ (fresh, wait_for_capacity))
finalize-Closes_example = finalize-Closes fresh fresh-IsOpen

-- An empty stream is one empty last chunk.
finalize_empty : (finalize fresh).0.slots ≡ ready 0 [] true 0 ∷ empty ∷ empty ∷ []
unfolding new place enqueue_chunk enqueue_rest finalize finalize_with next_empty_slot find_empty
    count_live live_chunk_count has_window_capacity_for
finalize_empty = refl

finalize-drained_example : (finalize fresh).1 ≡ finalized true
unfolding new live_chunk_count count_live
finalize-drained_example = finalize-drained fresh (λ h. refl) (omega arith) refl

abbrev on_callis_7 : OutboundChunks
on_callis_7 = (lease_next_chunk_for_write loaded 7 100).0

abbrev lease : ChunkWriteLease
lease = record {
  chunk_id = 0;
  bytes = 1 ∷ 2 ∷ [];
  is_last = false;
  peer_msg_id = 100;
  callis_id = 7;
  slot_seq = 1;
}

abbrev flying : OutboundChunks
flying = (mark_inflight on_callis_7 lease).0

flying_slots :
    flying.slots
    ≡ in_flight 0 (1 ∷ 2 ∷ []) 100 7 false 1 ∷ ready 1 (3 ∷ 4 ∷ []) false 0 ∷ empty ∷ []
unfolding new place enqueue_chunk fill split_with split_chunk push_loop flush_with flush_pending
    push_available next_empty_slot find_empty count_live live_chunk_count has_window_capacity_for
    lowest lease_matching lease_next_chunk_for_write mark_inflight get insert remove
flying_slots = refl

flying_next : flying.next_chunk_id ≡ 2
unfolding new place enqueue_chunk fill split_with split_chunk push_loop flush_with flush_pending
    push_available next_empty_slot find_empty count_live live_chunk_count has_window_capacity_for
    lowest lease_matching lease_next_chunk_for_write mark_inflight get insert remove
flying_next = refl

loaded-IsUnused : IsUnused loaded.slots 100
unfolding IsUnused
loaded-IsUnused = subst (λ slots. IsUnused slots 100) (sym loaded_slots) none_used
  where
    none_used :
        IsUnused (ready 0 (1 ∷ 2 ∷ []) false 0 ∷ ready 1 (3 ∷ 4 ∷ []) false 0 ∷ empty ∷ []) 100
    none_used zero x at h = let e = ap sent_in (option_eq at) in cc
    none_used (suc zero) x at h = let e = ap sent_in (option_eq at) in cc
    none_used (suc (suc zero)) x at h = let e = ap sent_in (option_eq at) in cc
    none_used (suc (suc (suc i))) x at h = cc

flying-Reachable : Reachable 2 3 flying
flying-Reachable =
    after
      (after (after (start refl) (pushed (1 ∷ 2 ∷ 3 ∷ 4 ∷ 5 ∷ []) loaded_push loaded_push-eq refl))
        (leased 7 100 loaded-IsUnused refl))
      (sent lease refl)

Reachable-IsBooked_example : IsBooked flying × IsAwaiting flying.slots flying.ack_map
Reachable-IsBooked_example =
    Reachable-IsBooked 2 3 flying (omega arith) flying-Reachable (omega (arith, flying_next))

note_completion-cases_example :
    ((get flying.ack_map 100 ≡ none) × (note_completion flying 100 ack ≡ (flying, false)))
    ⊎ ((c : ℕ) × (i : ℕ) × (slot : OutboundSlot) × (get_elem? flying.slots i ≡ some slot)
        × (awaited_by slot ≡ some (c, 100))
        × (note_completion flying 100 ack ≡ (freed flying 100 c i, true)))
note_completion-cases_example =
    note_completion-cases flying 100 ack
      (Reachable-IsBooked 2 3 flying (omega arith) flying-Reachable (omega (arith, flying_next))).0

lease_next_chunk_for_write-cases_example :
    (NoCandidate true loaded.slots
      × NoCandidate false loaded.slots
      × (lease_next_chunk_for_write loaded 7 100 ≡ (loaded, none)))
    ⊎ ((replay : Bool) × (i : ℕ) × (c : ℕ) × (low : IsLowest replay loaded.slots i c) × (replay
            ≡ false
          → NoCandidate true loaded.slots)
        × IsLeased loaded 7 100 i c low.slot (lease_next_chunk_for_write loaded 7 100))
lease_next_chunk_for_write-cases_example = lease_next_chunk_for_write-cases loaded 7 100

mark_callis_replay_ready-all_example :
    (after : OutboundSlot) × (get_elem? (mark_callis_replay_ready flying 7).0.slots 0 ≡ some after)
    × (content after ≡ some (0, 1 ∷ 2 ∷ [], false))
    × (callis_of after ≢ some 7)
    × (((callis_of (in_flight 0 (1 ∷ 2 ∷ []) 100 7 false 1) ≡ some 7)
          × (candidate true after ≡ some 0))
        ⊎ ((callis_of (in_flight 0 (1 ∷ 2 ∷ []) 100 7 false 1) ≢ some 7)
            × (after ≡ in_flight 0 (1 ∷ 2 ∷ []) 100 7 false 1)))
mark_callis_replay_ready-all_example =
    mark_callis_replay_ready-all flying 7 0 (in_flight 0 (1 ∷ 2 ∷ []) 100 7 false 1)
      (ap (λ xs. get_elem? xs 0) flying_slots)
