-- ===== src/RingBuffer/Buffer/Examples.antt =====
-- Tests of the outbound buffer, and its theorems at concrete inputs.
use aurelia.Prelude.{◌≡◌, refl, inl, true, false, none, some, [], ◌∷◌, arith}
use aurelia.Prelude.Maps.{insert, remove}
use aurelia.Ids.{AureliaError, send_timeout, peer_unavailable}
use aurelia.RingBuffer.Outbound
use aurelia.RingBuffer.Outbound.{
  OutboundChunks, PushState, ready, empty, place, enqueue_chunk, fill, split_with, split_chunk,
  push_loop, flush_with, flush_pending, push_available, next_empty_slot, find_empty, count_live,
  live_chunk_count, has_window_capacity_for, can_accept_bytes, wait_for_capacity,
}
use aurelia.RingBuffer.Outbound.Transfer
use aurelia.RingBuffer.Buffer.{
  OutboundState, OutboundLifecycle, opened, sealing, completed, value, waits, seal_round,
  capacity_check, try_push_available, wait_for_deadline, accepted,
}
use aurelia.RingBuffer.Buffer.Sealing.{run, run_ended, seal_round_spins, push, seal, lease}

abbrev slow : AureliaError
slow = record { kind = send_timeout; message = none }

abbrev gone : AureliaError
gone = record { kind = peer_unavailable; message = none }

-- The window of one chunk is full, and a byte is in the write buffer.
abbrev stuck_chunks : OutboundChunks
stuck_chunks = record {
  chunk_size = 2;
  window_size = 1;
  next_chunk_id = 1;
  write_cursor = 0;
  write_buf = 3 ∷ [];
  pending_full = none;
  slots = ready 0 (1 ∷ 2 ∷ []) false 0 ∷ [];
  chunk_index = (0, 0) ∷ [];
  ack_map = [];
  inflight = 0;
  created_any = true;
}

abbrev in_state : OutboundLifecycle → OutboundState
in_state l = record { lifecycle = l; chunks = stuck_chunks }

abbrev first_push : OutboundState
first_push = record { lifecycle = opened; chunks = Outbound.new 2 1 }

stuck_reached :
    try_push_available false first_push (1 ∷ 2 ∷ 3 ∷ [])
    ≡ some (in_state opened, value (accepted 3))
unfolding try_push_available Outbound.new place enqueue_chunk fill split_with split_chunk push_loop
    flush_with flush_pending push_available next_empty_slot find_empty count_live live_chunk_count
    has_window_capacity_for can_accept_bytes insert remove
stuck_reached = refl

finalize_waits : Transfer.finalize stuck_chunks ≡ (stuck_chunks, wait_for_capacity)
unfolding Transfer.finalize has_window_capacity_for count_live live_chunk_count
finalize_waits = refl

seal_round_spins_example :
    (seal_round (in_state opened) ≡ (in_state sealing, waits))
    × (capacity_check (in_state sealing) ≡ some (value tt))
    × (seal_round (in_state sealing) ≡ (in_state sealing, waits))
seal_round_spins_example =
    seal_round_spins (in_state opened) (inl refl) finalize_waits (omega arith)

run_ended_example :
    (run (in_state completed) (push false (4 ∷ []) ∷ lease 7 100 ∷ seal ∷ [])).chunks.next_chunk_id
    ≡ 1
run_ended_example =
    run_ended (push false (4 ∷ []) ∷ lease 7 100 ∷ seal ∷ []) (in_state completed)
      (λ h. cc, λ h. cc)

-- The first round that finds room ends the wait.
wait_ends :
    wait_for_deadline capacity_check 10
      (record { state = in_state sealing; now = 3; timed_out = false } ∷ [])
    ≡ some (value tt)
unfolding wait_for_deadline capacity_check can_accept_bytes
wait_ends = refl
