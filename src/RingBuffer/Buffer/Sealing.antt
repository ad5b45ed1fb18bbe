-- ===== src/RingBuffer/Buffer/Sealing.antt =====
-- The end of an outbound stream: failures stay, the last chunk is the last, and how `seal` waits.
use aurelia.RingBuffer.Outbound.Complete.{note_completion-next_chunk_id}
use aurelia.RingBuffer.Outbound.Flight.{mark_inflight-cases}
use aurelia.RingBuffer.Outbound.Lease.{lease_next_chunk_for_write-cases}
use aurelia.Prelude.{
  ℕ, ◌<◌, ◌≡◌, refl, sym, ap, subst, ◌∙◌, ◌≢◌, ◌⊎◌, inl, inr, Bool, true, false, Option, none, some,
  List, [], ◌∷◌, arith, lt→ltb, length,
}
use aurelia.Ids.{AureliaError}
use aurelia.RingBuffer.Outbound.{ChunkWriteLease}
use aurelia.RingBuffer.Buffer.{
  mark_complete, mark_failed, mark_closed, error, ack, value, waits, wait_for_capacity,
  capacity_check, OutboundChunks, TryPushAvailable, Fallible, OutboundState, OutboundLifecycle,
  opened, sealing, awaiting_complete, completed, failed, closed, failure, try_push_available,
  seal_round, lease_next_chunk_for_write, mark_chunk_inflight, mark_callis_replay_ready, note_ack,
  note_error, fail, complete, close,
}
use aurelia.RingBuffer.Outbound.{can_accept_bytes}
use aurelia.RingBuffer.Outbound.Transfer

-- A call on the outbound buffer.
pub data Call : Type 0 where
  push : Bool → List ℕ → Call
  seal : Call
  lease : ℕ → ℕ → Call
  sent : ChunkWriteLease → Call
  callis_failed : ℕ → Call
  acked : ℕ → Call
  refused_by_peer : ℕ → AureliaError → Call
  fails : AureliaError → Call
  completes : Call
  closes : Call

abbrev pub or_same :
    OutboundState → Option (OutboundState × Fallible TryPushAvailable) → OutboundState
or_same s none = s
or_same s (some (t, result)) = t

unfoldable pub call : OutboundState → Call → OutboundState
call s (push locked bytes) = or_same s (try_push_available locked s bytes)
call s seal = (seal_round s).0
call s (lease callis_id peer_msg_id) = (lease_next_chunk_for_write s callis_id peer_msg_id).0
call s (sent chunk) = mark_chunk_inflight s chunk
call s (callis_failed callis_id) = mark_callis_replay_ready s callis_id
call s (acked peer_msg_id) = note_ack s peer_msg_id
call s (refused_by_peer peer_msg_id err) = note_error s peer_msg_id err
call s (fails err) = fail s err
call s completes = complete s
call s closes = close s

unfoldable pub run : OutboundState → List Call → OutboundState
run s [] = s
run s (c ∷ cs) = run (call s c) cs

-- The failure that is reported after the calls: the first one, unless the peer reports another.
abbrev pub latest : AureliaError → List Call → AureliaError
latest err [] = err
latest err (refused_by_peer m other ∷ cs) = latest other cs
latest err (_ ∷ cs) = latest err cs

failed_eq : (l : OutboundLifecycle) (err : AureliaError) → failure l ≡ some err → l ≡ failed err
failed_eq opened err h = cc
failed_eq sealing err h = cc
failed_eq awaiting_complete err h = cc
failed_eq completed err h = cc
failed_eq (failed e) err h = ground arith
failed_eq closed err h = cc

failed_after_push :
    (locked : Bool) (s : OutboundState) (bytes : List ℕ) (err : AureliaError)
    → s.lifecycle ≡ failed err
    → or_same s (try_push_available locked s bytes) ≡ s
unfolding try_push_available
failed_after_push true s bytes err h = refl
failed_after_push false s bytes err h = rw h refl

-- A failed outbound buffer stays failed under every sequence of calls, with its first error, or
-- with the last that the peer reported since.
pub run_failed :
    (cs : List Call) (s : OutboundState) (err : AureliaError)
    → s.lifecycle ≡ failed err
    → (run s cs).lifecycle ≡ failed (latest err cs)
unfolding run call seal_round lease_next_chunk_for_write mark_chunk_inflight
    mark_callis_replay_ready note_ack note_error fail complete close
run_failed [] s err h = h
run_failed (push locked bytes ∷ cs) s err h =
    run_failed cs _ err (ap (λ t. t.lifecycle) (failed_after_push locked s bytes err h) ∙ h)
run_failed (seal ∷ cs) s err h = run_failed cs _ err (rw h refl)
run_failed (lease k m ∷ cs) s err h = run_failed cs _ err (rw h refl)
run_failed (sent chunk ∷ cs) s err h = run_failed cs _ err h
run_failed (callis_failed k ∷ cs) s err h = run_failed cs _ err h
run_failed (acked m ∷ cs) s err h = run_failed cs _ err h
run_failed (refused_by_peer m other ∷ cs) s err h = run_failed cs _ other refl
run_failed (fails other ∷ cs) s err h = run_failed cs _ err (rw h refl)
run_failed (completes ∷ cs) s err h = run_failed cs _ err (rw h refl)
run_failed (closes ∷ cs) s err h = run_failed cs _ err (rw h refl)

-- The last chunk is made, or none is going to be.
abbrev pub IsEnded : OutboundLifecycle → Type 0
IsEnded l = (l ≢ opened) × (l ≢ sealing)

lease-next_chunk_id :
    (c : OutboundChunks) (k m : ℕ)
    → (Transfer.lease_next_chunk_for_write c k m).0.next_chunk_id ≡ c.next_chunk_id
lease-next_chunk_id c k m = elim (lease_next_chunk_for_write-cases c k m) [
  | inl (_, _, e) ↦ ap (λ r. r.0.next_chunk_id) e
  | inr (_, _, _, _, _, l) ↦ ap (λ r. r.0.next_chunk_id) l.result
]

mark_inflight-next_chunk_id :
    (c : OutboundChunks) (chunk : ChunkWriteLease)
    → (Transfer.mark_inflight c chunk).0.next_chunk_id ≡ c.next_chunk_id
mark_inflight-next_chunk_id c chunk = elim (mark_inflight-cases c chunk) [
  | inl e ↦ ap (λ r. r.0.next_chunk_id) e
  | inr (_, _, _, _, e) ↦ ap (λ r. r.0.next_chunk_id) e
]

-- What a call on an ended stream leaves: an ended stream with the same next identifier.
abbrev StaysEnded : OutboundState → OutboundState → Type 0
StaysEnded s t = IsEnded t.lifecycle × (t.chunks.next_chunk_id ≡ s.chunks.next_chunk_id)

push_ended :
    (locked : Bool) (l : OutboundLifecycle) (c : OutboundChunks) (bytes : List ℕ)
    → IsEnded l
    → let s : OutboundState = record { lifecycle = l; chunks = c } in
      or_same s (try_push_available locked s bytes) ≡ s
unfolding try_push_available
push_ended true l c bytes e = refl
push_ended false opened c bytes e = absurd (e.0 refl)
push_ended false sealing c bytes e = refl
push_ended false awaiting_complete c bytes e = refl
push_ended false completed c bytes e = refl
push_ended false (failed err) c bytes e = refl
push_ended false closed c bytes e = refl

seal_ended :
    (l : OutboundLifecycle) (c : OutboundChunks)
    → IsEnded l
    → let s : OutboundState = record { lifecycle = l; chunks = c } in (seal_round s).0 ≡ s
unfolding seal_round
seal_ended opened c e = absurd (e.0 refl)
seal_ended sealing c e = absurd (e.1 refl)
seal_ended awaiting_complete c e = refl
seal_ended completed c e = refl
seal_ended (failed err) c e = refl
seal_ended closed c e = refl

lease_ended :
    (l : OutboundLifecycle) (c : OutboundChunks) (k m : ℕ)
    → IsEnded l
    → let s : OutboundState = record { lifecycle = l; chunks = c } in
      StaysEnded s (lease_next_chunk_for_write s k m).0
unfolding lease_next_chunk_for_write
lease_ended opened c k m e = absurd (e.0 refl)
lease_ended sealing c k m e = absurd (e.1 refl)
lease_ended awaiting_complete c k m e = (e, lease-next_chunk_id c k m)
lease_ended completed c k m e = (e, lease-next_chunk_id c k m)
lease_ended (failed err) c k m e = (e, refl)
lease_ended closed c k m e = (e, refl)

fail-IsEnded :
    (l : OutboundLifecycle) (err : AureliaError) → IsEnded l → IsEnded (mark_failed err l)
fail-IsEnded opened err e = absurd (e.0 refl)
fail-IsEnded sealing err e = absurd (e.1 refl)
fail-IsEnded awaiting_complete err e = (λ h. cc, λ h. cc)
fail-IsEnded completed err e = (λ h. cc, λ h. cc)
fail-IsEnded (failed first) err e = e
fail-IsEnded closed err e = (λ h. cc, λ h. cc)

complete-IsEnded : (l : OutboundLifecycle) → IsEnded l → IsEnded (mark_complete l)
complete-IsEnded opened e = absurd (e.0 refl)
complete-IsEnded sealing e = absurd (e.1 refl)
complete-IsEnded awaiting_complete e = (λ h. cc, λ h. cc)
complete-IsEnded completed e = e
complete-IsEnded (failed first) e = e
complete-IsEnded closed e = (λ h. cc, λ h. cc)

close-IsEnded : (l : OutboundLifecycle) → IsEnded l → IsEnded (mark_closed l)
close-IsEnded opened e = absurd (e.0 refl)
close-IsEnded sealing e = absurd (e.1 refl)
close-IsEnded awaiting_complete e = (λ h. cc, λ h. cc)
close-IsEnded completed e = (λ h. cc, λ h. cc)
close-IsEnded (failed first) e = e
close-IsEnded closed e = e

call_ended : (s : OutboundState) (c : Call) → IsEnded s.lifecycle → StaysEnded s (call s c)
unfolding call lease_next_chunk_for_write mark_chunk_inflight mark_callis_replay_ready
    Transfer.mark_callis_replay_ready note_ack note_error fail complete close
call_ended s (push locked bytes) e =
    subst (StaysEnded s) (sym (push_ended locked s.lifecycle s.chunks bytes e)) (e, refl)
call_ended s seal e = subst (StaysEnded s) (sym (seal_ended s.lifecycle s.chunks e)) (e, refl)
call_ended s (lease k m) e = lease_ended s.lifecycle s.chunks k m e
call_ended s (sent chunk) e = (e, mark_inflight-next_chunk_id s.chunks chunk)
call_ended s (callis_failed k) e = (e, refl)
call_ended s (acked m) e = (e, note_completion-next_chunk_id s.chunks m ack)
call_ended s (refused_by_peer m other) e =
    ((λ h. cc, λ h. cc), note_completion-next_chunk_id s.chunks m error)
call_ended s (fails other) e = (fail-IsEnded s.lifecycle other e, refl)
call_ended s completes e = (complete-IsEnded s.lifecycle e, refl)
call_ended s closes e = (close-IsEnded s.lifecycle e, refl)

-- Once the last chunk is made or the stream has failed or is closed, no sequence of calls on the
-- outbound buffer makes another chunk: the next identifier stays.
pub run_ended :
    (cs : List Call) (s : OutboundState)
    → IsEnded s.lifecycle
    → (run s cs).chunks.next_chunk_id ≡ s.chunks.next_chunk_id
unfolding run
run_ended [] s e = refl
run_ended (c ∷ cs) s e =
    let (still, same) = call_ended s c e in run_ended cs (call s c) still ∙ same

-- On an open or sealing buffer, where finalize waits for capacity while the write buffer holds less
-- than a chunk, a round of seal only marks the buffer as sealing and asks to wait; the check of
-- that wait is satisfied at once, and the next round of seal does the same again.
pub seal_round_spins :
    (s : OutboundState)
    → (s.lifecycle ≡ opened) ⊎ (s.lifecycle ≡ sealing)
    → Transfer.finalize s.chunks ≡ (s.chunks, wait_for_capacity)
    → length s.chunks.write_buf < s.chunks.chunk_size
    → let t : OutboundState = record s { lifecycle = sealing } in
      (seal_round s ≡ (t, waits))
      × (capacity_check t ≡ some (value tt))
      × (seal_round t ≡ (t, waits))
unfolding seal_round capacity_check can_accept_bytes
seal_round_spins s before full room = (
  elim before [ inl e ↦ rw (e, full) refl | inr e ↦ rw (e, full) refl ],
  rw (lt→ltb _ _ room) refl,
  rw full refl,
)
