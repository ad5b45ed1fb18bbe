-- ===== src/RingBuffer/Buffer.antt =====
-- crates/peering/src/ring_buffer/outbound/state.rs and crates/peering/src/ring_buffer/outbound.rs: the life of
-- an outbound stream around its window of chunks. Each section under the lock is one function; the
-- wake-ups of waiters are not modelled, only what they check.
pub mod Sealing
mod Examples
use aurelia.Prelude.{
  ℕ, ◌-◌, Bool, true, false, not, ◌&&◌, ◌||◌, Option, none, some, List, [], ◌∷◌, ◌==◌,
  if◌then◌else◌,
}
use aurelia.Ids.{AureliaError, ErrorId, protocol_violation, peer_unavailable, send_timeout}
use aurelia.RingBuffer.Outbound
use aurelia.RingBuffer.Outbound.{
  OutboundChunks, PushState, ChunkWriteLease, FinalizeDecision, wait_for_capacity, finalized, ack,
  error, push_available, can_accept_bytes,
}
use aurelia.RingBuffer.Outbound.Transfer

-- `Result<T, AureliaError>`
pub data Fallible {ℓ} (A : Type ℓ) : Type ℓ where
  value : A → Fallible A
  failure_of : AureliaError → Fallible A

-- `opened` is the source's `Open`.
pub data OutboundLifecycle : Type 0 where
  opened sealing awaiting_complete completed : OutboundLifecycle
  failed : AureliaError → OutboundLifecycle
  closed : OutboundLifecycle

abbrev pub failure : OutboundLifecycle → Option AureliaError
failure (failed err) = some err
failure _ = none

abbrev pub unavailable : AureliaError
unavailable = record { kind = peer_unavailable; message = none }

abbrev pub sender_error : OutboundLifecycle → Fallible (Unit {0})
sender_error opened = value tt
sender_error (failed err) = failure_of err
sender_error sealing = failure_of unavailable
sender_error awaiting_complete = failure_of unavailable
sender_error completed = failure_of unavailable
sender_error closed = failure_of unavailable

abbrev pub seal_error : OutboundLifecycle → Fallible (Unit {0})
seal_error opened = value tt
seal_error sealing = value tt
seal_error awaiting_complete = value tt
seal_error completed = value tt
seal_error (failed err) = failure_of err
seal_error closed = failure_of unavailable

abbrev pub mark_sealed : OutboundLifecycle → OutboundLifecycle
mark_sealed opened = sealing
mark_sealed l = l

abbrev pub mark_final_chunk_sent : OutboundLifecycle → OutboundLifecycle
mark_final_chunk_sent opened = awaiting_complete
mark_final_chunk_sent sealing = awaiting_complete
mark_final_chunk_sent l = l

abbrev pub mark_complete : OutboundLifecycle → OutboundLifecycle
mark_complete (failed err) = failed err
mark_complete _ = completed

abbrev pub mark_failed : AureliaError → OutboundLifecycle → OutboundLifecycle
mark_failed err (failed first) = failed first
mark_failed err _ = failed err

abbrev pub replace_failure : AureliaError → OutboundLifecycle → OutboundLifecycle
replace_failure err l = failed err

abbrev pub mark_closed : OutboundLifecycle → OutboundLifecycle
mark_closed (failed err) = failed err
mark_closed _ = closed

abbrev pub can_drain_chunks : OutboundLifecycle → Bool
can_drain_chunks (failed err) = false
can_drain_chunks closed = false
can_drain_chunks _ = true

abbrev pub is_closed : OutboundLifecycle → Bool
is_closed closed = true
is_closed _ = false

abbrev pub final_chunk_materialized : OutboundLifecycle → Bool
final_chunk_materialized awaiting_complete = true
final_chunk_materialized completed = true
final_chunk_materialized _ = false

pub record OutboundState : Type 0 where
  pub lifecycle : OutboundLifecycle
  pub chunks : OutboundChunks

-- `OutboundRingBuffer::new`
unfoldable pub new : ℕ → ℕ → Fallible OutboundState
new chunk_size window_size =
    if chunk_size == 0 || window_size == 0
    then failure_of (record { kind = protocol_violation; message = none })
    else value (record { lifecycle = opened; chunks = Outbound.new chunk_size window_size })

pub data TryPushAvailable : Type 0 where
  accepted : ℕ → TryPushAvailable
  full busy : TryPushAvailable

abbrev pub after_push :
    OutboundState → Option PushState → Option (OutboundState × Fallible TryPushAvailable)
after_push s none = none
after_push s (some p) =
    some (
      record s { chunks = p.chunks },
      value (if p.accepted == 0 then full else accepted p.accepted),
    )

abbrev pub push_if :
    Fallible (Unit {0})
    → OutboundState
    → List ℕ
    → Option (OutboundState × Fallible TryPushAvailable)
push_if (failure_of err) s bytes = some (s, failure_of err)
push_if (value done) s bytes =
    if not (can_accept_bytes s.chunks)
    then some (s, value full)
    else after_push s (push_available s.chunks bytes)

-- `locked`: another task holds the lock. The outer `none` means that the push ran out of fuel.
unfoldable pub try_push_available :
    Bool → OutboundState → List ℕ → Option (OutboundState × Fallible TryPushAvailable)
try_push_available locked s bytes =
    if locked then some (s, value busy) else push_if (sender_error s.lifecycle) s bytes

-- How a round of the loop of `seal` ends.
pub data SealRound : Type 0 where
  sealed waits : SealRound
  refused : AureliaError → SealRound

abbrev pub seal_with : OutboundState → OutboundChunks × FinalizeDecision → OutboundState × SealRound
seal_with s (chunks, wait_for_capacity) = (record s { chunks = chunks }, waits)
seal_with s (chunks, finalized notify_waiters) =
    (record { lifecycle = mark_final_chunk_sent s.lifecycle; chunks = chunks }, sealed)

abbrev pub seal_if : Fallible (Unit {0}) → OutboundState → OutboundState × SealRound
seal_if (failure_of err) s = (s, refused err)
seal_if (value done) s =
    if final_chunk_materialized s.lifecycle
    then (s, sealed)
    else seal_with (record s { lifecycle = mark_sealed s.lifecycle }) (Transfer.finalize s.chunks)

unfoldable pub seal_round : OutboundState → OutboundState × SealRound
seal_round s = seal_if (seal_error s.lifecycle) s

abbrev pub keep_lease :
    OutboundState → OutboundChunks × Option ChunkWriteLease → OutboundState × Option ChunkWriteLease
keep_lease s (chunks, lease) = (record s { chunks = chunks }, lease)

unfoldable pub lease_next_chunk_for_write :
    OutboundState → ℕ → ℕ → OutboundState × Option ChunkWriteLease
lease_next_chunk_for_write s callis_id peer_msg_id =
    if not (can_drain_chunks s.lifecycle)
    then (s, none)
    else keep_lease s (Transfer.lease_next_chunk_for_write s.chunks callis_id peer_msg_id)

unfoldable pub mark_chunk_inflight : OutboundState → ChunkWriteLease → OutboundState
mark_chunk_inflight s lease = record s { chunks = (Transfer.mark_inflight s.chunks lease).0 }

unfoldable pub mark_callis_replay_ready : OutboundState → ℕ → OutboundState
mark_callis_replay_ready s callis_id = record s {
  chunks = (Transfer.mark_callis_replay_ready s.chunks callis_id).0;
}

unfoldable pub has_dispatchable_replay : OutboundState → Bool
has_dispatchable_replay s = can_drain_chunks s.lifecycle && Transfer.has_replay_ready s.chunks

unfoldable pub has_dispatchable_fresh : OutboundState → Bool
has_dispatchable_fresh s = can_drain_chunks s.lifecycle && Transfer.has_fresh_ready s.chunks

unfoldable pub note_ack : OutboundState → ℕ → OutboundState
note_ack s peer_msg_id = record s { chunks = (Transfer.note_completion s.chunks peer_msg_id ack).0 }

unfoldable pub note_error : OutboundState → ℕ → AureliaError → OutboundState
note_error s peer_msg_id err = record {
  lifecycle = replace_failure err s.lifecycle;
  chunks = (Transfer.note_completion s.chunks peer_msg_id error).0;
}

unfoldable pub fail : OutboundState → AureliaError → OutboundState
fail s err = record s { lifecycle = mark_failed err s.lifecycle }

unfoldable pub complete : OutboundState → OutboundState
complete s = record s { lifecycle = mark_complete s.lifecycle }

unfoldable pub close : OutboundState → OutboundState
close s = record s { lifecycle = mark_closed s.lifecycle }

abbrev pub unless_failed :
    Option AureliaError → Option (Fallible (Unit {0})) → Option (Fallible (Unit {0}))
unless_failed (some err) rest = some (failure_of err)
unless_failed none rest = rest

-- What the three waits check each time that they wake up.
unfoldable pub capacity_check : OutboundState → Option (Fallible (Unit {0}))
capacity_check s = unless_failed (failure s.lifecycle) (
    if is_closed s.lifecycle
    then some (failure_of unavailable)
    else if can_accept_bytes s.chunks
    then some (value tt)
    else none)

unfoldable pub inflight_drain_check : OutboundState → Option (Fallible (Unit {0}))
inflight_drain_check s =
    unless_failed (failure s.lifecycle) (if s.chunks.inflight == 0 then some (value tt) else none)

abbrev pub is_completed : OutboundLifecycle → Bool
is_completed completed = true
is_completed _ = false

unfoldable pub complete_check : OutboundState → Option (Fallible (Unit {0}))
complete_check s =
    unless_failed (failure s.lifecycle)
      (if is_completed s.lifecycle && Transfer.is_drained s.chunks then some (value tt) else none)

abbrev pub or_wait :
    Option (Fallible (Unit {0})) → Option (Fallible (Unit {0})) → Option (Fallible (Unit {0}))
or_wait (some result) rest = some result
or_wait none rest = rest

-- A round of a wait: the state that it checks, the time after the check, and whether the timer ends
-- before the next notification.
pub record Wake : Type 0 where
  pub state : OutboundState
  pub now : ℕ
  pub timed_out : Bool

abbrev pub timeout_error : Fallible (Unit {0})
timeout_error = failure_of (record { kind = send_timeout; message = none })

-- The loop of a wait, over its rounds; `none` while it waits.
unfoldable pub wait_for_deadline :
    (OutboundState → Option (Fallible (Unit {0}))) → ℕ → List Wake → Option (Fallible (Unit {0}))
wait_for_deadline check deadline [] = none
wait_for_deadline check deadline (wake ∷ wakes) =
    let rest = wait_for_deadline check deadline wakes in
    or_wait (check wake.state)
      (if deadline - wake.now == 0 || wake.timed_out then some timeout_error else rest)
