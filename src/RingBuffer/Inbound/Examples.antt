-- ===== src/RingBuffer/Inbound/Examples.antt =====
-- Tests of the inbound window, and its theorems at concrete inputs.
use aurelia.Prelude.{ℕ, ◌+◌, ◌≡◌, refl, true, false, none, List, [], ◌∷◌}
use aurelia.Prelude.Maps.{get, insert, remove}
use aurelia.Ids.{ok, err, blob_ack_window_exceeded, blob_stream_missing_chunk}
use aurelia.RingBuffer.Inbound.{
  InboundState, stored, new, advance, with_chunk, store_chunk, note_stored, insert_chunk, take_next,
  has_blocking_gap,
}
use aurelia.RingBuffer.Inbound.Invariant.{
  IsValid, new-IsValid, insert_chunk-IsValid, take_next-IsValid,
}
use aurelia.RingBuffer.Inbound.Delivery.{
  Event, arrives, takes, chunks, run, step, run_delivers_in_order,
}

abbrev fresh : InboundState
fresh = record {
  chunk_size = 4;
  window_size = 2;
  next_expected = 0;
  next_deliver = 0;
  last_chunk_id = none;
  received = [];
}

new-fresh : new 4 2 ≡ ok fresh
unfolding new
new-fresh = refl

fresh-IsValid : IsValid fresh
fresh-IsValid = new-IsValid 4 2 fresh new-fresh

abbrev sent : ℕ → List ℕ
sent k = k ∷ (k + 10) ∷ []

-- Chunk 1 arrives before chunk 0, and chunk 1 once more.
abbrev shuffled : List Event
shuffled =
    arrives 1 false
    ∷ takes
    ∷ arrives 0 false
    ∷ arrives 1 false
    ∷ takes
    ∷ arrives 2 true
    ∷ takes
    ∷ takes
    ∷ []

run-shuffled : (run sent fresh shuffled).1 ≡ (0 ∷ 10 ∷ []) ∷ (1 ∷ 11 ∷ []) ∷ (2 ∷ 12 ∷ []) ∷ []
unfolding run step insert_chunk store_chunk note_stored with_chunk advance has_blocking_gap
    take_next get insert remove
run-shuffled = refl

outside_window : (insert_chunk fresh 2 [] false).1 ≡ err blob_ack_window_exceeded
unfolding insert_chunk
outside_window = refl

early_last : (insert_chunk fresh 1 [] true).1 ≡ err blob_stream_missing_chunk
unfolding insert_chunk get
early_last = refl

run_delivers_in_order_example :
    (run sent fresh shuffled).1 ≡ chunks sent 0 (run sent fresh shuffled).0.next_deliver
run_delivers_in_order_example = run_delivers_in_order sent 4 2 fresh shuffled new-fresh

insert_chunk-IsValid_example : IsValid (insert_chunk fresh 1 (7 ∷ []) false).0
insert_chunk-IsValid_example = insert_chunk-IsValid fresh 1 (7 ∷ []) false fresh-IsValid

take_next-IsValid_example : IsValid (take_next (insert_chunk fresh 0 (7 ∷ []) false).0).0
take_next-IsValid_example =
    take_next-IsValid (insert_chunk fresh 0 (7 ∷ []) false).0
      (insert_chunk-IsValid fresh 0 (7 ∷ []) false fresh-IsValid)

insert_first : (insert_chunk fresh 0 (7 ∷ []) false).1 ≡ ok (stored false false)
unfolding insert_chunk store_chunk note_stored with_chunk advance has_blocking_gap get insert remove
insert_first = refl
