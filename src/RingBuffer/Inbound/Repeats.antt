-- ===== src/RingBuffer/Inbound/Repeats.antt =====
-- Retransmission: a chunk that is there already, or was delivered, is answered as a duplicate.
use aurelia.Prelude.{ℕ, ◌≤◌, ◌<◌, ◌≡◌, ap, ◌∙◌, ◌⊎◌, inl, inr, Bool, true, List, arith, length}
use aurelia.Prelude.Maps.{contains_key, get-insert}
use aurelia.Ids.{ok}
use aurelia.RingBuffer.Inbound.{
  InboundState, duplicate, stored, with_chunk, store_chunk, note_stored, insert_chunk,
}
use aurelia.RingBuffer.Inbound.Invariant.{IsValid, insert_chunk-IsValid}

-- A chunk that is stored or was delivered before is refused as a duplicate, and nothing changes,
-- whatever its bytes, if they fit a chunk.
pub insert_chunk_known :
    (s : InboundState) (chunk_id : ℕ) (bytes : List ℕ) (is_last : Bool)
    → IsValid s
    → length bytes ≤ s.chunk_size
    → (chunk_id < s.next_deliver) ⊎ (contains_key s.received chunk_id ≡ true)
    → insert_chunk s chunk_id bytes is_last ≡ (s, ok duplicate)
unfolding insert_chunk
insert_chunk_known s chunk_id bytes is_last v fits (inl old) = ground arith
insert_chunk_known s chunk_id bytes is_last v fits (inr there) =
    ground (arith, v.window.above chunk_id there, v.window.small chunk_id there)

store_chunk-contains :
    (s : InboundState) (k : ℕ) (bytes : List ℕ) (is_last : Bool)
    → (contains_key (store_chunk s k bytes is_last).0.received k ≡ true)
      × ((store_chunk s k bytes is_last).0.chunk_size ≡ s.chunk_size)
unfolding store_chunk note_stored with_chunk
store_chunk-contains s k bytes is_last = ground (arith, get-insert s.received k bytes k)

insert_chunk-not_stored :
    (s : InboundState) (k : ℕ) (bytes : List ℕ) (is_last : Bool) (complete wait : Bool)
    → (insert_chunk s k bytes is_last).1 ≡ ok (stored complete wait)
    → (length bytes ≤ s.chunk_size)
      × (insert_chunk s k bytes is_last ≡ store_chunk s k bytes is_last)
unfolding insert_chunk
insert_chunk-not_stored s k bytes is_last complete wait h = ground arith

-- On a valid window a chunk that was stored is answered as a duplicate when it arrives again, with
-- the same last flag or another, and the second arrival changes nothing.
pub insert_chunk_twice :
    (s : InboundState) (chunk_id : ℕ) (bytes : List ℕ) (is_last again complete wait : Bool)
    → IsValid s
    → (insert_chunk s chunk_id bytes is_last).1 ≡ ok (stored complete wait)
    → let s' = (insert_chunk s chunk_id bytes is_last).0 in
      insert_chunk s' chunk_id bytes again ≡ (s', ok duplicate)
insert_chunk_twice s k bytes is_last again complete wait v h =
    let (fits, e) = insert_chunk-not_stored s k bytes is_last complete wait h in
    let (there, size) = store_chunk-contains s k bytes is_last in
    insert_chunk_known (insert_chunk s k bytes is_last).0 k bytes again
      (insert_chunk-IsValid s k bytes is_last v)
      (omega (arith, fits, ap (λ r. r.0.chunk_size) e, size))
      (inr (ap (λ r. contains_key r.0.received k) e ∙ there))
