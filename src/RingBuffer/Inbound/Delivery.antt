-- ===== src/RingBuffer/Inbound/Delivery.antt =====
-- What the reader of a blob gets: the sender's chunks in order, each once, however they arrive.
use aurelia.Prelude.{
  ℕ, zero, suc, ◌+◌, ◌-◌, ◌≤◌, ◌≡◌, sym, ap, subst, ◌∙◌, ◌≢◌, inl, inr, Bool, Option, none, some,
  List, [], ◌∷◌, arith,
}
use native.Mathlib.Nat.{sub_self}
use mathlib.Core.Path.{ap₂}
use aurelia.Prelude.Maps.{get, insert, remove, get-insert, get-remove}
use aurelia.Ids.{ok}
use aurelia.RingBuffer.Inbound.{
  InboundState, new, with_chunk, store_chunk, note_stored, insert_chunk, take_next,
}
use aurelia.RingBuffer.Inbound.Invariant.{
  IsValid, new-IsValid, insert_chunk-cases, insert_chunk-IsValid, take_next-cases,
  take_next-IsValid,
}

-- The sender's chunk `k` has the bytes `sent k`, in whatever order, how often and with whatever last
-- flag it arrives.
pub data Event : Type 0 where
  arrives : ℕ → Bool → Event
  takes : Event

-- The chunks `from`, `from + 1`, …, `count` of them.
pub chunks : (ℕ → List ℕ) → ℕ → ℕ → List (List ℕ)
chunks sent from zero = []
chunks sent from (suc count) = sent from ∷ chunks sent (from + 1) count

new_starts :
    (chunk_size window_size : ℕ) (s : InboundState)
    → new chunk_size window_size ≡ ok s
    → (s.next_deliver ≡ 0) × ((k : ℕ) (bytes : List ℕ) → get s.received k ≢ some bytes)
unfolding new get
new_starts c w s e = (ground arith, λ k bytes h. ground arith)

module _ (sent : ℕ → List ℕ) where
  unfoldable pub step : InboundState → Event → InboundState × Option (List ℕ)
  step s (arrives chunk_id is_last) = ((insert_chunk s chunk_id (sent chunk_id) is_last).0, none)
  step s takes = take_next s

  abbrev emit : Option (List ℕ) → List (List ℕ) → List (List ℕ)
  emit none out = out
  emit (some bytes) out = bytes ∷ out

  -- The final state, and what the reader was given.
  unfoldable pub run : InboundState → List Event → InboundState × List (List ℕ)
  run s [] = (s, [])
  run s (e ∷ es) = let (s', given) = step s e in let (s'', out) = run s' es in (s'', emit given out)

  -- What is stored is what was sent.
  Genuine : InboundState → Type 0
  Genuine s = (k : ℕ) (bytes : List ℕ) → get s.received k ≡ some bytes → bytes ≡ sent k

  store_chunk-received :
      (s : InboundState) (k : ℕ) (bytes : List ℕ) (is_last : Bool)
      → (store_chunk s k bytes is_last).0.received ≡ insert s.received k bytes
  unfolding store_chunk note_stored with_chunk
  store_chunk-received s k bytes is_last = ground arith

  store_chunk-next_deliver :
      (s : InboundState) (k : ℕ) (bytes : List ℕ) (is_last : Bool)
      → (store_chunk s k bytes is_last).0.next_deliver ≡ s.next_deliver
  unfolding store_chunk note_stored with_chunk
  store_chunk-next_deliver s k bytes is_last = ground arith

  arrives-Genuine :
      (s : InboundState) (k : ℕ) (is_last : Bool)
      → Genuine s
      → Genuine (insert_chunk s k (sent k) is_last).0
  unfolding Genuine
  arrives-Genuine s k is_last g j bytes h = elim (insert_chunk-cases s k (sent k) is_last) [
    | inl same ↦ g j bytes (rw same at h)
    | inr (_, e) ↦ ground (
      arith,
      ap (λ r. get r.0.received j) e,
      ap (λ m. get m j) (store_chunk-received s k (sent k) is_last),
      get-insert s.received k (sent k) j,
      g j bytes,
      h,
    )
  ]

  arrives-next_deliver :
      (s : InboundState) (k : ℕ) (is_last : Bool)
      → (insert_chunk s k (sent k) is_last).0.next_deliver ≡ s.next_deliver
  arrives-next_deliver s k is_last = elim (insert_chunk-cases s k (sent k) is_last) [
    | inl same ↦ ap (λ r. r.next_deliver) same
    | inr (_, e) ↦ ap (λ r. r.0.next_deliver) e ∙ store_chunk-next_deliver s k (sent k) is_last
  ]

  remove-Genuine :
      (s : InboundState) (d : ℕ)
      → Genuine s
      → (k : ℕ) (bytes : List ℕ) → get (remove s.received d) k ≡ some bytes
      → bytes ≡ sent k
  unfolding Genuine
  remove-Genuine s d g k bytes h = ground (arith, get-remove s.received d k, g k bytes)

  -- From the chunk `first` on, the sender's chunks up to the next delivery.
  Delivers : ℕ → InboundState × List (List ℕ) → Type 0
  Delivers first (s, out) =
      (first ≤ s.next_deliver) × (out ≡ chunks sent first (s.next_deliver - first))

  one_more :
      (first : ℕ) (s : InboundState) (out : List (List ℕ)) (bytes : List ℕ)
      → bytes ≡ sent first
      → Delivers (first + 1) (s, out)
      → Delivers first (s, bytes ∷ out)
  unfolding Delivers chunks
  one_more first s out bytes e (le, rest) =
      let n : s.next_deliver - first ≡ suc (s.next_deliver - (first + 1)) = omega arith in
      (omega arith, rw (n, e, rest))

  run-Delivers :
      (s : InboundState) (es : List Event)
      → IsValid s
      → Genuine s
      → Delivers s.next_deliver (run s es)
  unfolding run step
  run-Delivers s [] v g =
      unfold Delivers chunks in
      (omega arith, ap (chunks sent s.next_deliver) (sym (sub_self s.next_deliver)))
  run-Delivers s (arrives k is_last ∷ es) v g =
      subst (λ d. Delivers d (run (insert_chunk s k (sent k) is_last).0 es))
        (arrives-next_deliver s k is_last)
        (run-Delivers (insert_chunk s k (sent k) is_last).0 es
          (insert_chunk-IsValid s k (sent k) is_last v) (arrives-Genuine s k is_last g))
  run-Delivers s (takes ∷ es) v g = elim (take_next-cases s v) [
    | inl (_, e) ↦ subst after (sym e) (run-Delivers s es v g)
    | inr (bytes, found, _, e) ↦ subst after (sym e) (
        one_more s.next_deliver _ _ bytes (unfold Genuine in g s.next_deliver bytes found) (
          run-Delivers
            (record s {
              received = remove s.received s.next_deliver;
              next_deliver = s.next_deliver + 1;
            })
            es (subst (λ r. IsValid r.0) e (take_next-IsValid s v))
            (unfold Genuine in remove-Genuine s s.next_deliver g)))
  ]
    where
      after : InboundState × Option (List ℕ) → Type 0
      after (t, given) = let (t', out) = run t es in Delivers s.next_deliver (t', emit given out)

  -- From a new inbound buffer, for every sequence of arrivals and takes, the reader is given
  -- exactly the sender's chunks 0, 1, … up to the next delivery, in order and each once.
  pub run_delivers_in_order :
      (chunk_size window_size : ℕ) (s : InboundState) (es : List Event)
      → new chunk_size window_size ≡ ok s
      → (run s es).1 ≡ chunks sent 0 (run s es).0.next_deliver
  unfolding Delivers Genuine
  run_delivers_in_order chunk_size window_size s es e =
      let (d, empty) = new_starts chunk_size window_size s e in
      let (_, out) =
        run-Delivers s es (new-IsValid chunk_size window_size s e)
          (λ k bytes h. absurd (empty k bytes h)) in
      out ∙ ap₂ (λ a n. chunks sent a n) d (rw d (omega arith))
