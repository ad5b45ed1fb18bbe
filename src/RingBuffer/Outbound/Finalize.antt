-- ===== src/RingBuffer/Outbound/Finalize.antt =====
-- `finalize`: with capacity it emits exactly the buffered bytes, with one last chunk.
use aurelia.Prelude.{
  ℕ, ◌+◌, ◌≤◌, ◌<◌, ◌≡◌, refl, sym, ap, subst, ◌∙◌, ◌⊎◌, inl, inr, true, false, not, ◌&&◌, ◌||◌,
  Option, none, some, List, [], ◌∷◌, ◌++◌, append-nil, arith, is_some, leb→le, Bool-cases,
  Option-cases, All, length, is_empty,
}
use aurelia.RingBuffer.Outbound.{
  OutboundChunks, wait_for_capacity, finalized, enqueue_chunk, count_live, live_chunk_count,
  as_usize, has_window_capacity_for, PushState, flush_with, flush_pending, push_available, finish,
  push_loop, push_fuel, start_push, fill,
}
use aurelia.RingBuffer.Outbound.Accept.{enqueue_chunk-buffer}
use aurelia.RingBuffer.Outbound.{
  push_available, flush_pending, PushState, flush_with, finish, push_loop, push_fuel, start_push,
  fill,
}
use aurelia.RingBuffer.Outbound.Transfer.{finalize, finalize_with, enqueue_rest, needs_extra}
use aurelia.RingBuffer.Outbound.Emission.{
  Chunk, bytes_of, opt_bytes, held, HasRoom, SameWindow-buffers, Emits, nothing, Emits-buffers,
  Emits-enqueue,
}
use aurelia.RingBuffer.Outbound.Push.{IsOpen, IsFull}

-- The stream is complete at `b`: all that `s` held is in full chunks and one last chunk.
pub record Closes (s : OutboundChunks) (cs : List Chunk) (last : List ℕ) (b : OutboundChunks)
    : Type 0 where
  pub emits : Emits s (cs ++ (last, true) ∷ []) b
  pub stream : bytes_of cs ++ last ≡ held s
  pub full : All (IsFull s.chunk_size) cs
  pub last_size : length last ≤ s.chunk_size
  pub nothing_held : held b ≡ []
  pub window : HasRoom b

-- The last step: the buffer is empty and one chunk is left.
close_with :
    (s m : OutboundChunks) (cs : List Chunk) (last : List ℕ)
    → Emits s cs m
    → bytes_of cs ++ last ≡ held s
    → All (IsFull s.chunk_size) cs
    → length last ≤ s.chunk_size
    → held m ≡ []
    → is_some m.pending_full ≡ false
    → length m.slots ≡ m.window_size
    → count_live m.slots < m.window_size
    → Closes s cs last (enqueue_chunk m last true)
close_with s m cs last r stream full small empty pend size room =
    let (emits, buf, pending, made, chunk, wsize, len, live) =
      Emits-enqueue s m cs last true r size room in
    record {
      emits = emits;
      stream = stream;
      full = full;
      last_size = small;
      nothing_held =
          ap (λ xs. opt_bytes xs ++ (enqueue_chunk m last true).write_buf) pending
          ∙ ap (λ xs. opt_bytes m.pending_full ++ xs) buf
          ∙ empty;
      window = record {
        size = len;
        room = ground (arith, live, wsize, room, ap is_some pending, pend);
      };
    }

needs_extra-some :
    (pending buf : List ℕ) → is_empty buf ≡ false → needs_extra (some pending) buf ≡ 1
needs_extra-some pending [] h = cc
needs_extra-some pending (x ∷ buf) h = refl

empty_is_nil : (xs : List ℕ) → is_empty xs ≡ true → xs ≡ []
empty_is_nil [] h = refl
empty_is_nil (x ∷ xs) h = cc

held_of :
    (s : OutboundChunks) (o : Option (List ℕ))
    → s.pending_full ≡ o
    → held s ≡ opt_bytes o ++ s.write_buf
held_of s o e = ap (λ x. opt_bytes x ++ s.write_buf) e

finalize_with-Closes :
    (s : OutboundChunks) (pending : Option (List ℕ))
    → s.pending_full ≡ pending
    → IsOpen s
    → has_window_capacity_for s (needs_extra pending s.write_buf) ≡ true
    → (cs : List Chunk) × (last : List ℕ) × Closes s cs last
        (finalize_with (record s { pending_full = none }) pending)
unfolding finalize_with enqueue_rest has_window_capacity_for live_chunk_count
finalize_with-Closes s (some pending) e ok capacity = elim (Bool-cases (is_empty s.write_buf)) [
  | inl none_left ↦ rw none_left (
    [],
    pending,
    close_with s (record s { pending_full = none }) [] pending
        (nothing (SameWindow-buffers s _ _ _))
        (sym (
          held_of s _ e ∙ ap (λ xs. pending ++ xs) (empty_is_nil _ none_left) ∙ append-nil pending))
        tt (omega (arith, ok.pending_full pending e)) (empty_is_nil _ none_left) refl ok.window.size
        (ground (arith, ok.window.room, ap is_some e)),
  )
  | inr some_left ↦
      let m : OutboundChunks = record s { pending_full = none } in
      let cap : count_live s.slots
            + as_usize (is_some s.pending_full)
            + needs_extra (some pending) s.write_buf
          ≤ s.window_size =
        leb→le _ _ capacity in
      let room : count_live s.slots + 1 < s.window_size =
        ground (arith, cap, ap is_some e, needs_extra-some pending s.write_buf some_left) in
      let b : OutboundChunks = enqueue_chunk m pending false in
      let (emits, buf, pend, made, size, wsize, len, live) =
        Emits-enqueue s m [] pending false (nothing (SameWindow-buffers s _ _ _)) ok.window.size
          (omega (arith, room)) in
      rw some_left (
        (pending, false) ∷ [],
        b.write_buf,
        close_with s (record b { write_buf = [] }) ((pending, false) ∷ []) b.write_buf
            (Emits-buffers emits (SameWindow-buffers b _ _ _))
            (ap (λ xs. xs ++ b.write_buf) (append-nil pending)
              ∙ ap (λ xs. pending ++ xs) buf
              ∙ sym (held_of s _ e))
            ((ok.pending_full pending e, refl), tt) (omega (arith, ok.buffer, ap length buf))
            (ap (λ o. opt_bytes o ++ []) pend) (ap is_some pend) len
            (omega (arith, live, wsize, room)),
      )
]
finalize_with-Closes s none e ok capacity =
    elim (Bool-cases (is_empty s.write_buf && s.created_any)) [
      | inl closed ↦ absurd (ground (arith, ok.holds, ap is_some e))
      | inr open_still ↦ rw open_still (
        [],
        s.write_buf,
        close_with s
            (record s {
              pending_full = none;
              write_buf = [];
              created_any = s.created_any || not (is_empty s.write_buf);
            })
            [] s.write_buf (nothing (SameWindow-buffers s _ _ _)) (sym (held_of s _ e)) tt ok.buffer
            refl refl ok.window.size (ground (arith, leb→le _ _ capacity, ap is_some e)),
      )
    ]

-- On a window that is open, finalize either answers that it was finalized, having put all the held
-- bytes into full chunks and one last chunk, in order and each in an empty slot, or changes nothing
-- and answers that it waits for capacity.
pub finalize-Closes :
    (s : OutboundChunks)
    → IsOpen s
    → (((finalize s).1 ≡ finalized true)
        × (cs : List Chunk) × (last : List ℕ) × Closes s cs last (finalize s).0)
      ⊎ (finalize s ≡ (s, wait_for_capacity))
unfolding finalize
finalize-Closes s ok =
    elim (Bool-cases (has_window_capacity_for s (needs_extra s.pending_full s.write_buf))) [
      | inl capacity ↦ inl (
          let (cs, last, closes) = finalize_with-Closes s s.pending_full refl ok capacity in
          rw capacity (refl, cs, last, closes))
      | inr full ↦ inr (rw full refl)
    ]

-- No pending chunk is left beside bytes in the buffer: so it is between operations.
abbrev pub IsFlushed : OutboundChunks → Type 0
IsFlushed s = is_some s.pending_full ≡ true → is_empty s.write_buf ≡ true

flush_with-IsFlushed :
    (p : PushState) (o : Option (List ℕ))
    → p.chunks.pending_full ≡ o
    → IsFlushed (flush_with p o).chunks
unfolding flush_with
flush_with-IsFlushed p none e = λ h. ground (arith, ap is_some e)
flush_with-IsFlushed p (some pending) e = elim (Bool-cases (is_empty p.chunks.write_buf)) [
  | inl none_left ↦ rw none_left (λ h. none_left)
  | inr some_left ↦
      let (_, _, pend) =
        enqueue_chunk-buffer (record p.chunks { pending_full = none }) pending false in
      rw some_left (λ h. ground (arith, h, ap is_some pend))
]

pub push_available-IsFlushed :
    (s : OutboundChunks) (bytes : List ℕ) (p : PushState)
    → push_available s bytes ≡ some p
    → IsFlushed p.chunks
unfolding push_available flush_pending
push_available-IsFlushed s bytes p e =
    elim (Option-cases (push_loop (push_fuel s bytes) (fill (start_push s bytes)))) [
      | inl out ↦ ground (arith, ap finish out)
      | inr (q, h) ↦
          let same : p ≡ flush_pending q = ground (arith, ap finish h) in
          subst (λ x. IsFlushed x.chunks) (sym same)
            (flush_with-IsFlushed q q.chunks.pending_full refl)
    ]

-- What a closing chunk needs beside the pending one: at most one slot in all.
needs_extra-le :
    (pending : Option (List ℕ)) (buf : List ℕ)
    → (is_some pending ≡ true → is_empty buf ≡ true)
    → as_usize (is_some pending) + needs_extra pending buf ≤ 1
needs_extra-le none buf h = omega arith
needs_extra-le (some x) [] h = omega arith
needs_extra-le (some x) (b ∷ buf) h = absurd (ground (arith, h refl))

-- Where no chunk is live, the window has a slot and no pending chunk stands beside buffered bytes,
-- finalize does not wait.
pub finalize-drained :
    (s : OutboundChunks)
    → IsFlushed s
    → 0 < s.window_size
    → live_chunk_count s ≡ 0
    → (finalize s).1 ≡ finalized true
unfolding finalize has_window_capacity_for
finalize-drained s flushed pos drained =
    let capacity : has_window_capacity_for s (needs_extra s.pending_full s.write_buf) ≡ true =
      ground (arith, pos, drained, needs_extra-le s.pending_full s.write_buf flushed) in
    rw capacity refl
