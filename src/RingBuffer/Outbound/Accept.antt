-- ===== src/RingBuffer/Outbound/Accept.antt =====
-- `push_available` as a whole: the fuel is enough, and it takes bytes exactly where `can_accept_bytes` says so.
use aurelia.Prelude.{
  ℕ, zero, suc, ◌+◌, ◌-◌, ◌≤◌, ◌<◌, min, ◌≡◌, refl, sym, ap, ◌∙◌, ◌≢◌, inl, inr, Bool, true, false,
  Option, none, some, List, [], ◌∷◌, arith, ltb, ltb→lt, Bool-cases, Option-cases, length, is_empty,
  take, drop, length-append, length-take, length-drop,
}
use aurelia.RingBuffer.Outbound.{
  can_accept_bytes, finish, flush_with, push_available, flush_pending, OutboundChunks, PushState,
  split_with, enqueue_chunk, place, fill, split_chunk, push_loop, has_window_capacity_for,
  next_empty_slot,
}
use aurelia.RingBuffer.Outbound.{live_chunk_count, finish, push_fuel, start_push}
use aurelia.RingBuffer.Outbound.Emission.{Chunk, SameWindow-refl, nothing}
use aurelia.RingBuffer.Outbound.Push.{
  IsOpen, Progress, fill-Progress, push_loop-Progress, flush_with-Progress,
}

pub enqueue_chunk-buffer :
    (s : OutboundChunks) (chunk : List ℕ) (is_last : Bool)
    → ((enqueue_chunk s chunk is_last).write_buf ≡ s.write_buf)
      × ((enqueue_chunk s chunk is_last).chunk_size ≡ s.chunk_size)
      × ((enqueue_chunk s chunk is_last).pending_full ≡ s.pending_full)
unfolding enqueue_chunk place
enqueue_chunk-buffer s chunk is_last = elim (Option-cases (next_empty_slot s)) [
  | inl e ↦ rw (e, enqueue_chunk) (refl, refl, refl)
  | inr (index, e) ↦ rw (e, enqueue_chunk) (refl, refl, refl)
]

-- What the round of the loop does to the buffer and the rest of the bytes.
split_with-buffer :
    (p : PushState) (pending : Option (List ℕ))
    → ((split_with p pending).chunks.write_buf ≡ drop p.chunks.chunk_size p.chunks.write_buf)
      × ((split_with p pending).chunks.chunk_size ≡ p.chunks.chunk_size)
      × ((split_with p pending).rest ≡ p.rest)
      × ((split_with p pending).accepted ≡ p.accepted)
unfolding split_with
split_with-buffer p none = (refl, refl, refl, refl)
split_with-buffer p (some pending) =
    let (buf, size, _) =
      enqueue_chunk-buffer
        (record p.chunks {
          write_buf = drop p.chunks.chunk_size p.chunks.write_buf;
          created_any = true;
          pending_full = none;
        })
        pending false in
    (buf, size, refl, refl)

split_chunk-buffer :
    (p : PushState)
    → ((split_chunk p).chunks.write_buf ≡ drop p.chunks.chunk_size p.chunks.write_buf)
      × ((split_chunk p).chunks.chunk_size ≡ p.chunks.chunk_size)
      × ((split_chunk p).rest ≡ p.rest)
      × ((split_chunk p).accepted ≡ p.accepted)
unfolding split_chunk
split_chunk-buffer p = split_with-buffer p p.chunks.pending_full

fill-length :
    (p : PushState)
    → length (fill p).chunks.write_buf + length (fill p).rest
      ≡ length p.chunks.write_buf + length p.rest
unfolding fill
fill-length p =
    let n : ℕ = min (length p.rest) (p.chunks.chunk_size - length p.chunks.write_buf) in
    omega (
      arith,
      length-append p.chunks.write_buf (take n p.rest),
      length-take n p.rest,
      length-drop n p.rest,
    )

fill-size : (p : PushState) → (fill p).chunks.chunk_size ≡ p.chunks.chunk_size
unfolding fill
fill-size p = refl

-- Each round moves a chunk out of the buffer, so the fuel of `push_available` is enough.
push_loop-some :
    (fuel : ℕ) (p : PushState)
    → 0 < p.chunks.chunk_size
    → length p.chunks.write_buf + length p.rest < fuel
    → push_loop fuel p ≢ none
unfolding push_loop
push_loop-some zero p pos h e = omega arith
push_loop-some (suc fuel) p pos h e =
    elim (Bool-cases (ltb (length p.chunks.write_buf) p.chunks.chunk_size)) [
      | inl short ↦ ground arith
      | inr long ↦ elim (Bool-cases (has_window_capacity_for p.chunks 1)) [
        | inr full ↦ ground arith
        | inl capacity ↦ elim (Bool-cases (is_empty p.rest)) [
          | inl done ↦ ground arith
          | inr more ↦
              let (buf, size, rest, acc) = split_chunk-buffer p in
              push_loop-some fuel (fill (split_chunk p))
                (omega (arith, pos, size, fill-size (split_chunk p)))
                (ground (
                  arith,
                  h,
                  fill-length (split_chunk p),
                  ap length buf,
                  ap length rest,
                  length-drop p.chunks.chunk_size p.chunks.write_buf,
                  pos,
                ))
                (ground arith)
        ]
      ]
    ]

-- On a window that is open, push_available never runs out of fuel; the bytes that it accepts are
-- the first ones of its input, and the full chunks that it puts into empty slots, followed by the
-- bytes still held and those not accepted, are the bytes held before followed by the input; the
-- result is an open window again, never over its size.
pub push_available-accepts :
    (s : OutboundChunks) (bytes : List ℕ)
    → IsOpen s
    → (p : PushState) × (push_available s bytes ≡ some p)
      × (cs : List Chunk) × Progress s bytes cs p
unfolding push_available flush_pending
push_available-accepts s bytes ok =
    elim (Option-cases (push_loop (push_fuel s bytes) (fill (start_push s bytes)))) [
      | inl e ↦ absurd (
          push_loop-some (push_fuel s bytes) (fill (start_push s bytes))
            (omega (arith, ok.chunk_pos, fill-size (start_push s bytes)))
            (omega (arith, fill-length (start_push s bytes))) e)
      | inr (q, e) ↦
          let (cs, g) =
            push_loop-Progress s bytes (push_fuel s bytes) [] (fill (start_push s bytes)) q
              (fill-Progress s bytes [] (start_push s bytes) start) e in
          let (ds, h) = flush_with-Progress s bytes cs q q.chunks.pending_full refl g in
          (flush_pending q, rw (e, push_available) refl, ds, h)
    ]
  where
    start : Progress s bytes [] (start_push s bytes)
    start = record {
      emits = nothing (SameWindow-refl s);
      stream = refl;
      counted = omega arith;
      tail = refl;
      full = tt;
      chunk_size = refl;
      is_open = ok;
    }

push_loop-accepted :
    (fuel : ℕ) (p q : PushState) → push_loop fuel p ≡ some q → p.accepted ≤ q.accepted
unfolding push_loop fill
push_loop-accepted zero p q h = cc
push_loop-accepted (suc fuel) p q h =
    ground (arith, push_loop-accepted fuel (fill (split_chunk p)) q, split_chunk-buffer p)

flush_pending-accepted : (p : PushState) → (flush_pending p).accepted ≡ p.accepted
unfolding flush_pending flush_with
flush_pending-accepted p = go p.chunks.pending_full
  where
    go : (o : Option (List ℕ)) → (flush_with p o).accepted ≡ p.accepted
    go none = refl
    go (some pending) = ground arith

length-pos : (xs : List ℕ) → is_empty xs ≡ false → 0 < length xs
length-pos [] h = cc
length-pos (x ∷ xs) h = omega arith

fill-takes :
    (p : PushState)
    → length p.chunks.write_buf < p.chunks.chunk_size
    → is_empty p.rest ≡ false
    → p.accepted < (fill p).accepted
unfolding fill
fill-takes p room more = omega (arith, room, length-pos p.rest more)

-- With a full buffer the first step of a push takes nothing.
fill_full :
    (s : OutboundChunks) (bytes : List ℕ)
    → length s.write_buf ≡ s.chunk_size
    → ((fill (start_push s bytes)).rest ≡ bytes)
      × ((fill (start_push s bytes)).accepted ≡ 0)
      × (has_window_capacity_for (fill (start_push s bytes)).chunks 1 ≡ has_window_capacity_for s 1)
unfolding fill has_window_capacity_for live_chunk_count
fill_full s bytes e =
    let z : min (length bytes) (s.chunk_size - length s.write_buf) ≡ 0 = omega (arith, e) in
    (ap (λ n. drop n bytes) z, omega (arith, z), refl)

push_loop_full :
    (s : OutboundChunks) (bytes : List ℕ) (fuel : ℕ) (q : PushState)
    → IsOpen s
    → is_empty bytes ≡ false
    → length s.write_buf ≡ s.chunk_size
    → push_loop fuel (fill (start_push s bytes)) ≡ some q
    → has_window_capacity_for s 1 ≡ ltb 0 q.accepted
unfolding push_loop
push_loop_full s bytes zero q ok more full e = cc
push_loop_full s bytes (suc fuel) q ok more full e =
    let p : PushState = fill (start_push s bytes) in
    let (rest, acc, cap) = fill_full s bytes full in
    let (buf, size, rest', acc') = split_chunk-buffer p in
    let len : length p.chunks.write_buf + length p.rest ≡ length s.write_buf + length bytes =
      fill-length (start_push s bytes) in
    let same : p.chunks.chunk_size ≡ s.chunk_size = fill-size (start_push s bytes) in
    let room : length (split_chunk p).chunks.write_buf < (split_chunk p).chunks.chunk_size = omega (
      arith,
      ap length buf,
      length-drop p.chunks.chunk_size p.chunks.write_buf,
      len,
      same,
      ap length rest,
      full,
      size,
      ok.chunk_pos,
    ) in
    let takes : (split_chunk p).accepted < (fill (split_chunk p)).accepted =
      fill-takes (split_chunk p) room (ap is_empty rest' ∙ ap is_empty rest ∙ more) in
    let rest_more : is_empty p.rest ≡ false = ap is_empty rest ∙ more in
    let long : length p.chunks.write_buf ≡ p.chunks.chunk_size =
      omega (arith, len, same, ap length rest, full) in
    ground (
      arith,
      rest_more,
      cap,
      acc,
      acc',
      takes,
      long,
      push_loop-accepted fuel (fill (split_chunk p)) q,
    )

-- The loop takes more bytes exactly where it can split a chunk off a full buffer.
push_loop-takes :
    (s : OutboundChunks) (bytes : List ℕ) (fuel : ℕ) (q : PushState)
    → IsOpen s
    → is_empty bytes ≡ false
    → push_loop fuel (fill (start_push s bytes)) ≡ some q
    → can_accept_bytes s ≡ ltb 0 q.accepted
unfolding can_accept_bytes
push_loop-takes s bytes fuel q ok more e =
    elim (Bool-cases (ltb (length s.write_buf) s.chunk_size)) [
      | inl short ↦
          let takes : 0 < (fill (start_push s bytes)).accepted =
            fill-takes (start_push s bytes) (ltb→lt _ _ short) more in
          ground (arith, takes, push_loop-accepted fuel (fill (start_push s bytes)) q e)
      | inr long ↦
          ground (arith, push_loop_full s bytes fuel q ok more (ground (arith, ok.buffer)) e)
    ]

-- On a window that is open, a push of at least one byte accepts some bytes if and only if
-- can_accept_bytes held before.
pub push_available-can_accept_bytes :
    (s : OutboundChunks) (bytes : List ℕ) (p : PushState)
    → IsOpen s
    → is_empty bytes ≡ false
    → push_available s bytes ≡ some p
    → can_accept_bytes s ≡ ltb 0 p.accepted
unfolding push_available
push_available-can_accept_bytes s bytes p ok more e =
    elim (Option-cases (push_loop (push_fuel s bytes) (fill (start_push s bytes)))) [
      | inl none_left ↦ ground arith
      | inr (q, h) ↦
          let same : p ≡ flush_pending q = ground (arith, ap finish h) in
          push_loop-takes s bytes _ q ok more h
          ∙ ap (ltb 0) (sym (flush_pending-accepted q) ∙ ap (λ x. x.accepted) (sym same))
    ]
