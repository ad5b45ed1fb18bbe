-- ===== src/RingBuffer/Outbound/Push.antt =====
-- `push_available`: the accepted bytes end up in full chunks and the buffers, in order, and the window
-- never overflows.
use aurelia.Prelude.{
  ℕ, zero, suc, ◌+◌, ◌-◌, ◌≤◌, ◌<◌, min, ◌≡◌, refl, sym, ap, subst, ◌∙◌, ◌⊎◌, inl, inr, true, false,
  Option, none, some, List, [], ◌∷◌, ◌++◌, append_assoc, append-nil, arith, ltb, is_some, leb→le,
  Bool-cases, All, length, is_empty, take, drop, length-append, take-append-drop, length-take,
  length-drop, drop-drop, append-ne-nil, All-append,
}
use aurelia.RingBuffer.Outbound.{
  split_chunk, flush_with, push_loop, live_chunk_count, OutboundChunks, PushState, split_with,
  count_live, as_usize, has_window_capacity_for, enqueue_chunk, fill,
}
use aurelia.RingBuffer.Outbound.Emission.{
  SameWindow-buffers, Chunk, bytes_of, opt_bytes, held, HasRoom, Emits, Emits-buffers,
  Emits-enqueue, bytes_of-append,
}

-- A full chunk that is not the last.
abbrev pub IsFull : ℕ → Chunk → Type 0
IsFull n (bytes, last) = (length bytes ≡ n) × (last ≡ false)

-- Between operations of an open stream.
pub record IsOpen (s : OutboundChunks) : Type 0 where
  pub window : HasRoom s
  pub chunk_pos : 0 < s.chunk_size
  pub pending_full : (bytes : List ℕ) → s.pending_full ≡ some bytes → length bytes ≡ s.chunk_size
  pub buffer : length s.write_buf ≤ s.chunk_size
  -- Once a chunk was made, some bytes are held back: they will be in the last chunk.
  pub holds :
      s.created_any ≡ true → (is_some s.pending_full ≡ true) ⊎ (is_empty s.write_buf ≡ false)

-- What a push of `bytes` from `s` has done at `p`.
pub record Progress (s : OutboundChunks) (bytes : List ℕ) (cs : List Chunk) (p : PushState)
    : Type 0 where
  pub emits : Emits s cs p.chunks
  pub stream : bytes_of cs ++ (held p.chunks ++ p.rest) ≡ held s ++ bytes
  pub counted : p.accepted + length p.rest ≡ length bytes
  pub tail : p.rest ≡ drop p.accepted bytes
  pub full : All (IsFull s.chunk_size) cs
  pub chunk_size : p.chunks.chunk_size ≡ s.chunk_size
  pub is_open : IsOpen p.chunks

regroup : (a b rest : List ℕ) (n : ℕ) → (a ++ (b ++ take n rest)) ++ drop n rest ≡ (a ++ b) ++ rest
regroup a b rest n = simp append_assoc (rw (take-append-drop n rest))

pub fill-Progress :
    (s : OutboundChunks) (bytes : List ℕ) (cs : List Chunk) (p : PushState)
    → Progress s bytes cs p
    → Progress s bytes cs (fill p)
unfolding fill
fill-Progress s bytes cs p g =
    let n : ℕ = min (length p.rest) (p.chunks.chunk_size - length p.chunks.write_buf) in
    record {
      emits = Emits-buffers g.emits (SameWindow-buffers p.chunks _ _ _);
      stream =
          ap (◌++◌ (bytes_of cs))
            (regroup (opt_bytes p.chunks.pending_full) p.chunks.write_buf p.rest n)
          ∙ g.stream;
      counted = omega (arith, length-drop n p.rest, g.counted);
      tail = ap (drop n) g.tail ∙ drop-drop p.accepted n bytes;
      full = g.full;
      chunk_size = g.chunk_size;
      is_open = record {
        window = record { size = g.is_open.window.size; room = g.is_open.window.room };
        chunk_pos = g.is_open.chunk_pos;
        pending_full = g.is_open.pending_full;
        buffer = omega (
          arith,
          length-append p.chunks.write_buf (take n p.rest),
          length-take n p.rest,
          g.is_open.buffer,
        );
        holds = λ h.
            ground (arith, g.is_open.holds h, append-ne-nil p.chunks.write_buf (take n p.rest));
      };
    }

-- What was to come after `n` bytes of the buffer comes after the chunk of them.
regroup_split :
    (done pending buf rest : List ℕ) (n : ℕ)
    → done ++ ((pending ++ buf) ++ rest)
      ≡ (done ++ (pending ++ [])) ++ ((take n buf ++ drop n buf) ++ rest)
regroup_split done pending buf rest n =
    rw (take-append-drop n buf) (simp (append_assoc, append-nil))

split_with-Progress :
    (s : OutboundChunks) (bytes : List ℕ) (cs : List Chunk) (p : PushState)
    (pending : Option (List ℕ))
    → p.chunks.pending_full ≡ pending
    → Progress s bytes cs p
    → p.chunks.chunk_size ≤ length p.chunks.write_buf
    → has_window_capacity_for p.chunks 1 ≡ true
    → (ds : List Chunk) × Progress s bytes ds (split_with p pending)
unfolding split_with has_window_capacity_for live_chunk_count
split_with-Progress s bytes cs p none e g enough capacity = (
  cs,
  record {
    emits = Emits-buffers g.emits (SameWindow-buffers p.chunks _ _ _);
    stream =
        ap (λ xs. bytes_of cs ++ (xs ++ p.rest))
          (take-append-drop p.chunks.chunk_size p.chunks.write_buf)
        ∙ subst
            (λ o. bytes_of cs ++ ((opt_bytes o ++ p.chunks.write_buf) ++ p.rest) ≡ held s ++ bytes)
            e g.stream;
    counted = g.counted;
    tail = g.tail;
    full = g.full;
    chunk_size = g.chunk_size;
    is_open = record {
      window = record {
        size = g.is_open.window.size;
        room = ground (arith, leb→le _ _ capacity, ap is_some e);
      };
      chunk_pos = g.is_open.chunk_pos;
      pending_full = λ x h.
          (let t : length (take p.chunks.chunk_size p.chunks.write_buf) ≡ p.chunks.chunk_size =
              omega (arith, length-take p.chunks.chunk_size p.chunks.write_buf) in
            ground (arith, t, h));
      buffer = omega (arith, length-drop p.chunks.chunk_size p.chunks.write_buf, g.is_open.buffer);
      holds = λ h. inl refl;
    };
  },
)
split_with-Progress s bytes cs p (some pending) e g enough capacity =
    let n : ℕ = p.chunks.chunk_size in
    let m : OutboundChunks = record p.chunks {
      write_buf = drop n p.chunks.write_buf;
      created_any = true;
      pending_full = none;
    } in
    let cap : count_live p.chunks.slots + as_usize (is_some p.chunks.pending_full) + 1
        ≤ p.chunks.window_size =
      leb→le _ _ capacity in
    let (r, buf, pend, made, size, wsize, len, live) =
      Emits-enqueue s m cs pending false (Emits-buffers g.emits (SameWindow-buffers p.chunks _ _ _))
        g.is_open.window.size (omega (arith, cap)) in
    (
      cs ++ (pending, false) ∷ [],
      record {
        emits = Emits-buffers r (SameWindow-buffers (enqueue_chunk m pending false) _ _ _);
        stream =
            ap
              (λ ys.
                ys
                ++ ((take n p.chunks.write_buf ++ (enqueue_chunk m pending false).write_buf)
                    ++ p.rest))
              (bytes_of-append cs ((pending, false) ∷ []))
            ∙ ap
                (λ ys.
                  (bytes_of cs ++ (pending ++ [])) ++ ((take n p.chunks.write_buf ++ ys) ++ p.rest))
                buf
            ∙ sym (regroup_split (bytes_of cs) pending p.chunks.write_buf p.rest n)
            ∙ subst
                (λ o.
                  bytes_of cs ++ ((opt_bytes o ++ p.chunks.write_buf) ++ p.rest) ≡ held s ++ bytes)
                e g.stream;
        counted = g.counted;
        tail = g.tail;
        full =
            All-append (IsFull s.chunk_size) cs _ g.full
              ((g.is_open.pending_full pending e ∙ g.chunk_size, refl), tt);
        chunk_size = size ∙ g.chunk_size;
        is_open = record {
          window = record { size = len; room = ground (arith, cap, live, wsize, ap is_some e) };
          chunk_pos = subst (λ k. 0 < k) (sym size) g.is_open.chunk_pos;
          pending_full = λ x h.
              (let t : length (take p.chunks.chunk_size p.chunks.write_buf) ≡ p.chunks.chunk_size =
                  omega (arith, length-take p.chunks.chunk_size p.chunks.write_buf) in
                ground (arith, t, h));
          buffer = omega (
            arith,
            length-drop p.chunks.chunk_size p.chunks.write_buf,
            g.is_open.buffer,
            ap length buf,
            size,
          );
          holds = λ h. inl refl;
        };
      },
    )

pub split_chunk-Progress :
    (s : OutboundChunks) (bytes : List ℕ) (cs : List Chunk) (p : PushState)
    → Progress s bytes cs p
    → p.chunks.chunk_size ≤ length p.chunks.write_buf
    → has_window_capacity_for p.chunks 1 ≡ true
    → (ds : List Chunk) × Progress s bytes ds (split_chunk p)
unfolding split_chunk
split_chunk-Progress s bytes cs p g enough capacity =
    split_with-Progress s bytes cs p p.chunks.pending_full refl g enough capacity

regroup_flush :
    (done pending buf rest : List ℕ)
    → (done ++ (pending ++ [])) ++ (buf ++ rest) ≡ done ++ ((pending ++ buf) ++ rest)
regroup_flush done pending buf rest = simp (append_assoc, append-nil)

pub flush_with-Progress :
    (s : OutboundChunks) (bytes : List ℕ) (cs : List Chunk) (p : PushState)
    (pending : Option (List ℕ))
    → p.chunks.pending_full ≡ pending
    → Progress s bytes cs p
    → (ds : List Chunk) × Progress s bytes ds (flush_with p pending)
unfolding flush_with
flush_with-Progress s bytes cs p none e g = (cs, g)
flush_with-Progress s bytes cs p (some pending) e g =
    elim (Bool-cases (is_empty p.chunks.write_buf)) [
      | inl none_left ↦ rw none_left (cs, g)
      | inr some_left ↦
          let m : OutboundChunks = record p.chunks { pending_full = none } in
          let (r, buf, pend, made, size, wsize, len, live) =
            Emits-enqueue s m cs pending false
              (Emits-buffers g.emits (SameWindow-buffers p.chunks _ _ _)) g.is_open.window.size
              (ground (arith, g.is_open.window.room, ap is_some e)) in
          rw some_left (
            cs ++ (pending, false) ∷ [],
            record {
              emits = r;
              stream =
                  ap (λ ys. ys ++ (held (enqueue_chunk m pending false) ++ p.rest))
                    (bytes_of-append cs ((pending, false) ∷ []))
                  ∙ ap
                      (λ o.
                        (bytes_of cs ++ (pending ++ []))
                        ++ ((opt_bytes o ++ (enqueue_chunk m pending false).write_buf) ++ p.rest))
                      pend
                  ∙ ap (λ ys. (bytes_of cs ++ (pending ++ [])) ++ (ys ++ p.rest)) buf
                  ∙ regroup_flush (bytes_of cs) pending p.chunks.write_buf p.rest
                  ∙ subst
                      (λ o.
                        bytes_of cs ++ ((opt_bytes o ++ p.chunks.write_buf) ++ p.rest)
                        ≡ held s ++ bytes)
                      e g.stream;
              counted = g.counted;
              tail = g.tail;
              full =
                  All-append (IsFull s.chunk_size) cs _ g.full
                    ((g.is_open.pending_full pending e ∙ g.chunk_size, refl), tt);
              chunk_size = size ∙ g.chunk_size;
              is_open = record {
                window = record {
                  size = len;
                  room =
                      ground
                        (arith, g.is_open.window.room, live, wsize, ap is_some e, ap is_some pend);
                };
                chunk_pos = subst (λ k. 0 < k) (sym size) g.is_open.chunk_pos;
                pending_full = λ x h. ground (arith, pend, h);
                buffer = omega (arith, g.is_open.buffer, ap length buf, size);
                holds = λ h. inr (ap is_empty buf ∙ some_left);
              };
            },
          )
    ]

pub push_loop-Progress :
    (s : OutboundChunks) (bytes : List ℕ) (fuel : ℕ) (cs : List Chunk) (p q : PushState)
    → Progress s bytes cs p
    → push_loop fuel p ≡ some q
    → (ds : List Chunk) × Progress s bytes ds q
unfolding push_loop
push_loop-Progress s bytes zero cs p q g h = cc
push_loop-Progress s bytes (suc fuel) cs p q g h =
    elim (Bool-cases (ltb (length p.chunks.write_buf) p.chunks.chunk_size)) [
      | inl short ↦ (cs, subst (Progress s bytes cs) (ground arith) g)
      | inr long ↦ elim (Bool-cases (has_window_capacity_for p.chunks 1)) [
        | inr full ↦ (cs, subst (Progress s bytes cs) (ground arith) g)
        | inl capacity ↦
            let (ds, next) = split_chunk-Progress s bytes cs p g (ground arith) capacity in
            elim (Bool-cases (is_empty p.rest)) [
              | inl done ↦ (ds, subst (Progress s bytes ds) (ground arith) next)
              | inr more ↦
                  push_loop-Progress s bytes fuel ds (fill (split_chunk p)) q
                    (fill-Progress s bytes ds _ next) (ground arith)
            ]
      ]
    ]
