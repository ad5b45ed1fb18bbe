-- ===== src/Framing/Filling.antt =====
-- What the loops of `FrameReadState::read_next` leave in their buffer.
use aurelia.Prelude.{
  ℕ, zero, suc, ◌+◌, ◌-◌, ◌≤◌, ◌<◌, ◌≡◌, refl, sym, ap, subst, ◌∙◌, inl, inr, false, List, [], ◌∷◌,
  ◌++◌, append_assoc, arith, ltb, ltb→lt, Bool-cases, length, take, drop, length-append,
  length-take, length-drop, take-append_of_eq,
}
use aurelia.Wire.Header.{write_at}
use aurelia.Framing.Reading.{
  after_read, Arrival, arrived, broken, dropped, Fill, full, ended, lost, left, exhausted, Filled,
  fill_buffer,
}

pub length-write_at :
    (buf bytes : List ℕ) (len : ℕ)
    → len + length bytes ≤ length buf
    → length (write_at buf len bytes) ≡ length buf
unfolding write_at
length-write_at buf bytes len h = omega (
  arith,
  length-append (take len buf ++ bytes) (drop (len + length bytes) buf),
  length-append (take len buf) bytes,
  length-take len buf,
  length-drop (len + length bytes) buf,
)

pub take-write_at :
    (buf bytes : List ℕ) (len : ℕ)
    → len + length bytes ≤ length buf
    → take (len + length bytes) (write_at buf len bytes) ≡ take len buf ++ bytes
unfolding write_at
take-write_at buf bytes len h =
    take-append_of_eq (len + length bytes) (take len buf ++ bytes) _
      (omega (arith, length-append (take len buf) bytes, length-take len buf))

no_room : (buf : List ℕ) (len : ℕ) → length buf - len ≤ 0 → ltb len (length buf) ≡ false
no_room buf len h = ground arith

-- What the documentation of `read` promises, in the bytes that the stream still brings, before and
-- after: it takes as many bytes off the front as there is room, at least one unless there is no room or
-- they are over, and none when it fails or its future is dropped.
unfoldable pub Took : ℕ → List ℕ → Arrival → List ℕ → Type 0
Took room before (arrived bytes) after =
    (before ≡ bytes ++ after) × (length bytes ≤ room) × (length bytes ≡ 0 → 0 < room → before ≡ [])
Took room before broken after = before ≡ after
Took room before dropped after = before ≡ after

-- How a loop ends, with the bytes that are to come and the room that is left.
unfoldable pub Ends : Fill → List ℕ → ℕ → Type 0
Ends full rest room = room ≡ 0
Ends ended rest room = (rest ≡ []) × (0 < room)
Ends lost rest room = 0 < room
Ends left rest room = 0 < room
Ends exhausted rest room = ⊥

module _ {Stream : Type 0} (read : Stream → ℕ → Arrival × Stream) (rest : Stream → List ℕ) where
  unfoldable pub Reads : Type 0
  Reads = (s : Stream) (room : ℕ) → Took room (rest s) (read s room).0 (rest (read s room).1)

  -- No byte is lost, and the fuel does not run out.
  pub record IsFilled (buf : List ℕ) (len : ℕ) (s : Stream) (r : Filled Stream) : Type 0 where
    pub size : length r.buf ≡ length buf
    pub within : r.len ≤ length buf
    pub bytes : take len buf ++ rest s ≡ take r.len r.buf ++ rest r.stream
    pub ends : Ends r.how (rest r.stream) (length buf - r.len)

  at_room :
      (fuel : ℕ) (buf : List ℕ) (len : ℕ) (s : Stream)
      → ((buf2 : List ℕ) (len2 : ℕ) (s2 : Stream)
          → len2 ≤ length buf2
          → length buf2 - len2 ≤ fuel
          → IsFilled buf2 len2 s2 (fill_buffer read fuel buf2 len2 s2))
      → len < length buf
      → length buf - len ≤ suc fuel
      → (arrival : Arrival) (s2 : Stream) → Took (length buf - len) (rest s) arrival (rest s2)
      → IsFilled buf len s (after_read read (fill_buffer read fuel) buf len arrival s2)
  unfolding after_read Took Ends
  at_room fuel buf len s more h enough (arrived []) s2 took = record {
    size = refl;
    within = omega arith;
    bytes = ap (◌++◌ (take len buf)) took.0;
    ends = (sym took.0 ∙ took.2 refl (omega arith), omega arith);
  }
  at_room fuel buf len s more h enough (arrived (b ∷ bs)) s2 took =
      let fits : len + length (b ∷ bs) ≤ length buf = omega (arith, took.1) in
      let same : length (write_at buf len (b ∷ bs)) ≡ length buf =
        length-write_at buf (b ∷ bs) len fits in
      let next : Filled Stream =
        fill_buffer read fuel (write_at buf len (b ∷ bs)) (len + length (b ∷ bs)) s2 in
      let again =
        more (write_at buf len (b ∷ bs)) (len + length (b ∷ bs)) s2 (omega arith) (omega arith) in
      record {
        size = again.size ∙ same;
        within = omega (arith, again.within);
        bytes =
            ap (◌++◌ (take len buf)) took.0
            ∙ sym (append_assoc (take len buf) (b ∷ bs) (rest s2))
            ∙ ap (λ xs. xs ++ rest s2) (sym (take-write_at buf (b ∷ bs) len fits))
            ∙ again.bytes;
        ends = subst (λ n. Ends next.how (rest next.stream) (n - next.len)) same again.ends;
      }
  at_room fuel buf len s more h enough broken s2 took = record {
    size = refl;
    within = omega arith;
    bytes = ap (◌++◌ (take len buf)) took;
    ends = omega arith;
  }
  at_room fuel buf len s more h enough dropped s2 took = record {
    size = refl;
    within = omega arith;
    bytes = ap (◌++◌ (take len buf)) took;
    ends = omega arith;
  }

  pub fill_buffer-IsFilled :
      Reads
      → (fuel : ℕ) (buf : List ℕ) (len : ℕ) (s : Stream) → len ≤ length buf
      → length buf - len ≤ fuel
      → IsFilled buf len s (fill_buffer read fuel buf len s)
  unfolding fill_buffer Reads Ends Took
  fill_buffer-IsFilled reads zero buf len s h enough =
      rw (no_room buf len enough)
        (record { size = refl; within = h; bytes = refl; ends = omega arith })
  fill_buffer-IsFilled reads (suc fuel) buf len s h enough =
      elim (Bool-cases (ltb len (length buf))) [
        | inl e ↦
            rw (e, fill_buffer)
              (at_room fuel buf len s (λ buf2 len2 s2. fill_buffer-IsFilled reads fuel buf2 len2 s2)
                (ltb→lt len (length buf) e) enough (read s (length buf - len)).0
                (read s (length buf - len)).1 (reads s (length buf - len)))
        | inr e ↦
            rw (e, fill_buffer)
              (record { size = refl; within = h; bytes = refl; ends = ground arith })
      ]
