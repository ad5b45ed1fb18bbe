-- ===== src/Framing/Cases.antt =====
-- What a call of `FrameReadState::read_next` returns and leaves, case by case.
use aurelia.Prelude.{
  ℕ, ◌-◌, ◌≤◌, ◌<◌, ◌≡◌, refl, sym, ap, subst, ◌∙◌, ◌⊎◌, inl, inr, Option, none, some, List, [],
  ◌++◌, append_assoc, append-nil, arith, ltb, ◌==◌, ltb→lt, ==_iff, Option-cases, if_holds, length,
  take, take-length_le, length-replicate,
}
use aurelia.Ids.{Result, ok, err, ErrorId, connection_lost, protocol_violation}
use aurelia.Wire.Header.{WireHeader, header_len, decode}
use aurelia.Framing.Reading.{
  no_payload, Arrival, Fill, full, ended, lost, left, exhausted, Filled, FrameReadState, FrameRead,
  returned, cancelled, stuck, put_header, put_payload, after_payload, read_payload, begin_payload,
  after_decode, after_header, read_stage, read_next, fill_buffer,
}
use aurelia.Framing.Filling.{Ends, Reads, IsFilled, fill_buffer-IsFilled}

-- The bytes are those that the state holds of a frame, with the header at hand or without one.
unfoldable pub StageHolds : ℕ → Option WireHeader → FrameReadState → List ℕ → Type 0
StageHolds max_payload_len none st got = got ≡ take st.header_len st.header_buf
StageHolds max_payload_len (some header) st got =
    (head : List ℕ) × (length head ≡ header_len)
    × (decode head ≡ ok header)
    × (got ≡ head ++ take st.payload_len st.payload_buf)
    × (length st.payload_buf ≡ header.payload_len)
    × (st.payload_len ≤ length st.payload_buf)
    × (header.payload_len ≤ max_payload_len)
    × (st.header_len ≡ 0)

pub record Holds (max_payload_len : ℕ) (st : FrameReadState) (got : List ℕ) : Type 0 where
  pub size : length st.header_buf ≡ header_len
  pub within : st.header_len ≤ header_len
  pub stage : StageHolds max_payload_len st.payload_header st got

-- The reasons for an error, in the bytes of the frame that were read: the stream, or a whole header that
-- is not of the protocol or announces too many bytes.
unfoldable pub Refused : ℕ → ErrorId → List ℕ → Type 0
Refused max_payload_len kind got =
    (kind ≡ connection_lost)
    ⊎ ((length got ≡ header_len)
        × ((decode got ≡ err kind)
            ⊎ ((header : WireHeader) × (decode got ≡ ok header)
                × (max_payload_len < header.payload_len)
                × (kind ≡ protocol_violation))))

-- A frame is cut off the front of the bytes.
unfoldable pub IsCut : ℕ → List ℕ → WireHeader × List ℕ → List ℕ → Type 0
IsCut max_payload_len before frame after =
    (head : List ℕ) × (length head ≡ header_len)
    × (decode head ≡ ok frame.0)
    × (before ≡ head ++ (frame.1 ++ after))
    × (length frame.1 ≡ frame.0.payload_len)
    × (frame.0.payload_len ≤ max_payload_len)

-- From the bytes before the call, held and to come, to the state and the bytes to come after it.
unfoldable pub Reading : ℕ → List ℕ → FrameRead → FrameReadState → List ℕ → Type 0
Reading max_payload_len before (returned (ok (some frame))) st after =
    Holds max_payload_len st [] × IsCut max_payload_len before frame after
Reading max_payload_len before (returned (ok none)) st after =
    Holds max_payload_len st [] × (before ≡ []) × (after ≡ [])
Reading max_payload_len before (returned (err kind)) st after =
    (got : List ℕ) × Holds max_payload_len st got
    × (before ≡ got ++ after)
    × Refused max_payload_len kind got
Reading max_payload_len before cancelled st after =
    (got : List ℕ) × Holds max_payload_len st got × (before ≡ got ++ after)
Reading max_payload_len before stuck st after = ⊥

module _ {Stream : Type 0} (read : Stream → ℕ → Arrival × Stream) (rest : Stream → List ℕ)
    (max_payload_len : ℕ) where
  abbrev IsRead : List ℕ → FrameRead × FrameReadState × Stream → Type 0
  IsRead before (outcome, st, s) = Reading max_payload_len before outcome st (rest s)

  split :
      (head got buf : List ℕ) (len : ℕ) (s : Stream) (r : Filled Stream)
      → got ≡ head ++ take len buf
      → IsFilled read rest buf len s r
      → got ++ rest s ≡ head ++ (take r.len r.buf ++ rest r.stream)
  split head got buf len s r e filled =
      ap (λ xs. xs ++ rest s) e
      ∙ append_assoc head (take len buf) (rest s)
      ∙ ap (◌++◌ head) filled.bytes

  -- The payload is not complete yet.
  waits :
      (header : WireHeader) (st : FrameReadState) (got : List ℕ) (s : Stream) (r : Filled Stream)
      → st.payload_header ≡ some header
      → Holds max_payload_len st got
      → StageHolds max_payload_len (some header) st got
      → IsFilled read rest st.payload_buf st.payload_len s r
      → (more : List ℕ) × Holds max_payload_len (put_payload read st r) more
        × (got ++ rest s ≡ more ++ rest r.stream)
  unfolding StageHolds
  waits header st got s r e h (head, sized, decoded, same, len, within, small, fresh) filled = (
    head ++ take r.len r.buf,
    record {
      size = h.size;
      within = h.within;
      stage =
          subst
            (λ o. StageHolds max_payload_len o (put_payload read st r) (head ++ take r.len r.buf))
            (sym e)
            (
              head,
              sized,
              decoded,
              refl,
              filled.size ∙ len,
              omega (arith, filled.size, filled.within),
              small,
              fresh,
            );
    },
    split head got st.payload_buf st.payload_len s r same filled
        ∙ sym (append_assoc head (take r.len r.buf) (rest r.stream)),
  )

  end_payload :
      (header : WireHeader) (st : FrameReadState) (got : List ℕ) (s : Stream) (r : Filled Stream)
      → st.payload_header ≡ some header
      → Holds max_payload_len st got
      → StageHolds max_payload_len (some header) st got
      → IsFilled read rest st.payload_buf st.payload_len s r
      → (how : Fill) → Ends how (rest r.stream) (length st.payload_buf - r.len)
      → IsRead (got ++ rest s) (after_payload read header st how r)
  unfolding Reading StageHolds IsCut Ends Refused
  end_payload header st got s r e h (head, sized, decoded, same, len, within, small, fresh) filled
        full ends =
      (
        record { size = h.size; within = h.within; stage = rw fresh refl },
        (
          head,
          sized,
          decoded,
          split head got st.payload_buf st.payload_len s r same filled
              ∙ ap (λ xs. head ++ (xs ++ rest r.stream))
                  (take-length_le r.len r.buf (omega (arith, filled.size))),
          filled.size ∙ len,
          small,
        ),
      )
  end_payload header st got s r e h stage filled ended ends =
      let (more, holds, bytes) = waits header st got s r e h stage filled in
      (more, holds, bytes, inl refl)
  end_payload header st got s r e h stage filled lost ends =
      let (more, holds, bytes) = waits header st got s r e h stage filled in
      (more, holds, bytes, inl refl)
  end_payload header st got s r e h stage filled left ends =
      waits header st got s r e h stage filled
  end_payload header st got s r e h stage filled exhausted ends = ends

  read_payload-IsRead :
      Reads read rest
      → (header : WireHeader) (st : FrameReadState) (got : List ℕ) (s : Stream)
      → st.payload_header ≡ some header
      → Holds max_payload_len st got
      → IsRead (got ++ rest s) (read_payload read header st s)
  unfolding read_payload StageHolds
  read_payload-IsRead reads header st got s e h =
      let stage : StageHolds max_payload_len (some header) st got =
        subst (λ o. StageHolds max_payload_len o st got) e h.stage in
      let (head, sized, decoded, same, len, within, small, fresh) = stage in
      let filled =
        fill_buffer-IsFilled read rest reads (length st.payload_buf) st.payload_buf st.payload_len s
          within (omega arith) in
      end_payload header st got s _ e h stage filled _ filled.ends

  decoded_header :
      Reads read rest
      → (st : FrameReadState) (s : Stream) → st.payload_header ≡ none
      → Holds max_payload_len st st.header_buf
      → st.header_len ≡ header_len
      → (result : Result WireHeader) → decode st.header_buf ≡ result
      → IsRead (st.header_buf ++ rest s) (after_decode read max_payload_len result st s)
  unfolding after_decode Reading IsCut Refused StageHolds
  decoded_header reads st s e h whole (err kind) d = (st.header_buf, h, refl, inr (h.size, inl d))
  decoded_header reads st s e h whole (ok header) d =
      if_holds (IsRead (st.header_buf ++ rest s)) (ltb max_payload_len header.payload_len)
        (λ over. (
          st.header_buf,
          h,
          refl,
          inr (h.size, inr (header, d, ltb→lt max_payload_len header.payload_len over, refl)),
        ))
        (λ small.
          if_holds (IsRead (st.header_buf ++ rest s)) (header.payload_len == 0)
            (λ zero_len. (
              record {
                size = h.size;
                within = omega arith;
                stage =
                    subst (λ o. StageHolds max_payload_len o (no_payload read st) []) (sym e) refl;
              },
              (
                st.header_buf,
                h.size,
                d,
                refl,
                sym ((==_iff header.payload_len 0).0 zero_len),
                ground arith,
              ),
            ))
            (λ some_len.
              read_payload-IsRead reads header (begin_payload read header st) st.header_buf s refl
                (record {
                  size = h.size;
                  within = omega arith;
                  stage = (
                    st.header_buf,
                    h.size,
                    d,
                    sym (append-nil st.header_buf),
                    length-replicate header.payload_len 0,
                    omega arith,
                    ground arith,
                    refl,
                  );
                })))

  end_header :
      Reads read rest
      → (st : FrameReadState) (before : List ℕ) (s : Stream) → st.payload_header ≡ none
      → Holds max_payload_len st (take st.header_len st.header_buf)
      → before ≡ take st.header_len st.header_buf ++ rest s
      → (how : Fill) → Ends how (rest s) (length st.header_buf - st.header_len)
      → IsRead before (after_header read max_payload_len st how s)
  unfolding after_header Reading Ends Refused StageHolds
  end_header reads st before s e h same full ends =
      let whole : take st.header_len st.header_buf ≡ st.header_buf =
        take-length_le st.header_len st.header_buf (omega arith) in
      subst (λ xs. IsRead xs (after_decode read max_payload_len (decode st.header_buf) st s))
        (sym (same ∙ ap (λ xs. xs ++ rest s) whole))
        (decoded_header reads st s e (subst (Holds max_payload_len st) whole h)
          (omega (arith, h.size, h.within)) (decode st.header_buf) refl)
  end_header reads st before s e h same ended ends =
      if_holds (IsRead before) (st.header_len == 0)
        (λ start.
          let nothing : take st.header_len st.header_buf ≡ [] =
            ap (λ n. take n st.header_buf) ((==_iff st.header_len 0).0 start) in
          (
            subst (Holds max_payload_len st) nothing h,
            same ∙ ap (λ xs. xs ++ rest s) nothing ∙ ends.0,
            ends.0,
          ))
        (λ _. (take st.header_len st.header_buf, h, same, inl refl))
  end_header reads st before s e h same lost ends =
      (take st.header_len st.header_buf, h, same, inl refl)
  end_header reads st before s e h same left ends = (take st.header_len st.header_buf, h, same)
  end_header reads st before s e h same exhausted ends = ends

  read_header-IsRead :
      Reads read rest
      → (st : FrameReadState) (got : List ℕ) (s : Stream) → st.payload_header ≡ none
      → Holds max_payload_len st got
      → IsRead (got ++ rest s) (read_stage read max_payload_len none st s)
  unfolding read_stage StageHolds
  read_header-IsRead reads st got s e h =
      let r : Filled Stream = fill_buffer read header_len st.header_buf st.header_len s in
      let filled : IsFilled read rest st.header_buf st.header_len s r =
        fill_buffer-IsFilled read rest reads header_len st.header_buf st.header_len s
          (omega (arith, h.size, h.within)) (omega (arith, h.size)) in
      let same : got ≡ take st.header_len st.header_buf =
        subst (λ o. StageHolds max_payload_len o st got) e h.stage in
      let holds : Holds max_payload_len (put_header read st r) (take r.len r.buf) = record {
        size = filled.size ∙ h.size;
        within = omega (arith, filled.within, h.size);
        stage =
            subst (λ o. StageHolds max_payload_len o (put_header read st r) (take r.len r.buf))
              (sym e) refl;
      } in
      end_header reads (put_header read st r) (got ++ rest s) r.stream e holds
        (ap (λ xs. xs ++ rest s) same ∙ filled.bytes) r.how
        (subst (λ n. Ends r.how (rest r.stream) (n - r.len)) (sym filled.size) filled.ends)

  -- Over a stream that reads as documented, in any fragments, a call of read_next on a state that
  -- holds the first bytes of a frame cuts the next frame, with a payload as long as its header says
  -- and within the limit, off the bytes held and to come; or says that there are none; or fails,
  -- with a lost connection or over a whole header that is not of the protocol or announces too
  -- much; or is cancelled. In the last two cases the state holds every byte that was taken. The
  -- fuel never runs out.
  pub read_next-IsRead :
      Reads read rest
      → (st : FrameReadState) (got : List ℕ) (s : Stream) → Holds max_payload_len st got
      → Reading max_payload_len
          (got ++ rest s)
          (read_next read max_payload_len st s).0
          (read_next read max_payload_len st s).1
          (rest (read_next read max_payload_len st s).2)
  unfolding read_next read_stage
  read_next-IsRead reads st got s h = elim (Option-cases st.payload_header) [
    | inl e ↦
        subst (λ o. IsRead (got ++ rest s) (read_stage read max_payload_len o st s)) (sym e)
          (read_header-IsRead reads st got s e h)
    | inr (header, e) ↦
        subst (λ o. IsRead (got ++ rest s) (read_stage read max_payload_len o st s)) (sym e)
          (read_payload-IsRead reads header st got s e h)
  ]
