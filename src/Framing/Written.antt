-- ===== src/Framing/Written.antt =====
-- What the functions that send a frame write.
use aurelia.Wire.Payloads.{flags_from_bits, last_chunk, chunk_from_bytes, chunk_header_len}
use aurelia.Wire.Bytes.{read_u16_append, read_u64_append, read_u32_append, to_be_bytes}
use aurelia.Prelude.Words.{u64_max, u32_max}
use aurelia.Prelude.{
  ℕ, ◌+◌, ◌/◌, ◌≤◌, ◌<◌, ◌≡◌, refl, sym, ap, subst, ◌∙◌, ◌⊎◌, inl, inr, Bool, true, false, List, [],
  ◌∷◌, ◌++◌, append_assoc, append-nil, arith, ltb, leb, ◌==◌, leb→le, ==_refl, Bool-cases, length,
}
use aurelia.Ids.{
  protocol_violation, msg_blob_transfer_chunk, Result, ok, err, connection_lost, msg_ack,
}
use aurelia.Retained.{OutboundFrame}
use aurelia.Wire.Header.{WireHeader, encode}
use aurelia.Framing.Sending.{
  write_chunk, checked, control_header, send_outbound_frame, chunk_inner, send_blob_chunk_frame,
  wire_payload_len, control_fields, message_fields, attempt, write_some, send_frame,
}

-- A frame as the protocol has it: its header, and its payload.
abbrev pub Frame : Type 0
Frame = WireHeader × List ℕ

abbrev pub frame_bytes : Frame → List ℕ
frame_bytes (header, payload) = encode header ++ payload

unfoldable pub frame_of : OutboundFrame → Frame
frame_of (OutboundFrame.ack_frame peer_msg_id) = (control_fields msg_ack 0 peer_msg_id 0, [])
frame_of (OutboundFrame.message_frame message) =
    (message_fields message (length message.payload), message.payload)
frame_of (OutboundFrame.control_frame msg_type peer_msg_id payload) =
    (control_fields msg_type 0 peer_msg_id (length payload), payload)

-- The frame of a blob chunk: the fields of its payload in order, big-endian, and then its bytes.
abbrev pub chunk_layout : ℕ → ℕ → ℕ → List ℕ → List ℕ
chunk_layout request chunk_id flags chunk =
    to_be_bytes 4 request
    ++ (to_be_bytes 8 chunk_id ++ (to_be_bytes 2 flags ++ (to_be_bytes 4 (length chunk) ++ chunk)))

abbrev pub chunk_frame : ℕ → ℕ → ℕ → ℕ → List ℕ → Frame
chunk_frame m request chunk_id flags chunk = (
  control_fields msg_blob_transfer_chunk 0 m (chunk_header_len + length chunk),
  chunk_layout request chunk_id flags chunk,
)

chunk_inner-eq-layout :
    (request chunk_id flags : ℕ) (chunk : List ℕ)
    → chunk_inner request chunk_id flags (length chunk) ++ chunk
      ≡ chunk_layout request chunk_id flags chunk
unfolding chunk_inner to_be_bytes
chunk_inner-eq-layout request chunk_id flags chunk = refl

length-chunk_layout :
    (request chunk_id flags : ℕ) (chunk : List ℕ)
    → length (chunk_layout request chunk_id flags chunk) ≡ chunk_header_len + length chunk
unfolding to_be_bytes
length-chunk_layout request chunk_id flags chunk = omega arith

long_enough :
    (request chunk_id flags : ℕ) (chunk : List ℕ)
    → ltb (length (chunk_layout request chunk_id flags chunk)) chunk_header_len ≡ false
long_enough request chunk_id flags chunk =
    ground (arith, length-chunk_layout request chunk_id flags chunk)

known : (flags : ℕ) → flags ≤ last_chunk → (flags / 2 == 0) ≡ true
known flags h = ground arith

chunk_from_bytes-layout :
    (request chunk_id flags : ℕ) (chunk : List ℕ)
    → request ≤ u32_max
    → chunk_id ≤ u64_max
    → flags ≤ last_chunk
    → length chunk ≤ u32_max
    → chunk_from_bytes (chunk_layout request chunk_id flags chunk)
      ≡ ok (record { request_msg_id = request; chunk_id = chunk_id; flags = flags; chunk = chunk })
unfolding chunk_from_bytes flags_from_bits
chunk_from_bytes-layout request chunk_id flags chunk r c f l =
    rw (long_enough request chunk_id flags chunk) (
      rw
        (
          read_u32_append request _ r,
          read_u64_append chunk_id _ c,
          read_u16_append flags _ (omega arith),
          read_u32_append (length chunk) _ l,
        )
        (rw (==_refl (length chunk), known flags f) refl))

unfoldable pub all_bytes : List Frame → List ℕ
all_bytes [] = []
all_bytes (frame ∷ frames) = frame_bytes frame ++ all_bytes frames

module _ {Stream : Type 0} (write_all : Stream → List ℕ → Bool × Stream)
    (flush : Stream → Bool × Stream) (written : Stream → List ℕ) where
  -- What the documentation of the two functions promises when they succeed.
  pub record Writes : Type 0 where
    pub appends :
        (s : Stream) (bytes : List ℕ)
        → (write_all s bytes).0 ≡ true
        → written (write_all s bytes).1 ≡ written s ++ bytes
    pub keeps : (s : Stream) → (flush s).0 ≡ true → written (flush s).1 ≡ written s

  -- The bytes are written after the ones before, or the stream has failed.
  unfoldable pub IsWritten : List ℕ → List ℕ → Result (Unit {0}) × Stream → Type 0
  IsWritten before bytes (ok done, s) = written s ≡ before ++ bytes
  IsWritten before bytes (err kind, s) = kind ≡ connection_lost

  attempt_holds :
      (before bytes : List ℕ) (r : Bool × Stream) (next : Stream → Result (Unit {0}) × Stream)
      → (r.0 ≡ true → IsWritten before bytes (next r.1))
      → IsWritten before bytes (attempt write_all flush r next)
  unfolding IsWritten
  attempt_holds before bytes (true, s) next then_next = then_next refl
  attempt_holds before bytes (false, s) next then_next = refl

  -- What comes of a frame: too long to be announced, and nothing is written; or it is written whole, or the
  -- stream fails.
  unfoldable pub IsSent : Stream → Frame → Result (Unit {0}) × Stream → Type 0
  IsSent s frame r =
      ((u32_max < length frame.1) × (r ≡ (err protocol_violation, s)))
      ⊎ ((length frame.1 ≤ u32_max) × IsWritten (written s) (frame_bytes frame) r)

  module _ (w : Writes) where
    write_some-appends :
        (s : Stream) (bytes : List ℕ)
        → (write_some write_all flush s bytes).0 ≡ true
        → written (write_some write_all flush s bytes).1 ≡ written s ++ bytes
    write_some-appends s [] h = sym (append-nil (written s))
    write_some-appends s (b ∷ bs) h = w.appends s (b ∷ bs) h

    send_frame-IsWritten :
        (s : Stream) (header : WireHeader) (payload : List ℕ)
        → IsWritten
            (written s)
            (frame_bytes (header, payload))
            (send_frame write_all flush s header payload)
    unfolding send_frame IsWritten
    send_frame-IsWritten s header payload =
        let goal = attempt_holds (written s) (frame_bytes (header, payload)) in
        goal (write_all s (encode header)) _ λ e1.
          let s1 = (write_all s (encode header)).1 in
          goal (write_some write_all flush s1 payload) _ λ e2.
            let s2 = (write_some write_all flush s1 payload).1 in
            goal (flush s2) _ λ e3.
              w.keeps s2 e3
              ∙ write_some-appends s1 payload e2
              ∙ ap (λ xs. xs ++ payload) (w.appends s (encode header) e1)
              ∙ append_assoc (written s) (encode header) payload

    checked_len :
        (s : Stream) (n : ℕ) (next : ℕ → Result (Unit {0}) × Stream)
        → ((u32_max < n)
            × (checked write_all flush s (wire_payload_len n) next ≡ (err protocol_violation, s)))
          ⊎ ((n ≤ u32_max) × (checked write_all flush s (wire_payload_len n) next ≡ next n))
    unfolding wire_payload_len
    checked_len s n next = elim (Bool-cases (leb n u32_max)) [
      | inl e ↦ inr (leb→le n u32_max e, rw e refl)
      | inr e ↦ inl (ground arith, rw e refl)
    ]

    checked_header :
        (s : Stream) (msg_type flags m n : ℕ) (next : WireHeader → Result (Unit {0}) × Stream)
        → ((u32_max < n)
            × (checked write_all flush s (control_header msg_type flags m n) next
                ≡ (err protocol_violation, s)))
          ⊎ ((n ≤ u32_max)
              × (checked write_all flush s (control_header msg_type flags m n) next
                  ≡ next (control_fields msg_type flags m n)))
    unfolding wire_payload_len control_header
    checked_header s msg_type flags m n next = elim (Bool-cases (leb n u32_max)) [
      | inl e ↦ inr (leb→le n u32_max e, rw e refl)
      | inr e ↦ inl (ground arith, rw e refl)
    ]

    announced :
        (s : Stream) (frame : Frame) (n : ℕ) (r : Result (Unit {0}) × Stream)
        (r2 : Result (Unit {0}) × Stream)
        → length frame.1 ≡ n
        → ((u32_max < n) × (r ≡ (err protocol_violation, s))) ⊎ ((n ≤ u32_max) × (r ≡ r2))
        → (n ≤ u32_max → IsWritten (written s) (frame_bytes frame) r2)
        → IsSent s frame r
    unfolding IsSent
    announced s frame n r r2 size (inl (over, e)) done = inl (omega arith, e)
    announced s frame n r r2 size (inr (fits, e)) done =
        inr (omega arith, subst (IsWritten (written s) (frame_bytes frame)) (sym e) (done fits))

    -- Over a stream that writes as documented, a frame whose payload is too long for its header is
    -- refused as a protocol violation, and nothing is written; any other is written whole, its
    -- header and then its payload, unless the stream fails, which is reported as a lost connection.
    pub send_outbound_frame-IsSent :
        (s : Stream) (frame : OutboundFrame)
        → IsSent s (frame_of frame) (send_outbound_frame write_all flush s frame)
    unfolding send_outbound_frame frame_of IsSent
    send_outbound_frame-IsSent s (OutboundFrame.ack_frame m) =
        inr (omega arith, send_frame-IsWritten s (control_fields msg_ack 0 m 0) [])
    send_outbound_frame-IsSent s (OutboundFrame.message_frame message) =
        announced s _ (length message.payload) _ _ refl (checked_len s (length message.payload) _)
          (λ _.
            send_frame-IsWritten s (message_fields message (length message.payload))
              message.payload)
    send_outbound_frame-IsSent s (OutboundFrame.control_frame msg_type m payload) =
        announced s _ (length payload) _ _ refl (checked_header s msg_type 0 m (length payload) _)
          (λ _. send_frame-IsWritten s (control_fields msg_type 0 m (length payload)) payload)

    write_chunk-IsWritten :
        (s : Stream) (header : WireHeader) (inner chunk : List ℕ)
        → IsWritten
            (written s)
            (frame_bytes (header, inner ++ chunk))
            (write_chunk write_all flush s header inner chunk)
    unfolding IsWritten
    write_chunk-IsWritten s header inner chunk =
        let goal = attempt_holds (written s) (frame_bytes (header, inner ++ chunk)) in
        goal (write_all s (encode header)) _ λ e1.
          let s1 = (write_all s (encode header)).1 in
          goal (write_all s1 inner) _ λ e2.
            let s2 = (write_all s1 inner).1 in
            goal (write_some write_all flush s2 chunk) _ λ e3.
              let s3 = (write_some write_all flush s2 chunk).1 in
              goal (flush s3) _ λ e4.
                w.keeps s3 e4
                ∙ write_some-appends s2 chunk e3
                ∙ ap (λ xs. xs ++ chunk)
                    (w.appends s1 inner e2
                      ∙ ap (λ xs. xs ++ inner) (w.appends s (encode header) e1))
                ∙ append_assoc (written s ++ encode header) inner chunk
                ∙ append_assoc (written s) (encode header) (inner ++ chunk)

    send_blob_chunk_frame-IsSent :
        (s : Stream) (m request chunk_id flags : ℕ) (chunk : List ℕ)
        → IsSent s
            (chunk_frame m request chunk_id flags chunk)
            (send_blob_chunk_frame write_all flush s m request chunk_id flags chunk)
    unfolding send_blob_chunk_frame
    send_blob_chunk_frame-IsSent s m request chunk_id flags chunk =
        announced s (chunk_frame m request chunk_id flags chunk) (chunk_header_len + length chunk) _
          _ (length-chunk_layout request chunk_id flags chunk)
          (checked_header s msg_blob_transfer_chunk 0 m (chunk_header_len + length chunk) _)
          λ fits.
            let header = (chunk_frame m request chunk_id flags chunk).0 in
            elim (checked_len s (length chunk) λ len.
              write_chunk write_all flush s header (chunk_inner request chunk_id flags len) chunk) [
                | inl (over, _) ↦ absurd (omega arith)
                | inr (_, e) ↦
                    subst
                      (IsWritten (written s)
                        (frame_bytes (chunk_frame m request chunk_id flags chunk)))
                      (sym e)
                      (subst
                        (λ payload. IsWritten (written s) (frame_bytes (header, payload)) (
                          write_chunk write_all flush s header
                            (chunk_inner request chunk_id flags (length chunk)) chunk))
                        (chunk_inner-eq-layout request chunk_id flags chunk)
                        (write_chunk-IsWritten s header
                          (chunk_inner request chunk_id flags (length chunk)) chunk))
              ]

    -- Over a stream that writes as documented, a chunk whose fields fit their widths and whose
    -- flags are known is refused as a protocol violation, with nothing written, if its payload is
    -- too long for the header, and is written whole otherwise, unless the stream fails: a header
    -- with the length of the payload, and a payload that is read back as the same chunk.
    pub send_blob_chunk_frame-cases :
        (s : Stream) (m request chunk_id flags : ℕ) (chunk : List ℕ)
        → request ≤ u32_max
        → chunk_id ≤ u64_max
        → flags ≤ last_chunk
        → length chunk ≤ u32_max
        → IsSent s
            (chunk_frame m request chunk_id flags chunk)
            (send_blob_chunk_frame write_all flush s m request chunk_id flags chunk)
          × (chunk_from_bytes (chunk_frame m request chunk_id flags chunk).1
              ≡ ok (record {
                request_msg_id = request;
                chunk_id = chunk_id;
                flags = flags;
                chunk = chunk;
              }))
    send_blob_chunk_frame-cases s m request chunk_id flags chunk r c f l = (
      send_blob_chunk_frame-IsSent s m request chunk_id flags chunk,
      chunk_from_bytes-layout request chunk_id flags chunk r c f l,
    )
