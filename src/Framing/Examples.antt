-- ===== src/Framing/Examples.antt =====
-- Tests of the frames, and their theorems at concrete streams.
use aurelia.Wire.Payloads.{chunk_from_bytes}
use aurelia.Prelude.Words.{u32_max}
use aurelia.Framing.Cases.{Reading, read_next-IsRead, Reading}
use aurelia.Wire.Bytes.{from_be_bytes, read_u64, read_u32, read_u16}
use aurelia.Prelude.{
  ℕ, zero, suc, ◌≤◌, ◌≡◌, refl, sym, ap, ◌∙◌, Bool, true, List, [], ◌∷◌, ◌++◌, map, append_assoc,
  arith, ltb, if◌then◌else◌, ltb→lt, if_holds, All, length, take, drop, take-append-drop,
  length-take,
}
use aurelia.Ids.{protocol_violation, msg_ack, err, ok, msg_error}
use aurelia.Retained.{OutboundFrame}
use aurelia.Wire.Header.{Fits, encode, decode}
use aurelia.Framing.Sending.{
  control_fields, send_blob_chunk_frame, send_outbound_frame, wire_payload_len, control_header,
  send_all,
}
use aurelia.Framing.Written.{
  send_blob_chunk_frame-cases, send_outbound_frame-IsSent, chunk_frame, IsSent, Frame, frame_of,
  Writes,
}
use aurelia.Framing.Reading.{
  cancelled, read_next, Arrival, arrived, dropped, new_reader, read_calls,
}
use aurelia.Framing.Filling.{Reads, Took}
use aurelia.Framing.Delivery.{
  send_all-AreDelivered, new_reader-Holds, AreDelivered, Acceptable, frames_of,
}
use aurelia.Framing.Exact.{
  read_frame-ReadsFrame, read_frame, ReadsFrame, ExactRead, whole, cut_short, TookExactly,
  ReadsExactly,
}

-- A stream that keeps what is written to it.
abbrev keep : List ℕ → List ℕ → Bool × List ℕ
keep s bytes = (true, s ++ bytes)

abbrev flushed : List ℕ → Bool × List ℕ
flushed s = (true, s)

keep-Writes : Writes keep flushed (λ s. s)
keep-Writes = record { appends = λ s bytes e. refl; keeps = λ s e. refl }

-- A stream that brings its bytes in pieces; at an empty piece the future that waits is dropped.
abbrev read_pieces : List (List ℕ) → ℕ → Arrival × List (List ℕ)
read_pieces [] room = (arrived [], [])
read_pieces ([] ∷ pieces) room = (dropped, pieces)
read_pieces ((b ∷ bs) ∷ pieces) zero = (arrived [], (b ∷ bs) ∷ pieces)
read_pieces ((b ∷ bs) ∷ pieces) (suc room) = (arrived (b ∷ take room bs), drop room bs ∷ pieces)

abbrev joined : List (List ℕ) → List ℕ
joined [] = []
joined (piece ∷ pieces) = piece ++ joined pieces

read_pieces-Reads : Reads read_pieces joined
unfolding Reads Took
read_pieces-Reads [] room = (refl, omega arith, λ _ _. refl)
read_pieces-Reads ([] ∷ pieces) room = refl
read_pieces-Reads ((b ∷ bs) ∷ pieces) zero = (refl, omega arith, λ _ h. absurd (omega arith))
read_pieces-Reads ((b ∷ bs) ∷ pieces) (suc room) = (
  ap (◌∷◌ b) (
      ap (λ xs. xs ++ joined pieces) (sym (take-append-drop room bs))
      ∙ append_assoc (take room bs) (drop room bs) (joined pieces)),
  omega (arith, length-take room bs),
  λ h _. absurd (omega arith),
)

-- A stream that gives all the bytes asked for.
abbrev read_all : List ℕ → ℕ → ExactRead × List ℕ
read_all s n = if ltb (length s) n then (cut_short, []) else (whole (take n s), drop n s)

read_all-ReadsExactly : ReadsExactly read_all (λ s. s)
unfolding ReadsExactly TookExactly
read_all-ReadsExactly s n =
    if_holds (λ (r : ExactRead × List ℕ). TookExactly n s r.0 r.1) (ltb (length s) n)
      (λ short. ltb→lt (length s) n short)
      (λ long. (sym (take-append-drop n s), ground (arith, length-take n s)))

abbrev report : OutboundFrame
report = OutboundFrame.control_frame msg_error 7 (1 ∷ 2 ∷ 3 ∷ [])

abbrev queue_of_two : List OutboundFrame
queue_of_two = OutboundFrame.ack_frame 5 ∷ report ∷ []

abbrev sent_bytes : List ℕ
unfolding send_all
sent_bytes = (send_all keep flushed [] queue_of_two).1

-- The second frame comes in three pieces, and futures are dropped between them.
abbrev pieces_of_two : List (List ℕ)
pieces_of_two = take 40 sent_bytes ∷ [] ∷ take 26 (drop 40 sent_bytes) ∷ drop 66 sent_bytes ∷ []

reads_two :
    frames_of (read_calls read_pieces 1024 8 new_reader pieces_of_two).0 ≡ map frame_of queue_of_two
unfolding read_calls frame_of send_all encode decode frames_of read_u16 read_u32 read_u64
    from_be_bytes control_header
reads_two = refl

-- The stream fails inside a header, and the call after it goes on from there.
cut_header : (read_next read_pieces 1024 new_reader ((1 ∷ 2 ∷ []) ∷ [])).0 ≡ cancelled
unfolding read_next
cut_header = refl

too_long : wire_payload_len 0x1_0000_0000 ≡ err protocol_violation
unfolding wire_payload_len
too_long = refl

read_next-IsRead_example :
    Reading 1024
      (joined pieces_of_two)
      (read_next read_pieces 1024 new_reader pieces_of_two).0
      (read_next read_pieces 1024 new_reader pieces_of_two).1
      (joined (read_next read_pieces 1024 new_reader pieces_of_two).2)
read_next-IsRead_example =
    read_next-IsRead read_pieces joined 1024 read_pieces-Reads new_reader [] pieces_of_two
      (new_reader-Holds 1024)

send_outbound_frame-IsSent_example :
    IsSent keep flushed
      (λ s. s)
      (9 ∷ [])
      (frame_of report)
      (send_outbound_frame keep flushed (9 ∷ []) report)
send_outbound_frame-IsSent_example =
    send_outbound_frame-IsSent keep flushed (λ s. s) keep-Writes (9 ∷ []) report

send_blob_chunk_frame-cases_example :
    IsSent keep flushed
      (λ s. s)
      []
      (chunk_frame 4 2 7 1 (8 ∷ 9 ∷ []))
      (send_blob_chunk_frame keep flushed [] 4 2 7 1 (8 ∷ 9 ∷ []))
    × (chunk_from_bytes (chunk_frame 4 2 7 1 (8 ∷ 9 ∷ [])).1
        ≡ ok (record { request_msg_id = 2; chunk_id = 7; flags = 1; chunk = 8 ∷ 9 ∷ [] }))
send_blob_chunk_frame-cases_example =
    send_blob_chunk_frame-cases keep flushed (λ s. s) keep-Writes [] 4 2 7 1 (8 ∷ 9 ∷ [])
      (omega arith) (omega arith) (omega arith) (omega arith)

small-Fits :
    (msg_type m len : ℕ)
    → msg_type ≤ u32_max
    → m ≤ u32_max
    → len ≤ u32_max
    → Fits (control_fields msg_type 0 m len)
small-Fits msg_type m len t i l = record {
  version = omega arith;
  flags = omega arith;
  msg_type = t;
  peer_msg_id = i;
  src_taberna = omega arith;
  dst_taberna = omega arith;
  payload_len = l;
}

sent_both : (send_all keep flushed [] queue_of_two).0 ≡ ok tt
unfolding send_all control_header
sent_both = refl

same_bytes : (send_all keep flushed [] queue_of_two).1 ≡ [] ++ joined pieces_of_two
unfolding send_all encode control_header
same_bytes = refl

queue_of_two-Acceptable : All (Acceptable 1024) (map frame_of queue_of_two)
unfolding frame_of
queue_of_two-Acceptable = (
  record {
    version = refl;
    fits = small-Fits msg_ack 5 0 (omega arith) (omega arith) (omega arith);
    sized = refl;
    small = omega arith;
  },
  (
    record {
      version = refl;
      fits = small-Fits msg_error 7 3 (omega arith) (omega arith) (omega arith);
      sized = refl;
      small = omega arith;
    },
    tt,
  ),
)

send_all-AreDelivered_example :
    (later : List Frame) × AreDelivered
      (map frame_of queue_of_two)
      (read_calls read_pieces 1024 8 new_reader pieces_of_two).0
      later
send_all-AreDelivered_example =
    send_all-AreDelivered keep flushed (λ s. s) read_pieces joined keep-Writes read_pieces-Reads
      1024 8 queue_of_two [] pieces_of_two queue_of_two-Acceptable sent_both same_bytes

read_frame-ReadsFrame_example :
    ReadsFrame 1024 sent_bytes
      (read_frame read_all 1024 sent_bytes).0
      (read_frame read_all 1024 sent_bytes).1
read_frame-ReadsFrame_example =
    read_frame-ReadsFrame read_all (λ s. s) 1024 read_all-ReadsExactly sent_bytes
