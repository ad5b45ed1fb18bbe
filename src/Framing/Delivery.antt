-- ===== src/Framing/Delivery.antt =====
-- The frames that are sent are read, in order, in whatever fragments the stream brings their bytes.
use aurelia.Prelude.{
  ℕ, zero, suc, ◌≤◌, ◌≡◌, refl, sym, ap, subst, ◌∙◌, inl, inr, Bool, true, false, none, some, List,
  [], ◌∷◌, ◌++◌, map, append_assoc, append-nil, arith, All, length, length-append, append-cancel,
}
use aurelia.Ids.{Result, ok, err, ErrorId, connection_lost}
use aurelia.Retained.{OutboundFrame}
use aurelia.Wire.Header.{Fits, header_len, protocol_version, encode, decode}
use aurelia.Wire.RoundTrip.{decode-encode, encode-IsByte}
use aurelia.Framing.Sending.{proceed, send_all, send_outbound_frame}
use aurelia.Framing.Written.{
  Frame, frame_bytes, frame_of, all_bytes, Writes, IsWritten, IsSent, send_outbound_frame-IsSent,
}
use aurelia.Framing.Reading.{
  Arrival, FrameReadState, new_reader, FrameRead, returned, cancelled, stuck, read_next, read_calls,
}
use aurelia.Framing.Filling.{Reads}
use aurelia.Framing.Cases.{Holds, IsCut, Refused, Reading, StageHolds, read_next-IsRead}

-- A frame that a peer accepts: of the protocol, its fields fit their widths, its header has the
-- length of its payload, and that is not too long.
pub record Acceptable (max_payload_len : ℕ) (frame : Frame) : Type 0 where
  pub version : frame.0.version ≡ protocol_version
  pub fits : Fits frame.0
  pub sized : length frame.1 ≡ frame.0.payload_len
  pub small : frame.0.payload_len ≤ max_payload_len

-- The frames that the calls return.
unfoldable pub frames_of : List FrameRead → List Frame
frames_of [] = []
frames_of (returned (ok (some frame)) ∷ outcomes) = frame ∷ frames_of outcomes
frames_of (_ ∷ outcomes) = frames_of outcomes

-- A call that finds the end of the stream.
unfoldable pub meets_end : List FrameRead → Bool
meets_end [] = false
meets_end (returned (ok none) ∷ outcomes) = true
meets_end (_ ∷ outcomes) = meets_end outcomes

-- No error but that of the stream, and the fuel does not run out.
unfoldable pub IsAllowed : FrameRead → Type 0
IsAllowed (returned (ok result)) = Unit
IsAllowed (returned (err kind)) = kind ≡ connection_lost
IsAllowed cancelled = Unit
IsAllowed stuck = ⊥

pub record AreDelivered (frames : List Frame) (outcomes : List FrameRead) (later : List Frame)
    : Type 0 where
  pub order : frames_of outcomes ++ later ≡ frames
  pub allowed : All IsAllowed outcomes
  pub all_read : meets_end outcomes ≡ true → later ≡ []

no_head : (head tail : List ℕ) → length head ≡ header_len → [] ≡ head ++ tail → ⊥
no_head head tail size e = omega (arith, ap length e, length-append head tail)

no_more : (xs ys : List Frame) → xs ++ ys ≡ [] → ys ≡ []
no_more [] ys e = e
no_more (x ∷ xs) ys e = cc

same_frame : (f g : Frame) → f.0 ≡ g.0 → f.1 ≡ g.1 → f ≡ g
same_frame (h, p) (k, q) e d = cc

module _ (max_payload_len : ℕ) where
  first_header :
      (frame : Frame) (frames : List Frame) (head tail : List ℕ)
      → Acceptable max_payload_len frame
      → length head ≡ header_len
      → all_bytes (frame ∷ frames) ≡ head ++ tail
      → (decode head ≡ ok frame.0) × (frame.1 ++ all_bytes frames ≡ tail)
  unfolding all_bytes
  first_header frame frames head tail a size e =
      let (same, after) =
        append-cancel (encode frame.0) (frame.1 ++ all_bytes frames) head tail
          ((encode-IsByte frame.0).0 ∙ sym size)
          (sym (append_assoc (encode frame.0) frame.1 (all_bytes frames)) ∙ e) in
      (ap decode (sym same) ∙ decode-encode frame.0 a.version a.fits, after)

  no_bytes : (frames : List Frame) → all_bytes frames ≡ [] → frames ≡ []
  unfolding all_bytes
  no_bytes [] e = refl
  no_bytes (frame ∷ frames) e = absurd (
      no_head (encode frame.0) _ (encode-IsByte frame.0).0
        (sym e ∙ append_assoc (encode frame.0) frame.1 (all_bytes frames)))

  cut-IsFirst :
      (frames : List Frame) (frame : Frame) (after : List ℕ)
      → All (Acceptable max_payload_len) frames
      → IsCut max_payload_len (all_bytes frames) frame after
      → (others : List Frame) × (frames ≡ frame ∷ others)
        × (after ≡ all_bytes others)
        × All (Acceptable max_payload_len) others
  unfolding all_bytes IsCut
  cut-IsFirst [] frame after acceptable (head, size, decoded, e, len, small) =
      absurd (no_head head _ size e)
  cut-IsFirst (first ∷ others) frame after acceptable (head, size, decoded, e, len, small) =
      let (d, tails) = first_header first others head (frame.1 ++ after) acceptable.0 size e in
      let header : first.0 ≡ frame.0 = cc in
      let (payload, more) =
        append-cancel first.1 (all_bytes others) frame.1 after
          (acceptable.0.sized ∙ ap (λ h. h.payload_len) header ∙ sym len) tails in
      (others, ap (λ f. f ∷ others) (same_frame first frame header payload), sym more, acceptable.1)

  IsLost_of_Refused :
      (frames : List Frame) (kind : ErrorId) (got after : List ℕ)
      → All (Acceptable max_payload_len) frames
      → all_bytes frames ≡ got ++ after
      → Refused max_payload_len kind got
      → kind ≡ connection_lost
  unfolding all_bytes Refused
  IsLost_of_Refused frames kind got after acceptable e (inl lost) = lost
  IsLost_of_Refused [] kind got after acceptable e (inr (size, why)) =
      absurd (no_head got after size e)
  IsLost_of_Refused (first ∷ others) kind got after acceptable e (inr (size, inl why)) =
      let d = (first_header first others got after acceptable.0 size e).0 in cc
  IsLost_of_Refused (first ∷ others) kind got after acceptable e
        (inr (size, inr (header, decoded, over, _))) =
      let d = (first_header first others got after acceptable.0 size e).0 in
      let same : first.0 ≡ header = cc in
      absurd (omega (arith, ap (λ h. h.payload_len) same, acceptable.0.small))

  module _ {Stream : Type 0} (read : Stream → ℕ → Arrival × Stream) (rest : Stream → List ℕ) where
    next-AreDelivered :
        (frames : List Frame) (outcome : FrameRead) (st : FrameReadState) (s : Stream)
        (outcomes : List FrameRead)
        → All (Acceptable max_payload_len) frames
        → Reading max_payload_len (all_bytes frames) outcome st (rest s)
        → ((got : List ℕ) (others : List Frame)
            → Holds max_payload_len st got
            → All (Acceptable max_payload_len) others
            → got ++ rest s ≡ all_bytes others
            → (later : List Frame) × AreDelivered others outcomes later)
        → (later : List Frame) × AreDelivered frames (outcome ∷ outcomes) later
    unfolding Reading frames_of meets_end IsAllowed
    next-AreDelivered frames (returned (ok (some frame))) st s outcomes acceptable (h, cut) more =
        let (others, same, after, fine) = cut-IsFirst frames frame (rest s) acceptable cut in
        let (later, d) = more [] others h fine after in
        (
          later,
          record {
            order = ap (◌∷◌ frame) d.order ∙ sym same;
            allowed = (tt, d.allowed);
            all_read = d.all_read;
          },
        )
    next-AreDelivered frames (returned (ok none)) st s outcomes acceptable
          (h, none_before, none_after) more =
        let (later, d) = more [] frames h acceptable (none_after ∙ sym none_before) in
        let empty : frames ≡ [] = no_bytes frames none_before in
        (
          later,
          record {
            order = d.order;
            allowed = (tt, d.allowed);
            all_read = λ _. no_more (frames_of outcomes) later (d.order ∙ empty);
          },
        )
    next-AreDelivered frames (returned (err kind)) st s outcomes acceptable (got, h, bytes, refused)
          more =
        let (later, d) = more got frames h acceptable (sym bytes) in
        (
          later,
          record {
            order = d.order;
            allowed =
                (IsLost_of_Refused frames kind got (rest s) acceptable bytes refused, d.allowed);
            all_read = d.all_read;
          },
        )
    next-AreDelivered frames cancelled st s outcomes acceptable (got, h, bytes) more =
        let (later, d) = more got frames h acceptable (sym bytes) in
        (later, record { order = d.order; allowed = (tt, d.allowed); all_read = d.all_read })
    next-AreDelivered frames stuck st s outcomes acceptable never more = absurd never

    calls-AreDelivered :
        Reads read rest
        → (n : ℕ) (st : FrameReadState) (got : List ℕ) (s : Stream) (frames : List Frame)
        → Holds max_payload_len st got
        → All (Acceptable max_payload_len) frames
        → got ++ rest s ≡ all_bytes frames
        → (later : List Frame) × AreDelivered frames
            (read_calls read max_payload_len n st s).0
            later
    unfolding read_calls frames_of meets_end
    calls-AreDelivered reads zero st got s frames h acceptable e =
        (frames, record { order = refl; allowed = tt; all_read = λ (f : false ≡ true). cc })
    calls-AreDelivered reads (suc n) st got s frames h acceptable e =
        let r : FrameRead × FrameReadState × Stream = read_next read max_payload_len st s in
        next-AreDelivered frames r.0 r.1 r.2 (read_calls read max_payload_len n r.1 r.2).0
          acceptable
          (subst (λ bytes. Reading max_payload_len bytes r.0 r.1 (rest r.2)) e
            (read_next-IsRead read rest max_payload_len reads st got s h))
          (λ got2 others h2 fine e2. calls-AreDelivered reads n r.1 got2 r.2 others h2 fine e2)

pub new_reader-Holds : (max_payload_len : ℕ) → Holds max_payload_len new_reader []
unfolding StageHolds
new_reader-Holds max_payload_len = record { size = refl; within = omega arith; stage = refl }

module _ {Stream : Type 0} (write_all : Stream → List ℕ → Bool × Stream)
    (flush : Stream → Bool × Stream) (written : Stream → List ℕ) where
  proceed-written :
      (s : Stream) (frame : Frame) (more : List ℕ) (next : Stream → Result (Unit {0}) × Stream)
      → ((s2 : Stream) → (next s2).0 ≡ ok tt → written (next s2).1 ≡ written s2 ++ more)
      → (r : Result (Unit {0}) × Stream) → IsSent write_all flush written s frame r
      → (proceed write_all flush r next).0 ≡ ok tt
      → written (proceed write_all flush r next).1 ≡ written s ++ (frame_bytes frame ++ more)
  unfolding IsSent IsWritten
  proceed-written s frame more next then_next (ok done, s2) (inl (over, refused)) e = cc
  proceed-written s frame more next then_next (ok done, s2) (inr (_, whole)) e =
      then_next s2 e
      ∙ ap (λ xs. xs ++ more) whole
      ∙ append_assoc (written s) (frame_bytes frame) more
  proceed-written s frame more next then_next (err kind, s2) sent e = cc

  send_all-written :
      Writes write_all flush written
      → (s : Stream) (frames : List OutboundFrame) → (send_all write_all flush s frames).0 ≡ ok tt
      → written (send_all write_all flush s frames).1 ≡ written s ++ all_bytes (map frame_of frames)
  unfolding send_all all_bytes
  send_all-written w s [] e = sym (append-nil (written s))
  send_all-written w s (frame ∷ frames) e =
      proceed-written s (frame_of frame) (all_bytes (map frame_of frames))
        (λ s2. send_all write_all flush s2 frames) (λ s2 e2. send_all-written w s2 frames e2)
        (send_outbound_frame write_all flush s frame)
        (send_outbound_frame-IsSent write_all flush written w s frame) e

-- If a queue of frames is sent without an error, each with fields that fit their widths and a
-- payload within the reader's limit, and another stream brings the bytes that were written, in any
-- fragments, then every number of calls of read_next on it returns headers and payloads that are,
-- with some later ones, the frames sent, unchanged and in order, although calls fail or are
-- cancelled in between. No call reports an error but a lost connection, and when one reports the
-- end, no frame is left.
pub send_all-AreDelivered :
    {Out In : Type 0} (write_all : Out → List ℕ → Bool × Out) (flush : Out → Bool × Out)
    (written : Out → List ℕ) (read : In → ℕ → Arrival × In) (rest : In → List ℕ)
    → Writes write_all flush written
    → Reads read rest
    → (max_payload_len n : ℕ) (frames : List OutboundFrame) (out : Out) (s : In)
    → All (Acceptable max_payload_len) (map frame_of frames)
    → (send_all write_all flush out frames).0 ≡ ok tt
    → written (send_all write_all flush out frames).1 ≡ written out ++ rest s
    → (later : List Frame) × AreDelivered
        (map frame_of frames)
        (read_calls read max_payload_len n new_reader s).0
        later
send_all-AreDelivered write_all flush written read rest w reads max_payload_len n frames out s
      acceptable sent same =
    calls-AreDelivered max_payload_len read rest reads n new_reader [] s (map frame_of frames)
      (new_reader-Holds max_payload_len) acceptable
      (append-cancel (written out) (rest s) (written out) (all_bytes (map frame_of frames)) refl
        (sym same ∙ send_all-written write_all flush written w out frames sent)).1
