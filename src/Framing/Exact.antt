-- ===== src/Framing/Exact.antt =====
-- `read_frame` of crates/peering/src/transport/frame.rs, which the handshake reads its frames with, on
-- `read_exact` of `tokio::io::AsyncReadExt`.
use aurelia.Prelude.{
  ℕ, ◌≤◌, ◌<◌, ◌≡◌, refl, ap, ◌∙◌, ◌⊎◌, inl, inr, Option, none, some, List, [], ◌++◌, arith, ltb,
  if◌then◌else◌, ltb→lt, if_holds, length,
}
use aurelia.Ids.{Result, ok, err, connection_lost, protocol_violation}
use aurelia.Wire.Header.{WireHeader, header_len, decode}
use aurelia.Framing.Cases.{IsCut, Refused}

-- All the bytes asked for, the end of the stream before them, or another error.
pub data ExactRead : Type 0 where
  whole : List ℕ → ExactRead
  cut_short failed_read : ExactRead

-- What the documentation promises, in the bytes that are to come before and after.
unfoldable pub TookExactly : ℕ → List ℕ → ExactRead → List ℕ → Type 0
TookExactly n before (whole bytes) after = (before ≡ bytes ++ after) × (length bytes ≡ n)
TookExactly n before cut_short after = length before < n
TookExactly n before failed_read after = Unit

-- What `read_frame` returns, and the bytes that are still to come.
unfoldable pub ReadsFrame : ℕ → List ℕ → Result (Option (WireHeader × List ℕ)) → List ℕ → Type 0
ReadsFrame max_payload_len before (ok (some frame)) after = IsCut max_payload_len before frame after
ReadsFrame max_payload_len before (ok none) after = length before < header_len
ReadsFrame max_payload_len before (err kind) after =
    (kind ≡ connection_lost)
    ⊎ ((head : List ℕ) × (before ≡ head ++ after) × Refused max_payload_len kind head)

module _ {Stream : Type 0} (read_exact : Stream → ℕ → ExactRead × Stream) where
  abbrev pub take_payload :
      WireHeader → ExactRead × Stream → Result (Option (WireHeader × List ℕ)) × Stream
  take_payload header (whole payload, s) = (ok (some (header, payload)), s)
  take_payload header (cut_short, s) = (err connection_lost, s)
  take_payload header (failed_read, s) = (err connection_lost, s)

  unfoldable pub read_frame_payload :
      ℕ → Result WireHeader → Stream → Result (Option (WireHeader × List ℕ)) × Stream
  read_frame_payload max_payload_len (err kind) s = (err kind, s)
  read_frame_payload max_payload_len (ok header) s =
      if ltb max_payload_len header.payload_len
      then (err protocol_violation, s)
      else if ltb 0 header.payload_len
      then take_payload header (read_exact s header.payload_len)
      else (ok (some (header, [])), s)

  abbrev pub take_header : ℕ → ExactRead × Stream → Result (Option (WireHeader × List ℕ)) × Stream
  unfolding read_frame_payload
  take_header max_payload_len (whole head, s) = read_frame_payload max_payload_len (decode head) s
  take_header max_payload_len (cut_short, s) = (ok none, s)
  take_header max_payload_len (failed_read, s) = (err connection_lost, s)

  unfoldable pub read_frame : ℕ → Stream → Result (Option (WireHeader × List ℕ)) × Stream
  unfolding read_frame_payload
  read_frame max_payload_len s = take_header max_payload_len (read_exact s header_len)

  unfoldable pub ReadsExactly : (Stream → List ℕ) → Type 0
  ReadsExactly rest =
      (s : Stream) (n : ℕ) → TookExactly n (rest s) (read_exact s n).0 (rest (read_exact s n).1)

  module _ (rest : Stream → List ℕ) (max_payload_len : ℕ) where
    abbrev IsFrameRead : List ℕ → Result (Option (WireHeader × List ℕ)) × Stream → Type 0
    IsFrameRead before (result, s) = ReadsFrame max_payload_len before result (rest s)

    take_payload-ReadsFrame :
        (header : WireHeader) (before head : List ℕ) (s : Stream) (r : ExactRead × Stream)
        → length head ≡ header_len
        → decode head ≡ ok header
        → header.payload_len ≤ max_payload_len
        → before ≡ head ++ rest s
        → TookExactly header.payload_len (rest s) r.0 (rest r.1)
        → IsFrameRead before (take_payload header r)
    unfolding TookExactly ReadsFrame IsCut
    take_payload-ReadsFrame header before head s (whole payload, s2) size d small e took =
        (head, size, d, e ∙ ap (◌++◌ head) took.0, took.1, small)
    take_payload-ReadsFrame header before head s (cut_short, s2) size d small e took = inl refl
    take_payload-ReadsFrame header before head s (failed_read, s2) size d small e took = inl refl

    payload-ReadsFrame :
        ReadsExactly rest
        → (before head : List ℕ) (s : Stream) (result : Result WireHeader)
        → length head ≡ header_len
        → decode head ≡ result
        → before ≡ head ++ rest s
        → IsFrameRead before (read_frame_payload max_payload_len result s)
    unfolding ReadsFrame read_frame_payload IsCut Refused ReadsExactly
    payload-ReadsFrame reads before head s (err kind) size d e = inr (head, e, inr (size, inl d))
    payload-ReadsFrame reads before head s (ok header) size d e =
        if_holds (IsFrameRead before) (ltb max_payload_len header.payload_len)
          (λ over. inr (
            head,
            e,
            inr (size, inr (header, d, ltb→lt max_payload_len header.payload_len over, refl)),
          ))
          (λ small.
            if_holds (IsFrameRead before) (ltb 0 header.payload_len)
              (λ _.
                take_payload-ReadsFrame header before head s (read_exact s header.payload_len) size
                  d (ground arith) e (reads s header.payload_len))
              (λ nothing. (head, size, d, e, ground arith, ground arith)))

    header-ReadsFrame :
        ReadsExactly rest
        → (before : List ℕ) (r : ExactRead × Stream) → TookExactly header_len before r.0 (rest r.1)
        → IsFrameRead before (take_header max_payload_len r)
    unfolding ReadsFrame TookExactly take_header read_frame_payload
    header-ReadsFrame reads before (whole head, s) took =
        payload-ReadsFrame reads before head s (decode head) took.1 refl took.0
    header-ReadsFrame reads before (cut_short, s) took = took
    header-ReadsFrame reads before (failed_read, s) took = inl refl

    -- Over a stream that reads exactly as documented, read_frame cuts the next frame, with a
    -- payload as long as its header says and within the limit, off the bytes to come; or says that
    -- there is none, when they do not make up a header; or reports a lost connection, or after a
    -- whole header that is not of the protocol or announces too much, the reason.
    pub read_frame-ReadsFrame :
        ReadsExactly rest
        → (s : Stream)
        → ReadsFrame max_payload_len
            (rest s)
            (read_frame max_payload_len s).0
            (rest (read_frame max_payload_len s).1)
    unfolding read_frame ReadsExactly
    read_frame-ReadsFrame reads s =
        header-ReadsFrame reads (rest s) (read_exact s header_len) (reads s header_len)
