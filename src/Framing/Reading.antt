-- ===== src/Framing/Reading.antt =====
-- The frames that are read: `FrameReadState` and `read_frame` of crates/peering/src/transport/frame.rs. A
-- stream is read through `read` of `tokio::io::AsyncReadExt`, from a stream and the room that is left.
use aurelia.Prelude.{
  ℕ, zero, suc, ◌+◌, ◌-◌, true, false, Option, none, some, List, [], ◌∷◌, ltb, ◌==◌, if◌then◌else◌,
  length, replicate,
}
use aurelia.Ids.{Result, ok, err, connection_lost, protocol_violation}
use aurelia.Wire.Header.{WireHeader, header_len, decode, write_at}

-- What one `read` comes to: the bytes, none of them at the end of the stream; an error; or the
-- future is dropped while it waits, as `select!` does with the branches that it does not take.
pub data Arrival : Type 0 where
  arrived : List ℕ → Arrival
  broken dropped : Arrival

pub record FrameReadState : Type 0 where
  pub header_buf : List ℕ
  pub header_len : ℕ
  pub payload_header : Option WireHeader
  pub payload_buf : List ℕ
  pub payload_len : ℕ

-- `Default`
abbrev pub new_reader : FrameReadState
new_reader = record {
  header_buf = replicate header_len 0;
  header_len = 0;
  payload_header = none;
  payload_buf = [];
  payload_len = 0;
}

pub data Fill : Type 0 where
  full ended lost left exhausted : Fill

-- A buffer and the count of bytes in it.
pub record Filled (Stream : Type 0) : Type 0 where
  pub how : Fill
  pub buf : List ℕ
  pub len : ℕ
  pub stream : Stream

-- The end of one `read_next`, or its future is dropped.
pub data FrameRead : Type 0 where
  returned : Result (Option (WireHeader × List ℕ)) → FrameRead
  cancelled stuck : FrameRead

module _ {Stream : Type 0} (read : Stream → ℕ → Arrival × Stream) where
  -- One `read` in a loop of `read_next`, and what follows it.
  unfoldable pub after_read :
      (List ℕ → ℕ → Stream → Filled Stream) → List ℕ → ℕ → Arrival → Stream → Filled Stream
  unfolding write_at
  after_read go buf len (arrived []) s = record { how = ended; buf = buf; len = len; stream = s }
  after_read go buf len (arrived (b ∷ bs)) s =
      go (write_at buf len (b ∷ bs)) (len + length (b ∷ bs)) s
  after_read go buf len broken s = record { how = lost; buf = buf; len = len; stream = s }
  after_read go buf len dropped s = record { how = left; buf = buf; len = len; stream = s }

  -- The loops of `read_next`, which read into the part of the buffer that is empty.
  unfoldable pub fill_buffer : ℕ → List ℕ → ℕ → Stream → Filled Stream
  unfolding after_read
  fill_buffer zero buf len s = record {
    how = if ltb len (length buf) then exhausted else full;
    buf = buf;
    len = len;
    stream = s;
  }
  fill_buffer (suc fuel) buf len s = elim (ltb len (length buf)) [
    | false ↦ record { how = full; buf = buf; len = len; stream = s }
    | true ↦
        let (arrival, s) = read s (length buf - len) in
        after_read (fill_buffer fuel) buf len arrival s
  ]

  abbrev pub put_payload : FrameReadState → Filled Stream → FrameReadState
  put_payload st r = record {
    header_buf = st.header_buf;
    header_len = st.header_len;
    payload_header = st.payload_header;
    payload_buf = r.buf;
    payload_len = r.len;
  }

  abbrev pub put_header : FrameReadState → Filled Stream → FrameReadState
  put_header st r = record {
    header_buf = r.buf;
    header_len = r.len;
    payload_header = st.payload_header;
    payload_buf = st.payload_buf;
    payload_len = st.payload_len;
  }

  -- `payload_header.take()` and `mem::take(&mut self.payload_buf)`
  abbrev pub taken : FrameReadState → FrameReadState
  taken st = record {
    header_buf = st.header_buf;
    header_len = st.header_len;
    payload_header = none;
    payload_buf = [];
    payload_len = 0;
  }

  abbrev pub after_payload :
      WireHeader → FrameReadState → Fill → Filled Stream → FrameRead × FrameReadState × Stream
  after_payload header st full r =
      (returned (ok (some (header, r.buf))), taken (put_payload st r), r.stream)
  after_payload header st ended r = (returned (err connection_lost), put_payload st r, r.stream)
  after_payload header st lost r = (returned (err connection_lost), put_payload st r, r.stream)
  after_payload header st left r = (cancelled, put_payload st r, r.stream)
  after_payload header st exhausted r = (stuck, put_payload st r, r.stream)

  -- The second half of `read_next`, with a header at hand.
  unfoldable pub read_payload :
      WireHeader → FrameReadState → Stream → FrameRead × FrameReadState × Stream
  unfolding fill_buffer
  read_payload header st s =
      let r : Filled Stream = fill_buffer (length st.payload_buf) st.payload_buf st.payload_len s in
      after_payload header st r.how r

  abbrev pub begin_payload : WireHeader → FrameReadState → FrameReadState
  begin_payload header st = record {
    header_buf = st.header_buf;
    header_len = 0;
    payload_header = some header;
    payload_buf = replicate header.payload_len 0;
    payload_len = 0;
  }

  abbrev pub no_payload : FrameReadState → FrameReadState
  no_payload st = record {
    header_buf = st.header_buf;
    header_len = 0;
    payload_header = st.payload_header;
    payload_buf = st.payload_buf;
    payload_len = st.payload_len;
  }

  unfoldable pub after_decode :
      ℕ → Result WireHeader → FrameReadState → Stream → FrameRead × FrameReadState × Stream
  unfolding read_payload
  after_decode max_payload_len (err kind) st s = (returned (err kind), st, s)
  after_decode max_payload_len (ok header) st s =
      if ltb max_payload_len header.payload_len
      then (returned (err protocol_violation), st, s)
      else if header.payload_len == 0
      then (returned (ok (some (header, []))), no_payload st, s)
      else read_payload header (begin_payload header st) s

  unfoldable pub after_header :
      ℕ → FrameReadState → Fill → Stream → FrameRead × FrameReadState × Stream
  unfolding after_decode
  after_header max_payload_len st full s = after_decode max_payload_len (decode st.header_buf) st s
  after_header max_payload_len st ended s =
      if st.header_len == 0
      then (returned (ok none), st, s)
      else (returned (err connection_lost), st, s)
  after_header max_payload_len st lost s = (returned (err connection_lost), st, s)
  after_header max_payload_len st left s = (cancelled, st, s)
  after_header max_payload_len st exhausted s = (stuck, st, s)

  unfoldable pub read_stage :
      ℕ → Option WireHeader → FrameReadState → Stream → FrameRead × FrameReadState × Stream
  unfolding after_header
  read_stage max_payload_len none st s =
      let r : Filled Stream = fill_buffer header_len st.header_buf st.header_len s in
      after_header max_payload_len (put_header st r) r.how r.stream
  read_stage max_payload_len (some header) st s = read_payload header st s

  unfoldable pub read_next : ℕ → FrameReadState → Stream → FrameRead × FrameReadState × Stream
  unfolding read_stage
  read_next max_payload_len st s = read_stage max_payload_len st.payload_header st s

  -- Call after call, as the loop of a callis makes them.
  unfoldable pub read_calls :
      ℕ → ℕ → FrameReadState → Stream → List FrameRead × FrameReadState × Stream
  unfolding read_next
  read_calls max_payload_len zero st s = ([], st, s)
  read_calls max_payload_len (suc n) st s =
      let (outcome, st, s) = read_next max_payload_len st s in
      let (outcomes, st, s) = read_calls max_payload_len n st s in (outcome ∷ outcomes, st, s)
