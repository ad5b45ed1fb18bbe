-- ===== src/Framing/Sending.antt =====
-- The frames that are sent: crates/peering/src/transport/frame.rs. A stream is written through two
-- functions of `tokio::io::AsyncWriteExt`, `write_all` and `flush`, which say whether they succeeded.
use aurelia.Prelude.{
  ℕ, ◌+◌, Bool, true, false, List, [], ◌∷◌, leb, if◌then◌else◌, length, is_empty, replicate,
}
use aurelia.Prelude.Words.{u32_max}
use aurelia.Ids.{
  ◌>>=◌, Result, ok, err, connection_lost, protocol_violation, msg_ack, msg_blob_transfer_chunk,
}
use aurelia.Retained.{OutboundFrame, PeerMessage}
use aurelia.Wire.Bytes.{to_be_bytes}
use aurelia.Wire.Header.{WireHeader, protocol_version, encode, write_at}
use aurelia.Wire.Payloads.{chunk_header_len}

unfoldable pub wire_payload_len : ℕ → Result ℕ
wire_payload_len payload_len =
    if leb payload_len u32_max then ok payload_len else err protocol_violation

-- `control_header`, after the length is known.
abbrev pub control_fields : ℕ → ℕ → ℕ → ℕ → WireHeader
control_fields msg_type flags peer_msg_id payload_len = record {
  version = protocol_version;
  flags = flags;
  msg_type = msg_type;
  peer_msg_id = peer_msg_id;
  src_taberna = 0;
  dst_taberna = 0;
  payload_len = payload_len;
}

unfoldable pub control_header : ℕ → ℕ → ℕ → ℕ → Result WireHeader
unfolding wire_payload_len
control_header msg_type flags peer_msg_id payload_len = do
  payload_len ← wire_payload_len payload_len
  ok (control_fields msg_type flags peer_msg_id payload_len)

abbrev pub message_fields : PeerMessage → ℕ → WireHeader
message_fields message payload_len = record {
  version = protocol_version;
  flags = message.flags;
  msg_type = message.msg_type;
  peer_msg_id = message.peer_msg_id;
  src_taberna = message.src_taberna;
  dst_taberna = message.dst_taberna;
  payload_len = payload_len;
}

-- The `inner` buffer of a blob chunk: its fields, without the bytes of the chunk.
unfoldable pub chunk_inner : ℕ → ℕ → ℕ → ℕ → List ℕ
unfolding write_at to_be_bytes
chunk_inner request_msg_id chunk_id flags chunk_len =
    let inner = replicate chunk_header_len 0 in
    let inner = write_at inner 0 (to_be_bytes 4 request_msg_id) in
    let inner = write_at inner 4 (to_be_bytes 8 chunk_id) in
    let inner = write_at inner 12 (to_be_bytes 2 flags) in
    write_at inner 14 (to_be_bytes 4 chunk_len)

module _ {Stream : Type 0} (write_all : Stream → List ℕ → Bool × Stream)
    (flush : Stream → Bool × Stream) where
  -- `.await.map_err(connection_lost)?`
  abbrev pub attempt :
      Bool × Stream → (Stream → Result (Unit {0}) × Stream) → Result (Unit {0}) × Stream
  attempt (true, s) next = next s
  attempt (false, s) next = (err connection_lost, s)

  -- `?` on a result that leaves the stream as it is.
  abbrev pub checked :
      {A : Type 0}
      → Stream
      → Result A
      → (A → Result (Unit {0}) × Stream)
      → Result (Unit {0}) × Stream
  checked s (ok a) next = next a
  checked s (err kind) next = (err kind, s)

  abbrev pub write_some : Stream → List ℕ → Bool × Stream
  write_some s bytes = if is_empty bytes then (true, s) else write_all s bytes

  unfoldable pub send_frame : Stream → WireHeader → List ℕ → Result (Unit {0}) × Stream
  send_frame s header payload =
      attempt (write_all s (encode header))
        λ s. attempt (write_some s payload) λ s. attempt (flush s) λ s. (ok tt, s)

  unfoldable pub send_control_frame : Stream → ℕ → ℕ → ℕ → List ℕ → Result (Unit {0}) × Stream
  unfolding send_frame
  send_control_frame s msg_type flags peer_msg_id payload =
      checked s (control_header msg_type flags peer_msg_id (length payload))
        λ header. send_frame s header payload

  unfoldable pub send_outbound_frame : Stream → OutboundFrame → Result (Unit {0}) × Stream
  unfolding send_frame
  send_outbound_frame s (OutboundFrame.ack_frame peer_msg_id) =
      send_frame s (control_fields msg_ack 0 peer_msg_id 0) []
  send_outbound_frame s (OutboundFrame.message_frame message) =
      checked s (wire_payload_len (length message.payload))
        λ payload_len. send_frame s (message_fields message payload_len) message.payload
  send_outbound_frame s (OutboundFrame.control_frame msg_type peer_msg_id payload) =
      checked s (control_header msg_type 0 peer_msg_id (length payload))
        λ header. send_frame s header payload

  abbrev pub write_chunk : Stream → WireHeader → List ℕ → List ℕ → Result (Unit {0}) × Stream
  write_chunk s header inner chunk = attempt (write_all s (encode header)) λ s.
      attempt (write_all s inner)
        λ s. attempt (write_some s chunk) λ s. attempt (flush s) λ s. (ok tt, s)

  unfoldable pub send_blob_chunk_frame :
      Stream → ℕ → ℕ → ℕ → ℕ → List ℕ → Result (Unit {0}) × Stream
  send_blob_chunk_frame s peer_msg_id request_msg_id chunk_id flags chunk =
      checked s
        (control_header msg_blob_transfer_chunk 0 peer_msg_id (chunk_header_len + length chunk))
        λ header. checked s (wire_payload_len (length chunk)) λ chunk_len.
          write_chunk s header (chunk_inner request_msg_id chunk_id flags chunk_len) chunk

  abbrev pub proceed :
      Result (Unit {0}) × Stream
      → (Stream → Result (Unit {0}) × Stream)
      → Result (Unit {0}) × Stream
  proceed (ok done, s) next = next s
  proceed (err kind, s) next = (err kind, s)

  -- The frames of a queue, one after the other, until one fails.
  unfoldable pub send_all : Stream → List OutboundFrame → Result (Unit {0}) × Stream
  unfolding send_outbound_frame
  send_all s [] = (ok tt, s)
  send_all s (frame ∷ frames) = proceed (send_outbound_frame s frame) λ s. send_all s frames
