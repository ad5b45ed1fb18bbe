-- ===== src/Wire/Payloads.antt =====
-- The control payloads of crates/peering/src/wire.rs.
use aurelia.Prelude.{ℕ, ◌/◌, Option, none, some, List, [], ◌++◌, ltb, ◌==◌, if◌then◌else◌, length}
use aurelia.Ids.{
  Result, ok, err, decode_failure, protocol_violation, ◌>>=◌, truncate_message,
  error_message_max_len,
}
use aurelia.Wire.Bytes.{to_be_bytes, read_u16, read_u32, read_u64}
use aurelia.Wire.Utf8.{is_utf8}

pub data HelloPayload : Type 0 where
  primary : HelloPayload
  blob : ℕ → ℕ → HelloPayload

abbrev pub primary_len : ℕ
primary_len = 0

abbrev pub blob_len : ℕ
blob_len = 8

unfoldable pub hello_to_bytes : HelloPayload → List ℕ
hello_to_bytes (blob chunk_size ack_window_chunks) =
    to_be_bytes 4 chunk_size ++ to_be_bytes 4 ack_window_chunks
hello_to_bytes primary = []

hello_blob_fields : List ℕ → Result HelloPayload
hello_blob_fields buf = do
  (chunk_size, buf) ← read_u32 buf
  (ack_window_chunks, buf) ← read_u32 buf
  ok (blob chunk_size ack_window_chunks)

unfoldable pub hello_from_bytes : List ℕ → Result HelloPayload
unfolding hello_blob_fields
hello_from_bytes bytes =
    if length bytes == primary_len
    then ok primary
    else if length bytes == blob_len
    then hello_blob_fields bytes
    else err decode_failure

-- `BlobChunkFlags`: the bits of a chunk's flags. `from_bits` refuses an unknown bit.
abbrev pub last_chunk : ℕ
last_chunk = 0x0001

unfoldable pub flags_from_bits : ℕ → Option ℕ
flags_from_bits bits = if bits / 2 == 0 then some bits else none

pub record BlobTransferChunkPayload : Type 0 where
  pub request_msg_id : ℕ
  pub chunk_id : ℕ
  pub flags : ℕ
  pub chunk : List ℕ

-- `4 + 8 + 2 + 4`
abbrev pub chunk_header_len : ℕ
chunk_header_len = 18

abbrev pub check_chunk_len : ℕ → List ℕ → Result (Unit {0})
check_chunk_len chunk_len buf = if length buf == chunk_len then ok tt else err decode_failure

abbrev pub check_flags : Option ℕ → Result ℕ
check_flags none = err protocol_violation
check_flags (some flags) = ok flags

unfoldable pub chunk_fields : List ℕ → Result BlobTransferChunkPayload
unfolding flags_from_bits
chunk_fields buf = do
  (request_msg_id, buf) ← read_u32 buf
  (chunk_id, buf) ← read_u64 buf
  (flags, buf) ← read_u16 buf
  (chunk_len, buf) ← read_u32 buf
  _ ← check_chunk_len chunk_len buf
  flags ← check_flags (flags_from_bits flags)
  ok (record { request_msg_id = request_msg_id; chunk_id = chunk_id; flags = flags; chunk = buf })

unfoldable pub chunk_from_bytes : List ℕ → Result BlobTransferChunkPayload
unfolding chunk_fields
chunk_from_bytes bytes =
    if ltb (length bytes) chunk_header_len then err decode_failure else chunk_fields bytes

abbrev pub complete_len : ℕ
complete_len = 4

pub record BlobTransferCompletePayload : Type 0 where
  pub request_msg_id : ℕ

unfoldable pub complete_to_bytes : BlobTransferCompletePayload → List ℕ
complete_to_bytes p = to_be_bytes 4 p.request_msg_id

complete_fields : List ℕ → Result BlobTransferCompletePayload
complete_fields buf = do
  (request_msg_id, buf) ← read_u32 buf
  ok (record { request_msg_id = request_msg_id })

unfoldable pub complete_from_bytes : List ℕ → Result BlobTransferCompletePayload
unfolding complete_fields
complete_from_bytes bytes =
    if length bytes == complete_len then complete_fields bytes else err decode_failure

-- The message is its UTF-8 bytes.
pub record ErrorPayload : Type 0 where
  pub error_id : ℕ
  pub message : List ℕ

unfoldable pub new_error : ℕ → List ℕ → ErrorPayload
new_error error_id message = record {
  error_id = error_id;
  message = truncate_message error_message_max_len message;
}

unfoldable pub error_to_bytes : ErrorPayload → List ℕ
error_to_bytes p = to_be_bytes 4 p.error_id ++ p.message

abbrev pub from_utf8 : List ℕ → Result (List ℕ)
from_utf8 bytes = if is_utf8 bytes then ok bytes else err decode_failure

error_fields : List ℕ → Result ErrorPayload
error_fields buf = do
  (error_id, buf) ← read_u32 buf
  message ← from_utf8 buf
  ok (record { error_id = error_id; message = message })

unfoldable pub error_from_bytes : List ℕ → Result ErrorPayload
unfolding error_fields
error_from_bytes bytes = if ltb (length bytes) 4 then err decode_failure else error_fields bytes
