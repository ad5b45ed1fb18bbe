-- ===== src/Ids.antt =====
-- crates/ids/src/lib.rs: message types and their priority ranges, the error and log identifiers, and
-- the workspace's error type. A panic is `none`.
pub mod Ranges
pub mod Codes
pub mod Truncation
mod Examples
use aurelia.Prelude.{
  ℕ, zero, suc, ◌+◌, ◌-◌, Bool, true, ◌||◌, Option, none, some, List, ltb, leb, ◌==◌, if◌then◌else◌,
  length, get_elem?, take,
}
use aurelia.Prelude.Words.{u32_max}

abbrev pub a3_message_type_base : ℕ
a3_message_type_base = 0x0100_0000

abbrev pub a1_message_type_max : ℕ
a1_message_type_max = 0xffff

abbrev pub a2_message_type_base : ℕ
a2_message_type_base = a1_message_type_max + 1

abbrev pub a2_message_type_max : ℕ
a2_message_type_max = a3_message_type_base - 1

abbrev pub a3_message_type_max_offset : ℕ
a3_message_type_max_offset = u32_max - a3_message_type_base

pub data MessagePriorityClass : Type 0 where
  a1 a2 a3 : MessagePriorityClass

unfoldable pub classify_message_priority : ℕ → MessagePriorityClass
classify_message_priority msg_type =
    if leb msg_type a1_message_type_max
    then a1
    else if leb msg_type a2_message_type_max
    then a2
    else a3

-- `checked_add` of u32.
unfoldable pub try_a3_message_type : ℕ → Option ℕ
try_a3_message_type offset =
    if leb (a3_message_type_base + offset) u32_max
    then some (a3_message_type_base + offset)
    else none

unfoldable pub a3_message_type : ℕ → Option ℕ
unfolding try_a3_message_type
a3_message_type offset = elim (try_a3_message_type offset) [
  | some msg_type ↦ some msg_type
  | none ↦ none
]

abbrev pub msg_hello : ℕ
msg_hello = 1

abbrev pub msg_hello_response : ℕ
msg_hello_response = 2

abbrev pub msg_keepalive : ℕ
msg_keepalive = 3

abbrev pub msg_ack : ℕ
msg_ack = 4

abbrev pub msg_close : ℕ
msg_close = 5

abbrev pub msg_error : ℕ
msg_error = 6

abbrev pub msg_reserved_7 : ℕ
msg_reserved_7 = 7

abbrev pub msg_blob_transfer_chunk : ℕ
msg_blob_transfer_chunk = 8

abbrev pub msg_blob_transfer_complete : ℕ
msg_blob_transfer_complete = 9

pub data LogId : Type 0 where
  handshake_total_limit handshake_per_peer_limit callis_per_peer_limit outbound_queue_overrun :
      LogId
  duplicate_outbound_ack duplicate_outbound_error : LogId

unfoldable pub log_id_as_u32 : LogId → ℕ
log_id_as_u32 handshake_total_limit = 1001
log_id_as_u32 handshake_per_peer_limit = 1002
log_id_as_u32 callis_per_peer_limit = 1003
log_id_as_u32 outbound_queue_overrun = 1004
log_id_as_u32 duplicate_outbound_ack = 1005
log_id_as_u32 duplicate_outbound_error = 1006

pub data ErrorId : Type 0 where
  unknown_taberna local_queue_full peer_unavailable remote_taberna_rejected connection_lost :
      ErrorId
  peer_restarted protocol_violation unsupported_version encode_failure decode_failure : ErrorId
  taberna_busy send_timeout blob_callis_without_primary blob_ack_window_exceeded : ErrorId
  blob_stream_not_found blob_stream_out_of_order blob_stream_idle_timeout : ErrorId
  blob_stream_missing_chunk blob_buffer_full address_mismatch taberna_already_registered : ErrorId
  invalid_config domus_closed receive_timeout snapshot_not_available taberna_shutdown : ErrorId

unfoldable pub as_u32 : ErrorId → ℕ
as_u32 unknown_taberna = 1
as_u32 local_queue_full = 2
as_u32 peer_unavailable = 3
as_u32 remote_taberna_rejected = 4
as_u32 connection_lost = 5
as_u32 peer_restarted = 6
as_u32 protocol_violation = 7
as_u32 unsupported_version = 8
as_u32 encode_failure = 9
as_u32 decode_failure = 10
as_u32 taberna_busy = 11
as_u32 send_timeout = 12
as_u32 blob_callis_without_primary = 13
as_u32 blob_ack_window_exceeded = 14
as_u32 blob_stream_not_found = 15
as_u32 blob_stream_out_of_order = 16
as_u32 blob_stream_idle_timeout = 17
as_u32 blob_stream_missing_chunk = 18
as_u32 blob_buffer_full = 19
as_u32 address_mismatch = 20
as_u32 taberna_already_registered = 21
as_u32 invalid_config = 22
as_u32 domus_closed = 23
as_u32 receive_timeout = 24
as_u32 snapshot_not_available = 25
as_u32 taberna_shutdown = 26

-- The arms of the generated `match`, in declaration order.
unfoldable pub from_u32 : ℕ → Option ErrorId
from_u32 value =
    if value == 1
    then some unknown_taberna
    else if value == 2
    then some local_queue_full
    else if value == 3
    then some peer_unavailable
    else if value == 4
    then some remote_taberna_rejected
    else if value == 5
    then some connection_lost
    else if value == 6
    then some peer_restarted
    else if value == 7
    then some protocol_violation
    else if value == 8
    then some unsupported_version
    else if value == 9
    then some encode_failure
    else if value == 10
    then some decode_failure
    else if value == 11
    then some taberna_busy
    else if value == 12
    then some send_timeout
    else if value == 13
    then some blob_callis_without_primary
    else if value == 14
    then some blob_ack_window_exceeded
    else if value == 15
    then some blob_stream_not_found
    else if value == 16
    then some blob_stream_out_of_order
    else if value == 17
    then some blob_stream_idle_timeout
    else if value == 18
    then some blob_stream_missing_chunk
    else if value == 19
    then some blob_buffer_full
    else if value == 20
    then some address_mismatch
    else if value == 21
    then some taberna_already_registered
    else if value == 22
    then some invalid_config
    else if value == 23
    then some domus_closed
    else if value == 24
    then some receive_timeout
    else if value == 25
    then some snapshot_not_available
    else if value == 26
    then some taberna_shutdown
    else none

-- What applications match on is the `kind`. A fallible operation of the other modules returns the
-- kind alone: the messages that it formats are not modelled.
pub data Result {ℓ} (A : Type ℓ) : Type ℓ where
  ok : A → Result A
  err : ErrorId → Result A

infixl 8 ◌>>=◌ ◌>>◌
abbrev pub ◌>>=◌ {ℓ κ} : {T : Type ℓ} {U : Type κ} → Result T → (T → Result U) → Result U
err kind >>= next = err kind
ok value >>= next = next value

abbrev pub ◌>>◌ {ℓ} : {U : Type ℓ} → Result (Unit {0}) → Result U → Result U
err kind >> second = err kind
ok done >> second = second

abbrev pub error_message_max_len : ℕ
error_message_max_len = 1024

-- A message is its UTF-8 bytes.
pub record AureliaError : Type 0 where
  pub kind : ErrorId
  pub message : Option (List ℕ)

unfoldable pub new : ErrorId → AureliaError
new kind = record { kind = kind; message = none }

-- `b & 0xC0 != 0x80`, the test of the standard library on the byte at an index inside the text.
unfoldable pub starts_char : ℕ → Bool
starts_char b = ltb b 128 || leb 192 b

abbrev pub byte_boundary : Option ℕ → Bool → Bool
byte_boundary none at_end = at_end
byte_boundary (some b) at_end = starts_char b

-- `str::is_char_boundary`
unfoldable pub is_char_boundary : List ℕ → ℕ → Bool
unfolding starts_char
is_char_boundary message idx =
    if idx == 0 then true else byte_boundary (get_elem? message idx) (idx == length message)

-- `while idx > 0 && !message.is_char_boundary(idx) { idx -= 1; }`
unfoldable pub floor_boundary : List ℕ → ℕ → ℕ
floor_boundary message zero = zero
floor_boundary message (suc idx) =
    let below = floor_boundary message idx in
    if is_char_boundary message (suc idx) then suc idx else below

unfoldable pub truncate_message : ℕ → List ℕ → List ℕ
truncate_message limit message =
    if ltb limit (length message) then take (floor_boundary message limit) message else message

unfoldable pub with_message : ErrorId → List ℕ → AureliaError
with_message kind message = record {
  kind = kind;
  message = some (truncate_message error_message_max_len message);
}
