-- ===== src/Wire/PayloadLaws.antt =====
-- Round trips of the control payloads.
use aurelia.Prelude.{ℕ, ◌≤◌, ◌≡◌, refl, true, false, List, ◌++◌, arith, ltb, length, length-append}
use aurelia.Prelude.Words.{u32_max}
use aurelia.Ids.{ok, truncate_message, error_message_max_len}
use aurelia.Wire.Bytes.{read_u32_end, to_be_bytes, length-to_be_bytes, read_u32_append}
use aurelia.Wire.Utf8.{is_utf8, is_utf8-truncate}
use aurelia.Wire.Payloads.{
  HelloPayload, primary, blob, hello_to_bytes, hello_from_bytes, new_error, error_to_bytes,
  error_from_bytes, complete_to_bytes, complete_from_bytes, BlobTransferCompletePayload,
}

abbrev pub HelloFits : HelloPayload → Type 0
HelloFits primary = Unit
HelloFits (blob chunk_size ack_window) = (chunk_size ≤ u32_max) × (ack_window ≤ u32_max)

length-two : (v w : ℕ) → length (to_be_bytes 4 v ++ to_be_bytes 4 w) ≡ 8
unfolding to_be_bytes
length-two v w = refl

-- A hello payload whose fields fit in 32 bits is read back from its bytes.
pub hello_from_bytes-to_bytes :
    (p : HelloPayload) → HelloFits p → hello_from_bytes (hello_to_bytes p) ≡ ok p
unfolding hello_from_bytes hello_to_bytes
hello_from_bytes-to_bytes primary f = refl
hello_from_bytes-to_bytes (blob c w) f =
    rw (length-two c w, read_u32_append c _ f.0) (rw (read_u32_end w f.1))

pub complete_from_bytes-to_bytes :
    (p : BlobTransferCompletePayload)
    → p.request_msg_id ≤ u32_max
    → complete_from_bytes (complete_to_bytes p) ≡ ok p
unfolding complete_from_bytes complete_to_bytes
complete_from_bytes-to_bytes p f =
    rw (length-to_be_bytes 4 p.request_msg_id, read_u32_end p.request_msg_id f)

long_enough : (v : ℕ) (rest : List ℕ) → ltb (length (to_be_bytes 4 v ++ rest)) 4 ≡ false
long_enough v rest = ground (arith, length-append (to_be_bytes 4 v) rest, length-to_be_bytes 4 v)

-- An error payload built by ErrorPayload::new is read back from its bytes, the truncated message
-- included, if its identifier fits in 32 bits and the message is valid UTF-8.
pub error_from_bytes-to_bytes :
    (error_id : ℕ) (message : List ℕ)
    → error_id ≤ u32_max
    → is_utf8 message ≡ true
    → error_from_bytes (error_to_bytes (new_error error_id message))
      ≡ ok (new_error error_id message)
unfolding error_from_bytes error_to_bytes new_error
error_from_bytes-to_bytes error_id message f v = rw (
  long_enough error_id (truncate_message error_message_max_len message),
  read_u32_append error_id _ f,
  is_utf8-truncate error_message_max_len message v,
)
