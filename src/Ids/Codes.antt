-- ===== src/Ids/Codes.antt =====
-- The numeric codes of crates/ids/src/lib.rs.
use aurelia.Prelude.{ℕ, ◌≡◌, refl, subst, ◌↔◌, some, arith}
use aurelia.Ids.{
  ErrorId, as_u32, from_u32, unknown_taberna, local_queue_full, peer_unavailable,
  remote_taberna_rejected, connection_lost, peer_restarted, protocol_violation, unsupported_version,
  encode_failure, decode_failure, taberna_busy, send_timeout, blob_callis_without_primary,
  blob_ack_window_exceeded, blob_stream_not_found, blob_stream_out_of_order,
  blob_stream_idle_timeout, blob_stream_missing_chunk, blob_buffer_full, address_mismatch,
  taberna_already_registered, invalid_config, domus_closed, receive_timeout, snapshot_not_available,
  taberna_shutdown,
}

-- Every error identifier is read back from its numeric code.
from_u32-as_u32 : (e : ErrorId) → from_u32 (as_u32 e) ≡ some e
unfolding from_u32 as_u32
from_u32-as_u32 unknown_taberna = refl
from_u32-as_u32 local_queue_full = refl
from_u32-as_u32 peer_unavailable = refl
from_u32-as_u32 remote_taberna_rejected = refl
from_u32-as_u32 connection_lost = refl
from_u32-as_u32 peer_restarted = refl
from_u32-as_u32 protocol_violation = refl
from_u32-as_u32 unsupported_version = refl
from_u32-as_u32 encode_failure = refl
from_u32-as_u32 decode_failure = refl
from_u32-as_u32 taberna_busy = refl
from_u32-as_u32 send_timeout = refl
from_u32-as_u32 blob_callis_without_primary = refl
from_u32-as_u32 blob_ack_window_exceeded = refl
from_u32-as_u32 blob_stream_not_found = refl
from_u32-as_u32 blob_stream_out_of_order = refl
from_u32-as_u32 blob_stream_idle_timeout = refl
from_u32-as_u32 blob_stream_missing_chunk = refl
from_u32-as_u32 blob_buffer_full = refl
from_u32-as_u32 address_mismatch = refl
from_u32-as_u32 taberna_already_registered = refl
from_u32-as_u32 invalid_config = refl
from_u32-as_u32 domus_closed = refl
from_u32-as_u32 receive_timeout = refl
from_u32-as_u32 snapshot_not_available = refl
from_u32-as_u32 taberna_shutdown = refl

-- A numeric code that is read as an error identifier is the code of that identifier.
as_u32-from_u32 : (value : ℕ) (e : ErrorId) → from_u32 value ≡ some e → as_u32 e ≡ value
unfolding from_u32 as_u32
as_u32-from_u32 value e h = ground arith

-- A numeric code is read as an error identifier exactly when it is the code of that identifier, so
-- that every identifier is read back from its code.
pub from_u32_iff : (value : ℕ) (e : ErrorId) → (from_u32 value ≡ some e) ↔ (as_u32 e ≡ value)
from_u32_iff value e =
    (as_u32-from_u32 value e, λ h. subst (λ n. from_u32 n ≡ some e) h (from_u32-as_u32 e))
