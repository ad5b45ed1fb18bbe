-- ===== src/Config.antt =====
-- crates/peering/src/config.rs: the parameters of a domus, their bounds, and the store of those in force. A `Duration`
-- is its nanoseconds. An error of this file always has the kind `InvalidConfig`; a fault has what its text says.
pub mod Builder
pub mod Validation
pub mod Normal
pub mod Current
mod Examples
use aurelia.Prelude.Words.{u64_max}
use aurelia.Prelude.{
  ℕ, ◌+◌, ◌*◌, ◌/◌, min, Bool, true, false, ◌&&◌, ◌||◌, Option, none, some, List, [], ◌∷◌, ltb,
  ◌==◌, if◌then◌else◌, length,
}
use aurelia.Ids.{ErrorId}

-- `Duration::from_secs`
abbrev pub from_secs : ℕ → ℕ
from_secs n = n * 1_000_000_000

abbrev pub default_tcp_blob_chunk_size : ℕ
default_tcp_blob_chunk_size = 1200

abbrev pub default_tcp_blob_ack_window : ℕ
default_tcp_blob_ack_window = 1024

abbrev pub default_socket_blob_chunk_size : ℕ
default_socket_blob_chunk_size = 128 * 1024

abbrev pub default_socket_blob_ack_window : ℕ
default_socket_blob_ack_window = 32

abbrev pub max_send_queue_size : ℕ
max_send_queue_size = 4096

abbrev pub max_max_payload_len : ℕ
max_max_payload_len = 64 * 1024 * 1024

abbrev pub max_inbound_handshake_limit_total : ℕ
max_inbound_handshake_limit_total = 1024

abbrev pub max_inbound_handshake_limit_per_peer : ℕ
max_inbound_handshake_limit_per_peer = 64

abbrev pub max_parallel_callis_per_peer : ℕ
max_parallel_callis_per_peer = 64

abbrev pub max_blob_chunk_size : ℕ
max_blob_chunk_size = 1024 * 1024

abbrev pub max_blob_ack_window : ℕ
max_blob_ack_window = 4096

abbrev pub max_blob_buffer_bytes : ℕ
max_blob_buffer_bytes = 8 * 1024 * 1024 * 1024

abbrev pub max_reconnect_backoff_steps : ℕ
max_reconnect_backoff_steps = 16

abbrev pub max_send_timeout : ℕ
max_send_timeout = from_secs 300

abbrev pub max_callis_connect_timeout : ℕ
max_callis_connect_timeout = from_secs 300

abbrev pub max_accept_timeout : ℕ
max_accept_timeout = from_secs 60

abbrev pub max_keepalive_interval : ℕ
max_keepalive_interval = from_secs 300

abbrev pub max_listener_delay : ℕ
max_listener_delay = from_secs 60

abbrev pub max_listener_reconnect_timeout : ℕ
max_listener_reconnect_timeout = from_secs 300

abbrev pub max_socket_callback_timeout : ℕ
max_socket_callback_timeout = from_secs 60

abbrev pub max_socket_handshake_timeout : ℕ
max_socket_handshake_timeout = from_secs 120

abbrev pub max_tcp_callback_timeout : ℕ
max_tcp_callback_timeout = from_secs 120

abbrev pub max_tcp_handshake_timeout : ℕ
max_tcp_handshake_timeout = from_secs 300

abbrev pub max_limited_log_interval : ℕ
max_limited_log_interval = from_secs 3600

abbrev pub max_reconnect_backoff : ℕ
max_reconnect_backoff = from_secs 300

abbrev pub max_taberna_accept_queue_size : ℕ
max_taberna_accept_queue_size = 1024

pub record BlobWindowConfig : Type 0 where
  pub chunk_size : ℕ
  pub ack_window : ℕ

pub record DomusConfig : Type 0 where
  pub send_queue_size : ℕ
  pub send_timeout : ℕ
  pub callis_connect_timeout : ℕ
  pub accept_timeout : ℕ
  pub taberna_accept_queue_size : ℕ
  pub keepalive_interval : ℕ
  pub listener_delay : ℕ
  pub listener_reconnect_timeout : ℕ
  pub reconnect_backoff : List ℕ
  pub socket_callback_timeout : ℕ
  pub socket_handshake_timeout : ℕ
  pub tcp_callback_timeout : ℕ
  pub tcp_handshake_timeout : ℕ
  pub limited_log_interval : ℕ
  pub inbound_handshake_limit_total : ℕ
  pub inbound_handshake_limit_per_peer : ℕ
  pub max_parallel_callis_per_peer : ℕ
  pub blob_window : BlobWindowConfig
  pub blob_outbound_buffer_bytes : ℕ
  pub blob_inbound_buffer_bytes : ℕ
  pub max_payload_len : ℕ

abbrev pub default : DomusConfig
default = record {
  send_queue_size = 128;
  send_timeout = from_secs 30;
  callis_connect_timeout = from_secs 15;
  accept_timeout = from_secs 5;
  taberna_accept_queue_size = 2;
  keepalive_interval = from_secs 15;
  listener_delay = from_secs 5;
  listener_reconnect_timeout = from_secs 20;
  reconnect_backoff = from_secs 1 ∷ from_secs 2 ∷ from_secs 4 ∷ [];
  socket_callback_timeout = from_secs 2;
  socket_handshake_timeout = from_secs 5;
  tcp_callback_timeout = from_secs 10;
  tcp_handshake_timeout = from_secs 10;
  limited_log_interval = from_secs 120;
  inbound_handshake_limit_total = 64;
  inbound_handshake_limit_per_peer = 3;
  max_parallel_callis_per_peer = 8;
  blob_window = record {
    chunk_size = default_tcp_blob_chunk_size;
    ack_window = default_tcp_blob_ack_window;
  };
  blob_outbound_buffer_bytes = 256 * 1024 * 1024;
  blob_inbound_buffer_bytes = 256 * 1024 * 1024;
  max_payload_len = 8 * 1024 * 1024;
}

-- crates/data
pub data TransportKind : Type 0 where
  tcp socket : TransportKind

abbrev pub is_socket : TransportKind → Bool
is_socket socket = true
is_socket tcp = false

abbrev pub same_window : BlobWindowConfig → BlobWindowConfig → Bool
same_window a b = a.chunk_size == b.chunk_size && a.ack_window == b.ack_window

abbrev pub tcp_window : BlobWindowConfig
tcp_window = record {
  chunk_size = default_tcp_blob_chunk_size;
  ack_window = default_tcp_blob_ack_window;
}

abbrev pub socket_window : BlobWindowConfig
socket_window = record {
  chunk_size = default_socket_blob_chunk_size;
  ack_window = default_socket_blob_ack_window;
}

unfoldable pub apply_transport_defaults : DomusConfig → TransportKind → DomusConfig
apply_transport_defaults config transport =
    if is_socket transport && same_window config.blob_window tcp_window
    then record config { blob_window = socket_window }
    else config

pub data ConfigField : Type 0 where
  send_queue_size_field send_timeout_field callis_connect_timeout_field accept_timeout_field
        taberna_accept_queue_size_field keepalive_interval_field listener_delay_field
        listener_reconnect_timeout_field reconnect_backoff_field socket_callback_timeout_field
        socket_handshake_timeout_field tcp_callback_timeout_field tcp_handshake_timeout_field
        limited_log_interval_field inbound_handshake_limit_total_field
        inbound_handshake_limit_per_peer_field max_parallel_callis_per_peer_field blob_window_field
        blob_outbound_buffer_bytes_field blob_inbound_buffer_bytes_field max_payload_len_field :
      ConfigField
  blob_chunk_size_field blob_ack_window_field : ConfigField

-- The field, and the bounds and the value that the text gives.
pub data ConfigFault : Type 0 where
  range_fault : ConfigField → ℕ → ℕ → ℕ → ConfigFault
  max_fault : ConfigField → ℕ → ℕ → ConfigFault
  duration_max_fault : ConfigField → ℕ → ConfigFault
  zero_fault overflow_fault : ConfigField → ConfigFault
  le_fault : ConfigField → ConfigField → ConfigFault
  ge_fault : ConfigField → ℕ → ConfigFault
  steps_fault : ConfigField → ℕ → ConfigFault
  entry_fault : ConfigField → ℕ → ℕ → ConfigFault

unfoldable pub error_id : ConfigFault → ErrorId
error_id fault = ErrorId.invalid_config

-- `none` is `Ok(())`.
abbrev pub check_range : ConfigField → ℕ → ℕ → Option ConfigFault
check_range field value limit =
    if value == 0 || ltb limit value then some (range_fault field 1 limit value) else none

abbrev pub check_max_u64 : ConfigField → ℕ → ℕ → Option ConfigFault
check_max_u64 field value limit =
    if ltb limit value then some (max_fault field limit value) else none

abbrev pub check_max_duration : ConfigField → ℕ → ℕ → Option ConfigFault
check_max_duration field value limit =
    if ltb limit value then some (duration_max_fault field limit) else none

abbrev pub check_range_duration : ConfigField → ℕ → ℕ → Option ConfigFault
check_range_duration field value limit =
    if value == 0 then some (zero_fault field) else check_max_duration field value limit

abbrev pub check_le : ConfigField → ConfigField → ℕ → ℕ → Option ConfigFault
check_le field other_field value other_value =
    if ltb other_value value then some (le_fault field other_field) else none

abbrev pub check_ge_u64 : ConfigField → ℕ → ℕ → Option ConfigFault
check_ge_u64 field value least = if ltb value least then some (ge_fault field least) else none

-- The checks one after the other, with `?` between them.
abbrev pub first_fault : List (Option ConfigFault) → Option ConfigFault
first_fault [] = none
first_fault (none ∷ checks) = first_fault checks
first_fault (some fault ∷ checks) = some fault

-- The entries of `reconnect_backoff` from an index on.
unfoldable pub check_backoff : ℕ → List ℕ → Option ConfigFault
check_backoff idx [] = none
check_backoff idx (value ∷ values) =
    let rest = check_backoff (idx + 1) values in
    if ltb max_reconnect_backoff value
    then some (entry_fault reconnect_backoff_field idx max_reconnect_backoff)
    else rest

-- The product is taken in u128.
abbrev pub required : DomusConfig → ℕ
required config = config.blob_window.chunk_size * config.blob_window.ack_window

abbrev pub checks : DomusConfig → ℕ → List (Option ConfigFault)
checks config buffer_cap =
    check_range send_queue_size_field config.send_queue_size max_send_queue_size
    ∷ check_range taberna_accept_queue_size_field config.taberna_accept_queue_size
        max_taberna_accept_queue_size
    ∷ check_range max_payload_len_field config.max_payload_len max_max_payload_len
    ∷ check_range inbound_handshake_limit_total_field config.inbound_handshake_limit_total
        max_inbound_handshake_limit_total
    ∷ check_range inbound_handshake_limit_per_peer_field config.inbound_handshake_limit_per_peer
        max_inbound_handshake_limit_per_peer
    ∷ check_le inbound_handshake_limit_per_peer_field inbound_handshake_limit_total_field
        config.inbound_handshake_limit_per_peer config.inbound_handshake_limit_total
    ∷ check_range max_parallel_callis_per_peer_field config.max_parallel_callis_per_peer
        max_parallel_callis_per_peer
    ∷ check_range blob_chunk_size_field config.blob_window.chunk_size max_blob_chunk_size
    ∷ check_range blob_ack_window_field config.blob_window.ack_window max_blob_ack_window
    ∷ check_max_u64 blob_outbound_buffer_bytes_field config.blob_outbound_buffer_bytes buffer_cap
    ∷ check_max_u64 blob_inbound_buffer_bytes_field config.blob_inbound_buffer_bytes buffer_cap
    ∷ (if ltb u64_max (required config) then some (overflow_fault blob_window_field) else none)
    ∷ check_ge_u64 blob_outbound_buffer_bytes_field config.blob_outbound_buffer_bytes
        (required config)
    ∷ check_ge_u64 blob_inbound_buffer_bytes_field config.blob_inbound_buffer_bytes
        (required config)
    ∷ check_range_duration send_timeout_field config.send_timeout max_send_timeout
    ∷ check_range_duration callis_connect_timeout_field config.callis_connect_timeout
        max_callis_connect_timeout
    ∷ check_le callis_connect_timeout_field send_timeout_field config.callis_connect_timeout
        config.send_timeout
    ∷ check_range_duration accept_timeout_field config.accept_timeout max_accept_timeout
    ∷ check_le accept_timeout_field send_timeout_field config.accept_timeout config.send_timeout
    ∷ check_max_duration keepalive_interval_field config.keepalive_interval max_keepalive_interval
    ∷ check_max_duration listener_delay_field config.listener_delay max_listener_delay
    ∷ check_max_duration listener_reconnect_timeout_field config.listener_reconnect_timeout
        max_listener_reconnect_timeout
    ∷ check_max_duration socket_callback_timeout_field config.socket_callback_timeout
        max_socket_callback_timeout
    ∷ check_max_duration socket_handshake_timeout_field config.socket_handshake_timeout
        max_socket_handshake_timeout
    ∷ check_max_duration tcp_callback_timeout_field config.tcp_callback_timeout
        max_tcp_callback_timeout
    ∷ check_max_duration tcp_handshake_timeout_field config.tcp_handshake_timeout
        max_tcp_handshake_timeout
    ∷ check_max_duration limited_log_interval_field config.limited_log_interval
        max_limited_log_interval
    ∷ (if ltb max_reconnect_backoff_steps (length config.reconnect_backoff)
        then some (steps_fault reconnect_backoff_field max_reconnect_backoff_steps)
        else none)
    ∷ check_backoff 0 config.reconnect_backoff
    ∷ []

unfoldable pub validate_domus_config : DomusConfig → ℕ → Option ConfigFault
validate_domus_config config buffer_cap = first_fault (checks config buffer_cap)

unfoldable pub blob_buffer_cap_bytes : Option ℕ → ℕ
blob_buffer_cap_bytes none = max_blob_buffer_bytes
blob_buffer_cap_bytes (some total) = min max_blob_buffer_bytes (total / 2)

pub record BlobBufferClamp : Type 0 where
  pub outbound_requested : ℕ
  pub inbound_requested : ℕ
  pub outbound_clamped : Bool
  pub inbound_clamped : Bool
  pub cap_bytes : ℕ
  pub total_memory_bytes : Option ℕ

abbrev pub any : BlobBufferClamp → Bool
any clamp = clamp.outbound_clamped || clamp.inbound_clamped

-- `total_memory_bytes` is what the system says.
unfoldable pub clamp_blob_buffers : DomusConfig → Option ℕ → DomusConfig × BlobBufferClamp
clamp_blob_buffers config total_memory_bytes =
    let cap_bytes : ℕ = blob_buffer_cap_bytes total_memory_bytes in
    let over_outbound : Bool = ltb cap_bytes config.blob_outbound_buffer_bytes in
    let over_inbound : Bool = ltb cap_bytes config.blob_inbound_buffer_bytes in
    (
      record config {
        blob_outbound_buffer_bytes =
            if over_outbound then cap_bytes else config.blob_outbound_buffer_bytes;
        blob_inbound_buffer_bytes =
            if over_inbound then cap_bytes else config.blob_inbound_buffer_bytes;
      },
      record {
        outbound_requested = config.blob_outbound_buffer_bytes;
        inbound_requested = config.blob_inbound_buffer_bytes;
        outbound_clamped = over_outbound;
        inbound_clamped = over_inbound;
        cap_bytes = cap_bytes;
        total_memory_bytes = total_memory_bytes;
      },
    )

pub data Normalized : Type 0 where
  normalized : DomusConfig → BlobBufferClamp → Normalized
  invalid : ConfigFault → Normalized

abbrev pub unless_fault : DomusConfig × BlobBufferClamp → Option ConfigFault → Normalized
unless_fault (config, clamp) none = normalized config clamp
unless_fault (config, clamp) (some fault) = invalid fault

unfoldable pub normalize_domus_config : DomusConfig → Option ℕ → Normalized
normalize_domus_config config total_memory_bytes =
    let (clamped, clamp) = clamp_blob_buffers config total_memory_bytes in
    unless_fault (clamped, clamp) (validate_domus_config clamped clamp.cap_bytes)

unfoldable pub normalize_domus_config_for_transport :
    DomusConfig → TransportKind → Option ℕ → Normalized
normalize_domus_config_for_transport config transport total_memory_bytes =
    normalize_domus_config (apply_transport_defaults config transport) total_memory_bytes

-- `as_nanos().min(u64::MAX)`, which always fits.
abbrev pub duration_to_nanos : ℕ → ℕ
duration_to_nanos duration = min duration u64_max
