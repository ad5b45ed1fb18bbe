-- ===== src/Config/Builder.antt =====
-- crates/peering/src/config.rs: the builder of a configuration.
use aurelia.Prelude.{ℕ, Option, List}
use aurelia.Config.{DomusConfig, default, Normalized, normalize_domus_config}

pub record DomusConfigBuilder : Type 0 where
  pub config : DomusConfig

unfoldable pub new : DomusConfigBuilder
new = record { config = default }

abbrev pub send_queue_size : DomusConfigBuilder → ℕ → DomusConfigBuilder
send_queue_size b value = record b { config = record b.config { send_queue_size = value } }

abbrev pub send_timeout : DomusConfigBuilder → ℕ → DomusConfigBuilder
send_timeout b value = record b { config = record b.config { send_timeout = value } }

abbrev pub callis_connect_timeout : DomusConfigBuilder → ℕ → DomusConfigBuilder
callis_connect_timeout b value = record b {
  config = record b.config { callis_connect_timeout = value };
}

abbrev pub accept_timeout : DomusConfigBuilder → ℕ → DomusConfigBuilder
accept_timeout b value = record b { config = record b.config { accept_timeout = value } }

abbrev pub taberna_accept_queue_size : DomusConfigBuilder → ℕ → DomusConfigBuilder
taberna_accept_queue_size b value = record b {
  config = record b.config { taberna_accept_queue_size = value };
}

abbrev pub keepalive_interval : DomusConfigBuilder → ℕ → DomusConfigBuilder
keepalive_interval b value = record b { config = record b.config { keepalive_interval = value } }

abbrev pub listener_delay : DomusConfigBuilder → ℕ → DomusConfigBuilder
listener_delay b value = record b { config = record b.config { listener_delay = value } }

abbrev pub listener_reconnect_timeout : DomusConfigBuilder → ℕ → DomusConfigBuilder
listener_reconnect_timeout b value = record b {
  config = record b.config { listener_reconnect_timeout = value };
}

abbrev pub reconnect_backoff : DomusConfigBuilder → List ℕ → DomusConfigBuilder
reconnect_backoff b value = record b { config = record b.config { reconnect_backoff = value } }

abbrev pub socket_callback_timeout : DomusConfigBuilder → ℕ → DomusConfigBuilder
socket_callback_timeout b value = record b {
  config = record b.config { socket_callback_timeout = value };
}

abbrev pub socket_handshake_timeout : DomusConfigBuilder → ℕ → DomusConfigBuilder
socket_handshake_timeout b value = record b {
  config = record b.config { socket_handshake_timeout = value };
}

abbrev pub tcp_callback_timeout : DomusConfigBuilder → ℕ → DomusConfigBuilder
tcp_callback_timeout b value = record b {
  config = record b.config { tcp_callback_timeout = value };
}

abbrev pub tcp_handshake_timeout : DomusConfigBuilder → ℕ → DomusConfigBuilder
tcp_handshake_timeout b value = record b {
  config = record b.config { tcp_handshake_timeout = value };
}

abbrev pub limited_log_interval : DomusConfigBuilder → ℕ → DomusConfigBuilder
limited_log_interval b value = record b {
  config = record b.config { limited_log_interval = value };
}

abbrev pub inbound_handshake_limit_total : DomusConfigBuilder → ℕ → DomusConfigBuilder
inbound_handshake_limit_total b value = record b {
  config = record b.config { inbound_handshake_limit_total = value };
}

abbrev pub inbound_handshake_limit_per_peer : DomusConfigBuilder → ℕ → DomusConfigBuilder
inbound_handshake_limit_per_peer b value = record b {
  config = record b.config { inbound_handshake_limit_per_peer = value };
}

abbrev pub max_parallel_callis_per_peer : DomusConfigBuilder → ℕ → DomusConfigBuilder
max_parallel_callis_per_peer b value = record b {
  config = record b.config { max_parallel_callis_per_peer = value };
}

abbrev pub blob_window : DomusConfigBuilder → ℕ → ℕ → DomusConfigBuilder
blob_window b chunk_size ack_window = record b {
  config = record b.config {
    blob_window = record { chunk_size = chunk_size; ack_window = ack_window };
  };
}

abbrev pub blob_outbound_buffer_bytes : DomusConfigBuilder → ℕ → DomusConfigBuilder
blob_outbound_buffer_bytes b value = record b {
  config = record b.config { blob_outbound_buffer_bytes = value };
}

abbrev pub blob_inbound_buffer_bytes : DomusConfigBuilder → ℕ → DomusConfigBuilder
blob_inbound_buffer_bytes b value = record b {
  config = record b.config { blob_inbound_buffer_bytes = value };
}

abbrev pub max_payload_len : DomusConfigBuilder → ℕ → DomusConfigBuilder
max_payload_len b value = record b { config = record b.config { max_payload_len = value } }

unfoldable pub build : DomusConfigBuilder → Option ℕ → Normalized
build b total_memory_bytes = normalize_domus_config b.config total_memory_bytes
