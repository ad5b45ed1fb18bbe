-- ===== src/Config/Current.antt =====
-- crates/peering/src/config.rs: the configuration in force, and the copies of some of its fields that are read without
-- its lock.
use aurelia.Prelude.{ℕ, ◌≤◌, ◌≡◌, refl, ap, Option, none, some, List, [], ◌∷◌, arith}
use aurelia.Logging.{as_secs}
use aurelia.Config.{
  DomusConfig, Normalized, normalized, invalid, normalize_domus_config, duration_to_nanos,
  max_blob_buffer_bytes, blob_buffer_cap_bytes,
}
use aurelia.Config.Validation.{IsValid}
use aurelia.Config.Normal.{normalize-IsNormal}

pub record DomusConfigStore : Type 0 where
  pub inner : DomusConfig
  -- the watched interval of the limited log, in seconds
  pub limited : ℕ
  pub taberna_accept_queue_size : ℕ
  pub accept_timeout_nanos : ℕ
  pub send_queue_size : ℕ

unfoldable pub new : DomusConfig → DomusConfigStore
new config = record {
  inner = config;
  limited = as_secs config.limited_log_interval;
  taberna_accept_queue_size = config.taberna_accept_queue_size;
  accept_timeout_nanos = duration_to_nanos config.accept_timeout;
  send_queue_size = config.send_queue_size;
}

pub record TabernaLimits : Type 0 where
  pub accept_queue_size : ℕ
  pub accept_timeout : ℕ

unfoldable pub taberna_limits : DomusConfigStore → TabernaLimits
taberna_limits s = record {
  accept_queue_size = s.taberna_accept_queue_size;
  accept_timeout = s.accept_timeout_nanos;
}

unfoldable pub update : DomusConfigStore → DomusConfig → DomusConfigStore
update s next = record s {
  inner = next;
  limited = as_secs next.limited_log_interval;
  taberna_accept_queue_size = next.taberna_accept_queue_size;
  accept_timeout_nanos = duration_to_nanos next.accept_timeout;
  send_queue_size = next.send_queue_size;
}

abbrev pub update_to : DomusConfigStore → Normalized → DomusConfigStore
update_to s (normalized config clamp) = update s config
update_to s (invalid fault) = s

-- `DomusConfigAccess::update`, with what the system says of its memory; the result is the second component.
unfoldable pub access_update :
    DomusConfigStore → DomusConfig → Option ℕ → DomusConfigStore × Normalized
access_update s next total_memory_bytes =
    let n : Normalized = normalize_domus_config next total_memory_bytes in (update_to s n, n)

unfoldable pub access_updates : DomusConfigStore → List (DomusConfig × Option ℕ) → DomusConfigStore
access_updates s [] = s
access_updates s ((next, memory) ∷ rest) = access_updates (access_update s next memory).0 rest

-- The copies are those of the configuration in force, which is valid.
pub record Agrees (s : DomusConfigStore) : Type 0 where
  pub valid : IsValid max_blob_buffer_bytes s.inner
  pub limits : taberna_limits s ≡ record {
    accept_queue_size = s.inner.taberna_accept_queue_size;
    accept_timeout = s.inner.accept_timeout;
  }
  pub queue : s.send_queue_size ≡ s.inner.send_queue_size
  pub interval : s.limited ≡ as_secs s.inner.limited_log_interval

widen : (cap wider : ℕ) (c : DomusConfig) → cap ≤ wider → IsValid cap c → IsValid wider c
widen cap wider c le v = record {
  queue = v.queue;
  accept_queue = v.accept_queue;
  payload = v.payload;
  handshakes = v.handshakes;
  peer_handshakes = v.peer_handshakes;
  peer_within_total = v.peer_within_total;
  parallel = v.parallel;
  chunk = v.chunk;
  window = v.window;
  outbound_capped = omega (arith, v.outbound_capped, le);
  inbound_capped = omega (arith, v.inbound_capped, le);
  window_fits = v.window_fits;
  outbound_holds = v.outbound_holds;
  inbound_holds = v.inbound_holds;
  send_timed = v.send_timed;
  connect_timed = v.connect_timed;
  connect_in_send = v.connect_in_send;
  accept_timed = v.accept_timed;
  accept_in_send = v.accept_in_send;
  keepalive_interval_bound = v.keepalive_interval_bound;
  listener_delay_bound = v.listener_delay_bound;
  listener_reconnect_timeout_bound = v.listener_reconnect_timeout_bound;
  socket_callback_timeout_bound = v.socket_callback_timeout_bound;
  socket_handshake_timeout_bound = v.socket_handshake_timeout_bound;
  tcp_callback_timeout_bound = v.tcp_callback_timeout_bound;
  tcp_handshake_timeout_bound = v.tcp_handshake_timeout_bound;
  limited_log_interval_bound = v.limited_log_interval_bound;
  backoff_steps = v.backoff_steps;
  backoff_entries = v.backoff_entries;
}

in_force :
    (config : DomusConfig)
    → IsValid max_blob_buffer_bytes config
    → duration_to_nanos config.accept_timeout ≡ config.accept_timeout
in_force config v = omega (arith, v.accept_timed.1)

update-Agrees :
    (s : DomusConfigStore) (config : DomusConfig)
    → IsValid max_blob_buffer_bytes config
    → Agrees (update s config)
unfolding update taberna_limits
update-Agrees s config v = record {
  valid = v;
  limits =
      ap {B = TabernaLimits}
        (λ t. record { accept_queue_size = config.taberna_accept_queue_size; accept_timeout = t })
        (in_force config v);
  queue = refl;
  interval = refl;
}

capped : (memory : Option ℕ) → blob_buffer_cap_bytes memory ≤ max_blob_buffer_bytes
unfolding blob_buffer_cap_bytes
capped none = omega arith
capped (some total) = omega arith

access_update-Agrees :
    (s : DomusConfigStore) (next : DomusConfig) (memory : Option ℕ)
    → Agrees s
    → Agrees (access_update s next memory).0
unfolding access_update
access_update-Agrees s next memory v = by (normalize_domus_config next memory) refl
  where
    by : (n : Normalized) → normalize_domus_config next memory ≡ n → Agrees (update_to s n)
    by (normalized config clamp) e = update-Agrees s config (
        widen (blob_buffer_cap_bytes memory) max_blob_buffer_bytes config (capped memory)
          (normalize-IsNormal next config memory clamp e).valid)
    by (invalid fault) e = v

updates-keep :
    (s : DomusConfigStore) (updates : List (DomusConfig × Option ℕ))
    → Agrees s
    → Agrees (access_updates s updates)
unfolding access_updates
updates-keep s [] v = v
updates-keep s ((next, memory) ∷ rest) v =
    updates-keep (access_update s next memory).0 rest (access_update-Agrees s next memory v)

-- From a valid configuration, after every sequence of updates, refused ones included, the
-- configuration in force is valid and the copies that are read without the lock (queue sizes, the
-- accept timeout and the log interval) are those of it.
pub access_updates-Agrees :
    (config : DomusConfig) (updates : List (DomusConfig × Option ℕ))
    → IsValid max_blob_buffer_bytes config
    → Agrees (access_updates (new config) updates)
unfolding new update
access_updates-Agrees config updates v =
    updates-keep (new config) updates (update-Agrees (new config) config v)
