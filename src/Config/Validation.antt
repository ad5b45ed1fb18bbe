-- ===== src/Config/Validation.antt =====
-- A configuration is accepted exactly when every parameter is within its bounds.
use aurelia.Prelude.{
  ℕ, ◌+◌, ◌≤◌, ◌<◌, ◌≡◌, refl, ◌≢◌, ◌↔◌, inl, inr, Option, none, some, List, [], ◌∷◌, arith, ltb,
  Bool-cases, All, length,
}
use aurelia.Config.{
  u64_max, DomusConfig, max_blob_ack_window, max_blob_chunk_size, max_send_queue_size,
  max_taberna_accept_queue_size, max_max_payload_len, max_inbound_handshake_limit_total,
  max_inbound_handshake_limit_per_peer, max_parallel_callis_per_peer, max_send_timeout,
  max_callis_connect_timeout, max_accept_timeout, max_keepalive_interval, max_listener_delay,
  max_listener_reconnect_timeout, max_socket_callback_timeout, max_socket_handshake_timeout,
  max_tcp_callback_timeout, max_tcp_handshake_timeout, max_limited_log_interval,
  max_reconnect_backoff, max_reconnect_backoff_steps, ConfigFault, first_fault, checks,
  check_backoff, required, validate_domus_config,
}

abbrev pub InRange : ℕ → ℕ → Type 0
InRange value limit = (0 < value) × (value ≤ limit)

pub record IsValid (cap : ℕ) (c : DomusConfig) : Type 0 where
  pub queue : InRange c.send_queue_size max_send_queue_size
  pub accept_queue : InRange c.taberna_accept_queue_size max_taberna_accept_queue_size
  pub payload : InRange c.max_payload_len max_max_payload_len
  pub handshakes : InRange c.inbound_handshake_limit_total max_inbound_handshake_limit_total
  pub peer_handshakes :
      InRange c.inbound_handshake_limit_per_peer max_inbound_handshake_limit_per_peer
  pub peer_within_total : c.inbound_handshake_limit_per_peer ≤ c.inbound_handshake_limit_total
  pub parallel : InRange c.max_parallel_callis_per_peer max_parallel_callis_per_peer
  pub chunk : InRange c.blob_window.chunk_size max_blob_chunk_size
  pub window : InRange c.blob_window.ack_window max_blob_ack_window
  pub outbound_capped : c.blob_outbound_buffer_bytes ≤ cap
  pub inbound_capped : c.blob_inbound_buffer_bytes ≤ cap
  pub window_fits : required c ≤ u64_max
  pub outbound_holds : required c ≤ c.blob_outbound_buffer_bytes
  pub inbound_holds : required c ≤ c.blob_inbound_buffer_bytes
  pub send_timed : InRange c.send_timeout max_send_timeout
  pub connect_timed : InRange c.callis_connect_timeout max_callis_connect_timeout
  pub connect_in_send : c.callis_connect_timeout ≤ c.send_timeout
  pub accept_timed : InRange c.accept_timeout max_accept_timeout
  pub accept_in_send : c.accept_timeout ≤ c.send_timeout
  pub keepalive_interval_bound : c.keepalive_interval ≤ max_keepalive_interval
  pub listener_delay_bound : c.listener_delay ≤ max_listener_delay
  pub listener_reconnect_timeout_bound :
      c.listener_reconnect_timeout ≤ max_listener_reconnect_timeout
  pub socket_callback_timeout_bound : c.socket_callback_timeout ≤ max_socket_callback_timeout
  pub socket_handshake_timeout_bound : c.socket_handshake_timeout ≤ max_socket_handshake_timeout
  pub tcp_callback_timeout_bound : c.tcp_callback_timeout ≤ max_tcp_callback_timeout
  pub tcp_handshake_timeout_bound : c.tcp_handshake_timeout ≤ max_tcp_handshake_timeout
  pub limited_log_interval_bound : c.limited_log_interval ≤ max_limited_log_interval
  pub backoff_steps : length c.reconnect_backoff ≤ max_reconnect_backoff_steps
  pub backoff_entries : All (λ d. d ≤ max_reconnect_backoff) c.reconnect_backoff

passes :
    (o : Option ConfigFault) (os : List (Option ConfigFault))
    → first_fault (o ∷ os) ≡ none
    → (o ≡ none) × (first_fault os ≡ none)
passes none os h = (refl, h)
passes (some fault) os h = cc

each_check : (os : List (Option ConfigFault)) → first_fault os ≡ none → All (λ o. o ≡ none) os
each_check [] h = tt
each_check (o ∷ os) h = let (p, rest) = passes o os h in (p, each_check os rest)

none_fails : (os : List (Option ConfigFault)) → All (λ o. o ≡ none) os → first_fault os ≡ none
none_fails [] h = refl
none_fails (none ∷ os) h = none_fails os h.1
none_fails (some fault ∷ os) h = absurd (some_none h.0)
  where
    some_none : {x : ConfigFault} → some x ≢ none
    some_none e = cc

backoff-entries :
    (idx : ℕ) (values : List ℕ)
    → check_backoff idx values ≡ none
    → All (λ d. d ≤ max_reconnect_backoff) values
unfolding check_backoff
backoff-entries idx [] h = tt
backoff-entries idx (value ∷ values) h = elim (Bool-cases (ltb max_reconnect_backoff value)) [
  | inl over ↦ absurd (ground (arith, over, h))
  | inr within ↦
      (ground (arith, within), backoff-entries (idx + 1) values (ground (arith, within, h)))
]

entries-backoff :
    (idx : ℕ) (values : List ℕ)
    → All (λ d. d ≤ max_reconnect_backoff) values
    → check_backoff idx values ≡ none
unfolding check_backoff
entries-backoff idx [] h = refl
entries-backoff idx (value ∷ values) h = ground (arith, h.0, entries-backoff (idx + 1) values h.1)

pub validate-IsValid :
    (c : DomusConfig) (cap : ℕ) → validate_domus_config c cap ≡ none → IsValid cap c
unfolding validate_domus_config
validate-IsValid c cap h =
    let p = each_check (checks c cap) h in
    record {
      queue = (ground (arith, p.0), ground (arith, p.0));
      accept_queue = (ground (arith, p.1.0), ground (arith, p.1.0));
      payload = (ground (arith, p.1.1.0), ground (arith, p.1.1.0));
      handshakes = (ground (arith, p.1.1.1.0), ground (arith, p.1.1.1.0));
      peer_handshakes = (ground (arith, p.1.1.1.1.0), ground (arith, p.1.1.1.1.0));
      peer_within_total = ground (arith, p.1.1.1.1.1.0);
      parallel = (ground (arith, p.1.1.1.1.1.1.0), ground (arith, p.1.1.1.1.1.1.0));
      chunk = (ground (arith, p.1.1.1.1.1.1.1.0), ground (arith, p.1.1.1.1.1.1.1.0));
      window = (ground (arith, p.1.1.1.1.1.1.1.1.0), ground (arith, p.1.1.1.1.1.1.1.1.0));
      outbound_capped = ground (arith, p.1.1.1.1.1.1.1.1.1.0);
      inbound_capped = ground (arith, p.1.1.1.1.1.1.1.1.1.1.0);
      window_fits = ground (arith, p.1.1.1.1.1.1.1.1.1.1.1.0);
      outbound_holds = ground (arith, p.1.1.1.1.1.1.1.1.1.1.1.1.0);
      inbound_holds = ground (arith, p.1.1.1.1.1.1.1.1.1.1.1.1.1.0);
      send_timed = (
        ground (arith, p.1.1.1.1.1.1.1.1.1.1.1.1.1.1.0),
        ground (arith, p.1.1.1.1.1.1.1.1.1.1.1.1.1.1.0),
      );
      connect_timed = (
        ground (arith, p.1.1.1.1.1.1.1.1.1.1.1.1.1.1.1.0),
        ground (arith, p.1.1.1.1.1.1.1.1.1.1.1.1.1.1.1.0),
      );
      connect_in_send = ground (arith, p.1.1.1.1.1.1.1.1.1.1.1.1.1.1.1.1.0);
      accept_timed = (
        ground (arith, p.1.1.1.1.1.1.1.1.1.1.1.1.1.1.1.1.1.0),
        ground (arith, p.1.1.1.1.1.1.1.1.1.1.1.1.1.1.1.1.1.0),
      );
      accept_in_send = ground (arith, p.1.1.1.1.1.1.1.1.1.1.1.1.1.1.1.1.1.1.0);
      keepalive_interval_bound = ground (arith, p.1.1.1.1.1.1.1.1.1.1.1.1.1.1.1.1.1.1.1.0);
      listener_delay_bound = ground (arith, p.1.1.1.1.1.1.1.1.1.1.1.1.1.1.1.1.1.1.1.1.0);
      listener_reconnect_timeout_bound =
          ground (arith, p.1.1.1.1.1.1.1.1.1.1.1.1.1.1.1.1.1.1.1.1.1.0);
      socket_callback_timeout_bound =
          ground (arith, p.1.1.1.1.1.1.1.1.1.1.1.1.1.1.1.1.1.1.1.1.1.1.0);
      socket_handshake_timeout_bound =
          ground (arith, p.1.1.1.1.1.1.1.1.1.1.1.1.1.1.1.1.1.1.1.1.1.1.1.0);
      tcp_callback_timeout_bound =
          ground (arith, p.1.1.1.1.1.1.1.1.1.1.1.1.1.1.1.1.1.1.1.1.1.1.1.1.0);
      tcp_handshake_timeout_bound =
          ground (arith, p.1.1.1.1.1.1.1.1.1.1.1.1.1.1.1.1.1.1.1.1.1.1.1.1.1.0);
      limited_log_interval_bound =
          ground (arith, p.1.1.1.1.1.1.1.1.1.1.1.1.1.1.1.1.1.1.1.1.1.1.1.1.1.1.0);
      backoff_steps = ground (arith, p.1.1.1.1.1.1.1.1.1.1.1.1.1.1.1.1.1.1.1.1.1.1.1.1.1.1.1.0);
      backoff_entries =
          backoff-entries 0 c.reconnect_backoff
            p.1.1.1.1.1.1.1.1.1.1.1.1.1.1.1.1.1.1.1.1.1.1.1.1.1.1.1.1.0;
    }

pub IsValid-validate :
    (c : DomusConfig) (cap : ℕ) → IsValid cap c → validate_domus_config c cap ≡ none
unfolding validate_domus_config
IsValid-validate c cap v = none_fails (checks c cap) (
  ground (arith, v.queue.0, v.queue.1),
  (
    ground (arith, v.accept_queue.0, v.accept_queue.1),
    (
      ground (arith, v.payload.0, v.payload.1),
      (
        ground (arith, v.handshakes.0, v.handshakes.1),
        (
          ground (arith, v.peer_handshakes.0, v.peer_handshakes.1),
          (
            ground (arith, v.peer_within_total),
            (
              ground (arith, v.parallel.0, v.parallel.1),
              (
                ground (arith, v.chunk.0, v.chunk.1),
                (
                  ground (arith, v.window.0, v.window.1),
                  (
                    ground (arith, v.outbound_capped),
                    (
                      ground (arith, v.inbound_capped),
                      (
                        ground (arith, v.window_fits),
                        (
                          ground (arith, v.outbound_holds),
                          (
                            ground (arith, v.inbound_holds),
                            (
                              ground (arith, v.send_timed.0, v.send_timed.1),
                              (
                                ground (arith, v.connect_timed.0, v.connect_timed.1),
                                (
                                  ground (arith, v.connect_in_send),
                                  (
                                    ground (arith, v.accept_timed.0, v.accept_timed.1),
                                    (
                                      ground (arith, v.accept_in_send),
                                      (
                                        ground (arith, v.keepalive_interval_bound),
                                        (
                                          ground (arith, v.listener_delay_bound),
                                          (
                                            ground (arith, v.listener_reconnect_timeout_bound),
                                            (
                                              ground (arith, v.socket_callback_timeout_bound),
                                              (
                                                ground (arith, v.socket_handshake_timeout_bound),
                                                (
                                                  ground (arith, v.tcp_callback_timeout_bound),
                                                  (
                                                    ground (arith, v.tcp_handshake_timeout_bound),
                                                    (
                                                      ground (arith, v.limited_log_interval_bound),
                                                      (
                                                        ground (arith, v.backoff_steps),
                                                        (
                                                          entries-backoff 0 c.reconnect_backoff
                                                            v.backoff_entries,
                                                          tt,
                                                        ),
                                                      ),
                                                    ),
                                                  ),
                                                ),
                                              ),
                                            ),
                                          ),
                                        ),
                                      ),
                                    ),
                                  ),
                                ),
                              ),
                            ),
                          ),
                        ),
                      ),
                    ),
                  ),
                ),
              ),
            ),
          ),
        ),
      ),
    ),
  ),
)

-- A configuration passes validation exactly when every parameter is within its bounds: the sizes
-- and timeouts in their ranges, the peer's share of handshakes within the total, connect and accept
-- timeouts within the send timeout, the buffers under the cap and large enough for a window of
-- chunks, whose size fits in 64 bits, and at most sixteen steps of backoff, none over the limit.
pub validate_iff :
    (c : DomusConfig) (cap : ℕ) → (validate_domus_config c cap ≡ none) ↔ IsValid cap c
validate_iff c cap = (validate-IsValid c cap, IsValid-validate c cap)
