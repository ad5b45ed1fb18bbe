-- ===== src/Config/Examples.antt =====
-- The configuration at small inputs.
use aurelia.Prelude.{◌*◌, ◌≡◌, refl, ◌≢◌, ◌↔◌, true, none, some, [], ◌∷◌, arith}
use aurelia.Config.{
  DomusConfig, BlobBufferClamp, default, tcp, socket, apply_transport_defaults,
  validate_domus_config, normalize_domus_config, normalized, max_blob_buffer_bytes,
  clamp_blob_buffers, blob_buffer_cap_bytes, check_backoff,
}
use aurelia.Config.Validation.{IsValid, validate_iff}
use aurelia.Config.Normal.{IsNormal, normalize-IsNormal, default-IsValid}
use aurelia.Config.Current.{new, access_updates, Agrees, access_updates-Agrees}

default-IsValid_example : IsValid max_blob_buffer_bytes (apply_transport_defaults default socket)
default-IsValid_example = default-IsValid socket max_blob_buffer_bytes (omega arith)

validate_iff_example : (validate_domus_config default 1024 ≡ none) ↔ IsValid 1024 default
validate_iff_example = validate_iff default 1024

too_small : validate_domus_config default 1024 ≢ none
unfolding validate_domus_config check_backoff
too_small h = cc

-- On a machine with 256 MiB the buffers are cut to half of it.
abbrev cut : DomusConfig
cut = record default {
  blob_outbound_buffer_bytes = 128 * 1024 * 1024;
  blob_inbound_buffer_bytes = 128 * 1024 * 1024;
}

abbrev cut_clamp : BlobBufferClamp
cut_clamp = record {
  outbound_requested = 256 * 1024 * 1024;
  inbound_requested = 256 * 1024 * 1024;
  outbound_clamped = true;
  inbound_clamped = true;
  cap_bytes = 128 * 1024 * 1024;
  total_memory_bytes = some (256 * 1024 * 1024);
}

default-cut : normalize_domus_config default (some (256 * 1024 * 1024)) ≡ normalized cut cut_clamp
unfolding normalize_domus_config clamp_blob_buffers blob_buffer_cap_bytes validate_domus_config
    check_backoff
default-cut = refl

normalize-IsNormal_example : IsNormal default (some (256 * 1024 * 1024)) cut
normalize-IsNormal_example =
    normalize-IsNormal default cut (some (256 * 1024 * 1024)) cut_clamp default-cut

access_updates-Agrees_example : Agrees (
    access_updates
      (new (apply_transport_defaults default tcp))
      ((default, some (256 * 1024 * 1024)) ∷ (cut, none) ∷ []))
access_updates-Agrees_example =
    access_updates-Agrees (apply_transport_defaults default tcp)
      ((default, some (256 * 1024 * 1024)) ∷ (cut, none) ∷ [])
      (default-IsValid tcp max_blob_buffer_bytes (omega arith))
