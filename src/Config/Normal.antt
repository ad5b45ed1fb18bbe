-- ===== src/Config/Normal.antt =====
-- A normalized configuration is valid, and normal already.
use aurelia.Prelude.{
  ℕ, ◌*◌, ◌≤◌, min, ◌≡◌, refl, ap, subst, ◌∙◌, false, Option, none, some, arith, ltb,
}
use aurelia.Config.{
  TransportKind, tcp, socket, apply_transport_defaults, default, check_backoff, DomusConfig,
  ConfigFault, validate_domus_config, clamp_blob_buffers, BlobBufferClamp, blob_buffer_cap_bytes,
  normalized, unless_fault, normalize_domus_config, any,
}
use aurelia.Config.Validation.{IsValid, validate_iff}

normalized_only :
    (d : DomusConfig) (k : BlobBufferClamp) (o : Option ConfigFault) (e : DomusConfig)
    (clamp : BlobBufferClamp)
    → unless_fault (d, k) o ≡ normalized e clamp
    → (d ≡ e) × (k ≡ clamp) × (o ≡ none)
normalized_only d k none e clamp h = (cc, cc, refl)
normalized_only d k (some fault) e clamp h = cc

clamped_same :
    (c : DomusConfig) (memory : Option ℕ)
    → c.blob_outbound_buffer_bytes ≤ blob_buffer_cap_bytes memory
    → c.blob_inbound_buffer_bytes ≤ blob_buffer_cap_bytes memory
    → ((clamp_blob_buffers c memory).0 ≡ c) × (any (clamp_blob_buffers c memory).1 ≡ false)
unfolding clamp_blob_buffers
clamped_same c memory out inn =
    let no_out : ltb (blob_buffer_cap_bytes memory) c.blob_outbound_buffer_bytes ≡ false =
      ground (arith, out) in
    let no_in : ltb (blob_buffer_cap_bytes memory) c.blob_inbound_buffer_bytes ≡ false =
      ground (arith, inn) in
    (rw (no_out, no_in) refl, rw (no_out, no_in) refl)

-- What a normalization of `c` gives.
pub record IsNormal (c : DomusConfig) (memory : Option ℕ) (d : DomusConfig) : Type 0 where
  pub valid : IsValid (blob_buffer_cap_bytes memory) d
  pub again :
      (k : BlobBufferClamp) × (normalize_domus_config d memory ≡ normalized d k) × (any k ≡ false)
  pub outbound :
      d.blob_outbound_buffer_bytes ≡ min c.blob_outbound_buffer_bytes (blob_buffer_cap_bytes memory)
  pub inbound :
      d.blob_inbound_buffer_bytes ≡ min c.blob_inbound_buffer_bytes (blob_buffer_cap_bytes memory)
  pub others : d ≡ record c {
    blob_outbound_buffer_bytes = d.blob_outbound_buffer_bytes;
    blob_inbound_buffer_bytes = d.blob_inbound_buffer_bytes;
  }

clamp-IsNormal :
    (c : DomusConfig) (memory : Option ℕ)
    → validate_domus_config (clamp_blob_buffers c memory).0 (blob_buffer_cap_bytes memory) ≡ none
    → IsNormal c memory (clamp_blob_buffers c memory).0
unfolding clamp_blob_buffers normalize_domus_config
clamp-IsNormal c memory passes =
    let e : DomusConfig = (clamp_blob_buffers c memory).0 in
    let v : IsValid (blob_buffer_cap_bytes memory) e =
      (validate_iff e (blob_buffer_cap_bytes memory)).0 passes in
    let (same, none_clamped) = clamped_same e memory v.outbound_capped v.inbound_capped in
    record {
      valid = v;
      again = (
        (clamp_blob_buffers e memory).1,
        ap
              (λ x.
                unless_fault (x, (clamp_blob_buffers e memory).1)
                  (validate_domus_config x (blob_buffer_cap_bytes memory)))
              same
            ∙ ap (unless_fault (e, (clamp_blob_buffers e memory).1)) passes,
        none_clamped,
      );
      outbound = ground arith;
      inbound = ground arith;
      others = refl;
    }

-- A configuration that comes out of normalization is valid under the cap of the memory, comes out
-- of a second normalization unchanged with nothing clamped, and differs from the one that went in
-- only in its buffers, which are cut to the cap.
pub normalize-IsNormal :
    (c d : DomusConfig) (memory : Option ℕ) (clamp : BlobBufferClamp)
    → normalize_domus_config c memory ≡ normalized d clamp
    → IsNormal c memory d
unfolding normalize_domus_config clamp_blob_buffers
normalize-IsNormal c d memory clamp h =
    let (same, k_same, passes) =
      normalized_only (clamp_blob_buffers c memory).0 (clamp_blob_buffers c memory).1 _ d clamp h in
    subst (IsNormal c memory) same (clamp-IsNormal c memory passes)

default-passes :
    (transport : TransportKind) (limit : ℕ)
    → ltb limit (256 * 1024 * 1024) ≡ false
    → validate_domus_config (apply_transport_defaults default transport) limit ≡ none
unfolding apply_transport_defaults validate_domus_config check_backoff
default-passes tcp limit fits = rw fits refl
default-passes socket limit fits = rw fits refl

-- The defaults of either transport are valid wherever the buffers may have their default size.
pub default-IsValid :
    (transport : TransportKind) (limit : ℕ)
    → 256 * 1024 * 1024 ≤ limit
    → IsValid limit (apply_transport_defaults default transport)
default-IsValid transport limit fits =
    (validate_iff (apply_transport_defaults default transport) limit).0
      (default-passes transport limit (ground (arith, fits)))
