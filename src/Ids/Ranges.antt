-- ===== src/Ids/Ranges.antt =====
-- The priority ranges of message types.
use aurelia.Prelude.{ℕ, ◌+◌, ◌≤◌, ◌<◌, ◌≡◌, ◌↔◌, none, some, arith}
use aurelia.Prelude.Words.{u32_max}
use aurelia.Ids.{
  MessagePriorityClass, a1, a2, a3, classify_message_priority, try_a3_message_type,
  a1_message_type_max, a2_message_type_base, a2_message_type_max, a3_message_type_base,
  a3_message_type_max_offset,
}

-- The three ranges, as the documentation of the constants gives them.
abbrev pub InRange : MessagePriorityClass → ℕ → Type 0
InRange a1 t = t ≤ a1_message_type_max
InRange a2 t = (a2_message_type_base ≤ t) × (t ≤ a2_message_type_max)
InRange a3 t = a3_message_type_base ≤ t

-- A message type has priority class A1, A2 or A3 exactly when it lies in the range that the
-- constants give for that class.
pub classify-InRange :
    (t : ℕ) (c : MessagePriorityClass) → (classify_message_priority t ≡ c) ↔ InRange c t
unfolding classify_message_priority
classify-InRange t a1 = ground arith
classify-InRange t a2 = ground arith
classify-InRange t a3 = ground arith

pub try_a3_message_type_bounds :
    (offset : ℕ)
    → (offset ≤ a3_message_type_max_offset
        → (t : ℕ) × (try_a3_message_type offset ≡ some t)
          × (classify_message_priority t ≡ a3)
          × (t ≤ u32_max))
      × (a3_message_type_max_offset < offset → try_a3_message_type offset ≡ none)
unfolding try_a3_message_type classify_message_priority
try_a3_message_type_bounds offset = (
  (λ h. (a3_message_type_base + offset, ground arith, ground arith, ground arith)),
  λ h. ground arith,
)
