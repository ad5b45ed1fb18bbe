-- ===== src/Ids/Examples.antt =====
-- Tests of the identifiers, and their theorems at concrete inputs.
use aurelia.Prelude.{◌≡◌, refl, ◌↔◌, some, [], ◌∷◌}
use aurelia.Ids.{
  send_timeout, as_u32, from_u32, with_message, truncate_message, floor_boundary, is_char_boundary,
}
use aurelia.Ids.Codes.{from_u32_iff}
use aurelia.Ids.Truncation.{IsLongestPrefix, with_message_longest}

-- "é" is two bytes: a limit inside it cuts before it.
truncate_accent : truncate_message 2 (0x61 ∷ 0xc3 ∷ 0xa9 ∷ []) ≡ 0x61 ∷ []
unfolding truncate_message floor_boundary is_char_boundary
truncate_accent = refl

read_timeout : from_u32 12 ≡ some send_timeout
unfolding from_u32
read_timeout = refl

with_message_longest_example :
    IsLongestPrefix 1024 (0x61 ∷ 0xc3 ∷ 0xa9 ∷ []) (truncate_message 1024 (0x61 ∷ 0xc3 ∷ 0xa9 ∷ []))
unfolding with_message
with_message_longest_example =
    with_message_longest send_timeout (0x61 ∷ 0xc3 ∷ 0xa9 ∷ [])
      (truncate_message 1024 (0x61 ∷ 0xc3 ∷ 0xa9 ∷ [])) refl

from_u32_iff_example : (from_u32 12 ≡ some send_timeout) ↔ (as_u32 send_timeout ≡ 12)
from_u32_iff_example = from_u32_iff 12 send_timeout
