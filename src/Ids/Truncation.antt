-- ===== src/Ids/Truncation.antt =====
-- The truncation of error messages at a character boundary.
use aurelia.Prelude.{
  ℕ, zero, suc, ◌≤◌, ◌<◌, ◌≡◌, refl, sym, subst, true, some, List, arith, lt→ltb, length, take,
  get_elem?-length, get_elem?-cases, length-take, take-length_le,
}
use native.Mathlib.Decide.{dec_lt}
use aurelia.Ids.{
  error_message_max_len, ErrorId, with_message, is_char_boundary, floor_boundary, truncate_message,
}

floor_boundary-le : (m : List ℕ) (i : ℕ) → floor_boundary m i ≤ i
unfolding floor_boundary
floor_boundary-le m zero = omega arith
floor_boundary-le m (suc i) = ground (arith, floor_boundary-le m i)

floor_boundary-is_boundary : (m : List ℕ) (i : ℕ) → is_char_boundary m (floor_boundary m i) ≡ true
unfolding floor_boundary
floor_boundary-is_boundary m zero = unfold is_char_boundary in refl
floor_boundary-is_boundary m (suc i) = ground (arith, floor_boundary-is_boundary m i)

floor_boundary_greatest :
    (m : List ℕ) (i j : ℕ) → j ≤ i → is_char_boundary m j ≡ true → j ≤ floor_boundary m i
unfolding floor_boundary
floor_boundary_greatest m zero j h b = omega arith
floor_boundary_greatest m (suc i) j h b = ground (arith, floor_boundary_greatest m i j)

length-truncate :
    (limit : ℕ) (m : List ℕ)
    → limit < length m
    → length (truncate_message limit m) ≡ floor_boundary m limit
unfolding truncate_message
length-truncate limit m h =
    rw (lt→ltb _ _ h)
      (omega (arith, length-take (floor_boundary m limit) m, floor_boundary-le m limit))

-- The length of a text is a boundary, and nothing past it is.
boundary-length : (m : List ℕ) → is_char_boundary m (length m) ≡ true
unfolding is_char_boundary
boundary-length m = ground (arith, get_elem?-length m)

boundary-le-length : (m : List ℕ) (j : ℕ) → is_char_boundary m j ≡ true → j ≤ length m
unfolding is_char_boundary
boundary-le-length m j h = ground (arith, get_elem?-cases m j)

length-truncate_short : (limit : ℕ) (m : List ℕ) → length m ≤ limit → truncate_message limit m ≡ m
unfolding truncate_message
length-truncate_short limit m h = ground arith

take-truncate :
    (limit : ℕ) (m : List ℕ) → truncate_message limit m ≡ take (length (truncate_message limit m)) m
take-truncate limit m = elim (dec_lt limit (length m)) [
  | yes h ↦ rw (length-truncate limit m h) (unfold truncate_message in rw (lt→ltb _ _ h))
  | no h ↦
      rw (length-truncate_short limit m (omega arith))
        (sym (take-length_le (length m) m (omega arith)))
]

-- `t` is a prefix of `m` within the limit that ends at a character boundary of `m`, and no longer
-- prefix within the limit ends at one.
abbrev pub IsLongestPrefix : ℕ → List ℕ → List ℕ → Type 0
IsLongestPrefix limit m t =
    (length t ≤ limit)
    × (t ≡ take (length t) m)
    × (is_char_boundary m (length t) ≡ true)
    × ((j : ℕ) → j ≤ limit → is_char_boundary m j ≡ true → j ≤ length t)

pub truncate_longest : (limit : ℕ) (m : List ℕ) → IsLongestPrefix limit m (truncate_message limit m)
truncate_longest limit m = elim (dec_lt limit (length m)) [
  | yes h ↦
      let e = length-truncate limit m h in
      (
        omega (arith, e, floor_boundary-le m limit),
        take-truncate limit m,
        rw e (floor_boundary-is_boundary m limit),
        λ j hj b. rw e (floor_boundary_greatest m limit j hj b),
      )
  | no h ↦
      let e = length-truncate_short limit m (omega arith) in
      (
        rw e (omega arith),
        take-truncate limit m,
        rw e (boundary-length m),
        λ j hj b. rw e (boundary-le-length m j b),
      )
]

-- The message kept by AureliaError::with_message is the longest prefix of the given message that
-- has at most 1024 bytes and ends at a character boundary, for every message and kind.
pub with_message_longest :
    (kind : ErrorId) (m t : List ℕ)
    → (with_message kind m).message ≡ some t
    → IsLongestPrefix error_message_max_len m t
unfolding with_message
with_message_longest kind m t h =
    let kept : truncate_message error_message_max_len m ≡ t = cc in
    subst (IsLongestPrefix error_message_max_len m) kept (truncate_longest error_message_max_len m)
