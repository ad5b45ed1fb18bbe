-- ===== src/Wire/Utf8.antt =====
-- `std::str::from_utf8`, as crates/peering/src/wire.rs uses it on the message of an error payload: the
-- well-formed byte sequences of Unicode, without overlong forms, surrogates and values past U+10FFFF.
use aurelia.Prelude.{
  ℕ, zero, suc, ◌≤◌, ◌≡◌, refl, inl, inr, Bool, true, false, ◌&&◌, Option, none, some, List, [],
  ◌∷◌, arith, ltb, leb, ◌==◌, if◌then◌else◌, Option-cases, and_true, length, get_elem?, take,
}
use aurelia.Ids.{byte_boundary, starts_char, is_char_boundary, truncate_message}
use aurelia.Ids.Truncation.{truncate_longest}

-- After a first byte: how many bytes follow, and the range of the next one.
record Lead : Type 0 where
  count : ℕ
  low : ℕ
  high : ℕ

abbrev in_range : ℕ → ℕ → ℕ → Bool
in_range low high b = leb low b && leb b high

lead : ℕ → Option Lead
lead b =
    if ltb b 0x80
    then some (record { count = 0; low = 0x80; high = 0xbf })
    else if in_range 0xc2 0xdf b
    then some (record { count = 1; low = 0x80; high = 0xbf })
    else if b == 0xe0
    then some (record { count = 2; low = 0xa0; high = 0xbf })
    else if b == 0xed
    then some (record { count = 2; low = 0x80; high = 0x9f })
    else if in_range 0xe1 0xef b
    then some (record { count = 2; low = 0x80; high = 0xbf })
    else if b == 0xf0
    then some (record { count = 3; low = 0x90; high = 0xbf })
    else if in_range 0xf1 0xf3 b
    then some (record { count = 3; low = 0x80; high = 0xbf })
    else if b == 0xf4
    then some (record { count = 3; low = 0x80; high = 0x8f })
    else none

-- `count` bytes are still to come, the next of them from `low` to `high`.
valid_from : ℕ → ℕ → ℕ → List ℕ → Bool
valid_from zero low high [] = true
valid_from zero low high (b ∷ bs) = elim (lead b) [
  | none ↦ false
  | some l ↦ valid_from l.count l.low l.high bs
]
valid_from (suc count) low high [] = false
valid_from (suc count) low high (b ∷ bs) = in_range low high b && valid_from count 0x80 0xbf bs

unfoldable pub is_utf8 : List ℕ → Bool
unfolding valid_from lead
is_utf8 bytes = valid_from 0 0x80 0xbf bytes

lead_range : (b : ℕ) (l : Lead) → lead b ≡ some l → (0x80 ≤ l.low) × (l.high ≤ 0xbf)
unfolding lead
lead_range b l h = ground arith

boundary-suc :
    (o : Option ℕ) (i n : ℕ)
    → byte_boundary o (suc i == suc n) ≡ true
    → byte_boundary o (i == n) ≡ true
boundary-suc none i n h = ground arith
boundary-suc (some b) i n h = h

valid_from-take :
    (m : List ℕ) (count low high i : ℕ)
    → 0x80 ≤ low
    → high ≤ 0xbf
    → valid_from count low high m ≡ true
    → byte_boundary (get_elem? m i) (i == length m) ≡ true
    → valid_from count low high (take i m) ≡ true
unfolding valid_from starts_char
valid_from-take m zero low high zero l h v b = refl
valid_from-take [] (suc count) low high zero l h v b = cc
valid_from-take (x ∷ m) (suc count) low high zero l h v b = ground arith
valid_from-take [] count low high (suc i) l h v b = v
valid_from-take (x ∷ m) zero low high (suc i) l h v b = elim (Option-cases (lead x)) [
  | inl e ↦ ground arith
  | inr (d, e) ↦
      rw (e, valid_from)
        (valid_from-take m d.count d.low d.high i (lead_range x d e).0 (lead_range x d e).1
          (ground arith) (ground arith))
]
valid_from-take (x ∷ m) (suc count) low high (suc i) l h v b =
    let (here, rest) = and_true (in_range low high x) (valid_from count 0x80 0xbf m) v in
    rw here (
      valid_from-take m count 0x80 0xbf i (omega arith) (omega arith) rest
        (boundary-suc (get_elem? m i) i (length m) b))

-- Cutting a text at a character boundary leaves a text.
pub is_utf8-take :
    (m : List ℕ) (i : ℕ)
    → is_utf8 m ≡ true
    → is_char_boundary m i ≡ true
    → is_utf8 (take i m) ≡ true
unfolding is_utf8 is_char_boundary
is_utf8-take m zero v b = refl
is_utf8-take m (suc i) v b =
    valid_from-take m 0 0x80 0xbf (suc i) (omega arith) (omega arith) v (ground arith)

-- The truncation of error messages keeps them valid.
pub is_utf8-truncate :
    (limit : ℕ) (m : List ℕ) → is_utf8 m ≡ true → is_utf8 (truncate_message limit m) ≡ true
is_utf8-truncate limit m v =
    let (_, prefix, boundary, _) = truncate_longest limit m in
    rw prefix (is_utf8-take m (length (truncate_message limit m)) v boundary)
