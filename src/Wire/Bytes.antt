-- ===== src/Wire/Bytes.antt =====
-- Big-endian integers, as `to_be_bytes` of the standard library and `get_u16`, `get_u32`, `get_u64`
-- of the `bytes` crate read and write them, and the cursor reads of crates/peering/src/wire.rs.
use aurelia.Prelude.{
  ℕ, zero, suc, ◌+◌, ◌*◌, ◌/◌, ◌%◌, ◌^◌, ◌≤◌, ◌<◌, ◌≡◌, refl, sym, ap, ◌∙◌, ◌⊎◌, inl, inr, List, [],
  ◌∷◌, ◌++◌, append_assoc, append-nil, arith, ltb, if◌then◌else◌, Bool-cases, All, length, take,
  drop, length-append, take-append-drop, length-take, take-append_of_eq, drop-append_of_eq,
  All-append, All-take, All-drop,
}
use native.Mathlib.Nat.{pow-suc, add-zero}
use Prim.Native.Nat.add
use mathlib.Core.Path.{subst₂}
use aurelia.Prelude.Words.{u16_max, u32_max, u64_max}
use aurelia.Ids.{Result, ok, err, ◌>>=◌, decode_failure}

abbrev pub IsByte : ℕ → Type 0
IsByte b = b < 256

-- The `width` bytes of `v`, most significant first.
unfoldable pub to_be_bytes : ℕ → ℕ → List ℕ
to_be_bytes zero v = []
to_be_bytes (suc width) v = to_be_bytes width (v / 256) ++ v % 256 ∷ []

be_from : ℕ → List ℕ → ℕ
be_from acc [] = acc
be_from acc (b ∷ bs) = be_from (acc * 256 + b) bs

unfoldable pub from_be_bytes : List ℕ → ℕ
unfolding be_from
from_be_bytes bs = be_from 0 bs

be_from-append :
    (acc : ℕ) (xs : List ℕ) (b : ℕ) → be_from acc (xs ++ b ∷ []) ≡ be_from acc xs * 256 + b
unfolding be_from
be_from-append acc [] b = refl
be_from-append acc (x ∷ xs) b = be_from-append (acc * 256 + x) xs b

pub length-to_be_bytes : (width v : ℕ) → length (to_be_bytes width v) ≡ width
unfolding to_be_bytes
length-to_be_bytes zero v = refl
length-to_be_bytes (suc width) v = omega (
  arith,
  length-append (to_be_bytes width (v / 256)) (v % 256 ∷ []),
  length-to_be_bytes width (v / 256),
)

pub to_be_bytes-IsByte : (width v : ℕ) → All IsByte (to_be_bytes width v)
unfolding to_be_bytes
to_be_bytes-IsByte zero v = tt
to_be_bytes-IsByte (suc width) v =
    All-append IsByte (to_be_bytes width (v / 256)) (v % 256 ∷ [])
      (to_be_bytes-IsByte width (v / 256)) (omega arith)

-- A value that fits is read back.
pub from_be_bytes-to_be_bytes :
    (width v : ℕ) → v < 256 ^ width → from_be_bytes (to_be_bytes width v) ≡ v
unfolding to_be_bytes from_be_bytes
from_be_bytes-to_be_bytes zero v h = omega arith
from_be_bytes-to_be_bytes (suc width) v h =
    be_from-append 0 (to_be_bytes width (v / 256)) (v % 256)
    ∙ omega (
      arith,
      pow-suc 256 width,
      from_be_bytes-to_be_bytes width (v / 256) (omega (arith, pow-suc 256 width)),
    )

-- A cursor read of `width` bytes: the value and the rest of the buffer.
unfoldable pub read : ℕ → List ℕ → Result (ℕ × List ℕ)
read width buf =
    if ltb (length buf) width
    then err decode_failure
    else ok (from_be_bytes (take width buf), drop width buf)

unfoldable pub read_u16 : List ℕ → Result (ℕ × List ℕ)
unfolding read
read_u16 buf = read 2 buf

unfoldable pub read_u32 : List ℕ → Result (ℕ × List ℕ)
unfolding read
read_u32 buf = read 4 buf

unfoldable pub read_u64 : List ℕ → Result (ℕ × List ℕ)
unfolding read
read_u64 buf = read 8 buf

-- Reading a value back from the front of a buffer.
pub read_append :
    (width v : ℕ) (rest : List ℕ)
    → v < 256 ^ width
    → read width (to_be_bytes width v ++ rest) ≡ ok (v, rest)
unfolding read
read_append width v rest h = ground (
  arith,
  length-append (to_be_bytes width v) rest,
  length-to_be_bytes width v,
  take-append_of_eq width (to_be_bytes width v) rest,
  drop-append_of_eq width (to_be_bytes width v) rest,
  from_be_bytes-to_be_bytes width v h,
)

pub read_u16_append :
    (v : ℕ) (rest : List ℕ) → v ≤ u16_max → read_u16 (to_be_bytes 2 v ++ rest) ≡ ok (v, rest)
unfolding read_u16
read_u16_append v rest h = read_append 2 v rest (omega arith)

pub read_u32_append :
    (v : ℕ) (rest : List ℕ) → v ≤ u32_max → read_u32 (to_be_bytes 4 v ++ rest) ≡ ok (v, rest)
unfolding read_u32
read_u32_append v rest h = read_append 4 v rest (omega arith)

pub read_u32_end : (v : ℕ) → v ≤ u32_max → read_u32 (to_be_bytes 4 v) ≡ ok (v, [])
read_u32_end v h = ap read_u32 (sym (append-nil (to_be_bytes 4 v))) ∙ read_u32_append v [] h

pub read_u64_append :
    (v : ℕ) (rest : List ℕ) → v ≤ u64_max → read_u64 (to_be_bytes 8 v ++ rest) ≡ ok (v, rest)
unfolding read_u64
read_u64_append v rest h = read_append 8 v rest (omega arith)

digit_room : (acc b p : ℕ) → b < 256 → (acc * 256 + b + 1) * p ≤ (acc + 1) * (p * 256)
digit_room acc b p h = grind arith

be_from_bound :
    (acc : ℕ) (bs : List ℕ) → All IsByte bs → be_from acc bs < (acc + 1) * 256 ^ length bs
unfolding be_from
be_from_bound acc [] h = omega arith
be_from_bound acc (b ∷ bs) h =
    rw (pow-suc 256 (length bs))
      (omega (arith, be_from_bound (acc * 256 + b) bs h.1, digit_room acc b (256 ^ length bs) h.0))

read_cases :
    (width : ℕ) (buf : List ℕ)
    → ((length buf < width) × (read width buf ≡ err decode_failure))
      ⊎ ((width ≤ length buf)
          × (read width buf ≡ ok (from_be_bytes (take width buf), drop width buf)))
unfolding read
read_cases width buf = elim (Bool-cases (ltb (length buf) width)) [
  | inl short ↦ inl (ground arith, rw short)
  | inr enough ↦ inr (ground arith, rw enough)
]

to_be_bytes-snoc :
    (width acc b : ℕ)
    → b < 256
    → to_be_bytes (suc width) (acc * 256 + b) ≡ to_be_bytes width acc ++ b ∷ []
unfolding to_be_bytes
to_be_bytes-snoc width acc b h = ground arith

-- The bytes of a value that was read are the bytes that it was read from.
to_be_bytes-be_from :
    (done bs : List ℕ) (acc width : ℕ)
    → All IsByte bs
    → to_be_bytes width acc ≡ done
    → to_be_bytes (length bs + width) (be_from acc bs) ≡ done ++ bs
unfolding be_from
to_be_bytes-be_from done [] acc width h e = rw append-nil (rw (add.zero width) e)
to_be_bytes-be_from done (b ∷ bs) acc width h e =
    let n : suc (length bs) + width ≡ length bs + suc width = omega arith in
    rw n (
      to_be_bytes-be_from (done ++ b ∷ []) bs (acc * 256 + b) (suc width) h.1
        (to_be_bytes-snoc width acc b h.0 ∙ ap (λ d. d ++ b ∷ []) e)
      ∙ append_assoc done (b ∷ []) bs)

pub to_be_bytes-from_be_bytes :
    (bs : List ℕ) → All IsByte bs → to_be_bytes (length bs) (from_be_bytes bs) ≡ bs
unfolding from_be_bytes to_be_bytes
to_be_bytes-from_be_bytes bs h = rw (← add-zero (length bs)) (to_be_bytes-be_from [] bs 0 0 h refl)

split_at :
    (width : ℕ) (buf : List ℕ)
    → All IsByte buf
    → width ≤ length buf
    → (buf ≡ to_be_bytes width (from_be_bytes (take width buf)) ++ drop width buf)
      × (from_be_bytes (take width buf) < 256 ^ width)
      × All IsByte (drop width buf)
unfolding from_be_bytes
split_at width buf h enough =
    let digits : All IsByte (take width buf) = All-take IsByte width buf h in
    let n : length (take width buf) ≡ width = omega (arith, length-take width buf) in
    (
      sym (
          ap (λ d. d ++ drop width buf)
            (ap (λ k. to_be_bytes k (from_be_bytes (take width buf))) (sym n)
              ∙ to_be_bytes-from_be_bytes (take width buf) digits)
          ∙ take-append-drop width buf),
      omega (arith, be_from_bound 0 (take width buf) digits, ap (λ k. 256 ^ k) n),
      All-drop IsByte width buf h,
    )

-- What a read consumes is the encoding of the value that it returns.
pub read-splits :
    (width : ℕ) (buf : List ℕ) (v : ℕ) (rest : List ℕ)
    → All IsByte buf
    → read width buf ≡ ok (v, rest)
    → (buf ≡ to_be_bytes width v ++ rest) × (v < 256 ^ width) × All IsByte rest
read-splits width buf v rest h e = elim (read_cases width buf) [
  | inl (_, failed) ↦ cc
  | inr (enough, done) ↦
      let ev : from_be_bytes (take width buf) ≡ v = ground arith in
      let er : drop width buf ≡ rest = ground arith in
      subst₂ (λ w r. (buf ≡ to_be_bytes width w ++ r) × (w < 256 ^ width) × All IsByte r) ev er
        (split_at width buf h enough)
]

-- Inversion of a chain of reads, in the continuation's style: what is known of a read that was followed
-- by a success.
pub read-elim :
    {B C : Type 0} (width : ℕ) (buf : List ℕ) (k : ℕ × List ℕ → Result B) {b : B}
    → All IsByte buf
    → (read width buf >>= k) ≡ ok b
    → ((v : ℕ) (rest : List ℕ)
        → buf ≡ to_be_bytes width v ++ rest
        → v < 256 ^ width
        → All IsByte rest
        → k (v, rest) ≡ ok b
        → C)
    → C
read-elim width buf k h e use_it = elim (read_cases width buf) [
  | inl (_, failed) ↦ cc
  | inr (enough, done) ↦
      let (p, fits, bytes) = read-splits width buf _ _ h done in
      use_it (from_be_bytes (take width buf)) (drop width buf) p fits bytes (rw done at e)
]
