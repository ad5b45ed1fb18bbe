-- ===== src/RingBuffer/Inbound/Advance.antt =====
-- The loop of `insert_chunk` that moves `next_expected` over what is stored.
use aurelia.Prelude.{
  ℕ, zero, suc, ◌+◌, ◌≤◌, ◌<◌, ◌≡◌, inl, inr, true, false, List, [], ◌∷◌, arith, leb, ◌==◌,
  if◌then◌else◌, Bool-cases, length,
}
use aurelia.Prelude.Words.{u64_max, saturating_add}
use aurelia.Prelude.Maps.{Map, get, contains_key}
use aurelia.RingBuffer.Inbound.{advance}

-- The entries with a key from `n` on.
count_from : Map (List ℕ) → ℕ → ℕ
count_from [] n = 0
count_from ((k, v) ∷ m) n = if leb n k then suc (count_from m n) else count_from m n

count_from-le-length : (m : Map (List ℕ)) (n : ℕ) → count_from m n ≤ length m
unfolding count_from
count_from-le-length [] n = omega arith
count_from-le-length ((k, v) ∷ m) n = ground (arith, count_from-le-length m n)

count_from-suc-le : (m : Map (List ℕ)) (n : ℕ) → count_from m (n + 1) ≤ count_from m n
unfolding count_from
count_from-suc-le [] n = omega arith
count_from-suc-le ((k, v) ∷ m) n = ground (arith, count_from-suc-le m n)

count_from-drops :
    (m : Map (List ℕ)) (n : ℕ) → contains_key m n ≡ true → count_from m (n + 1) < count_from m n
unfolding count_from get
count_from-drops [] n h = cc
count_from-drops ((k, v) ∷ m) n h = ground (arith, count_from-suc-le m n, count_from-drops m n)

-- Every key is below `bound`.
abbrev pub KeysBelow : ℕ → Map (List ℕ) → Type 0
KeysBelow bound m = (k : ℕ) → contains_key m k ≡ true → k < bound

-- With more fuel than entries the loop ends by its own test.
advance_stops_from :
    (fuel : ℕ) (m : Map (List ℕ)) (n : ℕ)
    → KeysBelow u64_max m
    → count_from m n < fuel
    → contains_key m (advance fuel m n) ≡ false
unfolding advance
advance_stops_from zero m n below h = absurd (omega arith)
advance_stops_from (suc fuel) m n below h = elim (Bool-cases (contains_key m n)) [
  | inl found ↦
      let next : saturating_add n 1 ≡ n + 1 = omega (arith, below n found) in
      rw (found, next)
        (advance_stops_from fuel m (n + 1) below (omega (arith, count_from-drops m n found)))
  | inr gap ↦ rw gap gap
]

pub advance_stops :
    (m : Map (List ℕ)) (n : ℕ)
    → KeysBelow u64_max m
    → contains_key m (advance (suc (length m)) m n) ≡ false
advance_stops m n below =
    advance_stops_from (suc (length m)) m n below (omega (arith, count_from-le-length m n))

-- The loop moves over stored chunks only.
abbrev pub MovesOver : Map (List ℕ) → ℕ → ℕ → Type 0
MovesOver m n r = (n ≤ r) × ((k : ℕ) → n ≤ k → k < r → contains_key m k ≡ true)

pub advance-MovesOver :
    (fuel : ℕ) (m : Map (List ℕ)) (n : ℕ) → KeysBelow u64_max m → MovesOver m n (advance fuel m n)
unfolding advance
advance-MovesOver zero m n below = (omega arith, λ k h l. absurd (omega arith))
advance-MovesOver (suc fuel) m n below = elim (Bool-cases (contains_key m n)) [
  | inl found ↦
      let next : saturating_add n 1 ≡ n + 1 = omega (arith, below n found) in
      let (le, over) = advance-MovesOver fuel m (n + 1) below in
      rw (found, next)
        (
          omega (arith, le),
          λ k h l. elim (Bool-cases (k == n)) [
            | inl e ↦ ground arith
            | inr e ↦ over k (ground arith) l
          ],
        )
  | inr gap ↦ rw gap (omega arith, λ k h l. absurd (omega arith))
]
