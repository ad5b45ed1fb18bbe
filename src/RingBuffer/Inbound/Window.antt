-- ===== src/RingBuffer/Inbound/Window.antt =====
-- The shape of the window over the map of stored chunks.
use aurelia.Prelude.{
  ℕ, ◌+◌, ◌-◌, ◌≤◌, ◌<◌, ◌≡◌, ◌≢◌, true, false, List, arith, ◌==◌, if◌then◌else◌, length,
}
use aurelia.Prelude.Words.{u64_max, saturating_add}
use aurelia.Prelude.Maps.{
  Map, insert, remove, contains_key, get-insert, get-remove, length-remove-le,
}
use aurelia.RingBuffer.Inbound.Advance.{KeysBelow, MovesOver}

-- The window over a map of stored chunks: everything from the next delivery up to `expected` is there,
-- `expected` is not, and what is there lies in the window.
pub record IsWindow (window deliver expected : ℕ) (m : Map (List ℕ)) : Type 0 where
  pub ordered : deliver ≤ expected
  pub limit : expected ≤ u64_max
  pub bounded : length m ≤ window
  pub small : KeysBelow u64_max m
  pub above : (k : ℕ) → contains_key m k ≡ true → (deliver ≤ k) × (k < expected + window)
  pub contiguous : (k : ℕ) → deliver ≤ k → k < expected → contains_key m k ≡ true
  pub gap : contains_key m expected ≡ false

module _ (w d e k : ℕ) (m : Map (List ℕ)) (bytes : List ℕ) (v : IsWindow w d e m) where
  pub contains-insert :
      (j : ℕ) → contains_key (insert m k bytes) j ≡ (if k == j then true else contains_key m j)
  contains-insert j = ground (arith, get-insert m k bytes j)

  module _ (ge : d ≤ k) (lt : k < saturating_add e w) (fresh : contains_key m k ≡ false)
      (room : length m < w) where
    pub insert-KeysBelow : KeysBelow u64_max (insert m k bytes)
    insert-KeysBelow j h = ground (arith, contains-insert j, v.small j)

    length-insert : length (insert m k bytes) ≤ w
    unfolding insert
    length-insert = omega (arith, length-remove-le m k)

    -- A chunk that fills the gap moves `expected` to the next gap.
    pub IsWindow-filled :
        k ≡ e
        → (r : ℕ) → MovesOver (insert m k bytes) e r
        → contains_key (insert m k bytes) r ≡ false
        → IsWindow w d r (insert m k bytes)
    IsWindow-filled same r over stop = record {
      ordered = omega (arith, v.ordered);
      limit = ground (arith, insert-KeysBelow (r - 1), over.1 (r - 1));
      bounded = length-insert;
      small = insert-KeysBelow;
      above = λ j h. ground (arith, contains-insert j, v.above j);
      contiguous = λ j h l. ground (arith, contains-insert j, v.contiguous j, over.1 j);
      gap = stop;
    }

    pub IsWindow-ahead : k ≢ e → IsWindow w d e (insert m k bytes)
    IsWindow-ahead other = record {
      ordered = v.ordered;
      limit = v.limit;
      bounded = length-insert;
      small = insert-KeysBelow;
      above = λ j h. ground (arith, contains-insert j, v.above j);
      contiguous = λ j h l. ground (arith, contains-insert j, v.contiguous j);
      gap = ground (arith, contains-insert e);
    }

pub take_next-IsWindow :
    (w d e : ℕ) (m : Map (List ℕ)) → IsWindow w d e m → d < e → IsWindow w (d + 1) e (remove m d)
take_next-IsWindow w d e m v lt = record {
  ordered = omega arith;
  limit = v.limit;
  bounded = omega (arith, length-remove-le m d, v.bounded);
  small = λ k h. ground (arith, get-remove m d k, v.small k);
  above = λ k h. ground (arith, get-remove m d k, v.above k);
  contiguous = λ k h l. ground (arith, get-remove m d k, v.contiguous k);
  gap = ground (arith, get-remove m d e, v.gap);
}
