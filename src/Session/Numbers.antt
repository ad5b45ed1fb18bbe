-- ===== src/Session/Numbers.antt =====
-- crates/peering/src/message_id.rs: the numbers of messages.
use aurelia.Prelude.{ℕ, zero, suc, ◌+◌, ◌%◌, ◌^◌, ◌≤◌, ◌<◌, subst, ◌≢◌, List, [], ◌∷◌, arith, All}
use aurelia.Session.{PeerMessageIdAllocator, next_id}

-- The next so many numbers.
unfoldable pub next_ids : PeerMessageIdAllocator → ℕ → List ℕ
next_ids a zero = []
next_ids a (suc n) = let (b, id) = next_id a in id ∷ next_ids b n

abbrev pub AreDifferent : List ℕ → Type 0
AreDifferent [] = Unit
AreDifferent (x ∷ xs) = All (λ y. y ≢ x) xs × AreDifferent xs

ahead :
    (n d start : ℕ)
    → start < 2 ^ 32
    → 0 < d
    → d + n ≤ 2 ^ 32
    → All (λ y. y ≢ start) (next_ids (record { next = (start + d) % 2 ^ 32 }) n)
unfolding next_ids
ahead zero d start h hd le = tt
ahead (suc n) d start h hd le = (
  omega arith,
  subst (λ k. All (λ y. y ≢ start) (next_ids (record { next = k }) n)) (omega arith)
      (ahead n (d + 1) start h (omega arith) (omega arith)),
)

-- From any counter of 32 bits, up to 2^32 successive message numbers are different and fit in 32
-- bits, the wrap-around included.
pub next_ids-AreDifferent :
    (a : PeerMessageIdAllocator) (n : ℕ)
    → a.next < 2 ^ 32
    → n ≤ 2 ^ 32
    → AreDifferent (next_ids a n) × All (λ id. id < 2 ^ 32) (next_ids a n)
unfolding next_ids
next_ids-AreDifferent a zero h le = (tt, tt)
next_ids-AreDifferent a (suc n) h le =
    let (apart, bound) = next_ids-AreDifferent (next_id a).0 n (omega arith) (omega arith) in
    ((ahead n 1 a.next h (omega arith) (omega arith), apart), (h, bound))
