-- ===== src/Session/Dedupe/History.antt =====
-- The history of accepted messages: it has each message once, and the latest ones.
use aurelia.Prelude.{
  ℕ, zero, suc, ◌+◌, ◌-◌, ◌≤◌, ◌≡◌, refl, sym, ap, subst, ◌∙◌, inl, inr, Bool, true, false, ◌||◌,
  List, [], ◌∷◌, ◌++◌, arith, ltb, ◌==◌, if◌then◌else◌, ==_iff, ==_refl, Bool-cases, if_holds,
  length, drop, length-append, length-drop, drop-drop, drop-append,
}
use aurelia.Prelude.Maps.{Map, remove, contains_key, get-remove}
use aurelia.Session.Dedupe.{evict}

unfoldable pub mem : List ℕ → ℕ → Bool
mem [] k = false
mem (x ∷ xs) k = x == k || mem xs k

abbrev pub Once : List ℕ → Type 0
Once [] = Unit
Once (x ∷ xs) = (mem xs x ≡ false) × Once xs

-- The set has the elements of the list.
abbrev pub Covers : Map {0} Unit → List ℕ → Type 0
Covers ids order = (k : ℕ) → contains_key ids k ≡ mem order k

drop_eq : (m n : ℕ) (xs : List ℕ) → m ≡ n → drop m xs ≡ drop n xs
drop_eq m n xs e = ap (λ k. drop k xs) e

abbrev pub last : ℕ → List ℕ → List ℕ
last n xs = drop (length xs - n) xs

-- The loop keeps the `limit` last elements.
pub evict-order :
    (limit : ℕ) (ids : Map {0} Unit) (order : List ℕ) → (evict limit ids order).1 ≡ last limit order
unfolding evict
evict-order limit ids [] = drop_eq 0 (0 - limit) [] (omega arith)
evict-order limit ids (x ∷ order) =
    if_holds (λ (r : Map {0} Unit × List ℕ). r.1 ≡ drop (suc (length order) - limit) (x ∷ order))
      (ltb limit (suc (length order)))
      (λ over.
        evict-order limit (remove ids x) order
        ∙ drop_eq (suc (length order - limit)) (suc (length order) - limit) (x ∷ order)
            (ground (arith, over)))
      (λ within. drop_eq 0 (suc (length order) - limit) (x ∷ order) (ground (arith, within)))

contains_remove :
    (ids : Map {0} Unit) (x k : ℕ)
    → contains_key (remove ids x) k ≡ (if x == k then false else contains_key ids k)
contains_remove ids x k = ground (arith, get-remove ids x k)

after_remove :
    (ids : Map {0} Unit) (x : ℕ) (order : List ℕ)
    → mem order x ≡ false
    → Covers ids (x ∷ order)
    → Covers (remove ids x) order
unfolding mem
after_remove ids x order fresh h k = elim (Bool-cases (x == k)) [
  | inl e ↦ ground (
    arith,
    contains_remove ids x k,
    e,
    fresh,
    subst (λ j. mem order j ≡ false) ((==_iff x k).0 e) fresh,
  )
  | inr ne ↦ ground (arith, contains_remove ids x k, h k)
]

pub evict-Covers :
    (limit : ℕ) (ids : Map {0} Unit) (order : List ℕ)
    → Once order
    → Covers ids order
    → Covers (evict limit ids order).0 (evict limit ids order).1
unfolding evict
evict-Covers limit ids [] once h = h
evict-Covers limit ids (x ∷ order) once h =
    if_holds (λ (r : Map {0} Unit × List ℕ). Covers r.0 r.1) (ltb limit (suc (length order)))
      (λ _. evict-Covers limit (remove ids x) order once.1 (after_remove ids x order once.0 h))
      (λ _. h)

pub mem-append : (xs ys : List ℕ) (k : ℕ) → mem (xs ++ ys) k ≡ (mem xs k || mem ys k)
unfolding mem
mem-append [] ys k = refl
mem-append (x ∷ xs) ys k = ground (arith, mem-append xs ys k)

pub Once-append : (xs : List ℕ) (k : ℕ) → mem xs k ≡ false → Once xs → Once (xs ++ k ∷ [])
unfolding mem
Once-append [] k fresh once = (refl, tt)
Once-append (x ∷ xs) k fresh once = (
  ground (arith, mem-append xs (k ∷ []) x, fresh, once.0, ==_iff x k, ==_iff k x),
  Once-append xs k (ground (arith, fresh)) once.1,
)

pub Once-drop : (n : ℕ) (xs : List ℕ) → Once xs → Once (drop n xs)
Once-drop zero xs once = once
Once-drop (suc n) [] once = tt
Once-drop (suc n) (x ∷ xs) once = Once-drop n xs once.1

pub mem-drop : (n : ℕ) (xs : List ℕ) (k : ℕ) → mem (drop n xs) k ≡ true → mem xs k ≡ true
unfolding mem
mem-drop zero xs k h = h
mem-drop (suc n) [] k h = h
mem-drop (suc n) (x ∷ xs) k h = ground (arith, mem-drop n xs k h)

drop-append_left : (n : ℕ) (xs ys : List ℕ) → n ≤ length xs → drop n (xs ++ ys) ≡ drop n xs ++ ys
drop-append_left zero xs ys h = refl
drop-append_left (suc n) [] ys h = absurd (omega arith)
drop-append_left (suc n) (x ∷ xs) ys h = drop-append_left n xs ys (omega arith)

pub mem-last-append :
    (n : ℕ) (xs : List ℕ) (y k : ℕ)
    → mem (last n xs) k ≡ true
    → mem (last (suc n) (xs ++ y ∷ [])) k ≡ true
mem-last-append n xs y k h =
    rw
      (
        drop_eq (length (xs ++ y ∷ []) - suc n) (length xs - n) (xs ++ y ∷ [])
            (omega (arith, length-append xs (y ∷ []))),
        drop-append_left (length xs - n) xs (y ∷ []) (omega arith),
        mem-append (drop (length xs - n) xs) (y ∷ []) k,
        h,
      )
      refl

pub mem-last-suc :
    (n : ℕ) (xs : List ℕ) (k : ℕ) → mem (last n xs) k ≡ true → mem (last (suc n) xs) k ≡ true
mem-last-suc n xs k h = mem-drop (length xs - n - (length xs - suc n)) (last (suc n) xs) k (
    subst (λ ys. mem ys k ≡ true)
      (drop_eq (length xs - n) (length xs - suc n + (length xs - n - (length xs - suc n))) xs
          (omega arith)
        ∙ sym (drop-drop (length xs - suc n) (length xs - n - (length xs - suc n)) xs))
      h)

pub last-last : (m n : ℕ) (xs : List ℕ) → m ≤ n → last m (last n xs) ≡ last m xs
last-last m n xs h =
    drop-drop (length xs - n) (length (last n xs) - m) xs
    ∙ drop_eq (length xs - n + (length (last n xs) - m)) (length xs - m) xs
        (omega (arith, length-drop (length xs - n) xs))

pub mem-last_one : (xs : List ℕ) (k : ℕ) → mem (last 1 (xs ++ k ∷ [])) k ≡ true
unfolding mem
mem-last_one xs k =
    rw
      (
        drop_eq (length (xs ++ k ∷ []) - 1) (length xs) (xs ++ k ∷ [])
            (omega (arith, length-append xs (k ∷ []))),
        drop-append xs (k ∷ []),
        ==_refl k,
      )
      refl
