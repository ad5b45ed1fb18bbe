-- ===== src/Logging/Rate.antt =====
-- Lines of one kind are at least an interval apart.
use aurelia.Prelude.{
  ℕ, ◌+◌, ◌-◌, ◌≤◌, ◌<◌, ◌≡◌, refl, sym, ap, subst, ◌∙◌, ◌↔◌, ◌⊎◌, inl, inr, Bool, true, false,
  ◌&&◌, none, some, List, [], ◌∷◌, arith, ltb, ◌==◌, if◌then◌else◌, ==_iff, Bool-cases,
  Option-cases, if_holds, All,
}
use aurelia.Prelude.Maps.{get, insert, get-insert}
use aurelia.Logging.{LimitedLogRegistry, attempt, log_since, should_log}

-- The line goes out exactly when every value that was seen is an interval old.
pub attempt_iff :
    (interval now current : ℕ) (failed : List ℕ)
    → (attempt interval now current failed ≡ true)
      ↔ All (λ last. interval ≤ now - last) (current ∷ failed)
unfolding attempt
attempt_iff interval now current [] = (λ h. (ground (arith, h), tt), λ h. ground (arith, h.0))
attempt_iff interval now current (updated ∷ failed) =
    let (there, back) = attempt_iff interval now updated failed in
    (
      λ h. elim (Bool-cases (ltb (now - current) interval)) [
        | inl soon ↦ absurd (ground (arith, soon, h))
        | inr late ↦ (ground (arith, late), there (ground (arith, late, h)))
      ],
      λ h. ground (arith, h.0, back h.1),
    )

-- The calls of one thread, an identifier and a time each, and the times at which lines of kind `id` go out.
unfoldable pub logged : LimitedLogRegistry → ℕ → List (ℕ × ℕ) → List ℕ
logged r id [] = []
logged r id ((k, now) ∷ calls) =
    let (after, out) = should_log r k now [] in
    let rest = logged after id calls in if out && k == id then now ∷ rest else rest

-- Each at least the interval after the one before, the first one after `last`.
abbrev pub Spaced : ℕ → ℕ → List ℕ → Type 0
Spaced interval last [] = Unit
Spaced interval last (now ∷ times) = (last + interval ≤ now) × Spaced interval now times

abbrev stamped : LimitedLogRegistry → ℕ → ℕ → LimitedLogRegistry
stamped r k now = record r { last_log = insert r.last_log k now }

-- Without an entry, too soon, or an interval after the entry.
abbrev Logs : LimitedLogRegistry → ℕ → ℕ → LimitedLogRegistry × Bool → Type 0
Logs r k now result =
    ((get r.last_log k ≡ none) × (result ≡ (r, true)))
    ⊎ ((result ≡ (r, false))
        ⊎ ((last : ℕ) × (get r.last_log k ≡ some last)
            × (r.interval ≤ now - last)
            × (result ≡ (stamped r k now, true))))

should_log-Logs :
    (r : LimitedLogRegistry) (k now : ℕ) → 0 < r.interval → Logs r k now (should_log r k now [])
unfolding should_log attempt
should_log-Logs r k now pos = elim (Option-cases (get r.last_log k)) [
  | inl e ↦ rw e (inl (refl, refl))
  | inr (last, e) ↦
      subst (λ o. Logs r k now (log_since r k now [] o)) (sym e)
        (if_holds (λ (x : LimitedLogRegistry × Bool). Logs r k now x) (r.interval == 0)
          (λ zero_interval. absurd (ground (arith, zero_interval, pos)))
          (λ _. elim (Bool-cases (ltb (now - last) r.interval)) [
            | inl soon ↦ rw soon (inr (inl refl))
            | inr late ↦ rw late (inr (inr (last, e, ground (arith, late), refl)))
          ]))
]

abbrev noted : ℕ → ℕ → LimitedLogRegistry × Bool → ℕ → List (ℕ × ℕ) → List ℕ
noted k now (after, out) id calls =
    if out && k == id then now ∷ logged after id calls else logged after id calls

-- With an interval of at least a second, the lines of one kind that a registry with an entry for it
-- lets out, whatever the kinds and times of the calls, are at least the interval apart, and the
-- first is that far from the entry.
pub logged-Spaced :
    (r : LimitedLogRegistry) (id last : ℕ) (calls : List (ℕ × ℕ))
    → 0 < r.interval
    → get r.last_log id ≡ some last
    → Spaced r.interval last (logged r id calls)
unfolding logged
logged-Spaced r id last [] pos h = tt
logged-Spaced r id last ((k, now) ∷ calls) pos h = elim (should_log-Logs r k now pos) [
  | inl (unknown, e) ↦
      subst (λ x. Spaced r.interval last (noted k now x id calls)) (sym e)
        (if_holds (Spaced r.interval last) (k == id)
          (λ same. absurd (
            ground (
              arith,
              same,
              unknown,
              h,
              subst (λ j. get r.last_log j ≡ none) ((==_iff k id).0 same) unknown,
            )))
          (λ _. logged-Spaced r id last calls pos h))
  | inr (inl e) ↦
      subst (λ x. Spaced r.interval last (noted k now x id calls)) (sym e)
        (logged-Spaced r id last calls pos h)
  | inr (inr (old, known, apart, e)) ↦
      subst (λ x. Spaced r.interval last (noted k now x id calls)) (sym e)
        (if_holds (Spaced r.interval last) (k == id)
          (λ same.
            let is_old : some old ≡ some last =
              sym known ∙ ap (get r.last_log) ((==_iff k id).0 same) ∙ h in
            (
              ground (arith, apart, pos, is_old),
              logged-Spaced (stamped r k now) id now calls pos
                  (ground (arith, get-insert r.last_log k now id, same)),
            ))
          (λ other.
            logged-Spaced (stamped r k now) id last calls pos
              (ground (arith, get-insert r.last_log k now id, other, h))))
]
