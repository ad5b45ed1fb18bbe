-- ===== src/Logging/Examples.antt =====
-- A limited log at small inputs.
use aurelia.Prelude.{ℕ, ◌-◌, ◌≤◌, ◌<◌, ◌≡◌, refl, ◌↔◌, true, some, List, [], ◌∷◌, arith, All}
use aurelia.Prelude.Maps.{get, insert, remove}
use aurelia.Logging.{LimitedLogRegistry, new, should_log, attempt}
use aurelia.Logging.Rate.{logged, Spaced, logged-Spaced, attempt_iff}

abbrev registry : LimitedLogRegistry
registry = new (4 ∷ 7 ∷ []) 5_999_999_999

abbrev calls : List (ℕ × ℕ)
calls = (7, 10) ∷ (7, 12) ∷ (4, 12) ∷ (7, 15) ∷ (9, 15) ∷ []

registry_interval : 0 < registry.interval
unfolding new
registry_interval = omega arith

seven_known : get registry.last_log 7 ≡ some 0
unfolding new get insert remove
seven_known = refl

logged-Spaced_example : Spaced registry.interval 0 (logged registry 7 calls)
logged-Spaced_example = logged-Spaced registry 7 0 calls registry_interval seven_known

sevens : logged registry 7 calls ≡ 10 ∷ 15 ∷ []
unfolding logged new should_log attempt get insert remove
sevens = refl

attempt_iff_example : (attempt 5 12 10 (6 ∷ []) ≡ true) ↔ All (λ last. 5 ≤ 12 - last) (10 ∷ 6 ∷ [])
attempt_iff_example = attempt_iff 5 12 10 (6 ∷ [])
