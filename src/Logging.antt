-- ===== src/Logging.antt =====
-- crates/logging/src/limited.rs: repeated log lines, of each kind at most one in an interval. The clock's seconds are an
-- argument, and so are the values that other threads put in between: the exchanges that fail.
pub mod Rate
mod Examples
use aurelia.Prelude.{
  ℕ, ◌-◌, ◌/◌, Bool, true, false, Option, none, some, List, [], ◌∷◌, ltb, ◌==◌, if◌then◌else◌,
}
use aurelia.Prelude.Maps.{Map, get, insert}

-- The identifiers in `LogId::ALL`, and the watched interval in seconds.
pub record LimitedLogRegistry : Type 0 where
  pub last_log : Map ℕ
  pub interval : ℕ

-- `Duration::as_secs`
abbrev pub as_secs : ℕ → ℕ
as_secs nanos = nanos / 1_000_000_000

abbrev pub zeros : List ℕ → Map ℕ
zeros [] = []
zeros (id ∷ ids) = insert (zeros ids) id 0

unfoldable pub new : List ℕ → ℕ → LimitedLogRegistry
new all_ids interval = record { last_log = zeros all_ids; interval = as_secs interval }

unfoldable pub set_interval : LimitedLogRegistry → ℕ → LimitedLogRegistry
set_interval r interval = record r { interval = as_secs interval }

-- The loop: each failed exchange gives the value to try next.
unfoldable pub attempt : ℕ → ℕ → ℕ → List ℕ → Bool
attempt interval now current [] = if ltb (now - current) interval then false else true
attempt interval now current (updated ∷ failed) =
    let again = attempt interval now updated failed in
    if ltb (now - current) interval then false else again

abbrev pub exchange : LimitedLogRegistry → ℕ → ℕ → Bool → LimitedLogRegistry × Bool
exchange r id now true = (record r { last_log = insert r.last_log id now }, true)
exchange r id now false = (r, false)

abbrev pub log_since : LimitedLogRegistry → ℕ → ℕ → List ℕ → Option ℕ → LimitedLogRegistry × Bool
log_since r id now failed none = (r, true)
log_since r id now failed (some last) =
    if r.interval == 0 then (r, true) else exchange r id now (attempt r.interval now last failed)

unfoldable pub should_log : LimitedLogRegistry → ℕ → ℕ → List ℕ → LimitedLogRegistry × Bool
should_log r id now failed = log_since r id now failed (get r.last_log id)
