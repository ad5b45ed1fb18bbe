-- ===== src/Session/Dedupe/Waiters.antt =====
-- What the waiters of a message under way are told.
use aurelia.Prelude.{ℕ, Bool, true, false, Option, none, some, List, [], ◌∷◌, ◌==◌, if◌then◌else◌}
use aurelia.Ids.{AureliaError}
use aurelia.Session.Dedupe.{DedupeWaiter, DedupeDecision, ack, error}
use aurelia.Session.Dedupe.Calls.{Call, begins, completes, abandons, clears}

-- The waiters of a message among the calls, in the order in which they came.
unfoldable pub asked : ℕ → List Call → List DedupeWaiter
asked k [] = []
asked k (begins m waiter ∷ cs) = if m == k then waiter ∷ asked k cs else asked k cs
asked k (_ ∷ cs) = asked k cs

-- No call decides on the message.
unfoldable pub undecided : ℕ → List Call → Bool
undecided k [] = true
undecided k (begins m waiter ∷ cs) = undecided k cs
undecided k (completes size m result ∷ cs) = if m == k then false else undecided k cs
undecided k (abandons m ∷ cs) = if m == k then false else undecided k cs
undecided k (clears ∷ cs) = false

unfoldable pub decision_of : Option AureliaError → DedupeDecision
decision_of none = ack
decision_of (some err) = error err
