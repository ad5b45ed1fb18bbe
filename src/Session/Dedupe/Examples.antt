-- ===== src/Session/Dedupe/Examples.antt =====
-- Runs on small histories.
use aurelia.Prelude.{◌<◌, ◌≡◌, refl, true, none, some, List, [], ◌∷◌, arith, All}
use aurelia.Prelude.Maps.{get, insert, remove, contains_key}
use aurelia.Session.Dedupe.{
  DedupeWaiter, ack, duplicate, new, dedupe_begin, dedupe_complete, begin_new, pending_duplicate,
  dedupe_limit, evict,
}
use aurelia.Session.Dedupe.Calls.{
  Call, begins, completes, abandons, call, run, IsHistory, Allows, run-new-IsHistory,
}
use aurelia.Session.Dedupe.Memory.{accepted_then, accepts, keeps, run_remembers}
use aurelia.Session.Dedupe.Refinement.{replies, reply, promises, replies-promises}

abbrev waiter : DedupeWaiter
waiter = record { tx = 7; notify = none }

abbrev other : DedupeWaiter
other = record { tx = 8; notify = some 1 }

abbrev calls : List Call
calls =
    begins 5 waiter ∷ begins 5 other ∷ begins 6 waiter ∷ completes 10 5 none ∷ begins 5 waiter ∷ []

calls_replies :
    replies new calls
    ≡ some begin_new
      ∷ some (pending_duplicate 8)
      ∷ some begin_new
      ∷ none
      ∷ some (duplicate ack)
      ∷ []
unfolding replies reply new dedupe_begin dedupe_complete call insert get remove dedupe_limit evict
calls_replies = refl

evicts_oldest :
    (evict 2 (insert (insert (insert [] 1 tt) 2 tt) 3 tt) (1 ∷ 2 ∷ 3 ∷ [])).1 ≡ 2 ∷ 3 ∷ []
unfolding evict
evicts_oldest = refl

replies-promises_example :
    replies new calls ≡ promises (record { accepted = []; under_way = [] }) calls
replies-promises_example = replies-promises calls

allowed : All (Allows 128) calls
unfolding Allows dedupe_limit
allowed = (tt, (tt, (tt, (omega arith, (tt, tt)))))

run-new-IsHistory_example : IsHistory 128 (run new calls)
run-new-IsHistory_example = run-new-IsHistory 128 calls allowed

abbrev under_way : List Call
under_way = begins 5 waiter ∷ begins 6 waiter ∷ []

abbrev later : List Call
later = completes 10 6 none ∷ begins 5 other ∷ abandons 9 ∷ []

five_under_way : contains_key (run new under_way).pending 5 ≡ true
unfolding run call new dedupe_begin insert get remove
five_under_way = refl

later_keeps : keeps later ≡ true
unfolding keeps
later_keeps = refl

later-accepts : accepts later < 128
unfolding accepts
later-accepts = omega arith

run_remembers_example :
    dedupe_begin (accepted_then under_way 10 5 later) 5 other
    ≡ (accepted_then under_way 10 5 later, duplicate ack)
run_remembers_example =
    run_remembers under_way later 10 5 other five_under_way later_keeps later-accepts

abbrev between : List Call
between = begins 7 waiter ∷ begins 6 waiter ∷ abandons 6 ∷ begins 7 other ∷ []
