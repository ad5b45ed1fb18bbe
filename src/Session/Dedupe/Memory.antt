-- ===== src/Session/Dedupe/Memory.antt =====
-- How long an accepted message is remembered.
use aurelia.Prelude.Words.{u64_max}
use aurelia.Prelude.{
  ℕ, suc, ◌+◌, ◌-◌, ◌≤◌, ◌<◌, ◌≡◌, refl, sym, ap, subst, ◌∙◌, inl, inr, Bool, true, false, none,
  some, List, [], ◌∷◌, ◌++◌, arith, Option-cases, if_holds, All, length,
}
use aurelia.Prelude.Maps.{get, insert, contains_key}
use aurelia.Session.Dedupe.{
  min_dedupe_history, DedupeState, DedupeWaiter, DedupeBegin, duplicate, ack, new, dedupe_limit,
  dedupe_begin, dedupe_complete, record_accepted, forget_pending, dedupe_abandon,
}
use aurelia.Session.Dedupe.History.{
  mem-last_one, mem, last, evict-order, mem-drop, mem-last-append, mem-last-suc, last-last,
}
use aurelia.Session.Dedupe.Calls.{
  Call, begins, completes, abandons, clears, call, run, IsHistory, Allows, run-IsHistory,
  new-IsHistory,
}

-- The completions that add to the history.
unfoldable pub accepts : List Call → ℕ
accepts [] = 0
accepts (completes send_queue_size m none ∷ cs) = suc (accepts cs)
accepts (_ ∷ cs) = accepts cs

-- Nothing clears the history.
unfoldable pub keeps : List Call → Bool
keeps [] = true
keeps (clears ∷ cs) = false
keeps (_ ∷ cs) = keeps cs

pub Allows-u64 : (cs : List Call) → All (Allows u64_max) cs
unfolding Allows dedupe_limit
Allows-u64 [] = tt
Allows-u64 (begins m waiter ∷ cs) = (tt, Allows-u64 cs)
Allows-u64 (completes size m result ∷ cs) = (omega arith, Allows-u64 cs)
Allows-u64 (abandons m ∷ cs) = (tt, Allows-u64 cs)
Allows-u64 (clears ∷ cs) = (tt, Allows-u64 cs)

-- Among the n + 1 messages that were accepted last.
abbrev pub IsRecent : ℕ → DedupeState → ℕ → Type 0
IsRecent n s k = mem (last (suc n) s.order) k ≡ true

record_accepted-IsRecent :
    (s : DedupeState) (limit m n k : ℕ)
    → suc (suc n) ≤ limit
    → IsRecent n s k
    → IsRecent (suc n) (record_accepted s limit m) k
record_accepted-IsRecent s limit m n k room h =
    if_holds (λ (t : DedupeState). IsRecent (suc n) t k) (contains_key s.set m)
      (λ _. mem-last-suc (suc n) s.order k h)
      (λ fresh.
        ap (λ xs. mem (last (suc (suc n)) xs) k)
          (evict-order limit (insert s.set m tt) (s.order ++ m ∷ []))
        ∙ ap (λ xs. mem xs k) (last-last (suc (suc n)) limit (s.order ++ m ∷ []) room)
        ∙ mem-last-append (suc n) s.order m k h)

begin-order :
    (s : DedupeState) (m : ℕ) (waiter : DedupeWaiter) → (dedupe_begin s m waiter).0.order ≡ s.order
unfolding dedupe_begin
begin-order s m waiter =
    if_holds (λ (r : DedupeState × DedupeBegin). r.0.order ≡ s.order) (contains_key s.set m)
      (λ _. refl)
      (λ _. elim (Option-cases (get s.pending m)) [ inl e ↦ rw e refl | inr (ws, e) ↦ rw e refl ])

run-IsRecent :
    (s : DedupeState) (cs : List Call) (n k : ℕ)
    → keeps cs ≡ true
    → n + accepts cs < 128
    → IsRecent n s k
    → mem (run s cs).order k ≡ true
unfolding run call keeps accepts dedupe_complete dedupe_abandon dedupe_limit
run-IsRecent s [] n k kept few h = mem-drop (length s.order - suc n) s.order k h
run-IsRecent s (begins m waiter ∷ cs) n k kept few h =
    run-IsRecent (dedupe_begin s m waiter).0 cs n k kept few
      (subst (λ xs. mem (last (suc n) xs) k ≡ true) (sym (begin-order s m waiter)) h)
run-IsRecent s (completes size m none ∷ cs) n k kept few h =
    run-IsRecent (dedupe_complete s size m none).0 cs (suc n) k kept (omega arith)
      (record_accepted-IsRecent (forget_pending s m) (dedupe_limit size) m n k (omega arith) h)
run-IsRecent s (completes size m (some err) ∷ cs) n k kept few h =
    run-IsRecent (forget_pending s m) cs n k kept few h
run-IsRecent s (abandons m ∷ cs) n k kept few h =
    run-IsRecent (forget_pending s m) cs n k kept few h
run-IsRecent s (clears ∷ cs) n k kept few h = cc

accepted-IsRecent :
    (s : DedupeState) (limit k : ℕ)
    → 1 ≤ limit
    → contains_key s.set k ≡ false
    → IsRecent 0 (record_accepted s limit k) k
accepted-IsRecent s limit k room fresh = rw fresh (
    ap (λ xs. mem (last 1 xs) k) (evict-order limit (insert s.set k tt) (s.order ++ k ∷ []))
    ∙ ap (λ xs. mem xs k) (last-last 1 limit (s.order ++ k ∷ []) room)
    ∙ mem-last_one s.order k)

pub remembers :
    (s : DedupeState) (after : List Call) (size k : ℕ)
    → IsHistory u64_max s
    → contains_key s.pending k ≡ true
    → keeps after ≡ true
    → accepts after < min_dedupe_history
    → contains_key (run (dedupe_complete s size k none).0 after).set k ≡ true
unfolding run call dedupe_complete dedupe_limit
remembers s after size k v under_way kept few =
    let c : Call = completes size k none in
    let w : IsHistory u64_max (run (dedupe_complete s size k none).0 after) =
      run-IsHistory u64_max s (c ∷ after) (Allows-u64 (c ∷ after)) v in
    w.covers k
    ∙ run-IsRecent (dedupe_complete s size k none).0 after 0 k kept (omega (arith, few)) (
        accepted-IsRecent (forget_pending s k) (dedupe_limit size) k (omega arith)
          (v.apart k under_way))

-- The state after `before`, the acceptance of k, and `after`.
abbrev pub accepted_then : List Call → ℕ → ℕ → List Call → DedupeState
accepted_then before size k after = run (dedupe_complete (run new before) size k none).0 after

pub run_remembers :
    (before after : List Call) (size k : ℕ) (waiter : DedupeWaiter)
    → contains_key (run new before).pending k ≡ true
    → keeps after ≡ true
    → accepts after < min_dedupe_history
    → dedupe_begin (accepted_then before size k after) k waiter
      ≡ (accepted_then before size k after, duplicate ack)
unfolding dedupe_begin
run_remembers before after size k waiter under_way kept few =
    rw
      (remembers (run new before) after size k
        (run-IsHistory u64_max new before (Allows-u64 before) (new-IsHistory u64_max)) under_way
        kept few)
      refl
