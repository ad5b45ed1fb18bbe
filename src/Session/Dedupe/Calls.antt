-- ===== src/Session/Dedupe/Calls.antt =====
-- The history and the messages under way after every sequence of calls.
use aurelia.Prelude.{
  ℕ, ◌-◌, ◌≤◌, ◌≡◌, refl, sym, ap, subst, ◌∙◌, inl, inr, true, false, Option, none, some, List, [],
  ◌∷◌, ◌++◌, arith, ◌==◌, ==_iff, ==_refl, Bool-cases, Option-cases, if_holds, All, length,
  length-drop,
}
use aurelia.Prelude.Maps.{get, insert, contains_key, get-insert, get-remove}
use aurelia.Ids.{AureliaError}
use aurelia.Session.Dedupe.{
  DedupeState, DedupeWaiter, DedupeBegin, new, clear, dedupe_limit, dedupe_begin, dedupe_complete,
  dedupe_abandon, record_accepted, forget_pending,
}
use aurelia.Session.Dedupe.History.{
  mem, Once, Covers, last, evict-order, evict-Covers, mem-append, Once-append, Once-drop, mem-drop,
}

pub data Call : Type 0 where
  begins : ℕ → DedupeWaiter → Call
  -- with the configuration's send_queue_size
  completes : ℕ → ℕ → Option AureliaError → Call
  abandons : ℕ → Call
  clears : Call

unfoldable pub call : DedupeState → Call → DedupeState
call s (begins peer_msg_id waiter) = (dedupe_begin s peer_msg_id waiter).0
call s (completes send_queue_size peer_msg_id result) =
    (dedupe_complete s send_queue_size peer_msg_id result).0
call s (abandons peer_msg_id) = (dedupe_abandon s peer_msg_id).0
call s clears = clear s

unfoldable pub run : DedupeState → List Call → DedupeState
run s [] = s
run s (c ∷ cs) = run (call s c) cs

pub record IsHistory (bound : ℕ) (s : DedupeState) : Type 0 where
  pub covers : Covers s.set s.order
  pub once : Once s.order
  pub bounded : length s.order ≤ bound
  pub apart : (k : ℕ) → contains_key s.pending k ≡ true → contains_key s.set k ≡ false

-- The configuration keeps the history within the bound.
unfoldable pub Allows : ℕ → Call → Type 0
Allows bound (completes send_queue_size peer_msg_id result) = dedupe_limit send_queue_size ≤ bound
Allows bound _ = Unit

pub new-IsHistory : (bound : ℕ) → IsHistory bound new
unfolding new get mem
new-IsHistory bound = record {
  covers = λ k. refl;
  once = tt;
  bounded = omega arith;
  apart = λ k h. refl;
}

module _ (bound : ℕ) where
  forget-IsHistory :
      (s : DedupeState) (m : ℕ) → IsHistory bound s → IsHistory bound (forget_pending s m)
  forget-IsHistory s m v = record {
    covers = v.covers;
    once = v.once;
    bounded = v.bounded;
    apart = λ k h. v.apart k (ground (arith, get-remove s.pending m k, h));
  }

  pend-IsHistory :
      (s : DedupeState) (m : ℕ) (waiters : List DedupeWaiter)
      → contains_key s.set m ≡ false
      → IsHistory bound s
      → IsHistory bound (record s { pending = insert s.pending m waiters })
  pend-IsHistory s m waiters fresh v = record {
    covers = v.covers;
    once = v.once;
    bounded = v.bounded;
    apart = λ k h. elim (Bool-cases (m == k)) [
      | inl e ↦ subst (λ j. contains_key s.set j ≡ false) ((==_iff m k).0 e) fresh
      | inr ne ↦ v.apart k (ground (arith, get-insert s.pending m waiters k, h, ne))
    ];
  }

  begin-IsHistory :
      (s : DedupeState) (m : ℕ) (waiter : DedupeWaiter)
      → IsHistory bound s
      → IsHistory bound (dedupe_begin s m waiter).0
  unfolding dedupe_begin
  begin-IsHistory s m waiter v =
      if_holds (λ (r : DedupeState × DedupeBegin). IsHistory bound r.0) (contains_key s.set m)
        (λ _. v)
        (λ fresh. elim (Option-cases (get s.pending m)) [
          | inl e ↦ rw e (pend-IsHistory s m [] fresh v)
          | inr (waiters, e) ↦ rw e (pend-IsHistory s m (waiters ++ waiter ∷ []) fresh v)
        ])

  added-Covers :
      (s : DedupeState) (m : ℕ) → IsHistory bound s → Covers (insert s.set m tt) (s.order ++ m ∷ [])
  unfolding mem
  added-Covers s m v k =
      ground (arith, get-insert s.set m tt k, mem-append s.order (m ∷ []) k, v.covers k)

  added-Once :
      (s : DedupeState) (m : ℕ)
      → contains_key s.set m ≡ false
      → IsHistory bound s
      → Once (s.order ++ m ∷ [])
  added-Once s m fresh v = Once-append s.order m (sym (v.covers m) ∙ fresh) v.once

  -- What is under way is not among the accepted messages that are kept.
  apart_after :
      (s : DedupeState) (limit m k : ℕ)
      → contains_key s.pending m ≡ false
      → contains_key s.pending k ≡ true
      → IsHistory bound s
      → mem (last limit (s.order ++ m ∷ [])) k ≡ false
  unfolding mem
  apart_after s limit m k settled h v = elim (Bool-cases (mem (last limit (s.order ++ m ∷ [])) k)) [
    | inr e ↦ e
    | inl e ↦ absurd (
        ground (
          arith,
          mem-drop (length (s.order ++ m ∷ []) - limit) (s.order ++ m ∷ []) k e,
          mem-append s.order (m ∷ []) k,
          v.covers k,
          v.apart k h,
          ==_iff m k,
          λ (e : m ≡ k). subst (λ j. contains_key s.pending j ≡ false) e settled,
          h,
        ))
  ]

  record_accepted-IsHistory :
      (s : DedupeState) (limit m : ℕ)
      → limit ≤ bound
      → contains_key s.pending m ≡ false
      → IsHistory bound s
      → IsHistory bound (record_accepted s limit m)
  record_accepted-IsHistory s limit m le settled v =
      if_holds (λ (r : DedupeState). IsHistory bound r) (contains_key s.set m) (λ _. v)
        (λ fresh.
          let covers =
            evict-Covers limit (insert s.set m tt) (s.order ++ m ∷ []) (added-Once s m fresh v)
              (added-Covers s m v) in
          let kept = evict-order limit (insert s.set m tt) (s.order ++ m ∷ []) in
          record {
            covers = covers;
            once = subst Once (sym kept) (
                Once-drop (length (s.order ++ m ∷ []) - limit) (s.order ++ m ∷ [])
                  (added-Once s m fresh v));
            bounded =
                subst (λ xs. length xs ≤ bound) (sym kept)
                  (omega (
                    arith,
                    le,
                    length-drop (length (s.order ++ m ∷ []) - limit) (s.order ++ m ∷ []),
                  ));
            apart =
                λ k h. covers k ∙ ap (λ xs. mem xs k) kept ∙ apart_after s limit m k settled h v;
          })

  pub call-IsHistory :
      (s : DedupeState) (c : Call) → Allows bound c → IsHistory bound s → IsHistory bound (call s c)
  unfolding call Allows dedupe_complete dedupe_abandon clear new get
  call-IsHistory s (begins m waiter) allowed v = begin-IsHistory s m waiter v
  call-IsHistory s (completes send_queue_size m none) allowed v =
      record_accepted-IsHistory (forget_pending s m) (dedupe_limit send_queue_size) m allowed
        (ground (arith, get-remove s.pending m m, ==_refl m)) (forget-IsHistory s m v)
  call-IsHistory s (completes send_queue_size m (some err)) allowed v = forget-IsHistory s m v
  call-IsHistory s (abandons m) allowed v = forget-IsHistory s m v
  call-IsHistory s clears allowed v = new-IsHistory bound

  pub run-IsHistory :
      (s : DedupeState) (cs : List Call)
      → All (Allows bound) cs
      → IsHistory bound s
      → IsHistory bound (run s cs)
  unfolding run
  run-IsHistory s [] allowed v = v
  run-IsHistory s (c ∷ cs) allowed v =
      run-IsHistory (call s c) cs allowed.1 (call-IsHistory s c allowed.0 v)

-- From the new history, every sequence of calls whose limits are at most a bound keeps the set and
-- the queue of accepted identifiers the same, each identifier once, no more of them than the bound,
-- and none that is under way.
pub run-new-IsHistory :
    (bound : ℕ) (cs : List Call) → All (Allows bound) cs → IsHistory bound (run new cs)
run-new-IsHistory bound cs allowed = run-IsHistory bound new cs allowed (new-IsHistory bound)
