-- ===== src/Session/Dedupe/Refinement.antt =====
-- The set, the queue and the loop of evictions against one list: the messages that were accepted last.
use aurelia.Prelude.Words.{u64_max}
use aurelia.Prelude.{
  ℕ, ◌*◌, min, max, ◌≡◌, refl, sym, ap, ◌∙◌, inl, inr, Option, none, some, List, [], ◌∷◌, ◌++◌,
  if◌then◌else◌, Bool-cases, Option-cases,
}
use aurelia.Prelude.Maps.{Map, get, insert, remove, contains_key}
use aurelia.Session.Dedupe.{
  DedupeState, DedupeWaiter, DedupeBegin, duplicate, ack, begin_new, pending_duplicate, new,
  dedupe_limit, dedupe_begin, dedupe_complete, record_accepted, forget_pending, dedupe_abandon,
  clear,
}
use aurelia.Session.Dedupe.History.{mem, last, evict-order}
use aurelia.Session.Dedupe.Calls.{
  Call, begins, completes, abandons, clears, call, IsHistory, call-IsHistory, new-IsHistory,
}
use aurelia.Session.Dedupe.Memory.{Allows-u64}

-- What a peer's session promises: the ids that were accepted, the oldest first, and the waiters of each id under way.
pub record Memory : Type 0 where
  pub accepted : List ℕ
  pub under_way : Map (List DedupeWaiter)

abbrev pub ask_under_way :
    Memory → ℕ → DedupeWaiter → Option (List DedupeWaiter) → Memory × DedupeBegin
ask_under_way h m waiter none = (record h { under_way = insert h.under_way m [] }, begin_new)
ask_under_way h m waiter (some waiters) = (
  record h { under_way = insert h.under_way m (waiters ++ waiter ∷ []) },
  pending_duplicate waiter.tx,
)

abbrev pub ask : Memory → ℕ → DedupeWaiter → Memory × DedupeBegin
ask h m waiter =
    if mem h.accepted m then (h, duplicate ack) else ask_under_way h m waiter (get h.under_way m)

abbrev pub settle : Memory → ℕ → Memory
settle h m = record h { under_way = remove h.under_way m }

abbrev pub accept : Memory → ℕ → ℕ → Memory
accept h limit m =
    if mem h.accepted m then h else record h { accepted = last limit (h.accepted ++ m ∷ []) }

abbrev pub answered : {S : Type 0} → S × DedupeBegin → S × Option DedupeBegin
answered (s, b) = (s, some b)

-- How many accepted identifiers are kept: twice the size of the send queue, and at least 128. Under Receiver
-- Dedupe, docs/peering/reliability-store.md adds twice the 128 places of the A2 lane; the code does not.
abbrev pub horizon : ℕ → ℕ
horizon send_queue_size = max (min (send_queue_size * 2) u64_max) 128

unfoldable pub promised : Memory → Call → Memory × Option DedupeBegin
promised h (begins m waiter) = answered (ask h m waiter)
promised h (completes size m none) = (accept (settle h m) (horizon size) m, none)
promised h (completes size m (some err)) = (settle h m, none)
promised h (abandons m) = (settle h m, none)
promised h clears = (record { accepted = []; under_way = [] }, none)

unfoldable pub promises : Memory → List Call → List (Option DedupeBegin)
promises h [] = []
promises h (c ∷ cs) = (promised h c).1 ∷ promises (promised h c).0 cs

unfoldable pub reply : DedupeState → Call → Option DedupeBegin
reply s (begins m waiter) = some (dedupe_begin s m waiter).1
reply s _ = none

-- What the session answers to a sequence of calls.
unfoldable pub replies : DedupeState → List Call → List (Option DedupeBegin)
replies s [] = []
replies s (c ∷ cs) = reply s c ∷ replies (call s c) cs

abbrev pub view : DedupeState → Memory
view s = record { accepted = s.order; under_way = s.pending }

module _ (s : DedupeState) (v : IsHistory u64_max s) where
  begin-ask :
      (m : ℕ) (waiter : DedupeWaiter)
      → ◌≡◌ {A = Memory × Option DedupeBegin}
          (view (dedupe_begin s m waiter).0, some (dedupe_begin s m waiter).1)
          (answered (ask (view s) m waiter))
  unfolding dedupe_begin
  begin-ask m waiter = elim (Bool-cases (contains_key s.set m)) [
    | inl e ↦ rw (e, sym (v.covers m) ∙ e) refl
    | inr e ↦ elim (Option-cases (get s.pending m)) [
      | inl n ↦ rw (e, sym (v.covers m) ∙ e, n) refl
      | inr (ws, n) ↦ rw (e, sym (v.covers m) ∙ e, n) refl
    ]
  ]

  accepted-accept :
      (limit m : ℕ)
      → view (record_accepted (forget_pending s m) limit m) ≡ accept (settle (view s) m) limit m
  accepted-accept limit m = elim (Bool-cases (contains_key s.set m)) [
    | inl e ↦ rw (e, sym (v.covers m) ∙ e) refl
    | inr e ↦
        rw (e, sym (v.covers m) ∙ e, evict-order limit (insert s.set m tt) (s.order ++ m ∷ [])) refl
  ]

  call-promised : (c : Call) → (view (call s c), reply s c) ≡ promised (view s) c
  unfolding call reply promised dedupe_complete dedupe_abandon clear dedupe_limit
  call-promised (begins m waiter) = begin-ask m waiter
  call-promised (completes size m none) =
      ap (λ (h : Memory). (h, none)) (accepted-accept (dedupe_limit size) m)
  call-promised (completes size m (some err)) = refl
  call-promised (abandons m) = refl
  call-promised clears = refl

replies-view :
    (s : DedupeState) (cs : List Call) → IsHistory u64_max s → replies s cs ≡ promises (view s) cs
unfolding replies promises
replies-view s [] v = refl
replies-view s (c ∷ cs) v = rw (sym (call-promised s v c)) (
    ap (◌∷◌ (reply s c))
      (replies-view (call s c) cs (call-IsHistory u64_max s c (Allows-u64 (c ∷ [])).0 v)))

-- The answers to every sequence of begins, completions, abandonments and clearings are those of one
-- list: an identifier is a duplicate when it is among the accepted ones that are kept, a pending
-- duplicate when it is under way, and new otherwise. An acceptance keeps the latest ones, twice as
-- many as the send queue's size at that moment, but at most 2^64 - 1 and at least 128.
pub replies-promises :
    (cs : List Call) → replies new cs ≡ promises (record { accepted = []; under_way = [] }) cs
unfolding new
replies-promises cs = replies-view new cs (new-IsHistory u64_max)
