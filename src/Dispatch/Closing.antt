-- ===== src/Dispatch/Closing.antt =====
-- crates/peering/src/transport/primary_dispatch/retained.rs: requests to close a callis, and what wakes it.
use aurelia.Prelude.{
  ℕ, ◌≡◌, refl, sym, ap, ◌∙◌, inl, inr, Bool, true, false, Option, none, some, List, [], ◌∷◌, arith,
  ◌==◌, if◌then◌else◌, ==_iff, Bool-cases, Option-cases,
}
use aurelia.Prelude.Maps.{get, insert, remove, contains_key, get-insert, get-remove}
use aurelia.Dispatch.{
  PrimaryOutboundStore, Effect, wakes, new, clear_close_intent, without_close_intent,
  OutboundQueueOverrunReporter,
}

abbrev pub wake : Option ℕ → List Effect
wake none = []
wake (some notify) = wakes notify ∷ []

unfoldable pub request_close : PrimaryOutboundStore → ℕ → PrimaryOutboundStore × List Effect
request_close q callis_id = (
  record q {
    close_state = record q.close_state { intents = insert q.close_state.intents callis_id tt };
  },
  wake (get q.close_state.waiters callis_id),
)

unfoldable pub take_close_intent : PrimaryOutboundStore → ℕ → PrimaryOutboundStore × Bool
take_close_intent q callis_id =
    let found = contains_key q.close_state.intents callis_id in
    if found
    then (record q { close_state = without_close_intent q.close_state callis_id }, true)
    else (q, false)

abbrev pub notifier_of : PrimaryOutboundStore → ℕ → ℕ → Option ℕ → PrimaryOutboundStore × ℕ
notifier_of q callis_id notify none = (
  record q {
    close_state = record q.close_state { waiters = insert q.close_state.waiters callis_id notify };
  },
  notify,
)
notifier_of q callis_id notify (some old) = (q, old)

-- `notify` is the new notifier, which is used where the callis has none.
unfoldable pub close_notifier : PrimaryOutboundStore → ℕ → ℕ → PrimaryOutboundStore × ℕ
close_notifier q callis_id notify =
    notifier_of q callis_id notify (get q.close_state.waiters callis_id)

pub data CloseCall : Type 0 where
  requests takes clears : ℕ → CloseCall
  listens : ℕ → ℕ → CloseCall

unfoldable pub close_call : PrimaryOutboundStore → CloseCall → PrimaryOutboundStore
close_call q (requests k) = (request_close q k).0
close_call q (takes k) = (take_close_intent q k).0
close_call q (clears k) = clear_close_intent q k
close_call q (listens k notify) = (close_notifier q k notify).0

unfoldable pub close_calls : PrimaryOutboundStore → List CloseCall → PrimaryOutboundStore
close_calls q [] = q
close_calls q (c ∷ cs) = close_calls (close_call q c) cs

-- Of one callis: whether it is to close, and its notifier.
abbrev pub Wish : Type 0
Wish = Bool × Option ℕ

abbrev pub listen : ℕ → Option ℕ → Option ℕ
listen notify none = some notify
listen notify (some old) = some old

-- A request stands until it is taken or cleared, and the notifier goes with it.
unfoldable pub wish_after : ℕ → Wish → CloseCall → Wish
wish_after k (close, notify) (requests j) = if j == k then (true, notify) else (close, notify)
wish_after k (close, notify) (takes j) =
    if j == k then if close then (false, none) else (close, notify) else (close, notify)
wish_after k (close, notify) (clears j) = if j == k then (false, none) else (close, notify)
wish_after k (close, notify) (listens j n) =
    if j == k then (close, listen n notify) else (close, notify)

unfoldable pub wish : ℕ → Wish → List CloseCall → Wish
wish k w [] = w
wish k w (c ∷ cs) = wish k (wish_after k w c) cs

abbrev pub wish_in : PrimaryOutboundStore → ℕ → Wish
wish_in q k = (contains_key q.close_state.intents k, get q.close_state.waiters k)

removed-wish :
    (q : PrimaryOutboundStore) (j k : ℕ)
    → (contains_key (remove q.close_state.intents j) k, get (remove q.close_state.waiters j) k)
      ≡ (if j == k then (false, none) else wish_in q k)
removed-wish q j k =
    ground (arith, get-remove q.close_state.intents j k, get-remove q.close_state.waiters j k)

take-wish :
    (q : PrimaryOutboundStore) (j k : ℕ)
    → wish_in (take_close_intent q j).0 k ≡ wish_after k (wish_in q k) (takes j)
unfolding wish_after take_close_intent
take-wish q j k = elim (Bool-cases (contains_key q.close_state.intents j)) [
  | inl wanted ↦ elim (Bool-cases (j == k)) [
    | inl e ↦
        rw
          (
            wanted,
            removed-wish q j k,
            e,
            ap (λ i. contains_key q.close_state.intents i) (sym ((==_iff j k).0 e)) ∙ wanted,
          )
          refl
    | inr ne ↦ rw (wanted, removed-wish q j k, ne) refl
  ]
  | inr unwanted ↦ elim (Bool-cases (j == k)) [
    | inl e ↦
        rw
          (
            unwanted,
            e,
            ap (λ i. contains_key q.close_state.intents i) (sym ((==_iff j k).0 e)) ∙ unwanted,
          )
          refl
    | inr ne ↦ rw (unwanted, ne) refl
  ]
]

listen-wish :
    (q : PrimaryOutboundStore) (j n k : ℕ)
    → wish_in (close_notifier q j n).0 k ≡ wish_after k (wish_in q k) (listens j n)
unfolding wish_after close_notifier
listen-wish q j n k = elim (Option-cases (get q.close_state.waiters j)) [
  | inl e ↦ elim (Bool-cases (j == k)) [
    | inl same ↦
        rw
          (
            e,
            get-insert q.close_state.waiters j n k,
            same,
            ap (λ i. get q.close_state.waiters i) (sym ((==_iff j k).0 same)) ∙ e,
          )
          refl
    | inr ne ↦ rw (e, get-insert q.close_state.waiters j n k, ne) refl
  ]
  | inr (old, e) ↦ elim (Bool-cases (j == k)) [
    | inl same ↦
        rw (e, same, ap (λ i. get q.close_state.waiters i) (sym ((==_iff j k).0 same)) ∙ e) refl
    | inr ne ↦ rw (e, ne) refl
  ]
]

close_call-wish :
    (q : PrimaryOutboundStore) (c : CloseCall) (k : ℕ)
    → wish_in (close_call q c) k ≡ wish_after k (wish_in q k) c
unfolding close_call wish_after request_close take_close_intent close_notifier clear_close_intent
close_call-wish q (requests j) k = ground (arith, get-insert q.close_state.intents j tt k)
close_call-wish q (takes j) k = take-wish q j k
close_call-wish q (clears j) k =
    ground (arith, get-remove q.close_state.intents j k, get-remove q.close_state.waiters j k)
close_call-wish q (listens j n) k = listen-wish q j n k

close_calls-wish :
    (q : PrimaryOutboundStore) (cs : List CloseCall) (k : ℕ)
    → wish_in (close_calls q cs) k ≡ wish k (wish_in q k) cs
unfolding close_calls wish
close_calls-wish q [] k = refl
close_calls-wish q (c ∷ cs) k =
    close_calls-wish (close_call q c) cs k ∙ ap (λ w. wish k w cs) (close_call-wish q c k)

take-answer : (q : PrimaryOutboundStore) (k : ℕ) → (take_close_intent q k).1 ≡ (wish_in q k).0
unfolding take_close_intent
take-answer q k = ground arith

request-effects : (q : PrimaryOutboundStore) (k : ℕ) → (request_close q k).1 ≡ wake (wish_in q k).1
unfolding request_close
request-effects q k = refl

-- From a new dispatch manager and after every sequence of requests to close, takes, clearings and
-- registrations of notifiers, a callis takes a request exactly when one was made since the last
-- take or clearing, and a request wakes exactly the notifier that was registered since then.
pub close_calls-answers :
    (send_queue_size now k : ℕ) (reporter : Option OutboundQueueOverrunReporter)
    (cs : List CloseCall)
    → (take_close_intent (close_calls (new send_queue_size reporter now) cs) k).1
        ≡ (wish k (false, none) cs).0
      × (request_close (close_calls (new send_queue_size reporter now) cs) k).1
        ≡ wake (wish k (false, none) cs).1
unfolding new get
close_calls-answers send_queue_size now k reporter cs =
    let q : PrimaryOutboundStore = new send_queue_size reporter now in
    let e : wish_in (close_calls q cs) k ≡ wish k (false, none) cs = close_calls-wish q cs k in
    (
      take-answer (close_calls q cs) k ∙ ap (λ (w : Wish). w.0) e,
      request-effects (close_calls q cs) k ∙ ap (λ (w : Wish). wake w.1) e,
    )
