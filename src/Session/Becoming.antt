-- ===== src/Session/Becoming.antt =====
-- How each operation changes a session: by calls of the dispatch manager and of the history.
use aurelia.Prelude.Words.{u64_max}
use aurelia.Prelude.{
  ℕ, ◌+◌, ◌≤◌, ◌≡◌, refl, sym, ap, subst, ◌∙◌, Bool, true, false, ◌&&◌, Option, none, some, List,
  [], ◌∷◌, ◌++◌, leb, if_holds, All, All-append,
}
use aurelia.Ids.{AureliaError, ErrorId}
use aurelia.Retained.{PeerMessage}
use aurelia.Dispatch.{
  PrimaryOutboundStore, EnqueueResult, enqueued, refused, panics, enqueue_message,
  fail_all_messages, Effect,
}
use aurelia.Dispatch.Calls.{
  DispatchCall, enqueue, failed, failed_all, resize, dispatch, dispatch_all, Sizes,
}
use aurelia.Retained.Store.{deadline_of}
use aurelia.Session.{
  Outgoing, PeerSession, SessionConfig, AckWaiter, OutgoingRequest, Awaited, arrived, dropped,
  timed_out, create_outgoing, prepare_dispatch, wait_for_ack, handle_hello_response, accept_hello,
  refresh_limits, fail_inflight, outgoing_result, send_numbered, numbered, next_id, differs,
  with_queue, fail_queue, error_of, awaited_result, wait_on, prepare_until, restart,
}
use aurelia.Session.Dedupe.{clear}
use aurelia.Session.Dedupe.Calls.{Call, clears, run, call}
use aurelia.Session.Receiving.Once.{run-append}

-- How a session comes from another one. It never opens again once it closes.
pub record Becomes (s t : PeerSession) : Type 0 where
  pub queue_calls : List DispatchCall
  pub queue_by : t.queue ≡ dispatch_all s.queue queue_calls
  pub sized : All Sizes queue_calls
  pub history_calls : List Call
  pub history_by : t.dedupe ≡ run s.dedupe history_calls
  pub still_closing : s.closing ≡ true → t.closing ≡ true

pub same-Becomes : (s : PeerSession) → Becomes s s
unfolding dispatch_all run
same-Becomes s = record {
  queue_calls = [];
  queue_by = refl;
  sized = tt;
  history_calls = [];
  history_by = refl;
  still_closing = λ h. h;
}

-- A call of the dispatch manager, and nothing else.
pub queue-Becomes :
    (s t : PeerSession) (c : DispatchCall)
    → t.queue ≡ dispatch s.queue c
    → Sizes c
    → t.dedupe ≡ s.dedupe
    → (s.closing ≡ true → t.closing ≡ true)
    → Becomes s t
unfolding dispatch_all run
queue-Becomes s t c by size same closing = record {
  queue_calls = c ∷ [];
  queue_by = by;
  sized = (size, tt);
  history_calls = [];
  history_by = same;
  still_closing = closing;
}

dispatch_all-append :
    (q : PrimaryOutboundStore) (cs ds : List DispatchCall)
    → dispatch_all q (cs ++ ds) ≡ dispatch_all (dispatch_all q cs) ds
unfolding dispatch_all
dispatch_all-append q [] ds = refl
dispatch_all-append q (c ∷ cs) ds = dispatch_all-append (dispatch q c) cs ds

pub then-Becomes : {s t u : PeerSession} → Becomes s t → Becomes t u → Becomes s u
then-Becomes {s = s} f g = record {
  queue_calls = f.queue_calls ++ g.queue_calls;
  queue_by =
      g.queue_by
      ∙ ap (λ q. dispatch_all q g.queue_calls) f.queue_by
      ∙ sym (dispatch_all-append s.queue f.queue_calls g.queue_calls);
  sized = All-append Sizes f.queue_calls g.queue_calls f.sized g.sized;
  history_calls = f.history_calls ++ g.history_calls;
  history_by =
      g.history_by
      ∙ ap (λ d. run d g.history_calls) f.history_by
      ∙ sym (run-append s.dedupe f.history_calls g.history_calls);
  still_closing = λ h. g.still_closing (f.still_closing h);
}

pub limits-Becomes :
    (s : PeerSession) (config : SessionConfig) (now : ℕ)
    → config.send_queue_size ≤ u64_max
    → Becomes s (refresh_limits s config now).0
unfolding refresh_limits dispatch Sizes
limits-Becomes s config now fits =
    if_holds (λ (r : PeerSession × List Effect). Becomes s r.0)
      (differs s.limit_snapshot config.send_queue_size)
      (λ _. queue-Becomes s _ (resize config.send_queue_size now) refl fits refl (λ h. h))
      (λ _. same-Becomes s)

fail-Becomes : (s : PeerSession) (m : ℕ) (err : AureliaError) → Becomes s (fail_inflight s m err).0
unfolding fail_inflight dispatch Sizes
fail-Becomes s m err = queue-Becomes s _ (failed m err) refl tt refl (λ h. h)

pub fail_queue-Becomes : (s : PeerSession) (kind : ErrorId) → Becomes s (fail_queue s kind).0
unfolding dispatch Sizes fail_all_messages
fail_queue-Becomes s kind = queue-Becomes s _ (failed_all (error_of kind)) refl tt refl (λ h. h)

cleared-Becomes : (s : PeerSession) → Becomes s (record s { dedupe = clear s.dedupe })
unfolding dispatch_all run call
cleared-Becomes s = record {
  queue_calls = [];
  queue_by = refl;
  sized = tt;
  history_calls = clears ∷ [];
  history_by = refl;
  still_closing = λ h. h;
}

outgoing-Becomes :
    (s : PeerSession) (message : PeerMessage) (deadline : ℕ) (before : List Effect)
    (q : PrimaryOutboundStore) (effects : List Effect) (r : EnqueueResult)
    → (outgoing_result s message deadline before (q, effects, r)).0 ≡ with_queue s q
outgoing-Becomes s message deadline before q effects (enqueued rx) = refl
outgoing-Becomes s message deadline before q effects (refused err) = refl
outgoing-Becomes s message deadline before q effects panics = refl

numbered-Becomes :
    (s : PeerSession) (before : List Effect) (config : SessionConfig) (request : OutgoingRequest)
    (ack_tx now : ℕ)
    → Becomes s (send_numbered (s, before) config request ack_tx now).0
unfolding dispatch Sizes
numbered-Becomes s before config request ack_tx now =
    let message : PeerMessage = numbered request s.allocator.next in
    let deadline : ℕ = now + config.send_timeout in
    let t : PeerSession = record s { allocator = (next_id s.allocator).0 } in
    let (q, effects, r) = enqueue_message s.queue message deadline ack_tx now in
    subst (Becomes s) (sym (outgoing-Becomes t message deadline before q effects r))
      (queue-Becomes s (with_queue t q) (enqueue message deadline ack_tx now) refl tt refl (λ h. h))

pub sends-Becomes :
    (s : PeerSession) (config : SessionConfig) (request : OutgoingRequest) (ack_tx now : ℕ)
    → config.send_queue_size ≤ u64_max
    → Becomes s (create_outgoing s config request ack_tx now).0
unfolding create_outgoing
sends-Becomes s config request ack_tx now fits =
    if_holds (λ (r : PeerSession × List Effect × Outgoing). Becomes s r.0) s.closing
      (λ _. same-Becomes s)
      (λ _. then-Becomes (limits-Becomes s config now fits) (
        numbered-Becomes (refresh_limits s config now).0 (refresh_limits s config now).1 config
          request ack_tx now))

pub prepares-Becomes :
    (s : PeerSession) (config : SessionConfig) (m now : ℕ)
    → config.send_queue_size ≤ u64_max
    → Becomes s (prepare_dispatch s config m now).0
unfolding prepare_dispatch
prepares-Becomes s config m now fits =
    if_holds (λ (r : PeerSession × List Effect × Option ErrorId). Becomes s r.0) s.closing
      (λ _. fail-Becomes s m (error_of ErrorId.peer_unavailable))
      (λ _. until (deadline_of s.queue.state m))
  where
    until : (deadline : Option ℕ) → Becomes s (prepare_until s config m now deadline).0
    until none = same-Becomes s
    until (some deadline) =
        if_holds (λ (r : PeerSession × List Effect × Option ErrorId). Becomes s r.0)
          (leb deadline now) (λ _. fail-Becomes s m (error_of ErrorId.send_timeout))
          (λ _. limits-Becomes s config now fits)

awaited-Becomes : (s : PeerSession) (m : ℕ) (seen : Awaited) → Becomes s (awaited_result s m seen).0
awaited-Becomes s m (arrived result) = same-Becomes s
awaited-Becomes s m dropped = fail-Becomes s m (error_of ErrorId.connection_lost)
awaited-Becomes s m timed_out = fail-Becomes s m (error_of ErrorId.send_timeout)

pub waits-Becomes :
    (s : PeerSession) (waiter : AckWaiter) (now : ℕ) (seen : Awaited)
    → Becomes s (wait_for_ack s waiter now seen).0
unfolding wait_for_ack
waits-Becomes s waiter now seen =
    if_holds (λ (r : PeerSession × List Effect × Option AureliaError). Becomes s r.0)
      (leb waiter.deadline now) (λ _. awaited-Becomes s waiter.peer_msg_id timed_out)
      (λ _. on waiter.rx)
  where
    on : (rx : Option ℕ) → Becomes s (wait_on s waiter.peer_msg_id rx seen).0
    on none = awaited-Becomes s waiter.peer_msg_id dropped
    on (some rx) = awaited-Becomes s waiter.peer_msg_id seen

pub response-Becomes :
    (s : PeerSession) (reconnect : Bool) → Becomes s (handle_hello_response s reconnect).0
unfolding handle_hello_response
response-Becomes s true = same-Becomes s
response-Becomes s false =
    then-Becomes (fail_queue-Becomes s ErrorId.peer_restarted)
      (cleared-Becomes (fail_queue s ErrorId.peer_restarted).0)

pub same_parts :
    (s t : PeerSession)
    → t.queue ≡ s.queue
    → t.dedupe ≡ s.dedupe
    → t.closing ≡ s.closing
    → Becomes s t
unfolding dispatch_all run
same_parts s t queue history closing = record {
  queue_calls = [];
  queue_by = queue;
  sized = tt;
  history_calls = [];
  history_by = history;
  still_closing = λ h. closing ∙ h;
}

restart-Becomes : (s : PeerSession) → Becomes s (restart s).0
restart-Becomes s =
    if_holds (λ (r : PeerSession × List Effect). Becomes s r.0) s.active
      (λ _. fail_queue-Becomes s ErrorId.peer_restarted)
      (λ _. same_parts s (record s { active = true }) refl refl refl)

pub hello-Becomes : (s : PeerSession) (reconnect : Bool) → Becomes s (accept_hello s reconnect).0
unfolding accept_hello
hello-Becomes s reconnect =
    if_holds (λ (r : PeerSession × List Effect × Bool). Becomes s r.0) (reconnect && s.active)
      (λ _. same-Becomes s) (λ _. then-Becomes (restart-Becomes s) (cleared-Becomes (restart s).0))

pub shut-Becomes : (s : PeerSession) → Becomes s (record s { closing = true })
unfolding dispatch_all run
shut-Becomes s = record {
  queue_calls = [];
  queue_by = refl;
  sized = tt;
  history_calls = [];
  history_by = refl;
  still_closing = λ h. refl;
}
