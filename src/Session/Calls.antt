-- ===== src/Session/Calls.antt =====
-- Every call on a session is a sequence of calls of the dispatch manager and of the history.
use aurelia.Prelude.Words.{u64_max}
use aurelia.Prelude.{ℕ, ◌≤◌, refl, sym, subst, ◌∙◌, Bool, true, Option, List, [], ◌∷◌, All}
use aurelia.Ids.{AureliaError, ErrorId}
use aurelia.Retained.Items.{IsStored}
use aurelia.Dispatch.{
  PrimaryOutboundStore, OutboundQueueOverrunReporter, EnqueueResult, enqueued, refused, panics,
  enqueue_message, ack_message, fail_message, fail_all_tracked, fail_all_messages, set_capacity,
  Effect,
}
use aurelia.Dispatch
use aurelia.Dispatch.Calls.{
  acked, failed, dispatch, dispatch_all, Sizes, dispatch_all-keeps, dispatch_all-IsStored,
}
use aurelia.Session.{
  PeerSession, SessionConfig, PeerMessageIdAllocator, AckWaiter, OutgoingRequest, Awaited,
  create_outgoing, prepare_dispatch, handle_ack, handle_error, handle_close, begin_close,
  wait_for_ack, handle_hello_response, accept_hello, set_active, new,
}
use aurelia.Session.Dedupe.Calls.{IsHistory, run-IsHistory, new-IsHistory}
use aurelia.Session.Dedupe.Memory.{Allows-u64}
use aurelia.Session.Receiving.Once.{InboundEvent, inbound, event-Follows, Follows, accepted_in}
use aurelia.Session.Becoming.{
  Becomes, same-Becomes, queue-Becomes, then-Becomes, fail_queue-Becomes, sends-Becomes,
  prepares-Becomes, waits-Becomes, response-Becomes, same_parts, hello-Becomes, shut-Becomes,
}

pub data SessionCall : Type 0 where
  -- configuration, message, channel, time
  sends : SessionConfig → OutgoingRequest → ℕ → ℕ → SessionCall
  prepares : SessionConfig → ℕ → ℕ → SessionCall
  gets_ack : ℕ → SessionCall
  gets_error : ℕ → AureliaError → SessionCall
  closes begins_close : SessionCall
  waits : AckWaiter → ℕ → Awaited → SessionCall
  hello_response hello activates : Bool → SessionCall
  receives : InboundEvent → SessionCall

unfoldable pub session : PeerSession → SessionCall → PeerSession
session s (sends config request ack_tx now) = (create_outgoing s config request ack_tx now).0
session s (prepares config m now) = (prepare_dispatch s config m now).0
session s (gets_ack m) = (handle_ack s m).0
session s (gets_error m err) = (handle_error s m err).0
session s closes = (handle_close s).0
session s begins_close = begin_close s
session s (waits waiter now seen) = (wait_for_ack s waiter now seen).0
session s (hello_response reconnect) = (handle_hello_response s reconnect).0
session s (hello reconnect) = (accept_hello s reconnect).0
session s (activates active) = set_active s active
session s (receives e) = inbound s e

unfoldable pub session_all : PeerSession → List SessionCall → PeerSession
session_all s [] = s
session_all s (c ∷ cs) = session_all (session s c) cs

-- The configuration's size is a machine word.
unfoldable pub Fits : SessionCall → Type 0
Fits (sends config request ack_tx now) = config.send_queue_size ≤ u64_max
Fits (prepares config m now) = config.send_queue_size ≤ u64_max
Fits _ = Unit

session-Becomes : (s : PeerSession) (c : SessionCall) → Fits c → Becomes s (session s c)
unfolding session Fits handle_ack handle_error handle_close begin_close set_active dispatch Sizes
session-Becomes s (sends config request ack_tx now) fits =
    sends-Becomes s config request ack_tx now fits
session-Becomes s (prepares config m now) fits = prepares-Becomes s config m now fits
session-Becomes s (gets_ack m) fits = queue-Becomes s _ (acked m) refl tt refl (λ h. h)
session-Becomes s (gets_error m err) fits = queue-Becomes s _ (failed m err) refl tt refl (λ h. h)
session-Becomes s closes fits =
    then-Becomes (shut-Becomes s)
      (fail_queue-Becomes (record s { closing = true }) ErrorId.peer_unavailable)
session-Becomes s begins_close fits = shut-Becomes s
session-Becomes s (waits waiter now seen) fits = waits-Becomes s waiter now seen
session-Becomes s (hello_response reconnect) fits = response-Becomes s reconnect
session-Becomes s (hello reconnect) fits = hello-Becomes s reconnect
session-Becomes s (activates active) fits = same_parts s _ refl refl refl
session-Becomes s (receives e) fits =
    let f : Follows s (accepted_in (e ∷ [])) (inbound s e) = event-Follows s e in
    unfold dispatch_all in
    record {
      queue_calls = [];
      queue_by = f.same_queue;
      sized = tt;
      history_calls = f.calls;
      history_by = f.history;
      still_closing = λ h. f.same_closing ∙ h;
    }

pub session_all-Becomes :
    (s : PeerSession) (cs : List SessionCall) → All Fits cs → Becomes s (session_all s cs)
unfolding session_all
session_all-Becomes s [] fits = same-Becomes s
session_all-Becomes s (c ∷ cs) fits =
    then-Becomes (session-Becomes s c fits.0) (session_all-Becomes (session s c) cs fits.1)

pub record IsSound (s : PeerSession) : Type 0 where
  pub stored : IsStored s.queue.state
  pub history : IsHistory u64_max s.dedupe

pub Becomes-IsSound : {s t : PeerSession} → Becomes s t → IsSound s → IsSound t
Becomes-IsSound {s = s} f v = record {
  stored =
      subst (λ (q : PrimaryOutboundStore). IsStored q.state) (sym f.queue_by)
        (dispatch_all-keeps s.queue f.queue_calls f.sized v.stored);
  history =
      subst (IsHistory u64_max) (sym f.history_by)
        (run-IsHistory u64_max s.dedupe f.history_calls (Allows-u64 f.history_calls) v.history);
}

-- From a new session over a new dispatch manager whose size is a machine word, every sequence of
-- calls on the session, with configurations whose size is a machine word, keeps the retained store
-- valid and the history of received messages consistent.
pub session_all-IsSound :
    (allocator : PeerMessageIdAllocator) (size started : ℕ)
    (reporter : Option OutboundQueueOverrunReporter) (cs : List SessionCall)
    → size ≤ u64_max
    → All Fits cs
    → IsSound (session_all (new allocator (Dispatch.new size reporter started)) cs)
unfolding new dispatch_all
session_all-IsSound allocator size started reporter cs fits all_fit =
    Becomes-IsSound
      (session_all-Becomes (new allocator (Dispatch.new size reporter started)) cs all_fit)
      (record {
        stored = dispatch_all-IsStored size started reporter [] fits tt;
        history = new-IsHistory u64_max;
      })
