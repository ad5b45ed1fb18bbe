-- ===== src/Dispatch/Examples.antt =====
-- The dispatch manager at small inputs.
use aurelia.Prelude.{◌≡◌, refl, ◌≢◌, true, false, none, some, List, [], ◌∷◌, arith, All}
use aurelia.Retained.{PeerMessage}
use aurelia.Retained.Items.{IsStored}
use aurelia.Dispatch.{new, enqueue_message, OutboundQueueOverrunReporter, enqueued}
use aurelia.Dispatch.Admission.{admission, enqueue_message-admission}
use aurelia.Dispatch.Calls.{
  DispatchCall, enqueue, claim_for, acked, resize, reaper_at, dispatch_all, Sizes,
  dispatch_all-IsStored,
}
use aurelia.Dispatch.Closing.{
  wish_after, CloseCall, requests, takes, listens, close_calls, wish, wake, take_close_intent,
  request_close, close_calls-answers,
}

abbrev message : PeerMessage
message = record {
  peer_msg_id = 9;
  src_taberna = 1;
  dst_taberna = 2;
  msg_type = 0x0100_0000;
  flags = 0;
  payload = 5 ∷ [];
}

abbrev reporter : OutboundQueueOverrunReporter
reporter = record { peer = some 6; send_queue_size = 1 }

abbrev calls : List DispatchCall
calls = enqueue message 100 70 1 ∷ claim_for 3 ∷ resize 2 5 ∷ reaper_at 6 ∷ acked 9 ∷ []

sizes : All Sizes calls
unfolding Sizes
sizes = (tt, (tt, (omega arith, (tt, (tt, tt)))))

calls-IsStored : IsStored (dispatch_all (new 1 (some reporter) 0) calls).state
calls-IsStored = dispatch_all-IsStored 1 0 (some reporter) calls (omega arith) sizes

enqueue_message-admission_example :
    ((enqueue_message (dispatch_all (new 1 (some reporter) 0) calls) message 100 71 7).2
      ≡ admission (dispatch_all (new 1 (some reporter) 0) calls).state message 100 71 7)
    × (admission (dispatch_all (new 1 (some reporter) 0) calls).state message 100 71 7 ≢ enqueued 71
        → (enqueue_message (dispatch_all (new 1 (some reporter) 0) calls) message 100 71 7).0.state
          ≡ (dispatch_all (new 1 (some reporter) 0) calls).state)
enqueue_message-admission_example =
    enqueue_message-admission (dispatch_all (new 1 (some reporter) 0) calls) message 100 71 7
      calls-IsStored

abbrev closings : List CloseCall
closings = listens 3 40 ∷ requests 3 ∷ requests 4 ∷ takes 4 ∷ []

close_calls-answers_example :
    ((take_close_intent (close_calls (new 1 none 0) closings) 3).1
      ≡ (wish 3 (false, none) closings).0)
    × ((request_close (close_calls (new 1 none 0) closings) 3).1
        ≡ wake (wish 3 (false, none) closings).1)
close_calls-answers_example = close_calls-answers 1 0 3 none closings

three_is_to_close : wish 3 (false, none) closings ≡ (true, some 40)
unfolding wish wish_after
three_is_to_close = refl
