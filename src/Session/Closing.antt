-- ===== src/Session/Closing.antt =====
-- A session that closes refuses everything from then on, and an open one never panics.
use aurelia.Prelude.{
  ℕ, ◌≡◌, refl, sym, ◌∙◌, ◌≢◌, Bool, true, false, Option, some, List, [], if_holds, All,
}
use aurelia.Ids.{ErrorId}
use aurelia.Retained.{PeerMessage}
use aurelia.Dispatch.{Effect, EnqueueResult, enqueued, refused, panics}
use aurelia.Session.{
  PeerSession, SessionConfig, OutgoingRequest, create_outgoing, prepare_dispatch, Outgoing,
  outgoing, not_sent, panicked, error_of,
}
use aurelia.Session.Dedupe.{DedupeWaiter}
use aurelia.Session.Receiving.{receive_message_schedule, Received, at_once, errs, SinkReply}
use aurelia.Session.Calls.{SessionCall, session_all, Fits, session_all-Becomes}

clash : true ≢ false
clash e = cc

-- A session that is closing stays so through every sequence of calls, whose configurations have
-- sizes that are machine words: a message to send, a message that arrives and a dispatch are all
-- refused with PeerUnavailable, and the first two change nothing.
pub session_all-refuses :
    (s : PeerSession) (cs : List SessionCall) (config : SessionConfig) (request : OutgoingRequest)
    (ack_tx now : ℕ) (message : PeerMessage) (known : Bool) (waiter : DedupeWaiter)
    (reply : SinkReply)
    → s.closing ≡ true
    → All Fits cs
    → (create_outgoing (session_all s cs) config request ack_tx now
        ≡ (session_all s cs, [], not_sent ErrorId.peer_unavailable))
      × (receive_message_schedule (session_all s cs) config message known waiter reply
          ≡ at_once (session_all s cs) (errs (error_of ErrorId.peer_unavailable)))
      × ((prepare_dispatch (session_all s cs) config message.peer_msg_id now).2
          ≡ some ErrorId.peer_unavailable)
unfolding create_outgoing receive_message_schedule prepare_dispatch
session_all-refuses s cs config request ack_tx now message known waiter reply closing fits =
    let t : PeerSession = session_all s cs in
    let shut : t.closing ≡ true = (session_all-Becomes s cs fits).still_closing closing in
    (
      if_holds
          (λ (r : PeerSession × List Effect × Outgoing).
            r ≡ (t, [], not_sent ErrorId.peer_unavailable))
          t.closing (λ _. refl) (λ is_open. absurd (clash (sym shut ∙ is_open))),
      if_holds (λ (r : Received). r ≡ at_once t (errs (error_of ErrorId.peer_unavailable)))
          t.closing (λ _. refl) (λ is_open. absurd (clash (sym shut ∙ is_open))),
      if_holds
          (λ (r : PeerSession × List Effect × Option ErrorId). r.2 ≡ some ErrorId.peer_unavailable)
          t.closing (λ _. refl) (λ is_open. absurd (clash (sym shut ∙ is_open))),
    )

-- What the sender is told by the dispatch manager's result.
abbrev pub told : PeerMessage → ℕ → EnqueueResult → Outgoing
told message deadline (enqueued rx) =
    outgoing message
      (record { rx = some rx; peer_msg_id = message.peer_msg_id; deadline = deadline })
told message deadline (refused err) = not_sent err
told message deadline panics = panicked
