-- ===== src/Session/Examples.antt =====
-- The session at small inputs.
use aurelia.Prelude.{◌^◌, ◌<◌, ◌≡◌, refl, true, false, none, some, List, [], ◌∷◌, arith, All}
use aurelia.Prelude.Maps.{get, insert, contains_key}
use aurelia.Ids.{ErrorId}
use aurelia.Retained.{PeerMessage}
use aurelia.Dispatch
use aurelia.Session.{
  begin_close, PeerSession, SessionConfig, OutgoingRequest, new, create_outgoing, not_sent,
  prepare_dispatch, error_of, accept_hello,
}
use aurelia.Session.Calls.{
  SessionCall, sends, receives, begins_close, gets_ack, hello, session_all, session, Fits, IsSound,
  session_all-IsSound,
}
use aurelia.Session.Closing.{session_all-refuses}
use aurelia.Session.Numbers.{next_ids, AreDifferent, next_ids-AreDifferent}
use aurelia.Session.Dedupe.{dedupe_begin, clear, DedupeWaiter, min_dedupe_history}
use aurelia.Session.Receiving.{receive_message_schedule, at_once, errs, queued, accepted}
use aurelia.Session.Receiving.Once.{
  IsRepeat, InboundEvent, arrives, decides, accepted_in, accepted_before, inbound_all-once, inbound,
}

abbrev config : SessionConfig
config = record { send_queue_size = 4; send_timeout = 30 }

abbrev request : OutgoingRequest
request = record {
  src_taberna = 1;
  dst_taberna = 2;
  msg_type = 0x0100_0000;
  flags = 0;
  payload = 5 ∷ [];
}

abbrev message : PeerMessage
message = record {
  peer_msg_id = 9;
  src_taberna = 1;
  dst_taberna = 2;
  msg_type = 0x0100_0000;
  flags = 0;
  payload = 5 ∷ [];
}

abbrev waiter : DedupeWaiter
waiter = record { tx = 3; notify = none }

abbrev fresh : PeerSession
fresh = new (record { next = 0xffff_ffff }) (Dispatch.new 4 none 0)

-- A message leaves, one arrives and waits for its taberna.
abbrev busy : List SessionCall
busy =
    hello false
    ∷ sends config request 70 1
    ∷ receives (arrives config message true waiter (queued 8))
    ∷ gets_ack 5
    ∷ []

busy-Fits : All Fits busy
unfolding Fits
busy-Fits = (tt, (omega arith, (tt, (tt, tt))))

session_all-IsSound_example : IsSound (session_all fresh busy)
session_all-IsSound_example =
    session_all-IsSound (record { next = 0xffff_ffff }) 4 0 none busy (omega arith) busy-Fits

abbrev closed : PeerSession
closed = session_all fresh (begins_close ∷ [])

closed_closing : closed.closing ≡ true
unfolding session_all session begin_close new
closed_closing = refl

session_all-refuses_example :
    (create_outgoing (session_all closed busy) config request 71 2
      ≡ (session_all closed busy, [], not_sent ErrorId.peer_unavailable))
    × (receive_message_schedule (session_all closed busy) config message true waiter (queued 8)
        ≡ at_once (session_all closed busy) (errs (error_of ErrorId.peer_unavailable)))
    × ((prepare_dispatch (session_all closed busy) config 9 2).2 ≡ some ErrorId.peer_unavailable)
session_all-refuses_example =
    session_all-refuses closed busy config request 71 2 message true waiter (queued 8)
      closed_closing busy-Fits

abbrev waiting : List SessionCall
waiting = hello false ∷ receives (arrives config message true waiter (queued 8)) ∷ []

waiting_open : (session_all fresh waiting).closing ≡ false
unfolding session_all session accept_hello inbound receive_message_schedule new dedupe_begin insert
    get clear
waiting_open = refl

nine_waits : contains_key (session_all fresh waiting).dedupe.pending 9 ≡ true
unfolding session_all session accept_hello inbound receive_message_schedule new dedupe_begin insert
    get clear
nine_waits = refl

waiting-IsSound : IsSound (session_all fresh waiting)
waiting-IsSound =
    session_all-IsSound (record { next = 0xffff_ffff }) 4 0 none waiting (omega arith)
      (unfold Fits in (tt, (tt, tt)))

abbrev later : List InboundEvent
later = arrives config message true waiter (queued 8) ∷ decides config 4 accepted ∷ []

later_accepted : accepted_in later < min_dedupe_history
unfolding accepted_in
later_accepted = omega arith

inbound_all-once_example : IsRepeat true 9 (
    receive_message_schedule
      (accepted_before (session_all fresh waiting) config 9 later)
      config
      message
      true
      waiter
      (queued 12))
inbound_all-once_example =
    inbound_all-once (session_all fresh waiting) config config later message true waiter (queued 12)
      waiting-IsSound.history waiting_open nine_waits later_accepted

next_ids-AreDifferent_example :
    AreDifferent (next_ids (record { next = 0xffff_ffff }) 3)
    × All (λ id. id < 2 ^ 32) (next_ids (record { next = 0xffff_ffff }) 3)
next_ids-AreDifferent_example =
    next_ids-AreDifferent (record { next = 0xffff_ffff }) 3 (omega arith) (omega arith)

wraps : next_ids (record { next = 0xffff_ffff }) 3 ≡ 0xffff_ffff ∷ 0 ∷ 1 ∷ []
unfolding next_ids
wraps = refl
