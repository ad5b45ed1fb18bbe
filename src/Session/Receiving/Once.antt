-- ===== src/Session/Receiving/Once.antt =====
-- A message that its taberna accepted is acknowledged again when it is repeated, and not handed over again.
use aurelia.Prelude.Words.{u64_max}
use aurelia.Prelude.{
  ℕ, suc, ◌+◌, ◌<◌, ◌≡◌, refl, sym, ap, subst, ◌∙◌, ◌≢◌, Bool, true, false, not, Option, none, some,
  List, [], ◌∷◌, ◌++◌, arith, if◌then◌else◌, if_holds,
}
use aurelia.Ids.{AureliaError, ErrorId}
use aurelia.Retained.{PeerMessage}
use aurelia.Session.{error_of, contains_key, PeerSession, SessionConfig, CancelReason, should_error}
use aurelia.Session.Dedupe.{
  min_dedupe_history, Answer, DedupeState, DedupeWaiter, DedupeBegin, begin_new, duplicate,
  pending_duplicate, dedupe_begin, dedupe_complete,
}
use aurelia.Session.Dedupe.Calls.{IsHistory, clears, Call, begins, completes, abandons, call, run}
use aurelia.Session.Dedupe.Memory.{remembers, keeps, accepts}
use aurelia.Session.Receiving.{
  errs, at_once, ReceiveOutcome, acks, immediate, channel_closed, rejected, SinkReply, queued,
  sink_error, AcceptReady, accepted, receive_message_schedule, Received, after_begin,
  drain_message_waiter, cancel_message, settled,
}

-- Each with the configuration at its time.
pub data InboundEvent : Type 0 where
  arrives : SessionConfig → PeerMessage → Bool → DedupeWaiter → SinkReply → InboundEvent
  decides : SessionConfig → ℕ → AcceptReady → InboundEvent
  cancels : SessionConfig → ℕ → CancelReason → InboundEvent

unfoldable pub inbound : PeerSession → InboundEvent → PeerSession
inbound s (arrives config message known waiter reply) =
    (receive_message_schedule s config message known waiter reply).session
inbound s (decides config k ready) = (drain_message_waiter s config k ready).0
inbound s (cancels config k reason) = (cancel_message s config k reason).0

unfoldable pub inbound_all : PeerSession → List InboundEvent → PeerSession
inbound_all s [] = s
inbound_all s (e ∷ es) = inbound_all (inbound s e) es

unfoldable pub accepted_in : List InboundEvent → ℕ
accepted_in [] = 0
accepted_in (decides config k accepted ∷ es) = suc (accepted_in es)
accepted_in (_ ∷ es) = accepted_in es

-- The session after an event: the history by calls that keep it, the rest as before.
pub record Follows (s : PeerSession) (n : ℕ) (t : PeerSession) : Type 0 where
  pub calls : List Call
  pub history : t.dedupe ≡ run s.dedupe calls
  pub kept : keeps calls ≡ true
  pub counted : accepts calls ≡ n
  pub same_closing : t.closing ≡ s.closing
  pub same_queue : t.queue ≡ s.queue

stays : (s : PeerSession) → Follows s 0 s
unfolding run keeps accepts
stays s = record {
  calls = [];
  history = refl;
  kept = refl;
  counted = refl;
  same_closing = refl;
  same_queue = refl;
}

settles :
    (s : PeerSession) (size k : ℕ) (result : Option AureliaError) (n : ℕ)
    → accepts (completes size k result ∷ []) ≡ n
    → Follows s n (settled s (dedupe_complete s.dedupe size k result)).0
unfolding run call keeps
settles s size k result n e = record {
  calls = completes size k result ∷ [];
  history = refl;
  kept = refl;
  counted = e;
  same_closing = refl;
  same_queue = refl;
}

begun :
    (s : PeerSession) (config : SessionConfig) (message : PeerMessage) (waiter : DedupeWaiter)
    (reply : SinkReply) (d : DedupeState) (b : DedupeBegin)
    → d ≡ run s.dedupe (begins message.peer_msg_id waiter ∷ [])
    → Follows s 0 (after_begin s config message reply (d, b)).session
unfolding run call keeps accepts
begun s config message waiter reply d (duplicate decision) e = record {
  calls = begins message.peer_msg_id waiter ∷ [];
  history = e;
  kept = refl;
  counted = refl;
  same_closing = refl;
  same_queue = refl;
}
begun s config message waiter reply d (pending_duplicate rx) e = record {
  calls = begins message.peer_msg_id waiter ∷ [];
  history = e;
  kept = refl;
  counted = refl;
  same_closing = refl;
  same_queue = refl;
}
begun s config message waiter (queued rx) d begin_new e = record {
  calls = begins message.peer_msg_id waiter ∷ [];
  history = e;
  kept = refl;
  counted = refl;
  same_closing = refl;
  same_queue = refl;
}
begun s config message waiter (sink_error err) d begin_new e = record {
  calls =
      begins message.peer_msg_id waiter
      ∷ completes config.send_queue_size message.peer_msg_id (some err)
      ∷ [];
  history = ap (λ x. (dedupe_complete x config.send_queue_size message.peer_msg_id (some err)).0) e;
  kept = refl;
  counted = refl;
  same_closing = refl;
  same_queue = refl;
}

arrival :
    (s : PeerSession) (config : SessionConfig) (message : PeerMessage) (known : Bool)
    (waiter : DedupeWaiter) (reply : SinkReply)
    → Follows s 0 (receive_message_schedule s config message known waiter reply).session
unfolding receive_message_schedule
arrival s config message known waiter reply =
    if_holds (λ (r : Received). Follows s 0 r.session) s.closing (λ _. stays s)
      (λ _.
        if_holds (λ (r : Received). Follows s 0 r.session) (not known) (λ _. stays s)
          (λ _.
            begun s config message waiter reply (dedupe_begin s.dedupe message.peer_msg_id waiter).0
              (dedupe_begin s.dedupe message.peer_msg_id waiter).1
              (unfold run in unfold call in refl)))

cancellation :
    (s : PeerSession) (config : SessionConfig) (k : ℕ) (reason : CancelReason)
    → Follows s 0 (cancel_message s config k reason).0
unfolding cancel_message accepts
cancellation s config k reason =
    if_holds (λ (r : PeerSession × List Answer). Follows s 0 r.0) (should_error reason)
      (λ _. settles s config.send_queue_size k _ 0 refl)
      (λ _.
        unfold run in
        unfold call in
        unfold keeps in
        record {
          calls = abandons k ∷ [];
          history = refl;
          kept = refl;
          counted = refl;
          same_closing = refl;
          same_queue = refl;
        })

pub event-Follows :
    (s : PeerSession) (e : InboundEvent) → Follows s (accepted_in (e ∷ [])) (inbound s e)
unfolding inbound accepted_in drain_message_waiter accepts
event-Follows s (arrives config message known waiter reply) =
    arrival s config message known waiter reply
event-Follows s (decides config k accepted) = settles s config.send_queue_size k none 1 refl
event-Follows s (decides config k (rejected err)) =
    settles s config.send_queue_size k (some err) 0 refl
event-Follows s (decides config k channel_closed) =
    settles s config.send_queue_size k (some _) 0 refl
event-Follows s (cancels config k reason) = cancellation s config k reason

pub run-append : (s : DedupeState) (cs ds : List Call) → run s (cs ++ ds) ≡ run (run s cs) ds
unfolding run
run-append s [] ds = refl
run-append s (c ∷ cs) ds = run-append (call s c) cs ds

keeps-append : (cs ds : List Call) → keeps cs ≡ true → keeps ds ≡ true → keeps (cs ++ ds) ≡ true
unfolding keeps
keeps-append [] ds hc hd = hd
keeps-append (begins m waiter ∷ cs) ds hc hd = keeps-append cs ds hc hd
keeps-append (completes size m result ∷ cs) ds hc hd = keeps-append cs ds hc hd
keeps-append (abandons m ∷ cs) ds hc hd = keeps-append cs ds hc hd
keeps-append (clears ∷ cs) ds hc hd = cc

accepts-append : (cs ds : List Call) → accepts (cs ++ ds) ≡ accepts cs + accepts ds
unfolding accepts
accepts-append [] ds = omega arith
accepts-append (begins m waiter ∷ cs) ds = accepts-append cs ds
accepts-append (completes size m none ∷ cs) ds = omega (arith, accepts-append cs ds)
accepts-append (completes size m (some err) ∷ cs) ds = accepts-append cs ds
accepts-append (abandons m ∷ cs) ds = accepts-append cs ds
accepts-append (clears ∷ cs) ds = accepts-append cs ds

then-Follows : {s t u : PeerSession} {m n : ℕ} → Follows s m t → Follows t n u → Follows s (m + n) u
then-Follows {s = s} f g = record {
  calls = f.calls ++ g.calls;
  history =
      g.history ∙ ap (λ d. run d g.calls) f.history ∙ sym (run-append s.dedupe f.calls g.calls);
  kept = keeps-append f.calls g.calls f.kept g.kept;
  counted = omega (arith, accepts-append f.calls g.calls, f.counted, g.counted);
  same_closing = g.same_closing ∙ f.same_closing;
  same_queue = g.same_queue ∙ f.same_queue;
}

accepted_in-cons :
    (e : InboundEvent) (es : List InboundEvent)
    → accepted_in (e ∷ []) + accepted_in es ≡ accepted_in (e ∷ es)
unfolding accepted_in
accepted_in-cons (arrives config message known waiter reply) es = omega arith
accepted_in-cons (decides config k accepted) es = omega arith
accepted_in-cons (decides config k (rejected err)) es = omega arith
accepted_in-cons (decides config k channel_closed) es = omega arith
accepted_in-cons (cancels config k reason) es = omega arith

all-Follows :
    (s : PeerSession) (es : List InboundEvent) → Follows s (accepted_in es) (inbound_all s es)
unfolding inbound_all
all-Follows s [] = unfold accepted_in in stays s
all-Follows s (e ∷ es) =
    subst (λ n. Follows s n (inbound_all (inbound s e) es)) (accepted_in-cons e es)
      (then-Follows (event-Follows s e) (all-Follows (inbound s e) es))

-- The session after the taberna accepted the message k, and the events.
abbrev pub accepted_before : PeerSession → SessionConfig → ℕ → List InboundEvent → PeerSession
accepted_before s config k es = inbound_all (inbound s (decides config k accepted)) es

-- What a repeat gets: the acknowledgement, if the registry still has its taberna.
abbrev pub repeat_outcome : Bool → ℕ → ReceiveOutcome
repeat_outcome true m = acks m
repeat_outcome false m = errs (error_of ErrorId.unknown_taberna)

abbrev pub IsRepeat : Bool → ℕ → Received → Type 0
IsRepeat known m r = (r.schedule ≡ immediate (repeat_outcome known m)) × (r.handed ≡ false)

known_already :
    (s : PeerSession) (config : SessionConfig) (message : PeerMessage) (known : Bool)
    (waiter : DedupeWaiter) (reply : SinkReply)
    → s.closing ≡ false
    → contains_key s.dedupe.set message.peer_msg_id ≡ true
    → IsRepeat known message.peer_msg_id
        (receive_message_schedule s config message known waiter reply)
unfolding receive_message_schedule dedupe_begin
known_already s config message known waiter reply is_open recent =
    if_holds (IsRepeat known message.peer_msg_id) s.closing
      (λ shut. absurd (bool_clash (sym shut ∙ is_open))) (λ _. at_taberna known)
  where
    bool_clash : true ≢ false
    bool_clash e = cc

    at_taberna :
        (known : Bool)
        → IsRepeat known message.peer_msg_id (
            if not known
            then at_once s (errs (error_of ErrorId.unknown_taberna))
            else after_begin s config message reply
                (dedupe_begin s.dedupe message.peer_msg_id waiter))
    at_taberna false = (refl, refl)
    at_taberna true = rw recent (refl, refl)

-- On an open session whose history is consistent, once the taberna has accepted a message that was
-- under way, a repeat of it is not handed to a taberna again, and is answered at once: acknowledged
-- if the registry still has the taberna, and refused with UnknownTaberna if not. This holds after
-- any arrivals, decisions and cancellations and under any configurations, as long as fewer than 128
-- further messages are accepted.
pub inbound_all-once :
    (s : PeerSession) (first config : SessionConfig) (es : List InboundEvent)
    (message : PeerMessage) (known : Bool) (waiter : DedupeWaiter) (reply : SinkReply)
    → IsHistory u64_max s.dedupe
    → s.closing ≡ false
    → contains_key s.dedupe.pending message.peer_msg_id ≡ true
    → accepted_in es < min_dedupe_history
    → IsRepeat known message.peer_msg_id (
        receive_message_schedule
          (accepted_before s first message.peer_msg_id es)
          config
          message
          known
          waiter
          reply)
unfolding inbound drain_message_waiter
inbound_all-once s first config es message known waiter reply v is_open under_way few =
    let k : ℕ = message.peer_msg_id in
    let t : PeerSession = inbound s (decides first k accepted) in
    let f : Follows t (accepted_in es) (inbound_all t es) = all-Follows t es in
    known_already (inbound_all t es) config message known waiter reply (f.same_closing ∙ is_open) (
      ap (λ (d : DedupeState). contains_key d.set k) f.history
      ∙ remembers s.dedupe f.calls first.send_queue_size k v under_way f.kept
          (omega (arith, f.counted, few)))
