-- ===== src/Session/Restart.antt =====
-- What a hello does to a session: a resumed one goes on as it was, any other starts with nothing.
use aurelia.Prelude.{
  ◌≡◌, refl, sym, ap, subst, ◌⊎◌, inl, inr, Bool, true, false, ◌&&◌, List, [], ◌∷◌, ◌++◌,
}
use aurelia.Ids.{ErrorId, AureliaError}
use aurelia.Retained.Store.{fail_all, tracked_messages, RetainedStore, CompletionEffect}
use aurelia.Retained.Items.{IsStored}
use aurelia.Retained.Failing.{FailsAll, fail_all-FailsAll}
use aurelia.Dispatch.{
  Effect, completes, apply_effects, work_changed, fail_all_messages, fail_all_tracked,
}
use aurelia.Session.{PeerSession, handle_hello_response, error_of}
use aurelia.Session.Dedupe.{DedupeState, clear}
use aurelia.Session.Dedupe

-- The notices in a list of effects, in order.
unfoldable pub notices : List Effect → List CompletionEffect
notices [] = []
notices (completes effect ∷ effects) = effect ∷ notices effects
notices (_ ∷ effects) = notices effects

notices-apply_effects :
    (effects : List CompletionEffect)
    → notices (apply_effects effects ++ work_changed ∷ []) ≡ effects
unfolding notices apply_effects
notices-apply_effects [] = refl
notices-apply_effects (effect ∷ effects) = ap (◌∷◌ effect) (notices-apply_effects effects)

-- Every tracked message is failed with this error: its sender is told so, once.
abbrev pub FailsTracked : ErrorId → PeerSession → PeerSession → List Effect → Type 0
FailsTracked kind s t effects =
    FailsAll s.queue.state (error_of kind) t.queue.state (notices effects)

fails_tracked :
    (s : RetainedStore) (err : AureliaError)
    → IsStored s
    → FailsAll s err
        (fail_all s err).0
        (notices (apply_effects (fail_all s err).1 ++ work_changed ∷ []))
fails_tracked s err v =
    subst (FailsAll s err (fail_all s err).0) (sym (notices-apply_effects (fail_all s err).1))
      (fail_all-FailsAll s err v)

-- The hello resumes the session, or starts it again; then it remembers no message of the peer, and the messages of an
-- active session are failed.
abbrev pub Resumes : PeerSession → Bool → PeerSession × List Effect × Bool → Type 0
Resumes s reconnect r = (reconnect && s.active ≡ true) × (r ≡ (s, [], true))

abbrev pub Restarts : PeerSession → PeerSession × List Effect → Type 0
Restarts s (t, effects) =
    (t.active ≡ true)
    × (t.dedupe ≡ Dedupe.new)
    × (t.allocator ≡ s.allocator)
    × (((s.active ≡ false) × (t.queue ≡ s.queue) × (effects ≡ []))
        ⊎ ((s.active ≡ true) × FailsTracked ErrorId.peer_restarted s t effects))

-- The peer's answer to the session's own hello: the messages to send again, or none.
pub handle_hello_response-cases :
    (s : PeerSession) (reconnect : Bool)
    → IsStored s.queue.state
    → ((reconnect ≡ true)
        × (handle_hello_response s reconnect ≡ (s, [], tracked_messages s.queue.state)))
      ⊎ ((reconnect ≡ false)
          × ((handle_hello_response s reconnect).2 ≡ [])
          × ((handle_hello_response s reconnect).0.dedupe ≡ Dedupe.new)
          × FailsTracked ErrorId.peer_restarted s
              (handle_hello_response s reconnect).0
              (handle_hello_response s reconnect).1)
unfolding handle_hello_response clear Dedupe.new fail_all_messages fail_all_tracked
handle_hello_response-cases s true v = inl (refl, refl)
handle_hello_response-cases s false v =
    inr (refl, refl, refl, fails_tracked s.queue.state (error_of ErrorId.peer_restarted) v)
