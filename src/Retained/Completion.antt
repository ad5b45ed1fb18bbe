-- ===== src/Retained/Completion.antt =====
-- An acknowledgement, or a failure, completes the message that it names, once.
use aurelia.Prelude.{
  ℕ, ◌≡◌, refl, sym, ap, subst, ◌∙◌, ◌≢◌, ◌⊎◌, inl, inr, true, Option, none, some, arith,
  Option-cases,
}
use aurelia.Prelude.Maps.{get, get-remove}
use aurelia.Ids.{AureliaError}
use aurelia.Retained.{
  item_peer_msg_id, SlotId, RetainedItem, tracked_item, ack_item, error_item, TrackedOutbound,
}
use aurelia.Retained.Store.{
  complete_removed, fail_one, RetainedStore, lane, ack_one, complete_at, CompletionEffect,
  remove_by_slot,
}
use aurelia.Retained.Items.{items_of-get, IsStored, held, is_tracked_item}
use aurelia.Retained.Removal.{vacated, both_some, remove_by_slot-cases, unbooked}

-- The message is completed with this result: its sender gets it, and the store no longer tracks it.
pub record Completes (s : RetainedStore) (m : ℕ) (result : Option AureliaError)
    (r : RetainedStore × Option CompletionEffect) : Type 0 where
  pub id : SlotId
  pub t : TrackedOutbound
  pub held_before : held s id ≡ some (some (tracked_item t))
  pub named : t.message.peer_msg_id ≡ m
  pub effect : r.1 ≡ some (record { peer_msg_id = m; ack_tx = t.ack_tx; result = result })
  pub gone : get r.0.tracked m ≡ none
  pub others : (n : ℕ) → m ≢ n → get r.0.tracked n ≡ get s.tracked n

tracked_of :
    (item : RetainedItem)
    → is_tracked_item item ≡ true
    → (t : TrackedOutbound) × (item ≡ tracked_item t)
tracked_of (tracked_item t) h = (t, refl)
tracked_of (ack_item m) h = cc
tracked_of (error_item m frame) h = cc

complete_at-Completes :
    (s : RetainedStore) (m : ℕ) (result : Option AureliaError) (id : SlotId)
    → IsStored s
    → get s.tracked m ≡ some id
    → Completes s m result (complete_at s m result (some id))
complete_at-Completes s m result id v found =
    let (item, holds, kind, names) = v.known true m id found in
    let (t, is_t) = tracked_of item kind in
    elim (remove_by_slot-cases s id) [
      | inl (nothing, _) ↦ absurd (nothing item holds)
      | inr (slot, x, at, has, e) ↦
          let same : x ≡ tracked_item t =
            both_some
              (sym (items_of-get (lane s id.lane).slots id.index slot at ∙ ap some has) ∙ holds)
            ∙ is_t in
          let named : t.message.peer_msg_id ≡ m = ap item_peer_msg_id (sym is_t) ∙ names in
          let removed : remove_by_slot s id ≡ (
            unbooked s id.lane (vacated (lane s id.lane) id.index slot) (tracked_item t),
            some (tracked_item t),
          ) =
            e
            ∙ ap (λ y. (unbooked s id.lane (vacated (lane s id.lane) id.index slot) y, some y))
                same in
          subst (λ r. Completes s m result (complete_removed m result r)) (sym removed)
            (record {
              id = id;
              t = t;
              held_before = holds ∙ ap (λ y. some (some y)) is_t;
              named = named;
              effect = refl;
              gone = ground (arith, get-remove s.tracked t.message.peer_msg_id m, named);
              others =
                  λ n ne. ground (arith, get-remove s.tracked t.message.peer_msg_id n, named, ne);
            })
    ]

ack_one-cases :
    (s : RetainedStore) (m : ℕ)
    → IsStored s
    → ((get s.tracked m ≡ none) × (ack_one s m ≡ (s, none))) ⊎ Completes s m none (ack_one s m)
unfolding ack_one
ack_one-cases s m v = elim (Option-cases (get s.tracked m)) [
  | inl e ↦ inl (e, rw e refl)
  | inr (id, e) ↦ inr (rw e (complete_at-Completes s m none id v e))
]

fail_one-cases :
    (s : RetainedStore) (m : ℕ) (err : AureliaError)
    → IsStored s
    → ((get s.tracked m ≡ none) × (fail_one s m err ≡ (s, none)))
      ⊎ Completes s m (some err) (fail_one s m err)
unfolding fail_one
fail_one-cases s m err v = elim (Option-cases (get s.tracked m)) [
  | inl e ↦ inl (e, rw e refl)
  | inr (id, e) ↦ inr (rw e (complete_at-Completes s m (some err) id v e))
]

-- The message was not tracked and nothing changes, or it is completed.
abbrev pub CompletesOrKeeps :
    RetainedStore → ℕ → Option AureliaError → RetainedStore × Option CompletionEffect → Type 0
CompletesOrKeeps s m result r =
    ((get s.tracked m ≡ none) × (r ≡ (s, none))) ⊎ Completes s m result r

-- On a valid store, an acknowledgement or a failure of a message that is not tracked changes
-- nothing and completes nobody; any other gives the sender of exactly that message the result, Ok
-- or the error, after which the message is not tracked and the entries of the others are as before.
pub completions-cases :
    (s : RetainedStore) (m : ℕ) (err : AureliaError)
    → IsStored s
    → CompletesOrKeeps s m none (ack_one s m) × CompletesOrKeeps s m (some err) (fail_one s m err)
completions-cases s m err v = (ack_one-cases s m v, fail_one-cases s m err v)
