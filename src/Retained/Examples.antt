-- ===== src/Retained/Examples.antt =====
-- Tests of the retained store, and its theorems at concrete inputs.
use aurelia.Retained.Flow.{claim_lane, claim_from_queue, claim_in, scan, claim_next}
use aurelia.Prelude.{◌≡◌, refl, none, some, List, [], ◌∷◌, arith, All}
use aurelia.Prelude.Maps.{get, insert, remove}
use aurelia.Ids.{AureliaError, send_timeout, classify_message_priority}
use aurelia.Retained.{
  writing, writing, key_leb, heap_push, occupy, allocate_in, available, range, new_lane,
  TrackedOutbound, RetainedCapacities, a1_ack, a1_error, a2, a3,
}
use aurelia.Retained.{grow, set_target_capacity}
use aurelia.Retained.Store.{
  set_capacities, allocate, insert_response, insert_ack, insert_tracked, tracked_state, new,
  ack_one, fail_one,
}
use aurelia.Retained.Items.{IsStored}
use aurelia.Retained.Steps.{
  resizes, Sized, apply, Operation, inserts_tracked, inserts_ack, claims, apply_all,
  apply_all-IsStored, AreWords,
}
use aurelia.Retained.Completion.{CompletesOrKeeps, completions-cases}

abbrev small : RetainedCapacities
small = record { a1_ack = 2; a1_error = 1; a2 = 1; a3 = 2 }

small-AreWords : AreWords small
small-AreWords a1_ack = omega arith
small-AreWords a1_error = omega arith
small-AreWords a2 = omega arith
small-AreWords a3 = omega arith

abbrev wider : RetainedCapacities
wider = record { a1_ack = 2; a1_error = 2; a2 = 1; a3 = 4 }

wider-AreWords : AreWords wider
wider-AreWords a1_ack = omega arith
wider-AreWords a1_error = omega arith
wider-AreWords a2 = omega arith
wider-AreWords a3 = omega arith

abbrev letter : TrackedOutbound
letter = record {
  message = record {
    peer_msg_id = 9;
    src_taberna = 1;
    dst_taberna = 2;
    msg_type = 0x0100_0000;
    flags = 0;
    payload = 5 ∷ [];
  };
  ack_tx = 77;
}

-- A message and a response are retained and the response is claimed; then the message.
abbrev steps : List Operation
steps =
    inserts_tracked letter 100 1 ∷ inserts_ack 4 100 2 ∷ claims 7 ∷ resizes wider 3 ∷ claims 7 ∷ []

steps-Sized : All Sized steps
unfolding Sized
steps-Sized = (tt, (tt, (tt, (wider-AreWords, (tt, tt)))))

apply_all-IsStored_example : IsStored (apply_all (new small 0) steps)
apply_all-IsStored_example = apply_all-IsStored small 0 steps small-AreWords steps-Sized

abbrev late : AureliaError
late = record { kind = send_timeout; message = none }

-- The claims leave the message in its writer's hands.
claimed : tracked_state (apply_all (new small 0) steps) 9 ≡ some (writing 7)
unfolding apply_all apply tracked_state new insert_tracked insert_ack insert_response allocate
    claim_next claim_lane claim_from_queue claim_in scan classify_message_priority new_lane range
    available allocate_in occupy heap_push key_leb get insert remove set_capacities
    set_target_capacity grow
claimed = refl

completions-cases_example :
    CompletesOrKeeps
      (apply_all (new small 0) steps)
      9
      none
      (ack_one (apply_all (new small 0) steps) 9)
    × CompletesOrKeeps
        (apply_all (new small 0) steps)
        9
        (some late)
        (fail_one (apply_all (new small 0) steps) 9 late)
completions-cases_example =
    completions-cases (apply_all (new small 0) steps) 9 late
      (apply_all-IsStored small 0 steps small-AreWords steps-Sized)
