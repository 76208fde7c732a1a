-- ===== src/StateMachines/Fix/Graph.antt =====
-- The graph that backend/app/services/state_machines/fix.py declares.
use greensecops.Common.{◌≡◌, refl, true, false, none, some, arith}
use greensecops.StateMachines.Base.{next_state, Reach, here, after, IsWellFormed}
use greensecops.StateMachines.Fix.{
  FixStatus, pending, generating, ready, delivering, delivered, failed, rejected_by_user,
  superseded_by_closed_pr, superseded_by_deleted_file, landed, no_op, FixEvent, start_generation,
  generation_succeeded, mark_ready, start_delivery, precheck_no_op, delivery_succeeded,
  supersede_closed_pr, supersede_deleted_file, reject, regenerate, land, swept, FixStatus-discrete,
  fix_machine,
}

-- Opens what the graph computes with.
computed : Unit {0}
unfolding next_state fix_machine FixStatus-discrete
computed = tt

fix_connected : (s : FixStatus) → Reach FixStatus-discrete fix_machine pending s
unfolding computed
fix_connected pending = here
fix_connected generating = after here start_generation refl
fix_connected ready = after (after here start_generation refl) generation_succeeded refl
fix_connected delivering =
    after (after (after here start_generation refl) generation_succeeded refl) start_delivery refl
fix_connected delivered =
    after
      (after (after (after here start_generation refl) generation_succeeded refl) start_delivery
        refl)
      delivery_succeeded refl
fix_connected failed = after here swept refl
fix_connected rejected_by_user = after here reject refl
fix_connected superseded_by_closed_pr =
    after (after (after here start_generation refl) generation_succeeded refl) supersede_closed_pr
      refl
fix_connected superseded_by_deleted_file = after here supersede_deleted_file refl
fix_connected landed =
    after
      (after
        (after (after (after here start_generation refl) generation_succeeded refl) start_delivery
          refl)
        delivery_succeeded refl)
      land refl
fix_connected no_op =
    after (after (after here start_generation refl) generation_succeeded refl) precheck_no_op refl

fix_final_stuck :
    (s : FixStatus) (e : FixEvent)
    → fix_machine.final s ≡ true
    → next_state FixStatus-discrete fix_machine e s ≡ none
unfolding computed
fix_final_stuck s e h = ground arith

fix_live :
    (s : FixStatus)
    → fix_machine.final s ≡ false
    → (e : FixEvent) × (t : FixStatus) × (next_state FixStatus-discrete fix_machine e s ≡ some t)
unfolding computed
fix_live pending h = (start_generation, generating, refl)
fix_live generating h = (generation_succeeded, ready, refl)
fix_live ready h = (mark_ready, ready, refl)
fix_live delivering h = (delivery_succeeded, delivered, refl)
fix_live delivered h = (mark_ready, ready, refl)
fix_live failed h = (regenerate, pending, refl)
fix_live rejected_by_user h = cc
fix_live superseded_by_closed_pr h = (reject, rejected_by_user, refl)
fix_live superseded_by_deleted_file h = (reject, rejected_by_user, refl)
fix_live landed h = cc
fix_live no_op h = cc

-- Every state is reachable from the initial one, a final state refuses every event, and every
-- other state has an event that is legal in it.
pub fix_machine-IsWellFormed : IsWellFormed FixStatus-discrete fix_machine
unfolding computed
fix_machine-IsWellFormed = record {
  connected = fix_connected;
  final_stuck = fix_final_stuck;
  live = fix_live;
}
