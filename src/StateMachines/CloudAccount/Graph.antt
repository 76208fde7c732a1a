-- ===== src/StateMachines/CloudAccount/Graph.antt =====
-- The graph that backend/app/services/state_machines/cloud_account.py declares.
use greensecops.Common.{◌≡◌, refl, true, false, none, some, arith}
use greensecops.StateMachines.Base.{next_state, Reach, here, after, IsWellFormed}
use greensecops.StateMachines.CloudAccount.{
  CloudAccountStatus, pending_verification, connected, error, disabled, CloudAccountEvent, verify,
  verification_failed, disable, enable, CloudAccountStatus-discrete, cloud_account_machine,
}

-- Opens what the graph computes with.
computed : Unit {0}
unfolding next_state cloud_account_machine CloudAccountStatus-discrete
computed = tt

cloud_account_connected :
    (s : CloudAccountStatus)
    → Reach CloudAccountStatus-discrete cloud_account_machine pending_verification s
unfolding computed
cloud_account_connected pending_verification = here
cloud_account_connected connected = after here verify refl
cloud_account_connected error = after here verification_failed refl
cloud_account_connected disabled = after here disable refl

cloud_account_final_stuck :
    (s : CloudAccountStatus) (e : CloudAccountEvent)
    → cloud_account_machine.final s ≡ true
    → next_state CloudAccountStatus-discrete cloud_account_machine e s ≡ none
unfolding computed
cloud_account_final_stuck s e h = ground arith

cloud_account_live :
    (s : CloudAccountStatus)
    → cloud_account_machine.final s ≡ false
    → (e : CloudAccountEvent) × (t : CloudAccountStatus) × (next_state CloudAccountStatus-discrete
          cloud_account_machine e s
        ≡ some t)
unfolding computed
cloud_account_live pending_verification h = (verify, connected, refl)
cloud_account_live connected h = (verification_failed, error, refl)
cloud_account_live error h = (verify, connected, refl)
cloud_account_live disabled h = (enable, pending_verification, refl)

-- Every state is reachable from the initial one, a final state refuses every event, and every
-- other state has an event that is legal in it.
pub cloud_account_machine-IsWellFormed :
    IsWellFormed CloudAccountStatus-discrete cloud_account_machine
unfolding computed
cloud_account_machine-IsWellFormed = record {
  connected = cloud_account_connected;
  final_stuck = cloud_account_final_stuck;
  live = cloud_account_live;
}
