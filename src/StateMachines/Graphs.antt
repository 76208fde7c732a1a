-- ===== src/StateMachines/Graphs.antt =====
-- The graphs of the eight machines together.
use greensecops.StateMachines.Base.{IsWellFormed}
use greensecops.StateMachines.Fix.{FixStatus-discrete, fix_machine}
use greensecops.StateMachines.Fix.Graph.{fix_machine-IsWellFormed}
use greensecops.StateMachines.Scan.{ScanStatus-discrete, scan_machine}
use greensecops.StateMachines.Scan.Graph.{scan_machine-IsWellFormed}
use greensecops.StateMachines.Finding.{FindingStatus-discrete, finding_machine}
use greensecops.StateMachines.Finding.Graph.{finding_machine-IsWellFormed}
use greensecops.StateMachines.PullRequest.{PullRequestState-discrete, pull_request_machine}
use greensecops.StateMachines.PullRequest.Graph.{pull_request_machine-IsWellFormed}
use greensecops.StateMachines.Repository.{RepositoryStatus-discrete, repository_machine}
use greensecops.StateMachines.Repository.Graph.{repository_machine-IsWellFormed}
use greensecops.StateMachines.CloudAccount.{CloudAccountStatus-discrete, cloud_account_machine}
use greensecops.StateMachines.CloudAccount.Graph.{cloud_account_machine-IsWellFormed}
use greensecops.StateMachines.Telemetry.{DynamicAnalysisStatus-discrete, telemetry_machine}
use greensecops.StateMachines.Telemetry.Graph.{telemetry_machine-IsWellFormed}
use greensecops.StateMachines.Billing.{SubscriptionStatus-discrete, billing_machine}
use greensecops.StateMachines.Billing.Graph.{billing_machine-IsWellFormed}

-- In each of the eight machines every state is reachable from the initial one by legal events, a
-- final state refuses every event, and every other state has an event that is legal in it.
pub machines-IsWellFormed :
    IsWellFormed FixStatus-discrete fix_machine
    × IsWellFormed ScanStatus-discrete scan_machine
    × IsWellFormed FindingStatus-discrete finding_machine
    × IsWellFormed PullRequestState-discrete pull_request_machine
    × IsWellFormed RepositoryStatus-discrete repository_machine
    × IsWellFormed CloudAccountStatus-discrete cloud_account_machine
    × IsWellFormed DynamicAnalysisStatus-discrete telemetry_machine
    × IsWellFormed SubscriptionStatus-discrete billing_machine
machines-IsWellFormed = (
  fix_machine-IsWellFormed, scan_machine-IsWellFormed, finding_machine-IsWellFormed,
  pull_request_machine-IsWellFormed, repository_machine-IsWellFormed,
  cloud_account_machine-IsWellFormed, telemetry_machine-IsWellFormed, billing_machine-IsWellFormed,
)
