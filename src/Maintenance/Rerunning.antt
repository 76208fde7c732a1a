-- ===== src/Maintenance/Rerunning.antt =====
-- Exactly which branches a retry pass of backend/app/workers/tasks/maintenance.py queues.
use greensecops.Common.{
  ◌-◌, ◌≡◌, ℕ, true, List, [], ◌∷◌, ◌==◌, ◌&&◌, Text, codes, Option, some, none, first,
}
use greensecops.Events.Store.{Repository}
use greensecops.Webhooks.Payload.{SlotReply, may_go_on}
use greensecops.Maintenance.Retry.{WorkflowScan, is_transient_failure, is_since}
use greensecops.Maintenance.Retrying.{Retryable}

-- The branch of a row, the default branch of its repository or `main`: the first that is no empty text.
abbrev pub branch_of : Option Text → Text → Text
branch_of (some (c ∷ branch)) default = c ∷ branch
branch_of none (c ∷ default) = c ∷ default
branch_of (some []) (c ∷ default) = c ∷ default
branch_of none [] = codes "main"
branch_of (some []) [] = codes "main"

-- A failure of the branch is to be run again.
abbrev pub IsRetried :
    (ℕ → Text → SlotReply) → ℕ → List Repository → List WorkflowScan → ℕ → Text → Type 0
IsRetried slot now repos scans r b =
    (scan : WorkflowScan) × (repo : Repository) × Retryable (now - 86400000000) repos scans scan
      repo
    × (repo.id ≡ r)
    × (branch_of scan.branch repo.default_branch ≡ b)
    × (may_go_on (slot r b) ≡ true)

-- What a candidate of one row says of the row.
abbrev Candidate : ℕ → List Repository → WorkflowScan → WorkflowScan × Repository → Type 0
Candidate cutoff repos x (scan, repo) =
    (scan ≡ x)
    × (first (λ row. row.id == x.repo_id && row.enabled) repos ≡ some repo)
    × (is_transient_failure x ≡ true)
    × (is_since cutoff x.completed_at ≡ true)
