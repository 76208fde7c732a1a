-- ===== src/WorkflowSync.antt =====
-- backend/app/services/workflow_sync.py. Paths, contents, hashes and commits are only compared for
-- equality, and numbers stand for them. The table has one row per repository, branch and path (a
-- unique constraint), so that a write to a row is a write to the rows with its key; a listing names a
-- path once. `rows` of the result, which are the rows of the table, is left out, and so is the log.
-- A finding's `status` follows from its columns by a trigger of the database.
pub mod Rows
pub mod Order
pub mod Storing
pub mod Deletion
pub mod Latest
pub mod Scope
use greensecops.Common.{
  Bool, List, Option, [], false, if◌then◌else◌, ltb, map, none, not, refl, some, true, ℕ, ◌&&◌,
  ◌++◌, ◌==◌, ◌||◌, ◌∷◌,
}
use greensecops.StateMachines.Base.{Column, Engine, Field, try_advance, value}
use greensecops.StateMachines.Fix.{FixStatus, FixEvent, FixStatus-discrete, fix_machine}

pub data FindingResolutionReason : Type 0 where
  no_longer_detected target_removed file_removed merged branch_deleted : FindingResolutionReason

pub record WorkflowFinding : Type 0 where
  pub id : ℕ
  pub resolved_at : Option ℕ
  pub resolution_reason : Option FindingResolutionReason

pub record WorkflowFile : Type 0 where
  pub repo_id : ℕ
  pub branch : ℕ
  pub path : ℕ
  pub content_hash : ℕ
  pub raw_content : ℕ
  pub fetched_at : Option ℕ
  pub source_commit_sha : Option ℕ
  pub deleted_at : Option ℕ
  pub fix : Option FixStatus
  pub findings : List WorkflowFinding

pub record WorkflowSyncResult : Type 0 where
  pub contents : List (ℕ × ℕ)
  pub added : List ℕ
  pub updated : List ℕ
  pub unchanged : List ℕ
  pub restored : List ℕ
  pub deleted : List ℕ
  pub skipped_stale : List ℕ
  pub ref_unresolved : Bool

abbrev pub empty_result : WorkflowSyncResult
empty_result = record {
  contents = [];
  added = [];
  updated = [];
  unchanged = [];
  restored = [];
  deleted = [];
  skipped_stale = [];
  ref_unresolved = false;
}

-- What one sync reads and is told: the repository and branch, the head that the ref resolved to, the
-- instant before it did, and the clock at the reconciliation.
pub record Sync : Type 0 where
  pub repo_id : ℕ
  pub branch : ℕ
  pub head_sha : Option ℕ
  pub resolved_at : ℕ
  pub now : ℕ

-- `result.contents[path] = content`.
unfoldable pub put_content : ℕ → ℕ → List (ℕ × ℕ) → List (ℕ × ℕ)
put_content path content [] = (path, content) ∷ []
put_content path content ((p, c) ∷ cs) =
    if p == path then (path, content) ∷ cs else (p, c) ∷ put_content path content cs

unfoldable pub in_scope : Sync → WorkflowFile → Bool
in_scope sync wf = wf.repo_id == sync.repo_id && wf.branch == sync.branch

unfoldable pub is_target : Sync → ℕ → WorkflowFile → Bool
unfolding in_scope
is_target sync path wf = in_scope sync wf && wf.path == path

-- `existing.get(path)`.
unfoldable pub find_file : Sync → ℕ → List WorkflowFile → Option WorkflowFile
unfolding is_target
find_file sync path [] = none
find_file sync path (wf ∷ wfs) = if is_target sync path wf then some wf else find_file sync path wfs

-- `wf.fetched_at is not None and wf.fetched_at > result.resolved_at`.
unfoldable pub is_newer : ℕ → Option ℕ → Bool
is_newer resolved_at none = false
is_newer resolved_at (some fetched_at) = ltb resolved_at fetched_at

abbrev fix_column : Field FixStatus FixStatus
fix_column = record { get = λ s. value s; set = λ s _. s; get-set = λ s _. refl }

module _ (engine : Engine FixStatus-discrete) where
  -- `if wf.fix is not None and sm.try_advance(wf.fix, sm.FixMachine, event)`.
  unfoldable pub advance_fix : FixEvent → Option FixStatus → Option FixStatus
  advance_fix event none = none
  advance_fix event (some s) = some (try_advance engine fix_machine fix_column s event).0

  -- The row with the content and the provenance of this sync.
  unfoldable pub store : Sync → ℕ → ℕ → WorkflowFile → WorkflowFile
  unfolding advance_fix
  store sync hash content wf = record wf {
    content_hash = hash;
    raw_content = if wf.content_hash == hash then wf.raw_content else content;
    deleted_at = none;
    fix = advance_fix FixEvent.restore wf.fix;
    fetched_at = some sync.resolved_at;
    source_commit_sha = sync.head_sha;
  }

abbrev new_file : Sync → ℕ → ℕ → ℕ → WorkflowFile
new_file sync path hash content = record {
  repo_id = sync.repo_id;
  branch = sync.branch;
  path = path;
  content_hash = hash;
  raw_content = content;
  fetched_at = some sync.resolved_at;
  source_commit_sha = sync.head_sha;
  deleted_at = none;
  fix = none;
  findings = [];
}

abbrev is_deleted : Option ℕ → Bool
is_deleted none = false
is_deleted (some _) = true

-- The lists that a stored path joins.
unfoldable pub classify : ℕ → ℕ → WorkflowFile → WorkflowSyncResult → WorkflowSyncResult
classify path hash wf result = record result {
  unchanged = if wf.content_hash == hash then result.unchanged ++ path ∷ [] else result.unchanged;
  updated = if wf.content_hash == hash then result.updated else result.updated ++ path ∷ [];
  restored = if is_deleted wf.deleted_at then result.restored ++ path ∷ [] else result.restored;
}

-- A write to the row of a path.
unfoldable pub write_file :
    Sync → ℕ → (WorkflowFile → WorkflowFile) → List WorkflowFile → List WorkflowFile
unfolding is_target
write_file sync path change [] = []
write_file sync path change (wf ∷ wfs) =
    (if is_target sync path wf then change wf else wf) ∷ write_file sync path change wfs

abbrev pub State : Type 0
State = List WorkflowFile × WorkflowSyncResult

module _ (engine : Engine FixStatus-discrete) (compute_content_hash : ℕ → ℕ) where
  upsert_found : Sync → ℕ → ℕ → State → Option WorkflowFile → State
  unfolding store classify write_file is_newer put_content
  upsert_found sync path content (files, result) none = (
    files ++ new_file sync path (compute_content_hash content) content ∷ [],
    record result {
      contents = put_content path content result.contents;
      added = result.added ++ path ∷ [];
    },
  )
  upsert_found sync path content (files, result) (some wf) =
      if is_newer sync.resolved_at wf.fetched_at
      then (
        files,
        record result {
          contents = put_content path wf.raw_content result.contents;
          skipped_stale = result.skipped_stale ++ path ∷ [];
        },
      )
      else (
        write_file sync path (store engine sync (compute_content_hash content) content) files,
        classify path (compute_content_hash content) wf
            (record result { contents = put_content path content result.contents }),
      )

  -- `_upsert_one`, with the assignment to `result.contents` before it.
  unfoldable pub upsert_one : Sync → ℕ × ℕ → State → State
  unfolding upsert_found find_file
  upsert_one sync (path, content) (files, result) =
      upsert_found sync path content (files, result) (find_file sync path files)

  unfoldable pub upsert_all : Sync → List (ℕ × ℕ) → State → State
  unfolding upsert_one
  upsert_all sync [] state = state
  upsert_all sync (item ∷ items) state = upsert_all sync items (upsert_one sync item state)

unfoldable pub resolve_finding : ℕ → WorkflowFinding → WorkflowFinding
resolve_finding now finding = elim finding.resolved_at [
  | some _ ↦ finding
  | none ↦ record finding {
    resolved_at = some now;
    resolution_reason = some FindingResolutionReason.file_removed;
  }
]

abbrev or_at : ℕ → Option ℕ → Option ℕ
or_at now none = some now
or_at now (some t) = some t

unfoldable pub is_listed : ℕ → List (ℕ × ℕ) → Bool
is_listed path [] = false
is_listed path ((p, c) ∷ cs) = p == path || is_listed path cs

-- The rows whose path the listing lacks.
unfoldable pub is_missing : Sync → List (ℕ × ℕ) → WorkflowFile → Bool
unfolding in_scope is_listed
is_missing sync contents wf = in_scope sync wf && not (is_listed wf.path contents)

module _ (engine : Engine FixStatus-discrete) where
  unfoldable pub soft_delete : ℕ → WorkflowFile → WorkflowFile
  unfolding advance_fix resolve_finding
  soft_delete now wf = record wf {
    deleted_at = or_at now wf.deleted_at;
    findings = map (resolve_finding now) wf.findings;
    fix = advance_fix engine FixEvent.supersede_deleted_file wf.fix;
  }

  unfoldable pub reconcile_missing_paths : Sync → State → State
  unfolding soft_delete is_missing
  reconcile_missing_paths sync ([], result) = ([], result)
  reconcile_missing_paths sync (wf ∷ wfs, result) =
      let newly = is_missing sync result.contents wf && not (is_deleted wf.deleted_at) in
      let result' = record result {
        deleted = if newly then result.deleted ++ wf.path ∷ [] else result.deleted;
      } in
      let (wfs', result'') = reconcile_missing_paths sync (wfs, result') in
      (
        (if is_missing sync result.contents wf then soft_delete sync.now wf else wf) ∷ wfs',
        result'',
      )

abbrev is_empty : {A : Type 0} → List A → Bool
is_empty [] = true
is_empty (_ ∷ _) = false

-- What the listing tells of the ref: nothing, where it is empty and the ref was not resolved.
abbrev pub is_unknown : Option ℕ → List (ℕ × ℕ) → Bool
is_unknown none [] = true
is_unknown _ _ = false

-- `fetched` is `none` where `fetch` raises, and then the call raises `WorkflowFetchError`.
module _ (engine : Engine FixStatus-discrete) (compute_content_hash : ℕ → ℕ) where
  unfoldable pub sync_listing : Sync → Bool → List (ℕ × ℕ) → List WorkflowFile → State
  unfolding upsert_all reconcile_missing_paths
  sync_listing sync reconcile_missing fetched files =
      let (stored, result) =
        upsert_all engine compute_content_hash sync fetched (files, empty_result) in
      if reconcile_missing && is_empty result.skipped_stale
      then reconcile_missing_paths engine sync (stored, result)
      else (stored, result)

  unfoldable pub sync_workflow_files :
      Sync → Bool → Option (List (ℕ × ℕ)) → List WorkflowFile → Option State
  unfolding sync_listing
  sync_workflow_files sync reconcile_missing none files = none
  sync_workflow_files sync reconcile_missing (some fetched) files =
      if is_unknown sync.head_sha fetched
      then some (files, record empty_result { ref_unresolved = true })
      else some (sync_listing sync reconcile_missing fetched files)
