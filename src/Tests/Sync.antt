-- ===== src/Tests/Sync.antt =====
-- Syncs of workflow files at concrete inputs.
use greensecops.StateMachines.Base.{Engine}
use greensecops.WorkflowSync.Storing.{is_live}
use greensecops.WorkflowSync.Latest.{IsEarlier, sync_listing-live}
use greensecops.WorkflowSync.Order.{sync_listing-newer}
use greensecops.WorkflowSync.Scope.{others, others-sync_listing}
use greensecops.WorkflowSync.{
  is_newer, empty_result, upsert_all, is_listed, WorkflowFile, sync_listing, Sync, find_file,
}
use greensecops.Common.{All, arith, List, Option, [], none, refl, some, true, ℕ, ◌+◌, ◌∷◌, ◌≡◌}
use greensecops.Tests.Samples.{first_engine}
use greensecops.StateMachines.Fix.{FixStatus, FixStatus-discrete}

abbrev engine : Engine FixStatus-discrete
engine = first_engine FixStatus-discrete

abbrev hash : ℕ → ℕ
hash content = content + 1000

-- A sync of branch 1 of repository 1 that resolved its ref at 15.
abbrev older : Sync
older = record { repo_id = 1; branch = 1; head_sha = some 15; resolved_at = 15; now = 30 }

abbrev file : ℕ → ℕ → Option ℕ → Option FixStatus → WorkflowFile
file path fetched_at deleted_at fix = record {
  repo_id = 1;
  branch = 1;
  path = path;
  content_hash = 1070;
  raw_content = 70;
  fetched_at = some fetched_at;
  source_commit_sha = none;
  deleted_at = deleted_at;
  fix = fix;
  findings = [];
}

abbrev table : List WorkflowFile
table =
    file 1 10 none none
    ∷ file 2 10 none (some FixStatus.ready)
    ∷ (record (file 3 10 none none) { branch = 2 })
    ∷ []

abbrev listing : List (ℕ × ℕ)
listing = (1, 71) ∷ (4, 72) ∷ []

table-IsEarlier : All (IsEarlier older) table
table-IsEarlier =
    ((λ _ _. (omega arith, tt)), ((λ _ _. (omega arith, tt)), ((λ _ _. (omega arith, tt)), tt)))

sync_listing-live_example :
    is_live (find_file older 2 (sync_listing engine hash older true listing table).0)
    ≡ is_listed 2 listing
sync_listing-live_example = sync_listing-live engine hash older listing table 2 table-IsEarlier

others-sync_listing_example :
    others older (sync_listing engine hash older true listing table).0 ≡ others older table
others-sync_listing_example = others-sync_listing engine hash older true listing table

-- A later sync, which resolved its ref at 20, has stored path 1.
abbrev raced : List WorkflowFile
raced = file 1 20 none none ∷ file 2 10 none none ∷ []

sync_listing-newer_example :
    (sync_listing engine hash older true listing raced
      ≡ upsert_all engine hash older listing (raced, empty_result))
    × (find_file older 1 (sync_listing engine hash older true listing raced).0
        ≡ some (file 1 20 none none))
unfolding find_file is_newer is_listed
sync_listing-newer_example =
    sync_listing-newer engine hash older true listing raced 1 (file 1 20 none none) refl refl refl

-- A later sync has seen path 1 renamed to path 2: it deleted the one at 21 and stored the other. The
-- older sync, which still lists path 1 alone, runs behind it and turns both back, since a deletion
-- does not move `fetched_at`.
abbrev renamed : List WorkflowFile
renamed = file 1 10 (some 21) none ∷ file 2 20 none none ∷ []

abbrev marks : List WorkflowFile → List (ℕ × Option ℕ)
marks [] = []
marks (wf ∷ wfs) = (wf.path, wf.deleted_at) ∷ marks wfs

turned_back :
    marks (sync_listing engine hash older true ((1, 70) ∷ []) renamed).0
    ≡ (1, none) ∷ (2, some 30) ∷ []
unfolding sync_listing
turned_back = refl
