-- ===== src/Events/Enums.antt =====
-- backend/app/models/enums.py: the enumerations of events.

pub data ScanTrigger : Type 0 where
  webhook_push webhook_workflow_run polled_push manual scheduled release code_scanning : ScanTrigger

pub data CiStatus : Type 0 where
  pending success failure none : CiStatus

pub data ReviewDecision : Type 0 where
  approved changes_requested review_required : ReviewDecision
