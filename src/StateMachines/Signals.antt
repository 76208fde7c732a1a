-- ===== src/StateMachines/Signals.antt =====
-- backend/app/models/enums.py: the SSE signals that the machines' outputs name.
pub data SseSignal : Type 0 where
  analysis_queued analysis_started analysis_completed analysis_failed analysis_skipped : SseSignal
  analysis_no_workflows fix_skipped fix_pending fix_generating fix_ready fix_delivering : SseSignal
  fix_delivered fix_failed fix_rejected fix_landed pr_opened pr_updated pr_closed : SseSignal
  pr_merged installation_syncing installation_synced installation_created : SseSignal
  installation_deleted installation_suspended installation_unsuspended : SseSignal
  installation_updated repository_added repository_disabled repository_toggled : SseSignal
  repository_action_pr_opened repository_suspended repository_archived : SseSignal
  repository_inaccessible repository_restored dynamic_queued dynamic_running : SseSignal
  dynamic_enriched dynamic_failed analysis_quota_exceeded subscription_activated : SseSignal
  subscription_past_due subscription_unpaid subscription_canceled subscription_updated : SseSignal
