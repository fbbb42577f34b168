-- ===== src/Scheduler/Entries.antt =====
-- The audit entries that the reconcile stage writes (apps/scheduler/src/reconcile.ts): each has the
-- scheduler for its actor.
use ikg_studio_model_trainin.Common.{ℕ, Option, none, some, String}
use ikg_studio_model_trainin.Json.{Fields, text, field, end}
use ikg_studio_model_trainin.Database.{
  AuditActorType, AuditResult, AuditLog, JobType, job_type_name,
}

unfoldable pub scheduler_entry :
    String → String → ℕ → AuditResult → ℕ → Option String → Fields → AuditLog
scheduler_entry action resource id result correlation error metadata = record {
  actor_type = AuditActorType.system;
  actor_user_id = none;
  actor_ref = some "scheduler";
  action_code = action;
  resource_type_code = resource;
  resource_id = id;
  before_snapshot = none;
  after_snapshot = none;
  diff = none;
  result = result;
  correlation_id = correlation;
  error_code = error;
  error_message = none;
  metadata = metadata;
}

abbrev pub lost_code : Option String
lost_code = some "EXECUTION_LOST"

-- The entry for a record that failed because its execution was lost.
unfoldable pub lost_entry : String → String → ℕ → ℕ → JobType → AuditLog
unfolding scheduler_entry
lost_entry action resource id correlation job_type =
    scheduler_entry action resource id AuditResult.failure correlation lost_code
      (field "job_type" (text (job_type_name job_type)) end)
