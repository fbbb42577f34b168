-- ===== src/Tests/Audit.antt =====
-- Redaction at concrete metadata.
use ikg_studio_model_trainin.Common.{some, none}
use ikg_studio_model_trainin.Json.{Fields, Items, number, text, array, object, end, field}
use ikg_studio_model_trainin.Database.{
  TrainingJobStatus, AuditActorType, AuditResult, AuditLog, Database,
}
use ikg_studio_model_trainin.Audit.{append}
use ikg_studio_model_trainin.Audit.Redaction.{HasCleanEntries, append-IsClean}
use ikg_studio_model_trainin.Tests.Data.{database}

-- `{ user: 7, apiToken: "x", nested: { Password: "y", size: 3 }, list: [{ secret: "z" }] }`
abbrev list : Items
list = Items.cons (object (field "secret" (text "z") end)) Items.nil

abbrev metadata : Fields
metadata = field "user" (number 7) (
    field "apiToken" (text "x") (
      field "nested" (object (field "Password" (text "y") (field "size" (number 3) end)))
        (field "list" (array list) end)))

abbrev entry : AuditLog
entry = record {
  actor_type = AuditActorType.user;
  actor_user_id = some 9;
  actor_ref = none;
  action_code = "TRAINING_JOB_CREATED";
  resource_type_code = "TRAINING_JOB";
  resource_id = 1;
  before_snapshot = none;
  after_snapshot = none;
  diff = none;
  result = AuditResult.success;
  correlation_id = 3;
  error_code = none;
  error_message = none;
  metadata = metadata;
}

abbrev empty_log : Database
empty_log = database TrainingJobStatus.queued TrainingJobStatus.blocked

append-IsClean_example : HasCleanEntries (append entry empty_log).audit_logs
append-IsClean_example = append-IsClean entry empty_log tt
