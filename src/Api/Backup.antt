-- ===== src/Api/Backup.antt =====
-- api/backup/v1alpha1/kopiabackup_types.go
use kopia_operator.Prelude.{ℕ, String, Bool, Option, none, some, List}
use kopia_operator.Prelude.Int.{ℤ, pos}
use kopia_operator.Kube.Meta.{ObjectMeta, Condition}

abbrev pub condition_type_ready : String
condition_type_ready = "Ready"

abbrev pub condition_type_cron_job_created : String
condition_type_cron_job_created = "CronJobCreated"

abbrev pub reason_reconciled : String
reason_reconciled = "Reconciled"

abbrev pub reason_pvc_not_found : String
reason_pvc_not_found = "PVCNotFound"

abbrev pub reason_repository_not_found : String
reason_repository_not_found = "RepositoryNotFound"

abbrev pub reason_no_pod_found : String
reason_no_pod_found = "NoPodFound"

abbrev pub reason_cron_job_failed : String
reason_cron_job_failed = "CronJobFailed"

abbrev pub reason_suspended : String
reason_suspended = "Suspended"

-- BackupStatus; `unset` is the empty text of a status that was never written.
pub data BackupResult : Type 0 where
  unset successful failed pending in_progress : BackupResult

pub record BackupHistoryEntry : Type 0 where
  pub start_time : ℕ
  pub completion_time : Option ℕ
  pub status : BackupResult
  pub job_name : String
  pub message : String

pub record BackupSpec : Type 0 where
  pub pvc_name : String
  pub schedule : String
  pub repository : String
  pub suspend : Bool
  pub successful_jobs_history_limit : Option ℤ
  pub failed_jobs_history_limit : Option ℤ
  pub ttl_seconds_after_finished : Option ℤ
  pub active_deadline_seconds : Option ℤ
  pub backoff_limit : Option ℤ
  pub user_credentials_secret : String

abbrev given_or : Option ℤ → ℤ → Option ℤ
given_or none d = some d
given_or (some n) d = some n

-- The spec with the defaults of the markers on its optional fields.
abbrev pub defaulted : BackupSpec → BackupSpec
defaulted spec = record spec {
  successful_jobs_history_limit = given_or spec.successful_jobs_history_limit (pos 3);
  failed_jobs_history_limit = given_or spec.failed_jobs_history_limit (pos 1);
  ttl_seconds_after_finished = given_or spec.ttl_seconds_after_finished (pos 86400);
  active_deadline_seconds = given_or spec.active_deadline_seconds (pos 21600);
  backoff_limit = given_or spec.backoff_limit (pos 3);
}

pub record BackupStatus : Type 0 where
  pub conditions : List Condition
  pub auto_created : Bool
  pub cron_job_name : String
  pub node_name : String
  pub server_url : String
  pub username : String
  pub connected : Bool
  pub last_backup_status : BackupResult
  pub last_backup_time : Option ℕ
  pub last_successful_backup_time : Option ℕ
  pub backup_history : List BackupHistoryEntry

pub record Backup : Type 0 where
  pub metadata : ObjectMeta
  pub spec : BackupSpec
  pub status : BackupStatus
