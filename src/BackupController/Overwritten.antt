-- ===== src/BackupController/Overwritten.antt =====
-- When the CronJob of a backup is updated.
use kopia_operator.Kube.Jobs.{CronJobSpec}
use kopia_operator.Api.Backup.{Backup}
use kopia_operator.Api.Repository.{Repository}
use kopia_operator.Platform.{Platform}
use kopia_operator.World.{World}

-- The spec that is built, with what the operator leaves alone: the labels of the job, the time zone,
-- the starting deadline, the parallelism and the completions.
abbrev pub keeping : CronJobSpec → CronJobSpec → CronJobSpec
keeping existing built = record built {
  job_labels = existing.job_labels;
  job_spec = record built.job_spec {
    parallelism = existing.job_spec.parallelism;
    completions = existing.job_spec.completions;
  };
  time_zone = existing.time_zone;
  starting_deadline_seconds = existing.starting_deadline_seconds;
}
