-- ===== src/Sends/Resources.antt =====
-- What the backup controller sends for the ConfigMap and the CronJob.
use kopia_operator.Prelude.{Bool, String, ◌≡◌, arith}
use kopia_operator.Exec.{Result, ok, err}
use kopia_operator.Kube.Jobs.{CronJob}
use kopia_operator.Kube.Objects.{ConfigMap}
use kopia_operator.Api.Backup.{Backup}
use kopia_operator.Api.Repository.{Repository}
use kopia_operator.Platform.{Platform}
use kopia_operator.World.{World}
use kopia_operator.World.Trace.{count-append_one}
use kopia_operator.Builder.Job.{Placement}
use kopia_operator.BackupController.Setup.{Reconciler}
use kopia_operator.BackupController.Placement.{find_pod_using_pvc}
use kopia_operator.BackupController.Resources.{
  with_config_map, reconcile_config_map, with_cron_job, reconcile_cron_job, final_status,
  after_cron_job, reconcile_backup_resources,
}
use kopia_operator.Sends.{tally}

module _ (k : Bool) (P : Platform) where
  open P use {State}

  tally-with_config_map :
      (desired : ConfigMap) (found : Result ConfigMap) (w : World State)
      → tally k (with_config_map P desired found w).1.trace ≡ tally k w.trace
  unfolding with_config_map
  tally-with_config_map desired (err e) w = grind (arith, count-append_one)
  tally-with_config_map desired (ok existing) w = grind (arith, count-append_one)

  pub tally-reconcile_config_map :
      (r : Reconciler P) (b : Backup) (repo : Repository) (w : World State)
      → tally k (reconcile_config_map P r b repo w).1.trace ≡ tally k w.trace
  unfolding reconcile_config_map
  tally-reconcile_config_map r b repo w = grind (arith, tally-with_config_map)

  tally-with_cron_job :
      (desired : CronJob) (found : Result CronJob) (w : World State)
      → tally k (with_cron_job P desired found w).1.trace ≡ tally k w.trace
  unfolding with_cron_job
  tally-with_cron_job desired (err e) w = grind (arith, count-append_one)
  tally-with_cron_job desired (ok existing) w = grind (arith, count-append_one)

  tally-reconcile_cron_job :
      (r : Reconciler P) (b : Backup) (name : String) (placement : Placement) (repo : Repository)
      (w : World State)
      → tally k (reconcile_cron_job P r b name placement repo w).1.trace ≡ tally k w.trace
  unfolding reconcile_cron_job
  tally-reconcile_cron_job r b name placement repo w = grind (arith, tally-with_cron_job)

  tally-after_cron_job :
      (b : Backup) (name : String) (placement : Placement) (answer : Result (Unit {0}))
      (w : World State)
      → tally k (after_cron_job P b name placement answer w).1.trace ≡ tally k w.trace
  unfolding after_cron_job final_status
  tally-after_cron_job b name placement (err e) w = grind (arith, count-append_one)
  tally-after_cron_job b name placement (ok _) w = ground arith

  pub tally-reconcile_backup_resources :
      (r : Reconciler P) (b : Backup) (repo : Repository) (w : World State)
      → tally k (reconcile_backup_resources P r b repo w).1.trace ≡ tally k w.trace
  unfolding reconcile_backup_resources find_pod_using_pvc
  tally-reconcile_backup_resources r b repo w =
      grind (arith, tally-after_cron_job, tally-reconcile_cron_job)
