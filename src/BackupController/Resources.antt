-- ===== src/BackupController/Resources.antt =====
-- reconcileConfigMap, reconcileCronJob and reconcileBackupResources.
use kopia_operator.Prelude.{String, ◌<>◌, ◌==◌, if◌then◌else◌}
use kopia_operator.Prelude.Quote.{quote}
use kopia_operator.Error.{wrap, is_not_found, error_text}
use kopia_operator.Exec.{Result, ok, err, Exec, ◌>>=◌, ◌>>◌, pure, raise, wrap_result, attempt}
use kopia_operator.Kube.Meta.{condition_true, condition_false}
use kopia_operator.Kube.Jobs.{CronJob, CronJobSpec}
use kopia_operator.Kube.Objects.{ConfigMap}
use kopia_operator.Api.Backup.{
  Backup, condition_type_ready, condition_type_cron_job_created, reason_reconciled,
  reason_no_pod_found, reason_cron_job_failed, reason_suspended,
}
use kopia_operator.Api.Repository.{Repository}
use kopia_operator.Platform.{Platform}
use kopia_operator.World.{World, create, update, config_map, cron_job, call, write}
use kopia_operator.Controller.{CtrlResult, done, Outcome, finish, fail, get_or_empty}
use kopia_operator.Naming
use kopia_operator.Builder.Job.{Placement, build_cron_job}
use kopia_operator.Builder.Config.{build_config_map}
use kopia_operator.BackupController.Setup.{Reconciler, kopia_image, set_condition, warn}
use kopia_operator.BackupController.Placement.{find_pod_using_pvc}

-- The assignments to existing.Spec: all fields that the operator sets, and no other.
unfoldable pub merge_spec : CronJobSpec → CronJobSpec → CronJobSpec
merge_spec existing desired = record existing {
  schedule = desired.schedule;
  suspend = desired.suspend;
  concurrency_policy = desired.concurrency_policy;
  successful_jobs_history_limit = desired.successful_jobs_history_limit;
  failed_jobs_history_limit = desired.failed_jobs_history_limit;
  job_spec = record existing.job_spec {
    ttl_seconds_after_finished = desired.job_spec.ttl_seconds_after_finished;
    active_deadline_seconds = desired.job_spec.active_deadline_seconds;
    backoff_limit = desired.job_spec.backoff_limit;
    template_labels = desired.job_spec.template_labels;
    template_spec = desired.job_spec.template_spec;
    suspend = desired.job_spec.suspend;
  };
}

-- noPodRequeueDelay, in seconds
abbrev pub no_pod_requeue_delay : CtrlResult
no_pod_requeue_delay = record { requeue_after = 600 }

module _ (P : Platform) where
  open P use {State, config_maps, cron_jobs, set_controller_reference, cron_job_spec_equal}

  unfoldable pub with_config_map : ConfigMap → Result ConfigMap → Exec (World State) (Unit {0})
  with_config_map desired (err e) =
      if is_not_found e
      then (do write create config_map desired.metadata (config_maps.create desired); pure tt)
      else raise (wrap "failed to get ConfigMap" e)
  with_config_map desired (ok existing) =
      if get_or_empty "repository.config" existing.contents
        == get_or_empty "repository.config" desired.contents
      then pure tt
      else do
        write update config_map existing.metadata
            (config_maps.update (record existing { contents = desired.contents }))
        pure tt

  unfoldable pub reconcile_config_map :
      Reconciler P → Backup → Repository → Exec (World State) (Unit {0})
  unfolding with_config_map
  reconcile_config_map r b repo = do
    built ← (λ w. (wrap_result "failed to build ConfigMap" (build_config_map r.marshal b repo), w))
    metadata ← (λ w. (
      wrap_result "failed to set owner reference on ConfigMap"
          (set_controller_reference "KopiaBackup" b.metadata built.metadata),
      w,
    ))
    existing ← attempt (
        call (
          config_maps.get (record {
            name = Naming.config_map_name repo.metadata.name;
            namespace = b.metadata.namespace;
          })))
    with_config_map (record built { metadata = metadata }) existing

  unfoldable pub with_cron_job : CronJob → Result CronJob → Exec (World State) (Unit {0})
  with_cron_job desired (err e) =
      if is_not_found e
      then (do write create cron_job desired.metadata (cron_jobs.create desired); pure tt)
      else raise (wrap "failed to get CronJob" e)
  with_cron_job desired (ok existing) =
      if cron_job_spec_equal existing.spec (merge_spec existing.spec desired.spec)
      then pure tt
      else do
        write update cron_job existing.metadata
            (cron_jobs.update (record existing { spec = merge_spec existing.spec desired.spec }))
        pure tt

  unfoldable pub reconcile_cron_job :
      Reconciler P → Backup → String → Placement → Repository → Exec (World State) (Unit {0})
  unfolding with_cron_job kopia_image
  reconcile_cron_job r b name placement repo = do
    let desired = build_cron_job b name placement repo (kopia_image P r)
    metadata ← (λ w. (
      wrap_result "failed to set owner reference on CronJob"
          (set_controller_reference "KopiaBackup" b.metadata desired.metadata),
      w,
    ))
    existing ←
        attempt (call (cron_jobs.get (record { name = name; namespace = b.metadata.namespace })))
    with_cron_job (record desired { metadata = metadata }) existing

  -- From a CronJob that is up to date to the final status.
  unfoldable pub final_status : Backup → Placement → World State → Outcome Backup × World State
  final_status b placement =
      if placement.node_name == ""
      then finish
          (set_condition P b condition_type_ready condition_false reason_no_pod_found
            "No running pod found with the PVC mounted")
          no_pod_requeue_delay
      else if b.spec.suspend
      then finish
          (set_condition P b condition_type_ready condition_false reason_suspended
            "Backup is suspended")
          done
      else finish
          (set_condition P b condition_type_ready condition_true reason_reconciled (
            "Backup active on node "
            <> (placement.node_name <> (" (pod " <> (placement.pod_name <> ")")))))
          done

  unfoldable pub after_cron_job :
      Backup → String → Placement → Result (Unit {0}) → World State → Outcome Backup × World State
  unfolding final_status
  after_cron_job b name placement (err e) w =
      fail
        (set_condition P b condition_type_cron_job_created condition_false reason_cron_job_failed
          (error_text e))
        e (warn P b "CronJobFailed" (error_text e) w)
  after_cron_job b name placement (ok _) w =
      final_status
        (set_condition P b condition_type_cron_job_created condition_true reason_reconciled
          ("CronJob " <> (quote name <> " is up to date")))
        placement w

  abbrev pub placed : Backup → Placement → Backup
  placed b placement = record b {
    status = record b.status {
      node_name = placement.node_name;
      cron_job_name = Naming.cron_job_name b.spec.pvc_name;
    };
  }

  unfoldable pub reconcile_backup_resources :
      Reconciler P → Backup → Repository → World State → Outcome Backup × World State
  unfolding after_cron_job
  reconcile_backup_resources r b repo w =
      let (placement, w') = find_pod_using_pvc P b w in
      let name = Naming.cron_job_name b.spec.pvc_name in
      let b' = placed b placement in
      let (answer, w'') = reconcile_cron_job r b' name placement repo w' in
      after_cron_job b' name placement answer w''
