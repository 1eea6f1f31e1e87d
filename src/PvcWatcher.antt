-- ===== src/PvcWatcher.antt =====
-- internal/controller/pvcwatcher/reconciler.go: PVCs with the repository label have a KopiaBackup.
pub mod Manual
pub mod Guards
pub mod Settled
pub mod Store
pub mod Synced
pub mod Frame
pub mod Table
pub mod Refines
use kopia_operator.Prelude.{
  String, ◌<>◌, Bool, true, false, Option, none, some, [], ◌||◌, ◌==◌, if◌then◌else◌,
}
use kopia_operator.Prelude.Lists.{lookup}
use kopia_operator.Prelude.Quote.{quote}
use kopia_operator.Error.{Error, wrap, is_not_found, is_already_exists}
use kopia_operator.Exec.{
  Result, ok, err, Exec, ◌>>=◌, ◌>>◌, pure, raise, wrapping, wrap_result, attempt,
}
use kopia_operator.Kube.Meta.{Key, ObjectMeta, new_meta}
use kopia_operator.Kube.Objects.{Pvc}
use kopia_operator.Api.Backup.{Backup, BackupSpec, BackupStatus, unset}
use kopia_operator.Api.Repository.{Repository}
use kopia_operator.Platform.{Platform}
use kopia_operator.World.{
  World, normal, create, update, update_status, delete, kopia_backup, call, write, record_event,
}
use kopia_operator.Controller.{CtrlResult, done, get_or_empty}
use kopia_operator.Lookup

abbrev pub repository_label_key : String
repository_label_key = "backup.cloudinfra.be/repository"

abbrev pub schedule_annotation_key : String
schedule_annotation_key = "backup.cloudinfra.be/schedule"

-- The annotation's value, or the default where it is missing or empty.
unfoldable pub get_schedule_from_pvc : Pvc → String → String
unfolding lookup
get_schedule_from_pvc pvc default_schedule =
    let schedule = get_or_empty schedule_annotation_key pvc.metadata.annotations in
    if schedule == "" then default_schedule else schedule

-- The spec of a KopiaBackup with the fields of the literal, and the zero values of the others.
abbrev pub new_spec : String → String → String → BackupSpec
new_spec pvc_name repository schedule = record {
  pvc_name = pvc_name;
  schedule = schedule;
  repository = repository;
  suspend = false;
  successful_jobs_history_limit = none;
  failed_jobs_history_limit = none;
  ttl_seconds_after_finished = none;
  active_deadline_seconds = none;
  backoff_limit = none;
  user_credentials_secret = "";
}

abbrev pub new_status : BackupStatus
new_status = record {
  conditions = [];
  auto_created = false;
  cron_job_name = "";
  node_name = "";
  server_url = "";
  username = "";
  connected = false;
  last_backup_status = unset;
  last_backup_time = none;
  last_successful_backup_time = none;
  backup_history = [];
}

abbrev pub mark_auto_created : Backup → Backup
mark_auto_created b = record b { status = record b.status { auto_created = true } }

abbrev pub key_of : ObjectMeta → Key
key_of m = record { name = m.name; namespace = m.namespace }

module _ (P : Platform) where
  open P use {State, pvcs, backups, is_controlled_by, set_controller_reference}

  unfoldable pub get_kopia_repository : String → String → Exec (World State) Repository
  unfolding Lookup.get_kopia_repository
  get_kopia_repository = Lookup.get_kopia_repository P

  -- existingBackup.Status.AutoCreated || metav1.IsControlledBy(&existingBackup, &pvc)
  abbrev pub is_auto_created : Backup → Pvc → Bool
  is_auto_created b pvc = b.status.auto_created || is_controlled_by b.metadata pvc.metadata

  unfoldable pub sync_with : Pvc → Backup → Result Repository → Exec (World State) CtrlResult
  sync_with pvc b (err _) = pure done
  sync_with pvc b (ok repo) =
      let schedule = get_schedule_from_pvc pvc repo.spec.default_schedule in
      if schedule == b.spec.schedule then pure done else do
        wrapping "failed to update schedule" (
            write update kopia_backup b.metadata
              (backups.update (record b { spec = record b.spec { schedule = schedule } })))
        pure done

  unfoldable pub sync_schedule : Pvc → Backup → String → Exec (World State) CtrlResult
  unfolding sync_with get_kopia_repository get_schedule_from_pvc
  sync_schedule pvc b repo_name = do
    repo ← attempt (get_kopia_repository repo_name pvc.metadata.namespace)
    sync_with pvc b repo

  -- The literal of createBackupForPVC, before the owner reference is set.
  unfoldable pub new_backup : Pvc → String → Repository → Backup
  unfolding get_schedule_from_pvc
  new_backup pvc repo_name repo = record {
    metadata = new_meta pvc.metadata.name pvc.metadata.namespace [];
    spec =
        new_spec pvc.metadata.name repo_name (get_schedule_from_pvc pvc repo.spec.default_schedule);
    status = new_status;
  }

  unfoldable pub created : Pvc → Result Backup → Exec (World State) CtrlResult
  created pvc (err e) =
      if is_already_exists e then pure done else raise (wrap "failed to create KopiaBackup" e)
  created pvc (ok b) = do
    b' ←
        wrapping "failed to update KopiaBackup status" (
          write update_status kopia_backup b.metadata (backups.update_status (mark_auto_created b)))
    record_event b'.metadata normal "Created"
        ("Auto-created KopiaBackup for PVC " <> pvc.metadata.name)
    pure done

  unfoldable pub create_with : Pvc → String → Result Repository → Exec (World State) CtrlResult
  unfolding created
  create_with pvc repo_name (err _) = pure done
  create_with pvc repo_name (ok repo) = do
    let b = new_backup pvc repo_name repo
    metadata ← (λ w. (
      wrap_result "failed to set owner reference"
          (set_controller_reference "PersistentVolumeClaim" pvc.metadata b.metadata),
      w,
    ))
    answer ←
        attempt
          (write create kopia_backup metadata (backups.create (record b { metadata = metadata })))
    created pvc answer

  unfoldable pub create_backup_for_pvc : Pvc → String → Exec (World State) CtrlResult
  unfolding create_with get_kopia_repository new_backup
  create_backup_for_pvc pvc repo_name = do
    repo ← attempt (get_kopia_repository repo_name pvc.metadata.namespace)
    create_with pvc repo_name repo

  unfoldable pub deleted : Pvc → Backup → Result (Unit {0}) → Exec (World State) CtrlResult
  deleted pvc b answer =
      let record_deletion : Exec (World State) CtrlResult = (do
        record_event pvc.metadata normal "BackupDeleted"
            ("Deleted auto-created KopiaBackup " <> (quote b.metadata.name <> " (label removed)"))
        pure done) in
      elim answer [
        | ok _ ↦ record_deletion
        | err e ↦
            if is_not_found e
            then record_deletion
            else raise (wrap "failed to delete KopiaBackup" e)
      ]

  unfoldable pub label_removed : Pvc → Option Backup → Exec (World State) CtrlResult
  unfolding deleted
  label_removed pvc none = pure done
  label_removed pvc (some b) =
      if is_auto_created b pvc
      then (do
        answer ← attempt (write delete kopia_backup b.metadata (backups.delete b))
        deleted pvc b answer)
      else pure done

  unfoldable pub ensure_auto_created : Backup → Exec (World State) Backup
  ensure_auto_created b =
      if b.status.auto_created
      then pure b
      else wrapping "failed to update KopiaBackup AutoCreated status" (
          write update_status kopia_backup b.metadata (backups.update_status (mark_auto_created b)))

  unfoldable pub label_present : Pvc → String → Option Backup → Exec (World State) CtrlResult
  unfolding ensure_auto_created
  label_present pvc repo_name none = create_backup_for_pvc pvc repo_name
  label_present pvc repo_name (some b) =
      if is_auto_created b pvc
      then (do b' ← ensure_auto_created b; sync_schedule pvc b' repo_name)
      else pure done

  unfoldable pub decide : Pvc → Option Backup → Exec (World State) CtrlResult
  decide pvc existing =
      let repo_name = get_or_empty repository_label_key pvc.metadata.labels in
      if repo_name == "" then label_removed pvc existing else label_present pvc repo_name existing

  unfoldable pub with_backup : Pvc → Result Backup → Exec (World State) CtrlResult
  with_backup pvc (ok b) = decide pvc (some b)
  with_backup pvc (err e) =
      if is_not_found e then decide pvc none else raise (wrap "failed to get KopiaBackup" e)

  unfoldable pub with_pvc : Result Pvc → Exec (World State) CtrlResult
  unfolding with_backup
  with_pvc (err e) = if is_not_found e then pure done else raise e
  with_pvc (ok pvc) = do
    existing ← attempt (call (backups.get (key_of pvc.metadata)))
    with_backup pvc existing

  unfoldable pub reconcile : Key → Exec (World State) CtrlResult
  unfolding with_pvc decide
  reconcile request = do pvc ← attempt (call (pvcs.get request)); with_pvc pvc
