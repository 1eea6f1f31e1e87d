-- ===== src/BackupController/Reconcile.antt =====
-- reconcile and Reconcile: the phases in their order, and the deferred status update.
use kopia_operator.Prelude.{not, ◌&&◌, Option, none, some, ◌==◌, if◌then◌else◌}
use kopia_operator.Error.{Error, wrap}
use kopia_operator.Exec.{Result, ok, err}
use kopia_operator.Kube.Meta.{Key}
use kopia_operator.Api.Backup.{Backup}
use kopia_operator.Api.Repository.{Repository, storage_type_filesystem}
use kopia_operator.Platform.{Platform}
use kopia_operator.World.{World, update_status, kopia_backup, reconcile_error, call, write, emit}
use kopia_operator.Controller.{
  done, Reconciled, Outcome, finish, fail, ignore_not_found, first_error,
}
use kopia_operator.BackupController.Setup.{Reconciler}
use kopia_operator.BackupController.Finalizer.{handle_finalizer}
use kopia_operator.BackupController.Dependencies.{validate_dependencies}
use kopia_operator.BackupController.Credentials.{Phase, go_on, stop, reconcile_server_credentials}
use kopia_operator.BackupController.Resources.{reconcile_config_map, reconcile_backup_resources}

module _ (P : Platform) where
  open P use {State, backups}

  unfoldable pub after_config_map :
      Reconciler P
      → Backup
      → Repository
      → Result (Unit {0})
      → World State
      → Outcome Backup × World State
  after_config_map r b repo (err e) w = fail b (wrap "failed to reconcile ConfigMap" e) w
  after_config_map r b repo (ok _) w = reconcile_backup_resources P r b repo w

  -- Phases 4 and 5.
  unfoldable pub phase_4 :
      Reconciler P → Backup → Repository → World State → Outcome Backup × World State
  unfolding after_config_map
  phase_4 r b repo w =
      if not repo.spec.server.enabled && repo.spec.storage_type == storage_type_filesystem
      then (let (answer, w') = reconcile_config_map P r b repo w in
          after_config_map r b repo answer w')
      else reconcile_backup_resources P r b repo w

  unfoldable pub after_credentials :
      Reconciler P → Repository → Phase → World State → Outcome Backup × World State
  unfolding phase_4
  after_credentials r repo (go_on b) w = phase_4 r b repo w
  after_credentials r repo (stop o) w = (o, w)

  -- Phase 3.
  unfoldable pub phase_3 :
      Reconciler P → Backup → Repository → World State → Outcome Backup × World State
  unfolding after_credentials phase_4
  phase_3 r b repo w =
      if repo.spec.server.enabled
      then (let (phase, w') = reconcile_server_credentials P r b repo w in
          after_credentials r repo phase w')
      else phase_4 r b repo w

  unfoldable pub after_validation :
      Reconciler P → Backup → Option Repository → World State → Outcome Backup × World State
  unfolding phase_3
  after_validation r b none w = finish b done w
  after_validation r b (some repo) w = phase_3 r b repo w

  -- What `reconcile` does between the finalizer and the deferred status update.
  unfoldable pub body : Reconciler P → Backup → World State → Outcome Backup × World State
  unfolding after_validation
  body r b w =
      let (checked, w') = validate_dependencies P b w in after_validation r checked.0 checked.1 w'

  unfoldable pub after_finalizer :
      Reconciler P → Result (Option Backup) → World State → Reconciled × World State
  unfolding body first_error
  after_finalizer r (err e) w = (record { result = done; error = some e }, w)
  after_finalizer r (ok none) w = (record { result = done; error = none }, w)
  after_finalizer r (ok (some b)) w =
      let (o, w') = body r b w in
      let (answer, w'') =
        write update_status kopia_backup o.object.metadata (backups.update_status o.object) w' in
      (record { result = o.result; error = first_error o.error answer }, w'')

  unfoldable pub after_get : Reconciler P → Result Backup → World State → Reconciled × World State
  unfolding after_finalizer handle_finalizer ignore_not_found
  after_get r (err e) w = (record { result = done; error = ignore_not_found e }, w)
  after_get r (ok b) w = let (answer, w') = handle_finalizer P r b w in after_finalizer r answer w'

  unfoldable pub reconcile_backup : Reconciler P → Key → World State → Reconciled × World State
  unfolding after_get
  reconcile_backup r request w = let (b, w') = call (backups.get request) w in after_get r b w'

  abbrev pub count_error : Option Error → World State → World State
  count_error none w = w
  count_error (some _) w = emit (reconcile_error "kopiabackup") w

  unfoldable pub reconcile : Reconciler P → Key → World State → Reconciled × World State
  unfolding reconcile_backup
  reconcile r request w =
      let (answer, w') = reconcile_backup r request w in (answer, count_error answer.error w')
