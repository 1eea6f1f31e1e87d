-- ===== src/BackupController/Cleanup.antt =====
-- The finalizer of a backup that is being deleted.
use kopia_operator.Prelude.{ℕ, ◌<>◌, ◌≡◌, true, false, some, ◌==◌}
use kopia_operator.Error.{Error, wrap, error_text}
use kopia_operator.Exec.{ok, err}
use kopia_operator.Api.Backup.{Backup}
use kopia_operator.Api.Repository.{Repository}
use kopia_operator.Platform.{Platform}
use kopia_operator.World.{World, emit, reconcile_error}
use kopia_operator.Controller.{done}
use kopia_operator.Kube.Meta.{Key}
use kopia_operator.Interfaces.{UserManager}
use kopia_operator.Lookup.{get_kopia_repository}
use kopia_operator.BackupController.Setup.{Reconciler, finalizer_name, warn}
use kopia_operator.BackupController.Finalizer.{
  after_delete_user, delete_from, cleanup_user, remove_with_cleanup, handle_finalizer,
}
use kopia_operator.BackupController.Reconcile.{
  reconcile_backup, after_finalizer, after_get, reconcile,
}

module _ (P : Platform) where
  open P use {State, backups, contains_finalizer}

  -- A deletion whose user could not be removed from the server: the backup that is read is being
  -- deleted, has the finalizer and a credentials secret, its repository is found in server mode, and
  -- DeleteUser fails. The reconcile then returns that error, and after DeleteUser it makes no call:
  -- neither the finalizer nor the metrics are removed, it emits a warning and counts the error.
  pub reconcile-keeps_finalizer :
      (r : Reconciler P) (m : UserManager (World State)) (request : Key) (b : Backup)
      (deleted_at : ℕ) (repo : Repository) (e : Error) (w w1 w2 : World State) (s : State)
      → backups.get request w.api ≡ (ok b, s)
      → b.metadata.deletion_timestamp ≡ some deleted_at
      → contains_finalizer b.metadata finalizer_name ≡ true
      → r.user_manager ≡ some m
      → (b.spec.user_credentials_secret == "") ≡ false
      → get_kopia_repository P b.spec.repository b.metadata.namespace (record w { api = s })
        ≡ (ok repo, w1)
      → repo.spec.server.enabled ≡ true
      → m.delete_user b repo w1 ≡ (err e, w2)
      → reconcile P r request w ≡ (
        record { result = done; error = some (wrap "finalizer cleanup failed, will retry" e) },
        emit
            (reconcile_error "kopiabackup")
            (warn P b "FinalizerFailed" ("Failed to delete server user: " <> error_text e) w2),
      )
  unfolding reconcile reconcile_backup after_get after_finalizer handle_finalizer
      remove_with_cleanup cleanup_user delete_from after_delete_user
  reconcile-keeps_finalizer r m request b deleted_at repo e w w1 w2 s got deleted has managed named
        found server failed =
      simp (
        got, deleted, has, managed, named, found, server, failed, reconcile, reconcile_backup,
        after_get, handle_finalizer, remove_with_cleanup, cleanup_user, delete_from,
      )
