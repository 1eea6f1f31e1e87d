-- ===== src/BackupController/Finalizer.antt =====
-- handleFinalizer. `ok none` and an error are its `done`; `ok (some b)` goes on with the object.
use kopia_operator.Prelude.{◌<>◌, Option, none, some, ◌==◌, if◌then◌else◌}
use kopia_operator.Error.{wrap, error_text}
use kopia_operator.Exec.{Result, ok, err, Exec, ◌>>=◌, ◌>>◌, pure, wrapping, attempt}
use kopia_operator.Api.Backup.{Backup}
use kopia_operator.Api.Repository.{Repository}
use kopia_operator.Platform.{Platform}
use kopia_operator.World.{World, update, kopia_backup, write, cleanup_backup_metrics}
use kopia_operator.Interfaces.{UserManager}
use kopia_operator.Lookup.{get_kopia_repository}
use kopia_operator.BackupController.Setup.{Reconciler, finalizer_name, warn}

module _ (P : Platform) where
  open P use {State, backups, contains_finalizer, add_finalizer, remove_finalizer}

  -- From the answer of DeleteUser.
  unfoldable pub after_delete_user : Backup → Result (Unit {0}) → Exec (World State) (Unit {0})
  after_delete_user b (ok _) w = (ok tt, w)
  after_delete_user b (err e) w = (
    err (wrap "finalizer cleanup failed, will retry" e),
    warn P b "FinalizerFailed" ("Failed to delete server user: " <> error_text e) w,
  )

  -- From the answer of getKopiaRepository: with no repository there is nothing to delete from.
  unfoldable pub delete_from :
      UserManager (World State) → Backup → Result Repository → Exec (World State) (Unit {0})
  unfolding after_delete_user
  delete_from m b (err _) = pure tt
  delete_from m b (ok repo) =
      if repo.spec.server.enabled
      then (do answer ← attempt (m.delete_user b repo); after_delete_user b answer)
      else pure tt

  unfoldable pub cleanup_user :
      Option (UserManager (World State)) → Backup → Exec (World State) (Unit {0})
  unfolding delete_from
  cleanup_user none b = pure tt
  cleanup_user (some m) b = if b.spec.user_credentials_secret == "" then pure tt else do
    repo ← attempt (get_kopia_repository P b.spec.repository b.metadata.namespace)
    delete_from m b repo

  unfoldable pub remove_with_cleanup :
      Option (UserManager (World State)) → Backup → Exec (World State) (Option Backup)
  unfolding cleanup_user cleanup_backup_metrics
  remove_with_cleanup users b = do
    cleanup_user users b
    λ w. (ok tt, cleanup_backup_metrics b.metadata.name b.metadata.namespace b.spec.pvc_name w)
    let b' : Backup = record b { metadata = remove_finalizer b.metadata finalizer_name }
    wrapping "failed to remove finalizer"
        (write update kopia_backup b'.metadata (backups.update b'))
    pure none

  unfoldable pub ensure_finalizer : Backup → Exec (World State) (Option Backup)
  ensure_finalizer b = if contains_finalizer b.metadata finalizer_name then pure (some b) else do
    let b' : Backup = record b { metadata = add_finalizer b.metadata finalizer_name }
    stored ←
        wrapping "failed to add finalizer"
          (write update kopia_backup b'.metadata (backups.update b'))
    pure (some stored)

  unfoldable pub handle_finalizer : Reconciler P → Backup → Exec (World State) (Option Backup)
  unfolding remove_with_cleanup ensure_finalizer
  handle_finalizer r b = elim b.metadata.deletion_timestamp [
    | none ↦ ensure_finalizer b
    | some _ ↦
        if contains_finalizer b.metadata finalizer_name
        then remove_with_cleanup r.user_manager b
        else pure none
  ]
