-- ===== src/BackupController/Deletion.antt =====
-- The end of a backup in server mode: reconciles that fail to delete the user, and one that does.
use kopia_operator.Prelude.{ℕ, ◌≡◌, Bool, true, false, Option, none, some, ◌==◌}
use kopia_operator.Error.{Error}
use kopia_operator.Exec.{ok, err}
use kopia_operator.Kube.Meta.{Key}
use kopia_operator.Api.Backup.{Backup}
use kopia_operator.Api.Repository.{Repository}
use kopia_operator.Platform.{Platform}
use kopia_operator.World.{World, emit, api_write, update, kopia_backup, cleanup_backup_metrics}
use kopia_operator.Controller.{done}
use kopia_operator.Interfaces.{UserManager}
use kopia_operator.Lookup.{get_kopia_repository}
use kopia_operator.BackupController.Setup.{Reconciler, finalizer_name}
use kopia_operator.BackupController.Finalizer.{
  after_delete_user, delete_from, cleanup_user, remove_with_cleanup, handle_finalizer,
}
use kopia_operator.BackupController.Reconcile.{
  reconcile_backup, after_finalizer, after_get, reconcile,
}
use kopia_operator.BackupController.Cleanup.{reconcile-keeps_finalizer}

abbrev pub is_error : Option Error → Bool
is_error none = false
is_error (some _) = true

module _ (P : Platform) (r : Reconciler P) (m : UserManager (World P.State)) (request : Key)
    (b : Backup) (repo : Repository) where
  open P use {State, backups, contains_finalizer, remove_finalizer}

  -- The backup that is being deleted, in server mode, with a user.
  pub record IsDeleting : Type 0 where
    pub deleted_at : ℕ
    pub deleting : b.metadata.deletion_timestamp ≡ some deleted_at
    pub has_finalizer : contains_finalizer b.metadata finalizer_name ≡ true
    pub has_manager : r.user_manager ≡ some m
    pub has_user : (b.spec.user_credentials_secret == "") ≡ false
    pub in_server_mode : repo.spec.server.enabled ≡ true

  -- The reads of a reconcile: the backup, and its repository.
  pub record Reads (w w' : World State) : Type 0 where
    pub state : State
    pub backup : backups.get request w.api ≡ (ok b, state)
    pub repository :
        get_kopia_repository P b.spec.repository b.metadata.namespace (record w { api = state })
        ≡ (ok repo, w')

  abbrev pub without_finalizer : Backup
  without_finalizer = record b { metadata = remove_finalizer b.metadata finalizer_name }

  -- The world after the user was deleted: the metric is removed, then the finalizer.
  abbrev pub finalized : World State → State → World State
  finalized w s =
      record (emit
        (api_write update kopia_backup without_finalizer.metadata.name
          without_finalizer.metadata.namespace)
        (cleanup_backup_metrics b.metadata.name b.metadata.namespace b.spec.pvc_name w)) { api = s }

  -- DeleteUser fails some number of times, between which other clients may act, and then succeeds.
  pub data Attempts : World State → Type 0 where
    fails :
        {w : World State} (e : Error) (w' w'' next : World State)
        → Reads w w'
        → m.delete_user b repo w' ≡ (err e, w'')
        → Attempts next
        → Attempts w
    succeeds :
        {w : World State} (w' w'' : World State) (stored : Backup) (s : State)
        → Reads w w'
        → m.delete_user b repo w' ≡ (ok tt, w'')
        → backups.update without_finalizer w''.api ≡ (ok stored, s)
        → Attempts w

  -- Every attempt that fails returns an error, so that it is made again; the last one removes the
  -- finalizer.
  unfoldable pub Ends : {w : World State} → Attempts w → Type 0
  Ends {w} (fails e w' w'' next reads failed rest) =
      (is_error (reconcile P r request w).0.error ≡ true) × Ends rest
  Ends {w} (succeeds w' w'' stored s reads deleted updated) =
      reconcile P r request w ≡ (record { result = done; error = none }, finalized w'' s)

  module _ (deleting : IsDeleting) where
    reconcile-removes_finalizer :
        (w w' w'' : World State) (stored : Backup) (s : State)
        → Reads w w'
        → m.delete_user b repo w' ≡ (ok tt, w'')
        → backups.update without_finalizer w''.api ≡ (ok stored, s)
        → reconcile P r request w ≡ (record { result = done; error = none }, finalized w'' s)
    unfolding reconcile reconcile_backup after_get after_finalizer handle_finalizer
        remove_with_cleanup cleanup_user delete_from after_delete_user cleanup_backup_metrics
    reconcile-removes_finalizer w w' w'' stored s reads deleted updated = simp (
      reads.backup, deleting.deleting, deleting.has_finalizer, deleting.has_manager,
      deleting.has_user, reads.repository, deleting.in_server_mode, deleted, updated, reconcile,
      reconcile_backup, after_get, handle_finalizer, remove_with_cleanup, cleanup_user, delete_from,
      after_delete_user, after_finalizer,
    )

    reconcile-retries :
        (e : Error) (w w' w'' : World State)
        → Reads w w'
        → m.delete_user b repo w' ≡ (err e, w'')
        → is_error (reconcile P r request w).0.error ≡ true
    reconcile-retries e w w' w'' reads failed = rw (
        reconcile-keeps_finalizer P r m request b deleting.deleted_at repo e w w' w'' reads.state
          reads.backup deleting.deleting deleting.has_finalizer deleting.has_manager
          deleting.has_user reads.repository deleting.in_server_mode failed)

    -- However often DeleteUser fails before it succeeds, and whatever other clients do in between, as
    -- long as the backup and its repository are read as they are: every failed reconcile returns an
    -- error, so that it is tried again, and the one that succeeds removes the finalizer, after the
    -- user and the metric, and returns no error, when that update is accepted.
    pub reconcile-finalizes : {w : World State} (attempts : Attempts w) → Ends attempts
    unfolding Ends
    reconcile-finalizes {w} (fails e w' w'' next reads failed rest) =
        (reconcile-retries e w w' w'' reads failed, reconcile-finalizes rest)
    reconcile-finalizes {w} (succeeds w' w'' stored s reads deleted updated) =
        reconcile-removes_finalizer w w' w'' stored s reads deleted updated
