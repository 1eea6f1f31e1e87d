-- ===== src/BackupController/FinalizerFirst.antt =====
-- A backup that has no finalizer yet.
use kopia_operator.Prelude.{◌≡◌, false, none, some}
use kopia_operator.Error.{Error, wrap}
use kopia_operator.Exec.{ok, err}
use kopia_operator.Kube.Meta.{Key}
use kopia_operator.Api.Backup.{Backup}
use kopia_operator.Platform.{Platform}
use kopia_operator.World.{World, emit, api_write, update, kopia_backup, reconcile_error}
use kopia_operator.Controller.{done}
use kopia_operator.BackupController.Setup.{Reconciler, finalizer_name}
use kopia_operator.BackupController.Finalizer.{ensure_finalizer, handle_finalizer}
use kopia_operator.BackupController.Reconcile.{
  reconcile_backup, after_finalizer, after_get, reconcile,
}

module _ (P : Platform) where
  open P use {State, backups, contains_finalizer, add_finalizer}

  -- Nothing is created before the finalizer is stored: for a backup that is not being deleted and has
  -- no finalizer, a reconcile whose update fails sends that update alone, makes no other call, counts
  -- the error and returns it.
  pub reconcile-finalizer_first :
      (r : Reconciler P) (request : Key) (b : Backup) (e : Error) (w : World State) (s s' : State)
      → backups.get request w.api ≡ (ok b, s)
      → b.metadata.deletion_timestamp ≡ none
      → contains_finalizer b.metadata finalizer_name ≡ false
      → backups.update (record b { metadata = add_finalizer b.metadata finalizer_name }) s
        ≡ (err e, s')
      → (let named = add_finalizer b.metadata finalizer_name in
          reconcile P r request w ≡ (
            record { result = done; error = some (wrap "failed to add finalizer" e) },
            record {
              api = s';
              trace =
                  (emit
                    (reconcile_error "kopiabackup")
                    (emit (api_write update kopia_backup named.name named.namespace) w)).trace;
            },
          ))
  unfolding reconcile reconcile_backup after_get after_finalizer handle_finalizer ensure_finalizer
  reconcile-finalizer_first r request b e w s s' got alive missing fails = simp (
    got, alive, missing, fails, reconcile, reconcile_backup, after_get, handle_finalizer,
    ensure_finalizer,
  )
