-- ===== src/PvcWatcher/Manual.antt =====
-- Which objects the watcher leaves alone.
use kopia_operator.Prelude.{◌≡◌, false, some, arith}
use kopia_operator.Exec.{ok}
use kopia_operator.Kube.Meta.{Key}
use kopia_operator.Kube.Objects.{Pvc}
use kopia_operator.Api.Backup.{Backup}
use kopia_operator.Platform.{Platform}
use kopia_operator.World.{World}
use kopia_operator.Controller.{done}
use kopia_operator.PvcWatcher.{
  key_of, is_auto_created, decide, label_removed, label_present, with_backup, with_pvc, reconcile,
}

module _ (P : Platform) where
  open P use {State, pvcs, backups}

  decide_manual :
      (pvc : Pvc) (b : Backup) (w : World State)
      → is_auto_created P b pvc ≡ false
      → decide P pvc (some b) w ≡ (ok done, w)
  unfolding decide label_removed label_present
  decide_manual pvc b w manual = ground arith

  -- A backup that the watcher did not create and that the PVC does not control is left alone,
  -- whatever the PVC's label says: two reads are all that happens.
  pub reconcile_manual :
      (request : Key) (pvc : Pvc) (b : Backup) (w : World State) {s t : State}
      → pvcs.get request w.api ≡ (ok pvc, s)
      → backups.get (key_of pvc.metadata) s ≡ (ok b, t)
      → is_auto_created P b pvc ≡ false
      → reconcile P request w ≡ (ok done, record w { api = t })
  unfolding reconcile
  reconcile_manual request pvc b w got found manual =
      rw (got, with_pvc, found, with_backup) (decide_manual pvc b _ manual)
