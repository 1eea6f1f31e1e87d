-- ===== src/PvcWatcher/Table.antt =====
-- A whole reconcile of the PVC watcher, on the table of backups.
use kopia_operator.Prelude.{◌≡◌, ◌≢◌, refl, none, some, Option, arith, inl, inr, Bool-cases}
use kopia_operator.Error.{is_not_found}
use kopia_operator.Exec.{Result, ok, err}
use kopia_operator.Kube.Meta.{Key}
use kopia_operator.Kube.Objects.{Pvc}
use kopia_operator.Api.Backup.{Backup}
use kopia_operator.Platform.{Platform}
use kopia_operator.World.{World}
use kopia_operator.Controller.{CtrlResult, get_or_empty}
use kopia_operator.PvcWatcher.{
  get_kopia_repository, repository_label_key, key_of, decide, with_backup, with_pvc, reconcile,
}
use kopia_operator.PvcWatcher.Store.{IsBackupStore, IsRead, read_of, Meets}
use kopia_operator.PvcWatcher.Refines.{decide-Meets}
use kopia_operator.PvcWatcher.Frame.{others-decide}

module _ (P : Platform) (store : IsBackupStore P) where
  open P use {State, pvcs, backups}
  open store use {stored, pvc_read, backup_read, get_ok}

  -- The entry of the PVC meets the specification, and the others stay.
  abbrev Refined : Pvc → Option Backup → World State → World State → Type 0
  Refined pvc read w w' =
      Meets P pvc
        (get_kopia_repository P (get_or_empty repository_label_key pvc.metadata.labels)
          pvc.metadata.namespace w).0
        read (stored w.api (key_of pvc.metadata)) (stored w'.api (key_of pvc.metadata))
      × ((j : Key) → j ≢ key_of pvc.metadata → stored w'.api j ≡ stored w.api j)

  decide_refines :
      (pvc : Pvc) (existing : Option Backup) (w : World State) (r : CtrlResult)
      → IsRead (key_of pvc.metadata) existing (stored w.api (key_of pvc.metadata))
      → (decide P pvc existing w).0 ≡ ok r
      → Refined pvc existing w (decide P pvc existing w).1
  decide_refines pvc existing w r read returns = (
    decide-Meets P store pvc existing w r read returns,
    λ j ne. others-decide P store j pvc existing w read ne,
  )

  with_backup_refines :
      (pvc : Pvc) (found : Result Backup) (w : World State) (r : CtrlResult)
      → (backups.get (key_of pvc.metadata) w.api).0 ≡ found
      → (with_backup P pvc found w).0 ≡ ok r
      → Refined pvc (read_of found) w (with_backup P pvc found w).1
  unfolding with_backup
  with_backup_refines pvc (ok b) w r got =
      decide_refines pvc (some b) w r (get_ok (key_of pvc.metadata) w.api b got)
  with_backup_refines pvc (err e) w r got = elim (Bool-cases (is_not_found e)) [
    | inl gone ↦ rw (gone, with_backup) (decide_refines pvc none w r tt)
    | inr other ↦ λ returns. absurd (ground arith)
  ]

  -- A reconcile that reads the PVC and ends with no error leaves the table of backups as specified.
  -- Without the label, a backup that was read and that the watcher created is gone or about to go. With
  -- it, and the repository that it names found, a backup that was read and that the watcher created is
  -- marked as auto-created and has the schedule of the PVC and the repository; if none was read there
  -- is a marked one with the spec made from them, unless the read had missed an entry, which stays. A
  -- backup of somebody else stays as it is, and so does every other entry. Specs are compared up to the
  -- defaults of the custom resource. The API server behaves as IsBackupStore says.
  pub reconcile_refines :
      (request : Key) (pvc : Pvc) (w : World State) (r : CtrlResult)
      → (pvcs.get request w.api).0 ≡ ok pvc
      → (reconcile P request w).0 ≡ ok r
      → Meets P pvc
          (get_kopia_repository P
            (get_or_empty repository_label_key pvc.metadata.labels)
            pvc.metadata.namespace
            w).0
          (read_of (backups.get (key_of pvc.metadata) w.api).0)
          (stored w.api (key_of pvc.metadata))
          (stored (reconcile P request w).1.api (key_of pvc.metadata))
        × ((j : Key)
            → j ≢ key_of pvc.metadata
            → stored (reconcile P request w).1.api j ≡ stored w.api j)
  unfolding reconcile
  reconcile_refines request pvc w r got =
      rw (got, with_pvc, pvc_read request w.api, backup_read (key_of pvc.metadata) w.api)
        (with_backup_refines pvc (backups.get (key_of pvc.metadata) w.api).0 w r refl)
