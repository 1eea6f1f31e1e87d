-- ===== src/Sends/Watcher.antt =====
-- What the PVC watcher sends.
use kopia_operator.Prelude.{String, ◌≡◌, refl, arith, Option, none, some}
use kopia_operator.Exec.{Result, ok, err}
use kopia_operator.Kube.Meta.{Key}
use kopia_operator.Kube.Objects.{Pvc}
use kopia_operator.Api.Backup.{Backup}
use kopia_operator.Api.Repository.{Repository}
use kopia_operator.Platform.{Platform}
use kopia_operator.World.{World}
use kopia_operator.World.Trace.{count-append_one}
use kopia_operator.Lookup.Reads.{trace-get_kopia_repository}
use kopia_operator.PvcWatcher.{
  get_kopia_repository, sync_with, sync_schedule, created, create_with, create_backup_for_pvc,
  deleted, label_removed, label_present, decide, with_backup, with_pvc, reconcile,
}
use kopia_operator.Sends.{unexpected}

module _ (P : Platform) where
  open P use {State}

  trace-search :
      (name namespace : String) (w : World State)
      → (get_kopia_repository P name namespace w).1.trace ≡ w.trace
  unfolding get_kopia_repository
  trace-search = trace-get_kopia_repository P

  unexpected-sync_with :
      (pvc : Pvc) (b : Backup) (found : Result Repository) (w : World State)
      → unexpected (sync_with P pvc b found w).1.trace ≡ unexpected w.trace
  unfolding sync_with
  unexpected-sync_with pvc b (ok repo) w = grind (arith, count-append_one)
  unexpected-sync_with pvc b (err e) w = refl

  unexpected-sync_schedule :
      (pvc : Pvc) (b : Backup) (name : String) (w : World State)
      → unexpected (sync_schedule P pvc b name w).1.trace ≡ unexpected w.trace
  unfolding sync_schedule
  unexpected-sync_schedule pvc b name w = grind (arith, unexpected-sync_with, trace-search)

  unexpected-created :
      (pvc : Pvc) (answer : Result Backup) (w : World State)
      → unexpected (created P pvc answer w).1.trace ≡ unexpected w.trace
  unfolding created
  unexpected-created pvc (err e) w = ground arith
  unexpected-created pvc (ok b) w = grind (arith, count-append_one)

  unexpected-create_with :
      (pvc : Pvc) (name : String) (found : Result Repository) (w : World State)
      → unexpected (create_with P pvc name found w).1.trace ≡ unexpected w.trace
  unfolding create_with
  unexpected-create_with pvc name (ok repo) w = grind (arith, count-append_one, unexpected-created)
  unexpected-create_with pvc name (err e) w = refl

  unexpected-create_backup_for_pvc :
      (pvc : Pvc) (name : String) (w : World State)
      → unexpected (create_backup_for_pvc P pvc name w).1.trace ≡ unexpected w.trace
  unfolding create_backup_for_pvc
  unexpected-create_backup_for_pvc pvc name w = grind (arith, unexpected-create_with, trace-search)

  unexpected-label_removed :
      (pvc : Pvc) (existing : Option Backup) (w : World State)
      → unexpected (label_removed P pvc existing w).1.trace ≡ unexpected w.trace
  unfolding label_removed deleted
  unexpected-label_removed pvc none w = refl
  unexpected-label_removed pvc (some b) w = grind (arith, count-append_one)

  unexpected-label_present :
      (pvc : Pvc) (name : String) (existing : Option Backup) (w : World State)
      → unexpected (label_present P pvc name existing w).1.trace ≡ unexpected w.trace
  unfolding label_present
  unexpected-label_present pvc name none w = unexpected-create_backup_for_pvc pvc name w
  unexpected-label_present pvc name (some b) w =
      grind (arith, count-append_one, unexpected-sync_schedule)

  unexpected-decide :
      (pvc : Pvc) (existing : Option Backup) (w : World State)
      → unexpected (decide P pvc existing w).1.trace ≡ unexpected w.trace
  unfolding decide
  unexpected-decide pvc existing w =
      grind (arith, unexpected-label_removed, unexpected-label_present)

  unexpected-with_backup :
      (pvc : Pvc) (found : Result Backup) (w : World State)
      → unexpected (with_backup P pvc found w).1.trace ≡ unexpected w.trace
  unfolding with_backup
  unexpected-with_backup pvc (ok b) w = unexpected-decide pvc (some b) w
  unexpected-with_backup pvc (err e) w = grind (arith, unexpected-decide)

  unexpected-with_pvc :
      (found : Result Pvc) (w : World State)
      → unexpected (with_pvc P found w).1.trace ≡ unexpected w.trace
  unfolding with_pvc
  unexpected-with_pvc (ok pvc) w = grind (arith, unexpected-with_backup)
  unexpected-with_pvc (err e) w = ground arith

  pub unexpected-reconcile :
      (request : Key) (w : World State)
      → unexpected (reconcile P request w).1.trace ≡ unexpected w.trace
  unfolding reconcile
  unexpected-reconcile request w = grind (arith, unexpected-with_pvc)
