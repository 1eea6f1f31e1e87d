-- ===== src/PvcWatcher/Settled.antt =====
-- A PVC whose backup is as it should be.
use kopia_operator.Prelude.{String, ◌≡◌, false, true, some, ◌==◌, eq_refl}
use kopia_operator.Exec.{ok}
use kopia_operator.Kube.Meta.{Key}
use kopia_operator.Kube.Objects.{Pvc}
use kopia_operator.Api.Backup.{Backup}
use kopia_operator.Api.Repository.{Repository}
use kopia_operator.Platform.{Platform}
use kopia_operator.World.{World}
use kopia_operator.Controller.{done, get_or_empty}
use kopia_operator.PvcWatcher.{
  repository_label_key, key_of, get_schedule_from_pvc, get_kopia_repository, sync_with,
  sync_schedule, ensure_auto_created, label_present, decide, with_backup, with_pvc, reconcile,
}

module _ (P : Platform) where
  open P use {State, pvcs, backups}

  sync_schedule_settled :
      (pvc : Pvc) (b : Backup) (name : String) (repo : Repository) (w w' : World State)
      → get_kopia_repository P name pvc.metadata.namespace w ≡ (ok repo, w')
      → b.spec.schedule ≡ get_schedule_from_pvc pvc repo.spec.default_schedule
      → sync_schedule P pvc b name w ≡ (ok done, w')
  unfolding sync_schedule sync_with
  sync_schedule_settled pvc b name repo w w' lookup same = simp (lookup, same, eq_refl)

  decide_settled :
      (pvc : Pvc) (b : Backup) (repo : Repository) (w w' : World State)
      → (get_or_empty repository_label_key pvc.metadata.labels == "") ≡ false
      → b.status.auto_created ≡ true
      → get_kopia_repository P
          (get_or_empty repository_label_key pvc.metadata.labels)
          pvc.metadata.namespace
          w
        ≡ (ok repo, w')
      → b.spec.schedule ≡ get_schedule_from_pvc pvc repo.spec.default_schedule
      → decide P pvc (some b) w ≡ (ok done, w')
  unfolding decide label_present ensure_auto_created
  decide_settled pvc b repo w w' labelled auto lookup same =
      simp (labelled, auto, decide, label_present, ensure_auto_created)
        (sync_schedule_settled pvc b _ repo w w' lookup same)

  -- For a PVC with the repository label whose backup is marked as auto-created, and a repository that
  -- the search finds: when the backup has the schedule of the PVC's annotation, or the repository's
  -- default without one, a reconcile succeeds and does nothing after that search.
  pub reconcile_settled :
      (request : Key) (pvc : Pvc) (b : Backup) (repo : Repository) (w w' : World State)
      (s t : State)
      → pvcs.get request w.api ≡ (ok pvc, s)
      → backups.get (key_of pvc.metadata) s ≡ (ok b, t)
      → (get_or_empty repository_label_key pvc.metadata.labels == "") ≡ false
      → b.status.auto_created ≡ true
      → get_kopia_repository P
          (get_or_empty repository_label_key pvc.metadata.labels)
          pvc.metadata.namespace
          (record w { api = t })
        ≡ (ok repo, w')
      → b.spec.schedule ≡ get_schedule_from_pvc pvc repo.spec.default_schedule
      → reconcile P request w ≡ (ok done, w')
  unfolding reconcile
  reconcile_settled request pvc b repo w w' s t got found labelled auto lookup same =
      rw (got, with_pvc, found, with_backup)
        (decide_settled pvc b repo (record w { api = t }) w' labelled auto lookup same)
