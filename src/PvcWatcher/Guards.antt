-- ===== src/PvcWatcher/Guards.antt =====
-- What the PVC watcher sends to the cluster, by the label of the PVC.
use kopia_operator.Prelude.{
  ℕ, String, ◌≡◌, refl, List, if◌then◌else◌, inl, inr, Bool-cases, ◌∙◌, Option, none, some, arith,
  ◌==◌,
}
use kopia_operator.Error.{is_not_found}
use kopia_operator.Exec.{Result, ok, err}
use kopia_operator.Kube.Meta.{Key}
use kopia_operator.Kube.Objects.{Pvc}
use kopia_operator.Api.Backup.{Backup}
use kopia_operator.Api.Repository.{Repository}
use kopia_operator.Platform.{Platform}
use kopia_operator.World.{World, Effect}
use kopia_operator.World.Trace.{deletions, stores, count-append_one}
use kopia_operator.Controller.{get_or_empty}
use kopia_operator.Lookup.Reads.{trace-get_kopia_repository}
use kopia_operator.PvcWatcher.{
  repository_label_key, key_of, decide, label_removed, label_present, with_backup, with_pvc,
  reconcile, sync_with, sync_schedule, created, create_with, create_backup_for_pvc, deleted,
  get_kopia_repository,
}

-- What a reconcile must not send: without the label the stores, with it the deletions.
abbrev pub forbidden : Pvc → List Effect → ℕ
forbidden pvc es =
    if get_or_empty repository_label_key pvc.metadata.labels == "" then stores es else deletions es

module _ (P : Platform) where
  open P use {State, pvcs, backups}

  trace-search :
      (name namespace : String) (w : World State)
      → (get_kopia_repository P name namespace w).1.trace ≡ w.trace
  unfolding get_kopia_repository
  trace-search = trace-get_kopia_repository P

  deletions-sync_with :
      (pvc : Pvc) (b : Backup) (repo : Result Repository) (w : World State)
      → deletions (sync_with P pvc b repo w).1.trace ≡ deletions w.trace
  unfolding sync_with
  deletions-sync_with pvc b (err _) w = refl
  deletions-sync_with pvc b (ok repo) w = grind (arith, count-append_one)

  deletions-sync_schedule :
      (pvc : Pvc) (b : Backup) (name : String) (w : World State)
      → deletions (sync_schedule P pvc b name w).1.trace ≡ deletions w.trace
  unfolding sync_schedule
  deletions-sync_schedule pvc b name w =
      let (repo, w') = get_kopia_repository P name pvc.metadata.namespace w in
      deletions-sync_with pvc b repo w' ∙ rw trace-search

  deletions-created :
      (pvc : Pvc) (answer : Result Backup) (w : World State)
      → deletions (created P pvc answer w).1.trace ≡ deletions w.trace
  unfolding created
  deletions-created pvc (err e) w = ground arith
  deletions-created pvc (ok b) w = grind (arith, count-append_one)

  deletions-create_with :
      (pvc : Pvc) (name : String) (repo : Result Repository) (w : World State)
      → deletions (create_with P pvc name repo w).1.trace ≡ deletions w.trace
  unfolding create_with
  deletions-create_with pvc name (err _) w = refl
  deletions-create_with pvc name (ok repo) w = grind (arith, count-append_one, deletions-created)

  deletions-create_backup_for_pvc :
      (pvc : Pvc) (name : String) (w : World State)
      → deletions (create_backup_for_pvc P pvc name w).1.trace ≡ deletions w.trace
  unfolding create_backup_for_pvc
  deletions-create_backup_for_pvc pvc name w =
      let (repo, w') = get_kopia_repository P name pvc.metadata.namespace w in
      deletions-create_with pvc name repo w' ∙ rw trace-search

  deletions-label_present :
      (pvc : Pvc) (name : String) (existing : Option Backup) (w : World State)
      → deletions (label_present P pvc name existing w).1.trace ≡ deletions w.trace
  unfolding label_present
  deletions-label_present pvc name none w = deletions-create_backup_for_pvc pvc name w
  deletions-label_present pvc name (some b) w =
      grind (arith, count-append_one, deletions-sync_schedule)

  stores-label_removed :
      (pvc : Pvc) (existing : Option Backup) (w : World State)
      → stores (label_removed P pvc existing w).1.trace ≡ stores w.trace
  unfolding label_removed deleted
  stores-label_removed pvc none w = refl
  stores-label_removed pvc (some b) w = grind (arith, count-append_one)

  forbidden-decide :
      (pvc : Pvc) (existing : Option Backup) (w : World State)
      → forbidden pvc (decide P pvc existing w).1.trace ≡ forbidden pvc w.trace
  unfolding decide
  forbidden-decide pvc existing w =
      let label = get_or_empty repository_label_key pvc.metadata.labels in
      elim (Bool-cases (label == "")) [
        | inl e ↦ rw (e, decide) (stores-label_removed pvc existing w)
        | inr e ↦ rw (e, decide) (deletions-label_present pvc label existing w)
      ]

  forbidden-with_backup :
      (pvc : Pvc) (found : Result Backup) (w : World State)
      → forbidden pvc (with_backup P pvc found w).1.trace ≡ forbidden pvc w.trace
  unfolding with_backup
  forbidden-with_backup pvc (ok b) w = forbidden-decide pvc (some b) w
  forbidden-with_backup pvc (err e) w = elim (Bool-cases (is_not_found e)) [
    | inl p ↦ rw (p, with_backup) (forbidden-decide pvc none w)
    | inr p ↦ rw (p, with_backup)
  ]

  -- For a PVC that is read, whatever the API server answers to the other requests: while the
  -- repository label is there a reconcile sends no deletion, and without it no creation, update or
  -- patch.
  pub reconcile_sends :
      (request : Key) (pvc : Pvc) (w : World State) {s : State}
      → pvcs.get request w.api ≡ (ok pvc, s)
      → forbidden pvc (reconcile P request w).1.trace ≡ forbidden pvc w.trace
  unfolding reconcile
  reconcile_sends request pvc w {s} got =
      rw (got, with_pvc)
        (let (found, t) = backups.get (key_of pvc.metadata) s in
          forbidden-with_backup pvc found (record w { api = t }))
