-- ===== src/PvcWatcher/Frame.antt =====
-- The entries of the table that belong to other PVCs.
use kopia_operator.Prelude.{
  String, ◌≡◌, ◌≢◌, refl, sym, subst, ◌∙◌, Option, none, some, arith, inl, inr, Bool-cases,
}
use kopia_operator.Exec.{Result-cases, Result, ok, err}
use kopia_operator.Kube.Meta.{Key}
use kopia_operator.Kube.Objects.{Pvc}
use kopia_operator.Api.Backup.{Backup}
use kopia_operator.Api.Repository.{Repository}
use kopia_operator.Platform.{Platform}
use kopia_operator.World.{World}
use kopia_operator.PvcWatcher.{
  key_of, sync_with, sync_schedule, new_backup, created, create_with, create_backup_for_pvc,
  deleted, is_auto_created, label_removed, ensure_auto_created, label_present, decide,
  mark_auto_created,
}
use kopia_operator.PvcWatcher.Store.{IsBackupStore, IsRead}
use kopia_operator.PvcWatcher.Synced.{
  api-search, marked_world, label_present_marked, label_present_unmarked,
}
use kopia_operator.PvcWatcher.Refines.{sent, sent_world, create_with_owned}

module _ (P : Platform) (store : IsBackupStore P) (j : Key) where
  open P use {State, pvcs, backups, set_controller_reference}
  open store use {
    stored, create_ok, update_status_ok, create_others, update_others, update_status_others,
    delete_others, owned_key,
  }

  others-sync_with :
      (pvc : Pvc) (b : Backup) (found : Result Repository) (w : World State)
      → j ≢ key_of b.metadata
      → stored (sync_with P pvc b found w).1.api j ≡ stored w.api j
  unfolding sync_with
  others-sync_with pvc b (err e) w ne = refl
  others-sync_with pvc b (ok repo) w ne = grind (arith, update_others)

  others-sync_schedule :
      (pvc : Pvc) (b : Backup) (name : String) (w : World State)
      → j ≢ key_of b.metadata
      → stored (sync_schedule P pvc b name w).1.api j ≡ stored w.api j
  unfolding sync_schedule
  others-sync_schedule pvc b name w ne = grind (arith, others-sync_with, api-search P store)

  others-created :
      (pvc : Pvc) (answer : Result Backup) (w : World State)
      → ((b : Backup) → answer ≡ ok b → j ≢ key_of b.metadata)
      → stored (created P pvc answer w).1.api j ≡ stored w.api j
  unfolding created
  others-created pvc (err e) w ne = ground arith
  others-created pvc (ok b) w ne =
      let other : j ≢ key_of b.metadata = ne b refl in grind (arith, update_status_others)

  others-label_removed :
      (pvc : Pvc) (b : Backup) (w : World State)
      → j ≢ key_of b.metadata
      → stored (label_removed P pvc (some b) w).1.api j ≡ stored w.api j
  unfolding label_removed deleted
  others-label_removed pvc b w ne = grind (arith, delete_others)

  others-removed :
      (pvc : Pvc) (existing : Option Backup) (w : World State)
      → IsRead (key_of pvc.metadata) existing (stored w.api (key_of pvc.metadata))
      → j ≢ key_of pvc.metadata
      → stored (label_removed P pvc existing w).1.api j ≡ stored w.api j
  unfolding label_removed
  others-removed pvc none w read ne = refl
  others-removed pvc (some b) w (there, key) ne =
      others-label_removed pvc b w (λ same. ne (same ∙ key))

  others-create_with :
      (pvc : Pvc) (name : String) (found : Result Repository) (w : World State)
      → j ≢ key_of pvc.metadata
      → stored (create_with P pvc name found w).1.api j ≡ stored w.api j
  unfolding create_with new_backup
  others-create_with pvc name (err e) w ne = refl
  others-create_with pvc name (ok repo) w ne =
      let new = new_backup P pvc name repo in
      elim (Result-cases
        (set_controller_reference "PersistentVolumeClaim" pvc.metadata new.metadata)) [
          | inl (owned, owns) ↦
              let b = sent P store pvc name repo owned in
              let key : key_of owned ≡ key_of pvc.metadata =
                owned_key "PersistentVolumeClaim" pvc.metadata new.metadata owned owns in
              let other : j ≢ key_of owned = λ same. ne (same ∙ key) in
              let after = sent_world P store b w in
              rw (create_with_owned P store pvc name repo owned w owns) (
                others-created pvc (backups.create b w.api).0 after
                  (λ b' answer same. other (same ∙ (create_ok b b' w.api answer).0))
                ∙ create_others b w.api j other)
          | inr (e, owns) ↦ rw (owns, create_with)
        ]

  others-label_present :
      (pvc : Pvc) (name : String) (existing : Option Backup) (w : World State)
      → IsRead (key_of pvc.metadata) existing (stored w.api (key_of pvc.metadata))
      → j ≢ key_of pvc.metadata
      → stored (label_present P pvc name existing w).1.api j ≡ stored w.api j
  unfolding label_present create_backup_for_pvc ensure_auto_created
  others-label_present pvc name none w read ne =
      grind (arith, others-create_with, api-search P store)
  others-label_present pvc name (some b) w (there, key) ne =
      let other : j ≢ key_of b.metadata = λ same. ne (same ∙ key) in
      elim (Bool-cases (is_auto_created P b pvc)) [
        | inl auto ↦ elim (Bool-cases b.status.auto_created) [
          | inl marked ↦
              rw (label_present_marked P store pvc name b w marked)
                (others-sync_schedule pvc b name w other)
          | inr unmarked ↦
              elim (Result-cases (backups.update_status (mark_auto_created b) w.api).0) [
                | inl (b', answer) ↦
                    let here : stored w.api (key_of b.metadata) ≡ some b =
                      subst (λ k. stored w.api k ≡ some b) (sym key) there in
                    let (kept, _, _, _) =
                      update_status_ok (mark_auto_created b) b b' w.api here refl answer in
                    rw (label_present_unmarked P store pvc name b b' w auto unmarked answer) (
                      others-sync_schedule pvc b' name (marked_world P store b w)
                        (λ same. other (same ∙ kept))
                      ∙ update_status_others (mark_auto_created b) w.api j other)
                | inr (e, answer) ↦
                    grind (arith, update_status_others (mark_auto_created b) w.api j other)
              ]
        ]
        | inr manual ↦ rw (manual, label_present)
      ]

  pub others-decide :
      (pvc : Pvc) (existing : Option Backup) (w : World State)
      → IsRead (key_of pvc.metadata) existing (stored w.api (key_of pvc.metadata))
      → j ≢ key_of pvc.metadata
      → stored (decide P pvc existing w).1.api j ≡ stored w.api j
  unfolding decide
  others-decide pvc none w read ne = grind (arith, others-label_present, others-removed)
  others-decide pvc (some b) w read ne = grind (arith, others-label_present, others-removed)
