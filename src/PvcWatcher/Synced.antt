-- ===== src/PvcWatcher/Synced.antt =====
-- A backup that the PVC watcher keeps: its entry in the table of Store.
use kopia_operator.Prelude.{
  String, ◌≡◌, refl, sym, ap, subst, ◌∙◌, true, false, Option, some, ◌==◌, eq_iff, arith, inl, inr,
  Bool-cases,
}
use kopia_operator.Exec.{Result-cases, Result, ok, err}
use kopia_operator.Kube.Objects.{Pvc}
use kopia_operator.Api.Backup.{Backup, BackupSpec, defaulted}
use kopia_operator.Api.Repository.{Repository}
use kopia_operator.Platform.{Platform}
use kopia_operator.World.{World, emit, api_write, update_status, kopia_backup}
use kopia_operator.Controller.{CtrlResult}
use kopia_operator.Lookup.Answers.{get_kopia_repository_world, api-get_kopia_repository}
use kopia_operator.PvcWatcher.{
  get_kopia_repository, key_of, get_schedule_from_pvc, is_auto_created, mark_auto_created,
  sync_with, sync_schedule, ensure_auto_created, label_present,
}
use kopia_operator.PvcWatcher.Store.{IsBackupStore, SameSpec, synced_spec, Managed}

module _ (P : Platform) (store : IsBackupStore P) where
  open P use {State, pvcs, backups}
  open store use {
    stored, pvc_read, backup_read, repository_read, repositories_read, get_ok, create_ok,
    create_exists, update_ok, update_status_ok, delete_ok, delete_missing, get_kept, list_kept,
    owned_key,
  }

  abbrev rescheduled : Backup → String → Backup
  rescheduled b schedule = record b { spec = record b.spec { schedule = schedule } }

  sync_with-Managed :
      (pvc : Pvc) (b : Backup) (found : Result Repository) (w : World State) (r : CtrlResult)
      → stored w.api (key_of b.metadata) ≡ some b
      → b.status.auto_created ≡ true
      → (sync_with P pvc b found w).0 ≡ ok r
      → Managed
          (stored (sync_with P pvc b found w).1.api (key_of b.metadata))
          (synced_spec pvc found b.spec)
  unfolding sync_with
  sync_with-Managed pvc b (err e) w r there auto returns = (b, there, refl, auto)
  sync_with-Managed pvc b (ok repo) w r there auto returns =
      let schedule = get_schedule_from_pvc pvc repo.spec.default_schedule in
      elim (Bool-cases (schedule == b.spec.schedule)) [
        | inl same ↦
            let kept : b.spec ≡ record b.spec { schedule = schedule } =
              ground (arith, eq_iff schedule b.spec.schedule) in
            rw (same, sync_with) (b, there, ap defaulted kept, auto)
        | inr other ↦ elim (Result-cases (backups.update (rescheduled b schedule) w.api).0) [
          | inl (b', answer) ↦
              let (spec, status, now) =
                update_ok (rescheduled b schedule) b b' w.api there refl answer in
              rw (other, sync_with, answer) (b', now, spec, ap (λ s. s.auto_created) status ∙ auto)
          | inr (e, answer) ↦ absurd (ground arith)
        ]
      ]

  synced_spec-SameSpec :
      (pvc : Pvc) (found : Result Repository) (s t : BackupSpec)
      → SameSpec s t
      → SameSpec (synced_spec pvc found s) (synced_spec pvc found t)
  synced_spec-SameSpec pvc (ok repo) s t same =
      let schedule = get_schedule_from_pvc pvc repo.spec.default_schedule in
      let rescheduled_spec : BackupSpec → BackupSpec = λ u. record u { schedule = schedule } in
      ap rescheduled_spec same
  synced_spec-SameSpec pvc (err _) s t same = same

  pub Managed-SameSpec :
      (after : Option Backup) (s t : BackupSpec) → SameSpec s t → Managed after s → Managed after t
  Managed-SameSpec after s t same (b, there, spec, auto) = (b, there, spec ∙ same, auto)

  pub api-search :
      (name namespace : String) (w : World State)
      → (get_kopia_repository P name namespace w).1.api ≡ w.api
  unfolding get_kopia_repository
  api-search = api-get_kopia_repository P repository_read repositories_read

  -- Marking a backup does not change what the search finds.
  search_after_mark :
      (name namespace : String) (b : Backup) (v w : World State)
      → v.api ≡ (backups.update_status b w.api).1
      → (get_kopia_repository P name namespace v).0 ≡ (get_kopia_repository P name namespace w).0
  unfolding get_kopia_repository
  search_after_mark name namespace b v w same =
      get_kopia_repository_world P repository_read name namespace v w (rw same (get_kept b _ w.api))
        (rw same (list_kept b w.api))

  sync_schedule-Managed :
      (pvc : Pvc) (b : Backup) (name : String) (w : World State) (r : CtrlResult)
      → stored w.api (key_of b.metadata) ≡ some b
      → b.status.auto_created ≡ true
      → (sync_schedule P pvc b name w).0 ≡ ok r
      → Managed
          (stored (sync_schedule P pvc b name w).1.api (key_of b.metadata))
          (synced_spec pvc (get_kopia_repository P name pvc.metadata.namespace w).0 b.spec)
  unfolding sync_schedule
  sync_schedule-Managed pvc b name w r there auto returns =
      let (found, w') = get_kopia_repository P name pvc.metadata.namespace w in
      sync_with-Managed pvc b found w' r (rw (api-search name pvc.metadata.namespace w) there) auto
        returns

  marked-Managed :
      (pvc : Pvc) (name : String) (b b' : Backup) (w v : World State) (r : CtrlResult)
      → key_of b'.metadata ≡ key_of b.metadata
      → SameSpec b'.spec b.spec
      → b'.status.auto_created ≡ true
      → stored v.api (key_of b.metadata) ≡ some b'
      → v.api ≡ (backups.update_status (mark_auto_created b) w.api).1
      → (sync_schedule P pvc b' name v).0 ≡ ok r
      → Managed
          (stored (sync_schedule P pvc b' name v).1.api (key_of b.metadata))
          (synced_spec pvc (get_kopia_repository P name pvc.metadata.namespace w).0 b.spec)
  marked-Managed pvc name b b' w v r key spec auto there same returns =
      let namespace = pvc.metadata.namespace in
      let after = (sync_schedule P pvc b' name v).1.api in
      let found = (get_kopia_repository P name namespace w).0 in
      let here : stored v.api (key_of b'.metadata) ≡ some b' =
        subst (λ k. stored v.api k ≡ some b') (sym key) there in
      subst (λ k. Managed (stored after k) (synced_spec pvc found b.spec)) key
        (Managed-SameSpec (stored after (key_of b'.metadata)) (synced_spec pvc found b'.spec)
          (synced_spec pvc found b.spec) (synced_spec-SameSpec pvc found b'.spec b.spec spec)
          (subst (λ f. Managed (stored after (key_of b'.metadata)) (synced_spec pvc f b'.spec))
            (search_after_mark name namespace (mark_auto_created b) v w same)
            (sync_schedule-Managed pvc b' name v r here auto returns)))

  -- The world after a backup was marked as auto-created.
  abbrev pub marked_world : Backup → World State → World State
  marked_world b w =
      record (emit (api_write update_status kopia_backup b.metadata.name b.metadata.namespace) w) {
        api = (backups.update_status (mark_auto_created b) w.api).1;
      }

  pub label_present_marked :
      (pvc : Pvc) (name : String) (b : Backup) (w : World State)
      → b.status.auto_created ≡ true
      → label_present P pvc name (some b) w ≡ sync_schedule P pvc b name w
  unfolding label_present ensure_auto_created
  label_present_marked pvc name b w marked = simp (marked, label_present, ensure_auto_created)

  pub label_present_unmarked :
      (pvc : Pvc) (name : String) (b b' : Backup) (w : World State)
      → is_auto_created P b pvc ≡ true
      → b.status.auto_created ≡ false
      → (backups.update_status (mark_auto_created b) w.api).0 ≡ ok b'
      → label_present P pvc name (some b) w ≡ sync_schedule P pvc b' name (marked_world b w)
  unfolding label_present ensure_auto_created
  label_present_unmarked pvc name b b' w auto unmarked answer =
      rw auto (simp (unmarked, answer, label_present, ensure_auto_created))

  pub label_present-Managed :
      (pvc : Pvc) (name : String) (b : Backup) (w : World State) (r : CtrlResult)
      → stored w.api (key_of b.metadata) ≡ some b
      → is_auto_created P b pvc ≡ true
      → (label_present P pvc name (some b) w).0 ≡ ok r
      → Managed
          (stored (label_present P pvc name (some b) w).1.api (key_of b.metadata))
          (synced_spec pvc (get_kopia_repository P name pvc.metadata.namespace w).0 b.spec)
  unfolding label_present ensure_auto_created
  label_present-Managed pvc name b w r there auto =
      let spec = synced_spec pvc (get_kopia_repository P name pvc.metadata.namespace w).0 b.spec in
      let Goal : Result CtrlResult × World State → Type 0 =
        λ p. p.0 ≡ ok r → Managed (stored p.1.api (key_of b.metadata)) spec in
      elim (Bool-cases b.status.auto_created) [
        | inl marked ↦
            subst Goal (sym (label_present_marked pvc name b w marked))
              (sync_schedule-Managed pvc b name w r there marked)
        | inr unmarked ↦ elim (Result-cases (backups.update_status (mark_auto_created b) w.api).0) [
          | inl (b', answer) ↦
              let (key, same, status, now) =
                update_status_ok (mark_auto_created b) b b' w.api there refl answer in
              subst Goal (sym (label_present_unmarked pvc name b b' w auto unmarked answer)) (
                marked-Managed pvc name b b' w (marked_world b w) r key same
                  (ap (λ t. t.auto_created) status) now refl)
          | inr (e, answer) ↦ λ returns. absurd (ground arith)
        ]
      ]
