-- ===== src/PvcWatcher/Refines.antt =====
-- The PVC watcher, refining the table of backups that Store describes.
use kopia_operator.Prelude.{
  String, ◌≡◌, ◌≢◌, refl, sym, ap, subst, ◌∙◌, true, Option, none, some, ◌==◌, arith, inl, inr,
  Bool-cases,
}
use kopia_operator.Error.{is_not_found, is_already_exists}
use kopia_operator.Exec.{Result-cases, Result, ok, err}
use kopia_operator.Kube.Meta.{ObjectMeta}
use kopia_operator.Kube.Objects.{Pvc}
use kopia_operator.Api.Backup.{Backup}
use kopia_operator.Api.Repository.{Repository}
use kopia_operator.Platform.{Platform}
use kopia_operator.World.{World, emit, api_write, create, kopia_backup}
use kopia_operator.Controller.{CtrlResult, get_or_empty}
use kopia_operator.PvcWatcher.{
  get_kopia_repository, repository_label_key, key_of, is_auto_created, mark_auto_created,
  new_backup, created, create_with, create_backup_for_pvc, deleted, label_removed, label_present,
  decide,
}
use kopia_operator.PvcWatcher.Store.{
  IsBackupStore, IsGone, IsRead, synced_spec, Managed, Meets, When, Removed, Wanted, Created,
}
use kopia_operator.PvcWatcher.Synced.{Managed-SameSpec, api-search, label_present-Managed}

module _ (P : Platform) (store : IsBackupStore P) where
  open P use {State, pvcs, backups, set_controller_reference}
  open store use {
    stored, pvc_read, backup_read, get_ok, create_ok, create_exists, update_status_ok, delete_ok,
    delete_missing, owned_key,
  }

  created-Managed :
      (pvc : Pvc) (b : Backup) (w : World State) (r : CtrlResult)
      → stored w.api (key_of b.metadata) ≡ some b
      → (created P pvc (ok b) w).0 ≡ ok r
      → Managed (stored (created P pvc (ok b) w).1.api (key_of b.metadata)) b.spec
  unfolding created
  created-Managed pvc b w r there returns =
      elim (Result-cases (backups.update_status (mark_auto_created b) w.api).0) [
        | inl (b', answer) ↦
            let (key, spec, status, now) =
              update_status_ok (mark_auto_created b) b b' w.api there refl answer in
            rw (answer, created) (b', now, spec, ap (λ t. t.auto_created) status)
        | inr (e, answer) ↦ absurd (ground arith)
      ]

  -- The backup that is sent, and the world after that.
  abbrev pub sent : Pvc → String → Repository → ObjectMeta → Backup
  sent pvc name repo owned = record (new_backup P pvc name repo) { metadata = owned }

  abbrev pub sent_world : Backup → World State → World State
  sent_world b w =
      record (emit (api_write create kopia_backup b.metadata.name b.metadata.namespace) w) {
        api = (backups.create b w.api).1;
      }

  pub create_with_owned :
      (pvc : Pvc) (name : String) (repo : Repository) (owned : ObjectMeta) (w : World State)
      → set_controller_reference "PersistentVolumeClaim" pvc.metadata
          (new_backup P pvc name repo).metadata
        ≡ ok owned
      → create_with P pvc name (ok repo) w
        ≡ created P pvc
            (backups.create (sent pvc name repo owned) w.api).0
            (sent_world (sent pvc name repo owned) w)
  unfolding create_with
  create_with_owned pvc name repo owned w owns = rw owns

  create_with_repository-Created :
      (pvc : Pvc) (name : String) (repo : Repository) (w : World State) (r : CtrlResult)
      → (create_with P pvc name (ok repo) w).0 ≡ ok r
      → Created pvc name
          (ok repo)
          (stored w.api (key_of pvc.metadata))
          (stored (create_with P pvc name (ok repo) w).1.api (key_of pvc.metadata))
  unfolding create_with new_backup created
  create_with_repository-Created pvc name repo w r =
      let before = stored w.api (key_of pvc.metadata) in
      let Goal : Result CtrlResult × World State → Type 0 = λ p.
        p.0 ≡ ok r → Created pvc name (ok repo) before (stored p.1.api (key_of pvc.metadata)) in
      let new = new_backup P pvc name repo in
      elim (Result-cases
        (set_controller_reference "PersistentVolumeClaim" pvc.metadata new.metadata)) [
          | inl (owned, owns) ↦
              let key : key_of owned ≡ key_of pvc.metadata =
                owned_key "PersistentVolumeClaim" pvc.metadata new.metadata owned owns in
              let b = sent pvc name repo owned in
              subst Goal (sym (create_with_owned pvc name repo owned w owns))
                (elim (Result-cases (backups.create b w.api).0) [
                  | inl (b', answer) ↦
                      let (kept, spec, now) = create_ok b b' w.api answer in
                      let after = sent_world b w in
                      let here : stored after.api (key_of b'.metadata) ≡ some b' =
                        subst (λ k. stored after.api k ≡ some b') (sym kept) now in
                      subst (λ a. Goal (created P pvc a after)) (sym answer)
                        λ returns.
                          let final = (created P pvc (ok b') after).1.api in
                          inl (
                            subst (λ k. Managed (stored final k) b.spec) (kept ∙ key)
                              (Managed-SameSpec P store (stored final (key_of b'.metadata)) b'.spec
                                b.spec spec (created-Managed pvc b' after r here returns)))
                  | inr (e, answer) ↦
                      subst (λ a. Goal (created P pvc a (sent_world b w))) (sym answer)
                        (elim (Bool-cases (is_already_exists e)) [
                          | inl exists ↦
                              rw (exists, created)
                                (λ returns. inr (
                                  subst
                                    (λ k.
                                      (stored w.api k ≢ none)
                                      × (stored (backups.create b w.api).1 k ≡ stored w.api k))
                                    key (create_exists b w.api e answer exists)))
                          | inr other ↦ λ returns. absurd (ground arith)
                        ])
                ])
          | inr (e, owns) ↦ λ returns. absurd (ground arith)
        ]

  label_removed-IsGone :
      (pvc : Pvc) (b : Backup) (w : World State) (r : CtrlResult)
      → is_auto_created P b pvc ≡ true
      → (label_removed P pvc (some b) w).0 ≡ ok r
      → IsGone (stored (label_removed P pvc (some b) w).1.api (key_of b.metadata))
  unfolding label_removed deleted
  label_removed-IsGone pvc b w r auto returns = elim (Result-cases (backups.delete b w.api).0) [
    | inl (u, answer) ↦ rw (auto, label_removed, answer) (delete_ok b w.api u answer)
    | inr (e, answer) ↦ elim (Bool-cases (is_not_found e)) [
      | inl gone ↦
          rw (auto, label_removed, answer, gone) (rw (delete_missing b w.api e answer gone) tt)
      | inr other ↦ absurd (ground arith)
    ]
  ]

  create_with-Created :
      (pvc : Pvc) (name : String) (found : Result Repository) (w : World State) (r : CtrlResult)
      → (create_with P pvc name found w).0 ≡ ok r
      → Created pvc name found
          (stored w.api (key_of pvc.metadata))
          (stored (create_with P pvc name found w).1.api (key_of pvc.metadata))
  unfolding create_with
  create_with-Created pvc name (err e) w r returns = refl
  create_with-Created pvc name (ok repo) w r returns =
      create_with_repository-Created pvc name repo w r returns

  create_backup_for_pvc-Created :
      (pvc : Pvc) (name : String) (w : World State) (r : CtrlResult)
      → (create_backup_for_pvc P pvc name w).0 ≡ ok r
      → Created pvc name
          (get_kopia_repository P name pvc.metadata.namespace w).0
          (stored w.api (key_of pvc.metadata))
          (stored (create_backup_for_pvc P pvc name w).1.api (key_of pvc.metadata))
  unfolding create_backup_for_pvc
  create_backup_for_pvc-Created pvc name w r returns =
      let (found, w') = get_kopia_repository P name pvc.metadata.namespace w in
      let final = (create_with P pvc name found w').1.api in
      subst
        (λ s.
          Created pvc name found (stored s (key_of pvc.metadata))
            (stored final (key_of pvc.metadata)))
        (api-search P store name pvc.metadata.namespace w)
        (create_with-Created pvc name found w' r returns)

  label_removed-Removed :
      (pvc : Pvc) (existing : Option Backup) (w : World State) (r : CtrlResult)
      → IsRead (key_of pvc.metadata) existing (stored w.api (key_of pvc.metadata))
      → (label_removed P pvc existing w).0 ≡ ok r
      → Removed P pvc existing
          (stored w.api (key_of pvc.metadata))
          (stored (label_removed P pvc existing w).1.api (key_of pvc.metadata))
  unfolding label_removed
  label_removed-Removed pvc none w r read returns = refl
  label_removed-Removed pvc (some b) w r (there, key) returns =
      elim (Bool-cases (is_auto_created P b pvc)) [
        | inl auto ↦
            let after = (label_removed P pvc (some b) w).1.api in
            subst
              (λ t.
                When t (IsGone (stored after (key_of pvc.metadata)))
                  (stored after (key_of pvc.metadata) ≡ stored w.api (key_of pvc.metadata)))
              (sym auto)
              (subst (λ k. IsGone (stored after k)) key
                (label_removed-IsGone pvc b w r auto returns))
        | inr manual ↦ rw (manual, label_removed) refl
      ]

  label_present-Wanted :
      (pvc : Pvc) (name : String) (existing : Option Backup) (w : World State) (r : CtrlResult)
      → IsRead (key_of pvc.metadata) existing (stored w.api (key_of pvc.metadata))
      → (label_present P pvc name existing w).0 ≡ ok r
      → Wanted P pvc name
          (get_kopia_repository P name pvc.metadata.namespace w).0
          existing
          (stored w.api (key_of pvc.metadata))
          (stored (label_present P pvc name existing w).1.api (key_of pvc.metadata))
  unfolding label_present
  label_present-Wanted pvc name none w r read returns =
      create_backup_for_pvc-Created pvc name w r returns
  label_present-Wanted pvc name (some b) w r (there, key) returns =
      elim (Bool-cases (is_auto_created P b pvc)) [
        | inl auto ↦
            let after = (label_present P pvc name (some b) w).1.api in
            let spec =
              synced_spec pvc (get_kopia_repository P name pvc.metadata.namespace w).0 b.spec in
            let here : stored w.api (key_of b.metadata) ≡ some b =
              subst (λ k. stored w.api k ≡ some b) (sym key) there in
            subst
              (λ t.
                When t (Managed (stored after (key_of pvc.metadata)) spec)
                  (stored after (key_of pvc.metadata) ≡ stored w.api (key_of pvc.metadata)))
              (sym auto)
              (subst (λ k. Managed (stored after k) spec) key
                (label_present-Managed P store pvc name b w r here auto returns))
        | inr manual ↦ rw (manual, label_present) refl
      ]

  pub decide-Meets :
      (pvc : Pvc) (existing : Option Backup) (w : World State) (r : CtrlResult)
      → IsRead (key_of pvc.metadata) existing (stored w.api (key_of pvc.metadata))
      → (decide P pvc existing w).0 ≡ ok r
      → Meets P pvc
          (get_kopia_repository P
            (get_or_empty repository_label_key pvc.metadata.labels)
            pvc.metadata.namespace
            w).0
          existing
          (stored w.api (key_of pvc.metadata))
          (stored (decide P pvc existing w).1.api (key_of pvc.metadata))
  unfolding decide
  decide-Meets pvc existing w r read =
      let name = get_or_empty repository_label_key pvc.metadata.labels in
      elim (Bool-cases (name == "")) [
        | inl e ↦ rw (e, decide) (label_removed-Removed pvc existing w r read)
        | inr e ↦ rw (e, decide) (label_present-Wanted pvc name existing w r read)
      ]
