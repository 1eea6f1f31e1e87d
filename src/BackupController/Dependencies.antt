-- ===== src/BackupController/Dependencies.antt =====
-- getRelatedPVC and validateDependencies. A failed check sets the condition and stops with no error.
use kopia_operator.Prelude.{◌<>◌, Option, none, some, ◌==◌, if◌then◌else◌}
use kopia_operator.Prelude.Quote.{quote}
use kopia_operator.Error.{plain, error_text}
use kopia_operator.Exec.{Result, ok, err, Exec, raise, wrapping}
use kopia_operator.Kube.Meta.{condition_false}
use kopia_operator.Kube.Objects.{Pvc}
use kopia_operator.Api.Backup.{
  Backup, condition_type_ready, reason_pvc_not_found, reason_repository_not_found,
}
use kopia_operator.Api.Repository.{Repository}
use kopia_operator.Platform.{Platform}
use kopia_operator.World.{World, call}
use kopia_operator.Lookup.{get_kopia_repository}
use kopia_operator.BackupController.Setup.{set_condition, warn}

module _ (P : Platform) where
  open P use {State, pvcs}

  unfoldable pub get_related_pvc : Backup → Exec (World State) Pvc
  get_related_pvc b =
      if b.spec.pvc_name == ""
      then raise (plain "spec.pvcName is required")
      else wrapping ("failed to get PVC " <> quote b.spec.pvc_name)
          (call (pvcs.get (record { name = b.spec.pvc_name; namespace = b.metadata.namespace })))

  unfoldable pub with_repository :
      Backup → Result Repository → World State → (Backup × Option Repository) × World State
  with_repository b (ok repo) w = ((b, some repo), w)
  with_repository b (err e) w =
      let message = "KopiaRepository " <> (quote b.spec.repository <> " not found") in
      (
        (
          set_condition P b condition_type_ready condition_false reason_repository_not_found
              message,
          none,
        ),
        warn P b "RepositoryNotFound" message w,
      )

  unfoldable pub with_pvc :
      Backup → Result Pvc → World State → (Backup × Option Repository) × World State
  unfolding with_repository
  with_pvc b (err e) w = (
    (
      set_condition P b condition_type_ready condition_false reason_pvc_not_found
          ("PVC " <> (quote b.spec.pvc_name <> (" not found: " <> error_text e))),
      none,
    ),
    warn P b "PVCNotFound" ("PVC " <> (quote b.spec.pvc_name <> " not found")) w,
  )
  with_pvc b (ok pvc) w =
      let (repo, w') = get_kopia_repository P b.spec.repository b.metadata.namespace w in
      with_repository b repo w'

  -- The backup with its conditions, and the repository if both checks pass.
  unfoldable pub validate_dependencies :
      Backup → World State → (Backup × Option Repository) × World State
  unfolding with_pvc get_related_pvc
  validate_dependencies b w = let (pvc, w') = get_related_pvc b w in with_pvc b pvc w'
