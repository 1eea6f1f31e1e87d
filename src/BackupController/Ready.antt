-- ===== src/BackupController/Ready.antt =====
-- When a backup is ready.
use kopia_operator.Prelude.{
  List, [], ◌∷◌, subst, String, ◌≡◌, refl, Bool, true, false, not, ◌&&◌, Option, none, some, arith,
  ◌==◌, if◌then◌else◌,
}
use kopia_operator.Exec.{Result, ok, err}
use kopia_operator.Kube.Meta.{ConditionStatus, condition_true, condition_false}
use kopia_operator.Api.Backup.{Backup, condition_type_ready}
use kopia_operator.Api.Repository.{Repository}
use kopia_operator.Platform.{Platform}
use kopia_operator.Platform.Laws.{status_of, IsConditionSetter}
use kopia_operator.World.{World}
use kopia_operator.Controller.{done, Outcome}
use kopia_operator.Naming
use kopia_operator.Kube.Pods.{Pod}
use kopia_operator.Prelude.Lists.{find}
use kopia_operator.Builder.Job.{Placement}
use kopia_operator.BackupController.Setup.{Reconciler}
use kopia_operator.BackupController.Placement.{
  uses_pvc, first_placement, placement_in, pods_beside, find_pod_using_pvc,
}
use kopia_operator.BackupController.Resources.{
  no_pod_requeue_delay, final_status, after_cron_job, placed, reconcile_cron_job,
  reconcile_backup_resources,
}

abbrev pub status_when : Bool → ConditionStatus
status_when true = condition_true
status_when false = condition_false

abbrev pub ready_status : Backup → Option ConditionStatus
ready_status b = status_of condition_type_ready b.status.conditions

-- The node of the first listed pod that runs, belongs to no backup job and mounts the claim; the empty
-- text with no such pod, with one that has no node yet, and when the list failed.
abbrev node_of : Option Pod → String
node_of none = ""
node_of (some pod) = pod.node_name

abbrev pub node_found : String → Result (List Pod) → String
node_found pvc_name (ok found) = node_of (find (uses_pvc pvc_name) found)
node_found pvc_name (err _) = ""

-- Ready says whether there is a node and the backup is not suspended, and a requeue whether the node is
-- missing.
abbrev pub IsSettled : String → Outcome Backup → Type 0
IsSettled node o =
    (ready_status o.object ≡ some (status_when (not (node == "") && not o.object.spec.suspend)))
    × (o.object.status.node_name ≡ node)
    × (o.result ≡ (if node == "" then no_pod_requeue_delay else done))

first_placement-node :
    (pvc_name : String) (found : List Pod)
    → (first_placement pvc_name found).node_name ≡ node_of (find (uses_pvc pvc_name) found)
unfolding first_placement
first_placement-node pvc_name [] = refl
first_placement-node pvc_name (pod ∷ found) = ground (arith, first_placement-node pvc_name found)

placement_in-node :
    (pvc_name : String) (found : Result (List Pod))
    → (placement_in pvc_name found).node_name ≡ node_found pvc_name found
placement_in-node pvc_name (ok found) = first_placement-node pvc_name found
placement_in-node pvc_name (err e) = refl

module _ (P : Platform) (L : IsConditionSetter P) where
  open P use {State, pods}

  IsSettled-final_status :
      (b : Backup) (placement : Placement) (w : World State)
      → b.status.node_name ≡ placement.node_name
      → IsSettled placement.node_name (final_status P b placement w).0
  unfolding final_status
  IsSettled-final_status b placement w same = grind (arith, L.find-set)

  IsSettled-after_cron_job :
      (b : Backup) (name : String) (placement : Placement) (answer : Result (Unit {0}))
      (w : World State)
      → b.status.node_name ≡ placement.node_name
      → (after_cron_job P b name placement answer w).0.error ≡ none
      → IsSettled placement.node_name (after_cron_job P b name placement answer w).0
  unfolding after_cron_job
  IsSettled-after_cron_job b name placement (err e) w same h = cc
  IsSettled-after_cron_job b name placement (ok _) w same h =
      IsSettled-final_status _ placement w same

  pub reconcile_backup_resources-IsSettled :
      (r : Reconciler P) (b : Backup) (repo : Repository) (w : World State)
      → (reconcile_backup_resources P r b repo w).0.error ≡ none
      → IsSettled
          (node_found b.spec.pvc_name (pods.list (pods_beside P b) w.api).0)
          (reconcile_backup_resources P r b repo w).0
  unfolding reconcile_backup_resources find_pod_using_pvc
  reconcile_backup_resources-IsSettled r b repo w h =
      let (placement, w') = find_pod_using_pvc P b w in
      let name = Naming.cron_job_name b.spec.pvc_name in
      let (answer, w'') = reconcile_cron_job P r (placed P b placement) name placement repo w' in
      subst (λ n. IsSettled n (reconcile_backup_resources P r b repo w).0)
        (placement_in-node b.spec.pvc_name (pods.list (pods_beside P b) w.api).0)
        (IsSettled-after_cron_job (placed P b placement) name placement answer w'' refl h)
