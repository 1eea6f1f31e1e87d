-- ===== src/BackupController/Placement.antt =====
-- findPodUsingPVC: the running pod that mounts the volume.
use kopia_operator.Prelude.{
  String, Bool, false, not, ◌&&◌, some, List, [], ◌∷◌, ◌==◌, starts_with, if◌then◌else◌,
}
use kopia_operator.Prelude.Lists.{any}
use kopia_operator.Exec.{Result, ok, err}
use kopia_operator.Kube.Pods.{Pod, Volume, VolumeSource, persistent_volume_claim, pod_running}
use kopia_operator.Api.Backup.{Backup}
use kopia_operator.Platform.{Platform, ListOptions}
use kopia_operator.World.{World, call}
use kopia_operator.Controller.{get_or_empty}
use kopia_operator.Builder.Job.{Placement, no_placement}
use kopia_operator.Naming.{cron_job_prefix}

-- volume.PersistentVolumeClaim != nil && ClaimName == pvc_name
unfoldable pub claims : String → VolumeSource → Bool
claims pvc_name (persistent_volume_claim claim) = claim == pvc_name
claims pvc_name _ = false

-- The body of the loop over the pods: the two `continue`s and the loop over the volumes.
unfoldable pub uses_pvc : String → Pod → Bool
unfolding claims
uses_pvc pvc_name pod =
    pod.phase == pod_running
    && (not (starts_with pod.metadata.name cron_job_prefix)
        && any (λ (v : Volume). claims pvc_name v.source) pod.volumes)

abbrev pub placement_of : Pod → Placement
placement_of pod = record {
  node_name = pod.node_name;
  app_name = get_or_empty "app.kubernetes.io/name" pod.metadata.labels;
  pod_name = pod.metadata.name;
  tolerations = pod.tolerations;
}

unfoldable pub first_placement : String → List Pod → Placement
unfolding uses_pvc
first_placement pvc_name [] = no_placement
first_placement pvc_name (pod ∷ pods) =
    if uses_pvc pvc_name pod then placement_of pod else first_placement pvc_name pods

abbrev pub placement_in : String → Result (List Pod) → Placement
placement_in pvc_name (ok found) = first_placement pvc_name found
placement_in pvc_name (err _) = no_placement

module _ (P : Platform) where
  open P use {State, pods}

  abbrev pub pods_beside : Backup → ListOptions
  pods_beside b = record { namespace = some b.metadata.namespace; labels = []; fields = [] }

  -- A failure of the request is only logged.
  unfoldable pub find_pod_using_pvc : Backup → World State → Placement × World State
  unfolding first_placement
  find_pod_using_pvc b w =
      let (found, w') = call (pods.list (pods_beside b)) w in
      (placement_in b.spec.pvc_name found, w')
