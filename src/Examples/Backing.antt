-- ===== src/Examples/Backing.antt =====
-- The theorems on the backup controller and the builder, at concrete objects.
use kopia_operator.Prelude.{◌<>◌, ◌≡◌, refl, false, ◌||◌, some, [], ◌∷◌, map}
use kopia_operator.Error.{is_not_found, plain, wrap, error_text}
use kopia_operator.Kube.Meta.{Key, ObjectMeta, new_meta}
use kopia_operator.Kube.Pods.{Pod, pod_running, persistent_volume_claim}
use kopia_operator.Kube.Jobs.{CronJob}
use kopia_operator.Kube.Objects.{ServicePort}
use kopia_operator.Kube.Deployments.{ServerContainer}
use kopia_operator.Platform.Memory.{Cluster, nothing, memory, memory-IsConditionSetter}
use kopia_operator.World.{World, emit, reconcile_error}
use kopia_operator.Controller.{done}
use kopia_operator.Naming.{cron_job_name}
use kopia_operator.Lookup
use kopia_operator.Builder.Command.{server_url, server_port}
use kopia_operator.Builder.Job.{no_placement, build_cron_job, container_config}
use kopia_operator.Builder.Volumes.{is_mountable, is_known_storage, container_config-is_mountable}
use kopia_operator.Server.Deployment.{construct_server_deployment}
use kopia_operator.Server.Service.{construct_server_service, get_server_url}
use kopia_operator.Server.Reach.{container_ports, server_url-reaches}
use kopia_operator.BackupController.Setup.{warn, kopia_image}
use kopia_operator.BackupController.Placement.{uses_pvc, find_pod_using_pvc}
use kopia_operator.BackupController.Watches.{find_backups_for_pod}
use kopia_operator.BackupController.Resources.{
  reconcile_config_map, reconcile_cron_job, reconcile_backup_resources,
}
use kopia_operator.BackupController.Dependencies.{validate_dependencies}
use kopia_operator.Builder.Config.{build_config_map}
use kopia_operator.BackupController.Verdict.{MayWait, IsSound, body-IsSound}
use kopia_operator.BackupController.JobPods.{job_pods_are_ignored}
use kopia_operator.BackupController.Cleanup.{reconcile-keeps_finalizer}
use kopia_operator.BackupController.Reconcile
use kopia_operator.Examples.Data.{
  pvc, repository, with_server, backup, deleted_backup, failing_users, reconciler, world,
}

abbrev request : Key
request = record { name = "data"; namespace = "web" }

-- A pod that mounts the volume, after one that does not.
abbrev user_pod : Pod
user_pod = record {
  metadata = new_meta "web-0" "web" [];
  phase = pod_running;
  node_name = "node-1";
  volumes = record { name = "data"; source = persistent_volume_claim backup.spec.pvc_name } ∷ [];
  tolerations = [];
  container_statuses = [];
}

abbrev deleting : World Cluster
deleting = world (record nothing { backups = deleted_backup ∷ []; repositories = with_server ∷ [] })

reconcile-keeps_finalizer_example : Reconcile.reconcile memory reconciler request deleting ≡ (
  record {
    result = done;
    error = some (wrap "finalizer cleanup failed, will retry" (plain "down"));
  },
  emit (reconcile_error "kopiabackup") (
      warn memory deleted_backup "FinalizerFailed"
        ("Failed to delete server user: " <> error_text (plain "down"))
        deleting),
)
unfolding Lookup.get_kopia_repository
reconcile-keeps_finalizer_example =
    reconcile-keeps_finalizer memory reconciler failing_users request deleted_backup 7 with_server
      (plain "down") deleting deleting deleting deleting.api refl refl refl refl refl refl refl refl

abbrev job_pod : Pod
job_pod = record {
  metadata = new_meta "snapshot-data-29000000-x7k2p" "web" [];
  phase = "Running";
  node_name = "node-1";
  volumes = record { name = "data"; source = persistent_volume_claim "data" } ∷ [];
  tolerations = [];
  container_statuses = [];
}

job_pods_are_ignored_example :
    (uses_pvc "data" job_pod ≡ false)
    × (find_backups_for_pod memory job_pod (world nothing) ≡ ([], world nothing))
unfolding cron_job_name
job_pods_are_ignored_example =
    job_pods_are_ignored memory job_pod "data" "-29000000-x7k2p" "data" (world nothing) refl

container_config-is_mountable_example :
    is_mountable (container_config backup with_server "/data")
    ≡ (with_server.spec.server.enabled || is_known_storage with_server)
container_config-is_mountable_example = container_config-is_mountable backup with_server "/data"

server_url-reaches_example :
    let service = (construct_server_service with_server "kopia-server-nas").spec in
    let spec = (construct_server_deployment with_server "kopia-server-nas").spec in
    (get_server_url with_server ≡ server_url with_server)
    × ((map (λ (p : ServicePort). p.port) service.ports ≡ server_port with_server ∷ [])
        × ((map (λ (p : ServicePort). p.target_port) service.ports
              ≡ container_ports spec.containers)
            × ((map (λ (c : ServerContainer). c.readiness_probe.port) spec.containers
                  ≡ container_ports spec.containers)
                × (service.selector ≡ spec.template_labels))))
server_url-reaches_example = server_url-reaches with_server "kopia-server-nas" "kopia-server-nas"

abbrev wanted : CronJob
wanted =
    build_cron_job backup "snapshot-data" no_placement with_server (kopia_image memory reconciler)

abbrev wanted_meta : ObjectMeta
wanted_meta = record wanted.metadata {
  owner_references =
      record { kind = "KopiaBackup"; name = "data"; uid = ""; controller = some "true" } ∷ [];
}

-- The CronJob as the API server keeps it, with a field filled in.
abbrev filled_in : CronJob
filled_in = record wanted {
  spec = record wanted.spec {
    job_spec = record wanted.spec.job_spec {
      template_spec = record wanted.spec.job_spec.template_spec {
        rest = ("dnsPolicy", "ClusterFirst") ∷ [];
      };
    };
  };
}

abbrev with_cron_job : World Cluster
with_cron_job = world (record nothing { cron_jobs = filled_in ∷ [] })

-- A cluster with the PVC and a repository in direct mode.
abbrev direct : World Cluster
direct = world (record nothing { pvcs = pvc ∷ []; repositories = repository false "" ∷ [] })

body-IsSound_example :
    IsSound
      (MayWait reconciler.user_manager backup (some (repository false "")) direct)
      (Reconcile.body memory reconciler backup direct).0
unfolding Reconcile.body validate_dependencies Lookup.get_kopia_repository reconcile_config_map
    build_config_map is_not_found reconcile_backup_resources reconcile_cron_job find_pod_using_pvc
body-IsSound_example = body-IsSound memory memory-IsConditionSetter reconciler backup direct refl
