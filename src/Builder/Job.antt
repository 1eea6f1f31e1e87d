-- ===== src/Builder/Job.antt =====
-- buildCronJob, its defaults, and the placement of the job.
use kopia_operator.Prelude.{
  String, ◌<>◌, true, false, Option, none, some, List, [], ◌∷◌, ◌==◌, if◌then◌else◌,
}
use kopia_operator.Prelude.Lists.{Dict}
use kopia_operator.Prelude.Int.{ℤ, pos}
use kopia_operator.Kube.Meta.{new_meta}
use kopia_operator.Kube.Pods.{
  Toleration, NodeAffinity, SecurityContext, Container, PodSpec, persistent_volume_claim,
}
use kopia_operator.Kube.Jobs.{CronJobSpec, CronJob}
use kopia_operator.Api.Backup.{Backup}
use kopia_operator.Api.Repository.{Repository}
use kopia_operator.Builder.Path.{join_path}
use kopia_operator.Builder.Command.{build_backup_command}
use kopia_operator.Builder.Modes.{
  Config, env, mount, build_server_mode_config, build_direct_mode_config,
}

-- podPlacement
pub record Placement : Type 0 where
  pub node_name : String
  pub app_name : String
  pub pod_name : String
  pub tolerations : List Toleration

abbrev pub no_placement : Placement
no_placement = record { node_name = ""; app_name = ""; pod_name = ""; tolerations = [] }

unfoldable pub default_tolerations : List Toleration
default_tolerations =
    record { key = "dedicated"; operator = "Exists"; value = ""; effect = "NoSchedule" } ∷ []

unfoldable pub build_node_affinity : String → Option NodeAffinity
build_node_affinity node_name =
    if node_name == ""
    then none
    else some (record { key = "kubernetes.io/hostname"; operator = "In"; values = node_name ∷ [] })

-- A field of the spec, or its default.
abbrev pub or_default : Option ℤ → ℤ → Option ℤ
or_default none d = some d
or_default (some v) d = some v

unfoldable pub mount_path : Backup → String → String
mount_path backup app_name =
    if app_name == ""
    then "/data/" <> (backup.metadata.namespace <> ("/" <> backup.spec.pvc_name))
    else "/data/"
      <> (backup.metadata.namespace <> ("/" <> (app_name <> ("/" <> backup.spec.pvc_name))))

unfoldable pub pod_tolerations : Placement → List Toleration
unfolding default_tolerations
pod_tolerations placement = elim placement.tolerations [
  | [] ↦ default_tolerations
  | t ∷ ts ↦ t ∷ ts
]

abbrev job_labels : Backup → Dict String
job_labels backup =
    ("backup.cloudinfra.be/backup", backup.metadata.name)
    ∷ ("backup.cloudinfra.be/repository", backup.spec.repository)
    ∷ ("backup.cloudinfra.be/pvc-name", backup.spec.pvc_name)
    ∷ []

-- What both modes start from.
unfoldable pub base_config : Backup → Repository → String → Config
unfolding join_path
base_config backup repo path = record {
  env_vars =
      env "KOPIA_LOG_DIR" (join_path (repo.spec.file_system_options.path ∷ ".kopia" ∷ "logs" ∷ []))
      ∷ [];
  env_from = [];
  volume_mounts = mount "data" path ∷ [];
  volumes = record { name = "data"; source = persistent_volume_claim backup.spec.pvc_name } ∷ [];
}

unfoldable pub container_config : Backup → Repository → String → Config
unfolding build_server_mode_config build_direct_mode_config
container_config backup repo path =
    if repo.spec.server.enabled
    then build_server_mode_config backup repo (base_config backup repo path)
    else build_direct_mode_config repo repo.spec.caching.cache_directory
        (base_config backup repo path)

abbrev container_sec_ctx : SecurityContext
container_sec_ctx = record {
  allow_privilege_escalation = false;
  read_only_root_filesystem = true;
  drop = "ALL" ∷ [];
  add = "DAC_READ_SEARCH" ∷ [];
}

abbrev init_container : String → Container
init_container image = record {
  name = "wait";
  image = image;
  command = "/scripts/sleep.sh" ∷ [];
  args = "1" ∷ "10" ∷ [];
  env = [];
  env_from = [];
  volume_mounts = [];
  security_context = container_sec_ctx;
}

abbrev snapshot_container : Repository → String → String → Config → Container
snapshot_container repo image path c = record {
  name = "snapshot";
  image = image;
  command = [];
  args = "/bin/bash" ∷ "-c" ∷ build_backup_command repo path ∷ [];
  env = c.env_vars;
  env_from = c.env_from;
  volume_mounts = c.volume_mounts;
  security_context = container_sec_ctx;
}

unfoldable pub pod_spec : Backup → Placement → Repository → String → PodSpec
unfolding container_config build_node_affinity pod_tolerations mount_path
pod_spec backup placement repo image =
    let path = mount_path backup placement.app_name in
    let c = container_config backup repo path in
    record {
      seccomp_profile = "RuntimeDefault";
      affinity = build_node_affinity placement.node_name;
      init_containers = init_container image ∷ [];
      containers = snapshot_container repo image path c ∷ [];
      volumes = c.volumes;
      restart_policy = "OnFailure";
      tolerations = pod_tolerations placement;
      rest = [];
    }

unfoldable pub cron_job_spec : Backup → Placement → Repository → String → CronJobSpec
unfolding pod_spec
cron_job_spec backup placement repo image = record {
  schedule = backup.spec.schedule;
  concurrency_policy = "Forbid";
  suspend = some backup.spec.suspend;
  successful_jobs_history_limit = or_default backup.spec.successful_jobs_history_limit (pos 3);
  failed_jobs_history_limit = or_default backup.spec.failed_jobs_history_limit (pos 1);
  job_labels = job_labels backup;
  job_spec = record {
    ttl_seconds_after_finished = or_default backup.spec.ttl_seconds_after_finished (pos 86400);
    active_deadline_seconds = or_default backup.spec.active_deadline_seconds (pos 21600);
    backoff_limit = or_default backup.spec.backoff_limit (pos 5);
    template_labels =
        ("backup.cloudinfra.be/backup", backup.metadata.name)
        ∷ ("backup.cloudinfra.be/repository", backup.spec.repository)
        ∷ ("backup.cloudinfra.be/pvc-name", backup.spec.pvc_name)
        ∷ ("backup.cloudinfra.be/node-name", placement.node_name)
        ∷ ("app.kubernetes.io/name", placement.app_name)
        ∷ ("sidecar.istio.io/inject", "false")
        ∷ [];
    template_spec = pod_spec backup placement repo image;
    suspend = some backup.spec.suspend;
    parallelism = none;
    completions = none;
  };
  time_zone = none;
  starting_deadline_seconds = none;
}

unfoldable pub build_cron_job : Backup → String → Placement → Repository → String → CronJob
unfolding cron_job_spec
build_cron_job backup cron_job_name placement repo image = record {
  metadata = new_meta cron_job_name backup.metadata.namespace (job_labels backup);
  spec = cron_job_spec backup placement repo image;
}
