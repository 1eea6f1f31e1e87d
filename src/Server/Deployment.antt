-- ===== src/Server/Deployment.antt =====
-- constructServerDeployment and constructStorageVolume.
use kopia_operator.Prelude.{
  String, ◌<>◌, true, false, Option, none, some, List, [], ◌∷◌, ◌++◌, ◌==◌, if◌then◌else◌,
}
use kopia_operator.Prelude.Lists.{Dict}
use kopia_operator.Prelude.Int.{ℤ, pos, is_pos}
use kopia_operator.Kube.Meta.{new_meta}
use kopia_operator.Kube.Pods.{
  SecretKeySelector, EnvVar, secret_key_ref, VolumeMount, Volume, empty_dir, secret, nfs, host_path,
}
use kopia_operator.Kube.Deployments.{Deployment, ServerContainer, Probe}
use kopia_operator.Api.Repository.{
  Repository, ResourceRequirements, storage_type_filesystem, storage_type_sftp,
}
use kopia_operator.Naming.{server_labels, tls_secret_name}
use kopia_operator.Builder.Modes.{env, mount}
use kopia_operator.Server.Command.{construct_server_command}

abbrev pub default_server_port : ℤ
default_server_port = pos 51515

unfoldable pub get_tls_secret_name : Repository → String
get_tls_secret_name repo =
    if repo.spec.server.tls.secret_name == ""
    then tls_secret_name repo.metadata.name
    else repo.spec.server.tls.secret_name

unfoldable pub get_repository_password_secret_key_ref : Repository → SecretKeySelector
get_repository_password_secret_key_ref repo = record {
  name = repo.spec.password_secret_name;
  key = "KOPIA_PASSWORD";
  optional = false;
}

unfoldable pub get_server_admin_password_secret_key_ref : Repository → SecretKeySelector
unfolding get_repository_password_secret_key_ref
get_server_admin_password_secret_key_ref repo =
    if repo.spec.server.admin_password_secret_name == ""
    then get_repository_password_secret_key_ref repo
    else record {
      name = repo.spec.server.admin_password_secret_name;
      key = "password";
      optional = false;
    }

unfoldable pub construct_storage_volume : Repository → Volume
construct_storage_volume repo =
    let options = repo.spec.file_system_options in
    record {
      name = "repository";
      source =
          if options.nfs_server == ""
          then host_path options.path "DirectoryOrCreate"
          else nfs options.nfs_server options.nfs_path;
    }

abbrev from_secret : String → SecretKeySelector → EnvVar
from_secret name ref = record { name = name; source = secret_key_ref ref }

unfoldable pub server_env : Repository → List EnvVar
unfolding get_repository_password_secret_key_ref get_server_admin_password_secret_key_ref
    get_tls_secret_name
server_env repo =
    from_secret "KOPIA_PASSWORD" (get_repository_password_secret_key_ref repo)
    ∷ env "KOPIA_SERVER_USERNAME" (repo.spec.username <> ("@" <> repo.spec.hostname))
    ∷ from_secret "KOPIA_SERVER_PASSWORD" (get_server_admin_password_secret_key_ref repo)
    ∷ from_secret "KOPIA_TLS_FINGERPRINT"
        (record { name = get_tls_secret_name repo; key = "fingerprint"; optional = true })
    ∷ []

abbrev read_only_mount : String → String → VolumeMount
read_only_mount name path = record {
  name = name;
  mount_path = path;
  sub_path = "";
  read_only = true;
}

abbrev empty_volume : String → Volume
empty_volume name = record { name = name; source = empty_dir none }

unfoldable pub server_volume_mounts : Repository → List VolumeMount
server_volume_mounts repo =
    (mount "cache" "/cache"
      ∷ mount "config" "/config"
      ∷ mount "tmp" "/tmp"
      ∷ read_only_mount "tls" "/tls"
      ∷ [])
    ++ (if repo.spec.storage_type == storage_type_filesystem
        then mount "repository" "/repository" ∷ []
        else if repo.spec.storage_type == storage_type_sftp
        then read_only_mount "sftp-credentials" "/sftp-creds" ∷ []
        else [])

-- 0400 is 256, and 0600 is 384.
unfoldable pub server_volumes : Repository → List Volume
unfolding get_tls_secret_name construct_storage_volume
server_volumes repo =
    (empty_volume "cache"
      ∷ empty_volume "config"
      ∷ empty_volume "tmp"
      ∷ record { name = "tls"; source = secret (get_tls_secret_name repo) (pos 256) }
      ∷ [])
    ++ (if repo.spec.storage_type == storage_type_filesystem
        then construct_storage_volume repo ∷ []
        else if repo.spec.storage_type == storage_type_sftp
        then record {
          name = "sftp-credentials";
          source = secret repo.spec.sftp_options.credentials_secret (pos 384);
        }
          ∷ []
        else [])

abbrev or_resources : Option (Dict String) → Dict String → Option (Dict String)
or_resources none d = some d
or_resources (some r) d = some r

abbrev server_resources : ResourceRequirements → ResourceRequirements
server_resources r = record {
  requests = or_resources r.requests (("memory", "256Mi") ∷ ("cpu", "100m") ∷ []);
  limits = or_resources r.limits (("memory", "1Gi") ∷ ("cpu", "1000m") ∷ []);
}

abbrev probe_after : ℤ → Probe
probe_after delay = record {
  port = default_server_port;
  initial_delay_seconds = delay;
  period_seconds = pos 10;
  timeout_seconds = pos 5;
  failure_threshold = pos 3;
}

unfoldable pub server_container : Repository → ServerContainer
unfolding construct_server_command server_env server_volume_mounts
server_container repo = record {
  container = record {
    name = "kopia-server";
    image =
        if repo.spec.server.image == ""
        then "ghcr.io/fastlorenzo/kopia:latest"
        else repo.spec.server.image;
    command = "/bin/sh" ∷ "-c" ∷ [];
    args = construct_server_command repo ∷ [];
    env = server_env repo;
    env_from = [];
    volume_mounts = server_volume_mounts repo;
    security_context = record {
      allow_privilege_escalation = false;
      read_only_root_filesystem = true;
      drop = "ALL" ∷ [];
      add = [];
    };
  };
  image_pull_policy = "Always";
  ports = record { name = "api"; container_port = default_server_port; protocol = "TCP" } ∷ [];
  resources = server_resources repo.spec.server.resources;
  liveness_probe = probe_after (pos 30);
  readiness_probe = probe_after (pos 10);
}

unfoldable pub construct_server_deployment : Repository → String → Deployment
unfolding server_container server_volumes server_labels
construct_server_deployment repo deployment_name = record {
  metadata = new_meta deployment_name repo.metadata.namespace (server_labels repo.metadata.name);
  spec = record {
    replicas = if is_pos repo.spec.server.replicas then repo.spec.server.replicas else pos 1;
    selector = server_labels repo.metadata.name;
    template_labels = server_labels repo.metadata.name;
    seccomp_profile = "RuntimeDefault";
    containers = server_container repo ∷ [];
    volumes = server_volumes repo;
    rest = [];
  };
  ready_replicas = pos 0;
  status_replicas = pos 0;
}
