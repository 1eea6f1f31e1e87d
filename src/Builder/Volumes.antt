-- ===== src/Builder/Volumes.antt =====
-- The mounts of the backup container and the volumes of its pod, which builder.go lists apart.
use kopia_operator.Prelude.{String, ◌≡◌, Bool, ◌||◌, arith, ◌==◌}
use kopia_operator.Prelude.Lists.{any, all}
use kopia_operator.Kube.Pods.{VolumeMount, Volume}
use kopia_operator.Api.Backup.{Backup}
use kopia_operator.Api.Repository.{Repository, storage_type_filesystem, storage_type_sftp}
use kopia_operator.Builder.Modes.{Config}
use kopia_operator.Builder.Job.{container_config, base_config}

-- Every mount names one of the volumes.
abbrev pub is_mountable : Config → Bool
is_mountable c =
    all (λ (m : VolumeMount). any (λ (v : Volume). v.name == m.name) c.volumes) c.volume_mounts

-- The storage types of the direct mode.
abbrev pub is_known_storage : Repository → Bool
is_known_storage repo =
    repo.spec.storage_type == storage_type_filesystem || repo.spec.storage_type == storage_type_sftp

-- The mounts of the backup container all name a volume of its pod exactly when the repository is in
-- server mode or its storage type is filesystem or sftp.
pub container_config-is_mountable :
    (backup : Backup) (repo : Repository) (path : String)
    → is_mountable (container_config backup repo path)
      ≡ (repo.spec.server.enabled || is_known_storage repo)
unfolding container_config base_config
container_config-is_mountable backup repo path = ground arith
