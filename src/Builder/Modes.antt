-- ===== src/Builder/Modes.antt =====
-- buildServerModeConfig and buildDirectModeConfig: what the backup container gets in each mode.
use kopia_operator.Prelude.{
  String, true, false, none, some, List, [], ◌∷◌, ◌++◌, ◌==◌, if◌then◌else◌,
}
use kopia_operator.Prelude.Int.{ℤ, pos}
use kopia_operator.Kube.Pods.{
  EnvVar, value, secret_key_ref, EnvFromSource, VolumeMount, Volume, empty_dir, config_map, secret,
  nfs,
}
use kopia_operator.Api.Backup.{Backup}
use kopia_operator.Api.Repository.{Repository, storage_type_filesystem, storage_type_sftp}
use kopia_operator.Naming.{user_secret_name, config_map_name}

-- The four lists that the two functions extend.
pub record Config : Type 0 where
  pub env_vars : List EnvVar
  pub env_from : List EnvFromSource
  pub volume_mounts : List VolumeMount
  pub volumes : List Volume

abbrev pub env : String → String → EnvVar
env name text = record { name = name; source = value text }

abbrev pub mount : String → String → VolumeMount
mount name path = record { name = name; mount_path = path; sub_path = ""; read_only = false }

-- 3<<30
abbrev pub cache_size : ℤ
cache_size = pos 3221225472

unfoldable pub fingerprint_env : Repository → List EnvVar
fingerprint_env repo =
    if repo.status.tls_cert_fingerprint == ""
    then []
    else env "KOPIA_TLS_FINGERPRINT" repo.status.tls_cert_fingerprint ∷ []

unfoldable pub build_server_mode_config : Backup → Repository → Config → Config
unfolding fingerprint_env user_secret_name
build_server_mode_config backup repo c =
    let secret_name = user_secret_name backup.metadata.namespace backup.spec.pvc_name in
    record {
      env_vars =
          c.env_vars
          ++ ((record {
            name = "KOPIA_PASSWORD";
            source =
                secret_key_ref
                  (record { name = secret_name; key = "KOPIA_SERVER_PASSWORD"; optional = false });
          }
                ∷ [])
              ++ (fingerprint_env repo
                  ++ (env "KOPIA_CACHE_DIRECTORY" "/cache/kopia"
                      ∷ env "KOPIA_CONFIG_PATH" "/cache/kopia/repository.config"
                      ∷ env "KOPIA_LOG_DIR" "/cache/kopia/logs"
                      ∷ [])));
      env_from = c.env_from ++ (record { secret_ref = secret_name } ∷ []);
      volume_mounts = c.volume_mounts ++ (mount "kopia-cache" "/cache" ∷ []);
      volumes =
          c.volumes ++ (record { name = "kopia-cache"; source = empty_dir (some cache_size) } ∷ []);
    }

-- The volumes of the switch on the storage type; 0600 is 384.
unfoldable pub storage_volumes : Repository → List Volume
unfolding config_map_name
storage_volumes repo =
    if repo.spec.storage_type == storage_type_filesystem
    then record { name = "config"; source = config_map (config_map_name repo.metadata.name) }
      ∷ record {
        name = "repo";
        source =
            nfs repo.spec.file_system_options.nfs_server repo.spec.file_system_options.nfs_path;
      }
      ∷ []
    else if repo.spec.storage_type == storage_type_sftp
    then record {
      name = "sftp-credentials";
      source = secret repo.spec.sftp_options.credentials_secret (pos 384);
    }
      ∷ record { name = "config"; source = empty_dir none }
      ∷ record { name = "kopia-cache"; source = empty_dir (some cache_size) }
      ∷ []
    else []

unfoldable pub storage_mounts : Repository → String → List VolumeMount
storage_mounts repo cache_directory =
    if repo.spec.storage_type == storage_type_filesystem
    then mount "repo" repo.spec.file_system_options.path ∷ []
    else if repo.spec.storage_type == storage_type_sftp
    then record {
      name = "sftp-credentials";
      mount_path = "/sftp-creds";
      sub_path = "";
      read_only = true;
    }
      ∷ mount "kopia-cache" cache_directory
      ∷ []
    else []

unfoldable pub build_direct_mode_config : Repository → String → Config → Config
unfolding storage_volumes storage_mounts
build_direct_mode_config repo cache_directory c = record {
  env_vars = c.env_vars ++ (env "KOPIA_CACHE_DIRECTORY" cache_directory ∷ []);
  env_from = c.env_from ++ (record { secret_ref = repo.spec.password_secret_name } ∷ []);
  volume_mounts =
      c.volume_mounts
      ++ ((record {
        name = "config";
        mount_path = "/config/repository.config";
        sub_path = "repository.config";
        read_only = false;
      }
            ∷ [])
          ++ storage_mounts repo cache_directory);
  volumes = c.volumes ++ storage_volumes repo;
}
