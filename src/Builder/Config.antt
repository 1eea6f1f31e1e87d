-- ===== src/Builder/Config.antt =====
-- buildConfigMap: the repository.config of the direct mode. `marshal` is json.MarshalIndent on the
-- structure below, a parameter.
use kopia_operator.Prelude.{String, ◌<>◌, Bool, List, [], ◌∷◌, ◌==◌, if◌then◌else◌}
use kopia_operator.Prelude.Int.{ℤ, mul64}
use kopia_operator.Error.{plain, wrap}
use kopia_operator.Exec.{Result, ok, err}
use kopia_operator.Kube.Meta.{new_meta}
use kopia_operator.Kube.Objects.{ConfigMap}
use kopia_operator.Api.Backup.{Backup}
use kopia_operator.Api.Repository.{Repository, storage_type_filesystem, storage_type_sftp}
use kopia_operator.Naming.{config_map_name}

pub data StorageConfig : Type 0 where
  -- path; the directory shards are never set
  filesystem_storage : String → StorageConfig
  -- path, host, port, known hosts, external ssh, ssh command, directory shards
  sftp_storage : String → String → ℤ → String → Bool → String → List ℤ → StorageConfig

pub record CachingConfig : Type 0 where
  pub cache_directory : String
  pub max_cache_size : ℤ
  pub max_metadata_cache_size : ℤ
  pub max_list_cache_duration : ℤ

pub record KopiaConfigData : Type 0 where
  pub storage_type : String
  pub storage_config : StorageConfig
  pub caching : CachingConfig
  pub hostname : String
  pub username : String
  pub description : String
  pub enable_actions : Bool
  pub format_blob_cache_duration : ℤ

-- The storage configuration of the switch on the storage type.
unfoldable pub storage_config : Repository → Result StorageConfig
storage_config repo =
    let sftp = repo.spec.sftp_options in
    if repo.spec.storage_type == storage_type_filesystem
    then ok (filesystem_storage repo.spec.file_system_options.path)
    else if repo.spec.storage_type == storage_type_sftp
    then ok (
        sftp_storage sftp.path sftp.host sftp.port sftp.known_hosts_data sftp.external_ssh
          sftp.ssh_command sftp.dir_shards)
    else err (plain ("unsupported storage type: " <> repo.spec.storage_type))

unfoldable pub config_data : Repository → StorageConfig → KopiaConfigData
config_data repo storage = record {
  storage_type = repo.spec.storage_type;
  storage_config = storage;
  caching = record {
    cache_directory = repo.spec.caching.cache_directory;
    max_cache_size = repo.spec.caching.content_cache_size;
    max_metadata_cache_size = repo.spec.caching.metadata_cache_size;
    max_list_cache_duration = repo.spec.caching.max_list_cache_duration;
  };
  hostname = repo.spec.hostname;
  username = repo.spec.username;
  description = repo.spec.description;
  enable_actions = repo.spec.enable_actions;
  format_blob_cache_duration = mul64 repo.spec.format_blob_cache_duration_seconds 1000000000;
}

unfoldable pub with_text : Backup → Repository → Result String → Result ConfigMap
with_text backup repo (err e) = err (wrap "failed to marshal repository config" e)
with_text backup repo (ok text) = ok (record {
  metadata =
      new_meta (config_map_name repo.metadata.name) backup.metadata.namespace
        (("backup.cloudinfra.be/pvc-name", backup.spec.pvc_name) ∷ []);
  contents = ("repository.config", text) ∷ [];
})

unfoldable pub with_storage :
    (KopiaConfigData → Result String)
    → Backup
    → Repository
    → Result StorageConfig
    → Result ConfigMap
unfolding with_text config_data
with_storage marshal backup repo (err e) = err e
with_storage marshal backup repo (ok storage) =
    with_text backup repo (marshal (config_data repo storage))

unfoldable pub build_config_map :
    (KopiaConfigData → Result String) → Backup → Repository → Result ConfigMap
unfolding with_storage storage_config
build_config_map marshal backup repo = with_storage marshal backup repo (storage_config repo)
