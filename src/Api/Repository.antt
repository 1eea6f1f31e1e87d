-- ===== src/Api/Repository.antt =====
-- api/backup/v1alpha1/kopiarepository_types.go. A storage type is a text, as in the source: the API
-- server's check of the two known ones is not the operator's.
use kopia_operator.Prelude.{ℕ, String, Bool, Option, List}
use kopia_operator.Prelude.Lists.{Dict}
use kopia_operator.Prelude.Int.{ℤ}
use kopia_operator.Kube.Meta.{ObjectMeta, Condition}

abbrev pub storage_type_filesystem : String
storage_type_filesystem = "filesystem"

abbrev pub storage_type_sftp : String
storage_type_sftp = "sftp"

abbrev pub condition_type_repository_ready : String
condition_type_repository_ready = "Ready"

abbrev pub condition_type_server_ready : String
condition_type_server_ready = "ServerReady"

abbrev pub reason_config_valid : String
reason_config_valid = "ConfigValid"

abbrev pub reason_missing_password : String
reason_missing_password = "MissingPassword"

abbrev pub reason_server_deployed : String
reason_server_deployed = "ServerDeployed"

abbrev pub reason_server_failed : String
reason_server_failed = "ServerFailed"

pub record ServerTlsSpec : Type 0 where
  pub secret_name : String
  pub certificate_common_name : String
  pub certificate_dns_names : List String

pub record ServerExposureSpec : Type 0 where
  pub type : String
  pub service_type : String
  pub service_port : ℤ

-- `none` is a nil map. A quantity is its text.
pub record ResourceRequirements : Type 0 where
  pub requests : Option (Dict String)
  pub limits : Option (Dict String)

pub record ServerSpec : Type 0 where
  pub enabled : Bool
  pub image : String
  pub replicas : ℤ
  pub resources : ResourceRequirements
  pub tls : ServerTlsSpec
  pub exposure : ServerExposureSpec
  pub admin_password_secret_name : String
  pub persistent_volume_claim : String
  pub extra_args : List String

pub record FileSystemSpec : Type 0 where
  pub path : String
  pub file_mode : ℕ
  pub directory_mode : ℕ
  pub file_uid : ℤ
  pub file_gid : ℤ
  pub nfs_path : String
  pub nfs_server : String

pub record SftpSpec : Type 0 where
  pub path : String
  pub host : String
  pub port : ℤ
  pub known_hosts_data : String
  pub external_ssh : Bool
  pub ssh_command : String
  pub dir_shards : List ℤ
  pub credentials_secret : String

pub record CachingSpec : Type 0 where
  pub cache_directory : String
  pub content_cache_size : ℤ
  pub content_cache_size_limit : ℤ
  pub metadata_cache_size : ℤ
  pub metadata_cache_size_limit : ℤ
  pub max_list_cache_duration : ℤ
  pub min_metadata_sweep_age : ℤ
  pub min_content_sweep_age : ℤ
  pub min_index_sweep_age : ℤ

pub record RepositorySpec : Type 0 where
  pub hostname : String
  pub username : String
  pub storage_type : String
  pub read_only : Bool
  pub permissive_cache_loading : Bool
  pub description : String
  pub enable_actions : Bool
  pub default_schedule : String
  pub password_secret_name : String
  pub format_blob_cache_duration_seconds : ℤ
  pub caching : CachingSpec
  pub file_system_options : FileSystemSpec
  pub sftp_options : SftpSpec
  pub server : ServerSpec

pub record RepositoryStatus : Type 0 where
  pub conditions : List Condition
  pub server_ready : Bool
  pub server_url : String
  pub server_deployment : String
  pub server_service : String
  pub tls_cert_fingerprint : String

pub record Repository : Type 0 where
  pub metadata : ObjectMeta
  pub spec : RepositorySpec
  pub status : RepositoryStatus
