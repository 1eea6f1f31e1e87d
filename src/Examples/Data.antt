-- ===== src/Examples/Data.antt =====
-- The objects of the tests.
use kopia_operator.Prelude.{ℕ, String, Bool, true, false, none, some, List, [], ◌∷◌}
use kopia_operator.Prelude.Int.{pos}
use kopia_operator.Prelude.Lists.{Dict}
use kopia_operator.Error.{plain}
use kopia_operator.Exec.{ok, err}
use kopia_operator.Kube.Meta.{new_meta}
use kopia_operator.Kube.Pods.{Pod}
use kopia_operator.Kube.Objects.{Pvc, Secret}
use kopia_operator.Api.Backup.{Backup}
use kopia_operator.Api.Repository.{Repository}
use kopia_operator.Platform.Memory.{Cluster, memory}
use kopia_operator.World.{World}
use kopia_operator.PvcWatcher.{new_spec, new_status}
use kopia_operator.Interfaces.{ServerManager, UserManager}
use kopia_operator.Users.Server.{Host}
use kopia_operator.Server.Tls.{Crypto}
use kopia_operator.BackupController.Setup.{Reconciler}

-- A repository on NFS, with a server if asked.
abbrev pub repository : Bool → String → Repository
repository enabled tls_secret = record {
  metadata = new_meta "nas" "backup" [];
  spec = record {
    hostname = "cluster";
    username = "kopia";
    storage_type = "filesystem";
    read_only = false;
    permissive_cache_loading = false;
    description = "";
    enable_actions = false;
    default_schedule = "0 3 * * *";
    password_secret_name = "nas-password";
    format_blob_cache_duration_seconds = pos 900;
    caching = record {
      cache_directory = "/cache";
      content_cache_size = pos 0;
      content_cache_size_limit = pos 0;
      metadata_cache_size = pos 0;
      metadata_cache_size_limit = pos 0;
      max_list_cache_duration = pos 0;
      min_metadata_sweep_age = pos 0;
      min_content_sweep_age = pos 0;
      min_index_sweep_age = pos 0;
    };
    file_system_options = record {
      path = "/repo";
      file_mode = 0;
      directory_mode = 0;
      file_uid = pos 0;
      file_gid = pos 0;
      nfs_path = "/export";
      nfs_server = "nas.local";
    };
    sftp_options = record {
      path = "";
      host = "";
      port = pos 0;
      known_hosts_data = "";
      external_ssh = false;
      ssh_command = "";
      dir_shards = [];
      credentials_secret = "";
    };
    server = record {
      enabled = enabled;
      image = "";
      replicas = pos 0;
      resources = record { requests = none; limits = none };
      tls = record {
        secret_name = tls_secret;
        certificate_common_name = "";
        certificate_dns_names = [];
      };
      exposure = record { type = ""; service_type = ""; service_port = pos 0 };
      admin_password_secret_name = "";
      persistent_volume_claim = "";
      extra_args = [];
    };
  };
  status = record {
    conditions = [];
    server_ready = false;
    server_url = "";
    server_deployment = "";
    server_service = "";
    tls_cert_fingerprint = "";
  };
}

abbrev pub with_server : Repository
with_server = repository true ""

abbrev pub backup : Backup
backup = record {
  metadata = new_meta "data" "web" [];
  spec = new_spec "data" "nas" "0 3 * * *";
  status = new_status;
}

-- A backup that is being deleted and has a user.
abbrev pub deleted_backup : Backup
deleted_backup = record backup {
  metadata = record backup.metadata {
    finalizers = "backup.cloudinfra.be/finalizer" ∷ [];
    deletion_timestamp = some 7;
  };
  spec = record backup.spec { user_credentials_secret = "kopia-backup-user-web-data" };
}

abbrev pub pvc : Pvc
pvc = record {
  metadata = record (new_meta "data" "web" (("backup.cloudinfra.be/repository", "nas") ∷ [])) {
    uid = "pvc-1";
  };
}

abbrev pub credentials : Dict String → Secret
credentials annotations = record {
  metadata = record (new_meta "kopia-backup-user-web-data" "web" []) { annotations = annotations };
  type = "";
  contents =
      ("KOPIA_SERVER_USERNAME", "web-data@cluster") ∷ ("KOPIA_SERVER_PASSWORD", "secret") ∷ [];
  string_data = [];
}

-- A pod of the server that does not run yet.
abbrev pub pending_pod : Pod
pending_pod = record {
  metadata = new_meta "kopia-server-nas-0" "backup" (
      ("app", "kopia-server")
      ∷ ("kopia-repository", "nas")
      ∷ ("app.kubernetes.io/name", "kopia-server")
      ∷ ("app.kubernetes.io/instance", "nas")
      ∷ ("app.kubernetes.io/managed-by", "kopia-operator")
      ∷ []);
  phase = "Pending";
  node_name = "node-1";
  volumes = [];
  tolerations = [];
  container_statuses = [];
}

abbrev pub world : Cluster → World Cluster
world s = record { api = s; trace = [] }

abbrev zero_bytes : List ℕ
zero_bytes =
    0 ∷ 0 ∷ 0 ∷ 0 ∷ 0 ∷ 0 ∷ 0 ∷ 0 ∷ 0 ∷ 0 ∷ 0 ∷ 0 ∷ 0 ∷ 0 ∷ 0 ∷ 0 ∷ 0 ∷ 0 ∷ 0 ∷ 0 ∷ 0 ∷ 0 ∷ 0 ∷ 0
    ∷ []

-- An exec that fails, a random source of zeros, and a hash of two bytes.
abbrev pub host : Host memory
host = record {
  pod_executor = λ namespace pod container command w. (err (plain "no such pod"), w);
  rand = λ n w. (ok zero_bytes, w);
  sha256 = λ text. 171 ∷ 205 ∷ [];
}

-- A clock that stands, and certificates that end 40 days later.
abbrev pub crypto : Crypto memory
crypto = record {
  PrivateKey = String;
  generate_key = λ bits w. (ok "key", w);
  random_int = λ max w. (ok 1, w);
  create_certificate = λ template key w. (ok (1 ∷ []), w);
  parse_certificate = λ der. ok (record { raw = der; not_after = 3456000000000000 });
  marshal_private_key = λ key. 2 ∷ [];
  decode_pem = λ pem. some (1 ∷ []);
  encode_pem = λ type bytes. type;
  sha256 = λ bytes. 171 ∷ 205 ∷ [];
  now = λ w. (0, w);
  until = λ t w. (pos t, w);
}

-- A server that is deployed and ready.
abbrev pub servers : ServerManager (World Cluster)
servers = record {
  ensure_server_deployment = λ repo w. (ok tt, w);
  ensure_server_service = λ repo w. (ok tt, w);
  ensure_tls_secret = λ repo w. (ok "ABCD", w);
  is_server_ready = λ repo w. (ok true, w);
  get_server_url = λ repo. "https://kopia-server-nas";
}

-- A user manager that fails to delete.
abbrev pub failing_users : UserManager (World Cluster)
failing_users = record {
  ensure_user = λ b repo w. (err (plain "down"), w);
  delete_user = λ b repo w. (err (plain "down"), w);
}

abbrev pub reconciler : Reconciler memory
reconciler = record {
  image = "";
  server_manager = servers;
  user_manager = some failing_users;
  marshal = λ config. ok "{}";
}
