-- ===== src/Examples/Serving.antt =====
-- The theorems on the server and the user manager, at concrete objects.
use kopia_operator.Prelude.{map, String, ◌≡◌, refl, ap, true, none, some, List, [], ◌∷◌, arith}
use kopia_operator.Prelude.Lists.{lookup, length}
use kopia_operator.Error.{Error, api, not_found, server_not_ready, wrap, is_not_found}
use kopia_operator.Exec.{ok, err}
use kopia_operator.Kube.Meta.{ObjectMeta, OwnerReference, new_meta}
use kopia_operator.Kube.Deployments.{Deployment}
use kopia_operator.Kube.Objects.{Secret, Service}
use kopia_operator.Platform.Memory.{Cluster, nothing, memory, memory-IsSemanticEqual}
use kopia_operator.World.{
  World, emit, api_write, create, update, delete, core_secret, core_service, apps_deployment,
}
use kopia_operator.Naming.{
  server_deployment_name, user_secret_name, username, server_labels, server_service_name,
  tls_secret_name,
}
use kopia_operator.Users.Password.{generate_secure_password, password_of}
use kopia_operator.Users.Server.{is_serving, get_server_pod_name, choose_pod, create_user_on_server}
use kopia_operator.Users.Manager.{
  credentials_fingerprint, server_error, new_secret, ensure_user, user_manager,
}
use kopia_operator.Users.SecretName.{ensure_user-container_config}
use kopia_operator.Kube.Pods.{EnvFromSource}
use kopia_operator.Builder.Job.{container_config}
use kopia_operator.Users.Sync.{ensure_user-rolls_back}
use kopia_operator.BackupController.Credentials.{stop, requeue_delay, server_credentials}
use kopia_operator.BackupController.Waiting.{server_credentials-waits}
use kopia_operator.Server.Deployment.{construct_server_deployment, get_tls_secret_name}
use kopia_operator.Server.Service.{construct_server_service}
use kopia_operator.Server.Manager.{
  ensure_server_deployment, ensure_tls_secret, ensure_server_service,
}
use kopia_operator.Server.Secrets.{ensure_tls_secret-provided, ensure_tls_secret-kept}
use kopia_operator.Server.Overwritten.{ensure_server_deployment-always_updates}
use kopia_operator.Server.Drift.{ensure_server_service-always_updates}
use kopia_operator.Examples.Data.{
  repository, with_server, backup, credentials, pending_pod, world, host, crypto, servers,
}

abbrev owned_by : String → String → List OwnerReference
owned_by kind name = record { kind = kind; name = name; uid = ""; controller = some "true" } ∷ []

abbrev synced : Secret
synced = credentials (("backup.cloudinfra.be/user-synced", "abcd") ∷ [])

abbrev with_secret : Secret → World Cluster
with_secret secret = world (record nothing { secrets = secret ∷ []; pods = pending_pod ∷ [] })

abbrev unsynced : Secret
unsynced = credentials []

server_credentials-waits_example :
    server_credentials memory servers
      (some (user_manager memory host))
      backup
      with_server
      (with_secret unsynced)
    ≡ (
      stop (record { result = requeue_delay; error = none; object = backup }),
      with_secret unsynced,
    )
unfolding user_secret_name lookup credentials_fingerprint is_serving server_labels
server_credentials-waits_example =
    server_credentials-waits memory host servers backup with_server (with_secret unsynced) unsynced
      "web-data@cluster" "secret" (pending_pod ∷ []) (with_secret unsynced).api
      (with_secret unsynced).api refl refl refl refl refl refl

-- The password from zeros.
abbrev password : String
password = "AAAAAAAAAAAAAAAAAAAAAAAAAAAAAAAA"

-- A cluster with the server's pod and no secret.
abbrev without_secret : World Cluster
without_secret = world (record nothing { pods = pending_pod ∷ [] })

abbrev user_secret_meta : ObjectMeta
user_secret_meta =
    record (new_secret memory host backup "kopia-backup-user-web-data" "web-data@cluster"
      password).metadata { owner_references = owned_by "KopiaBackup" "data" }

abbrev user_secret : Secret
user_secret =
    record (new_secret memory host backup "kopia-backup-user-web-data" "web-data@cluster"
      password) { metadata = user_secret_meta }

abbrev not_ready : Error
not_ready =
    wrap "failed to find server pod" (
      server_not_ready
        "kopia-server container not ready yet for repository nas in namespace backup")

abbrev created_secret : World Cluster
created_secret = record {
  api = record nothing { pods = pending_pod ∷ []; secrets = user_secret ∷ [] };
  trace = api_write create core_secret "kopia-backup-user-web-data" "web" ∷ [];
}

ensure_user-rolls_back_example :
    let (answer, w) = ensure_user memory host backup with_server without_secret in
    (answer ≡ err (server_error memory host "failed to create user on Kopia server" not_ready))
    × (w.trace
        ≡ (emit
            (api_write delete core_secret "kopia-backup-user-web-data" "web")
            created_secret).trace)
    × (w.api ≡ without_secret.api)
unfolding user_secret_name username is_not_found generate_secure_password password_of new_secret
    create_user_on_server get_server_pod_name choose_pod server_labels lookup is_serving
ensure_user-rolls_back_example =
    ensure_user-rolls_back memory host backup with_server without_secret without_secret
      created_secret (api not_found "kopia-backup-user-web-data not found") not_ready password
      user_secret_meta user_secret without_secret.api created_secret.api refl refl refl
      (refl, (refl, refl))

abbrev named : World Cluster
named = world nothing

ensure_tls_secret-provided_example :
    (ensure_tls_secret memory crypto (repository true "mine") named).1 ≡ named
ensure_tls_secret-provided_example =
    ensure_tls_secret-provided memory crypto (repository true "mine") named refl

abbrev certificate_secret : Secret
certificate_secret = record {
  metadata = new_meta "kopia-server-tls-nas" "backup" [];
  type = "kubernetes.io/tls";
  contents = ("tls.crt", "PEM") ∷ ("fingerprint", "ABCD") ∷ [];
  string_data = [];
}

ensure_tls_secret-kept_example :
    ensure_tls_secret memory crypto with_server (with_secret certificate_secret)
    ≡ (ok "ABCD", with_secret certificate_secret)
unfolding get_tls_secret_name tls_secret_name lookup
ensure_tls_secret-kept_example =
    ensure_tls_secret-kept memory crypto with_server (with_secret certificate_secret)
      certificate_secret "PEM" "ABCD" (1 ∷ [])
      (record { raw = 1 ∷ []; not_after = 3456000000000000 }) 3456000000000000
      (with_secret certificate_secret).api (with_secret certificate_secret) refl refl refl refl refl
      refl refl (omega arith)

-- A Service of the wanted name, with other ports.
abbrev drifted : Service
drifted = record {
  metadata = new_meta "kopia-server-nas" "backup" [];
  spec = record { type = "NodePort"; selector = []; ports = []; rest = [] };
}

abbrev settled : Service
settled = record drifted { spec = record drifted.spec { rest = ("clusterIP", "10.0.0.1") ∷ [] } }

abbrev owned_service : ObjectMeta
owned_service = record (new_meta "kopia-server-nas" "backup" (server_labels "nas")) {
  owner_references = owned_by "KopiaRepository" "nas";
}

abbrev with_service : Service → World Cluster
with_service service = world (record nothing { services = service ∷ [] })

ensure_server_service-always_updates_example :
    (ensure_server_service memory crypto with_server (with_service settled)).1.trace
    ≡ (emit
        (api_write update core_service "kopia-server-nas" "backup")
        (with_service settled)).trace
unfolding server_service_name construct_server_service
ensure_server_service-always_updates_example =
    ensure_server_service-always_updates memory crypto memory-IsSemanticEqual with_server
      (with_service settled) settled owned_service (with_service settled).api refl refl
      (λ e. omega (arith, ap length e))

abbrev deployment_meta : ObjectMeta
deployment_meta = record (new_meta "kopia-server-nas" "backup" (server_labels "nas")) {
  owner_references = owned_by "KopiaRepository" "nas";
}

abbrev wanted_deployment : Deployment
wanted_deployment = construct_server_deployment with_server "kopia-server-nas"

-- The Deployment as the API server keeps it, with a field filled in.
abbrev filled_in : Deployment
filled_in = record wanted_deployment {
  spec = record wanted_deployment.spec { rest = ("dnsPolicy", "ClusterFirst") ∷ [] };
}

abbrev with_deployment : World Cluster
with_deployment = world (record nothing { deployments = filled_in ∷ [] })

ensure_server_deployment-always_updates_example :
    (ensure_server_deployment memory crypto with_server with_deployment).1
    ≡ record (emit (api_write update apps_deployment "kopia-server-nas" "backup") with_deployment) {
      api =
          (memory.deployments.update
            (record filled_in { spec = wanted_deployment.spec })
            with_deployment.api).1;
    }
unfolding server_deployment_name construct_server_deployment
ensure_server_deployment-always_updates_example =
    ensure_server_deployment-always_updates memory crypto memory-IsSemanticEqual with_server
      with_deployment filled_in deployment_meta with_deployment.api refl refl (λ e. cc)

ensure_user-container_config_example :
    map (λ (s : EnvFromSource). s.secret_ref) (container_config backup with_server "/data").env_from
    ≡ user_secret_name "web" "data" ∷ []
unfolding user_secret_name lookup credentials_fingerprint ensure_user
ensure_user-container_config_example =
    ensure_user-container_config memory host backup with_server "/data"
      (user_secret_name "web" "data") (with_secret synced) (with_secret synced) refl refl
